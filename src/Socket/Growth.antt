-- ===== src/Socket/Growth.antt =====
-- Why code over a socket aborts, and what calls of recv in RecvAll of src/socket/socket.h do to a
-- buffer.
use rpc_bench.Common.{
  none, check, ℕ, ◌-◌, ◌≤◌, ◌≡◌, refl, sym, ap, ◌∙◌, ℤ, false, List, [], ◌++◌, append_assoc,
  append-nil, length, subst, length-append, Outcome, done, Cause, pcheck, ◌>>=◌, Post, Post-mono,
  arith, inl, inr, ◌⊎◌,
}
use rpc_bench.Kernel.{Kernel, got, error}
use rpc_bench.Kernel.Laws.{would_block, bytes_of, Stream, InterestList, Reply-cases}
use rpc_bench.Socket.{get_sock_error}

-- SO_ERROR cannot be read.
pub data Unread (K : Kernel) : Cause → Type 0 where
  no_sock_error :
      (w : Kernel.World K) (fd : ℤ) (errno : ℕ)
      → (Kernel.getsockopt K w fd 4).0 ≡ error errno
      → Unread K (pcheck errno)

-- There is no memory.
pub data Unallocated (K : Kernel) : Cause → Type 0 where
  no_memory : (w : Kernel.World K) (n : ℕ) → Kernel.memalign K w n ≡ none → Unallocated K check

-- Why an endpoint may abort: no memory, a recv or a send that fails for more than a wait, or SO_ERROR
-- that cannot be read.
pub data Aborts (K : Kernel) : Cause → Type 0 where
  unallocated : (cause : Cause) → Unallocated K cause → Aborts K cause
  unread : (cause : Cause) → Unread K cause → Aborts K cause
  recv_failed :
      (w : Kernel.World K) (fd : ℤ) (n errno : ℕ)
      → (Kernel.recv K w fd n).0 ≡ error errno
      → would_block errno ≡ false
      → Aborts K (pcheck errno)
  send_failed :
      (w : Kernel.World K) (fd : ℤ) (bytes : List ℕ) (errno : ℕ)
      → (Kernel.send K w fd bytes).0 ≡ error errno
      → would_block errno ≡ false
      → Aborts K (pcheck errno)

-- The last recv for the rest of `len` bytes came to the end of the stream, or failed for good; `w'`
-- is the world after it.
pub data NoMore (K : Kernel) (fd : ℤ) (len : ℕ) (buf : List ℕ) (w' : Kernel.World K) : Type 0 where
  at_end :
      (w : Kernel.World K)
      → Kernel.recv K w fd (len - length buf) ≡ (got [], w')
      → NoMore K fd len buf w'
  failed :
      (w w₁ : Kernel.World K) (e : ℕ)
      → Kernel.recv K w fd (len - length buf) ≡ (error e, w₁)
      → would_block e ≡ false
      → w' ≡ (Kernel.getsockopt K w₁ fd 4).1
      → NoMore K fd len buf w'

module _ (K : Kernel) (S : Stream K) (L : InterestList K) where
  open K use {World, recv, send, getsockopt}
  open S use {
    incoming, sent, patience, recv_bound, recv_incoming, recv_sent, recv_patience, recv_patience_le,
    send_bound, send_sent, send_incoming, send_progress, send_patience, send_patience_le,
    getsockopt_incoming, getsockopt_sent, getsockopt_patience_le,
  }
  open L use {registered, recv_registered, send_registered, getsockopt_registered}

  -- `cbuf` grew to `buf` by the next bytes of the stream, to `len` bytes at most.
  pub record Grown (w : World) (fd : ℤ) (len : ℕ) (cbuf buf : List ℕ) (w' : World) : Type 0 where
    pub stream : cbuf ++ incoming w fd ≡ buf ++ incoming w' fd
    pub room : length buf ≤ len
    pub grows : length cbuf ≤ length buf
    pub unsent : sent w' fd ≡ sent w fd
    pub known : (epfd s : ℤ) → registered w' epfd s ≡ registered w epfd s

  abbrev pub GrownTo : World → ℤ → ℕ → List ℕ → List ℕ × World → Type 0
  GrownTo w fd len cbuf (buf, w') =
      Grown w fd len cbuf buf w' × ((length buf ≡ len) ⊎ NoMore K fd len buf w')

  pub sock_error-Grown :
      (w w₁ w₂ : World) (fd : ℤ) (len : ℕ) (cbuf : List ℕ) (errno : ℕ)
      → Grown w fd len cbuf cbuf w₁
      → recv w₂ fd (len - length cbuf) ≡ (error errno, w₁)
      → would_block errno ≡ false
      → Post
          (Unread K)
          (GrownTo w fd len cbuf)
          (get_sock_error K w₁ fd >>= λ code. done (cbuf, code.1))
  unfolding get_sock_error
  sock_error-Grown w w₁ w₂ fd len cbuf errno g call hard =
      elim (Reply-cases (getsockopt w₁ fd 4).0) [
        | inl (code, e) ↦
            rw (e, get_sock_error)
              (
                record {
                  stream = g.stream ∙ ap (◌++◌ cbuf) (sym (getsockopt_incoming w₁ fd 4 fd));
                  room = g.room;
                  grows = g.grows;
                  unsent = getsockopt_sent w₁ fd 4 fd ∙ g.unsent;
                  known = λ epfd s. getsockopt_registered w₁ fd 4 epfd s ∙ g.known epfd s;
                },
                inr (failed w₂ w₁ errno call hard refl),
              )
        | inr (e', e) ↦ rw (e, get_sock_error) (no_sock_error _ fd e' e)
      ]

  pub Grown-trans :
      (w w₁ w₂ : World) (fd : ℤ) (len : ℕ) (a b c : List ℕ)
      → Grown w fd len a b w₁
      → Grown w₁ fd len b c w₂
      → Grown w fd len a c w₂
  Grown-trans w w₁ w₂ fd len a b c g h = record {
    stream = g.stream ∙ h.stream;
    room = h.room;
    grows = omega (arith, g.grows, h.grows);
    unsent = h.unsent ∙ g.unsent;
    known = λ epfd s. h.known epfd s ∙ g.known epfd s;
  }

  -- What a transfer does after some growth.
  pub Grown-Post :
      (w w₁ : World) (fd : ℤ) (len : ℕ) (a b : List ℕ) (m : Outcome (List ℕ × World))
      → Grown w fd len a b w₁
      → Post (Unread K) (GrownTo w₁ fd len b) m
      → Post (Unread K) (GrownTo w fd len a) m
  Grown-Post w w₁ fd len a b m g h =
      Post-mono (Unread K) (GrownTo w₁ fd len b) (GrownTo w fd len a) m h
        (λ r k. (Grown-trans w w₁ r.1 fd len a b r.0 g k.0, k.1))

  -- One call of recv.
  pub recv-Grown :
      (w : World) (fd : ℤ) (len : ℕ) (cbuf bytes : List ℕ)
      → length cbuf ≤ len
      → bytes_of (recv w fd (len - length cbuf)).0 ≡ bytes
      → Grown w fd len cbuf (cbuf ++ bytes) (recv w fd (len - length cbuf)).1
  recv-Grown w fd len cbuf bytes fits e =
      let k = len - length cbuf in
      record {
        stream =
            ap (◌++◌ cbuf) (recv_incoming w fd k)
            ∙ sym (append_assoc cbuf _ _)
            ∙ ap (λ bs. (cbuf ++ bs) ++ incoming (recv w fd k).1 fd) e;
        room = omega (arith, length-append cbuf bytes, recv_bound w fd k, ap length e);
        grows = omega (arith, length-append cbuf bytes);
        unsent = recv_sent w fd k;
        known = recv_registered w fd k;
      }

  -- A call that brought nothing.
  pub recv-Grown_none :
      (w : World) (fd : ℤ) (len : ℕ) (cbuf : List ℕ)
      → length cbuf ≤ len
      → bytes_of (recv w fd (len - length cbuf)).0 ≡ []
      → Grown w fd len cbuf cbuf (recv w fd (len - length cbuf)).1
  recv-Grown_none w fd len cbuf fits e =
      let g = recv-Grown w fd len cbuf [] fits e in
      subst (λ b. Grown w fd len cbuf b (recv w fd (len - length cbuf)).1) (append-nil cbuf) g
