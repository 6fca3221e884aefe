-- ===== src/Endpoint/Receiving.antt =====
-- The header and the data of an RPC come in, in any pieces.
use rpc_bench.Common.{
  ℕ, ◌+◌, ◌-◌, ◌≤◌, ◌<◌, ◌^◌, ◌≡◌, ◌≢◌, refl, sym, ap, ◌∙◌, subst, ◌⊎◌, inl, inr, ℤ, List, [], ◌++◌,
  append_assoc, append-nil, nil_of_length, Option, none, some, take, length, write_at,
  length-write_at, take-write_at, Post, arith,
}
use rpc_bench.Kernel.{Kernel, Reply, got, error}
use rpc_bench.Kernel.Laws.{Stream, InterestList, Reply-cases, bytes_of}
use rpc_bench.Heap.{Holds, store-Holds}
use rpc_bench.Buffer.{Buffer, get_remain_size}
use rpc_bench.Socket.Growth.{Aborts}
use rpc_bench.Socket.Transfer.{Process, recv_at}
use rpc_bench.Endpoint.{Endpoint, State}
use rpc_bench.Endpoint.Frames.{
  get_remain_size-window, Exchange, owned, window, Held, During, Partly,
}

-- Bytes that follow two parts of which the second is empty, or that are none.
next_part :
    (xs ys bytes rest : List ℕ)
    → (ys ≡ []) ⊎ (bytes ≡ [])
    → xs ++ (ys ++ (bytes ++ rest)) ≡ (xs ++ bytes) ++ (ys ++ rest)
next_part xs ys bytes rest (inl e) = rw e (sym (append_assoc xs bytes rest))
next_part xs ys bytes rest (inr e) = rw e (ap (λ s. s ++ (ys ++ rest)) (sym (append-nil xs)))

module _ (K : Kernel) (S : Stream K) (L : InterestList K) where
  open K use {World, recv}
  open S use {incoming, sent, recv_bound, recv_incoming, recv_sent}
  open L use {registered, recv_registered}

  -- What Recv into block `a` at offset `i` leaves: the bytes are in the block and in no other.
  pub record Delivered (p : Process World) (fd : ℤ) (a i : ℕ) (old bytes : List ℕ)
      (q : Process World) : Type 0 where
    pub fits : i + length bytes ≤ length old
    pub holds : Holds q.heap a (write_at i bytes old)
    pub others : (b : ℕ) (other : List ℕ) → b ≢ a → Holds p.heap b other → Holds q.heap b other
    pub stream : incoming p.world fd ≡ bytes ++ incoming q.world fd
    pub unsent : sent q.world fd ≡ sent p.world fd
    pub known : (epfd s : ℤ) → registered q.world epfd s ≡ registered p.world epfd s

  -- A call that only took time.
  pub record Waited (p : Process World) (fd : ℤ) (q : Process World) : Type 0 where
    pub same_heap : q.heap ≡ p.heap
    pub stream : incoming p.world fd ≡ incoming q.world fd
    pub unsent : sent q.world fd ≡ sent p.world fd
    pub known : (epfd s : ℤ) → registered q.world epfd s ≡ registered p.world epfd s

  abbrev pub RecvAt : Process World → ℤ → ℕ → ℕ → List ℕ → Reply ℕ × Process World → Type 0
  RecvAt p fd a i old (got n, q) =
      (bytes : List ℕ) × (n ≡ length bytes) × Delivered p fd a i old bytes q
  RecvAt p fd a i old (error e, q) = Waited p fd q × ((n : ℕ) × ((recv p.world fd n).0 ≡ error e))

  pub recv_at-RecvAt :
      (p : Process World) (fd : ℤ) (a i : ℕ) (old : List ℕ)
      → Holds p.heap a old
      → i ≤ length old
      → length old < 2 ^ 32
      → Post
          (Aborts K)
          (RecvAt p fd a i old)
          (recv_at K p fd (some a) i (get_remain_size (window a (length old) i)))
  unfolding recv_at
  recv_at-RecvAt p fd a i old holds fits small =
      let len = length old - i in
      rw (get_remain_size-window a (length old) i fits small, recv_at)
        (elim (Reply-cases (recv p.world fd len).0) [
          | inl (bytes, e) ↦
              let room : i + length bytes ≤ length old =
                omega (arith, recv_bound p.world fd len, ap (λ r. length (bytes_of r)) e) in
              let (heap, stored, now, others) = store-Holds p.heap a i bytes old holds room in
              rw (e, recv_at)
                (rw (stored, recv_at)
                  (
                    bytes,
                    refl,
                    record {
                      fits = room;
                      holds = now;
                      others = others;
                      stream =
                          recv_incoming p.world fd len
                          ∙ ap (λ r. bytes_of r ++ incoming (recv p.world fd len).1 fd) e;
                      unsent = recv_sent p.world fd len;
                      known = recv_registered p.world fd len;
                    },
                  ))
          | inr (errno, e) ↦
              rw (e, recv_at)
                (
                  record {
                    same_heap = refl;
                    stream =
                        recv_incoming p.world fd len
                        ∙ ap (λ r. bytes_of r ++ incoming (recv p.world fd len).1 fd) e;
                    unsent = recv_sent p.world fd len;
                    known = recv_registered p.world fd len;
                  },
                  (len, e),
                )
        ])

  pub Waited-During :
      (g : Exchange) (st : State) (hb db : List ℕ) (i j : ℕ) (tx : List (Option Buffer))
      (rb : Option Buffer) (out : List ℕ) (c : Endpoint World) (q : Process World)
      → During K S L g st hb db i j tx rb out c
      → Waited c.process c.sock q
      → During K S L g st hb db i j tx rb out (record c { process = q })
  Waited-During g st hb db i j tx rb out c q d w = record {
    linked = record {
      on = d.linked.on;
      known = w.known c.epfd c.sock ∙ d.linked.known;
      valid = d.linked.valid;
    };
    held =
        subst
          (λ h.
            Held g hb db i j h c.header_buffer_owner c.data_buffer_owner c.header_buffer
              c.data_buffer)
          (sym w.same_heap) d.held;
    state = d.state;
    queue = d.queue;
    reply_free = d.reply_free;
    meta_length = d.meta_length;
    header_length = d.header_length;
    data_length = d.data_length;
    stream = d.stream ∙ ap (λ s. g.meta ++ (take i hb ++ (take j db ++ s))) w.stream;
    replied = w.unsent ∙ d.replied;
  }

  -- More of the header is in its block.
  pub header_got-During :
      (g : Exchange) (st st' : State) (hb db bytes : List ℕ) (i j : ℕ) (c : Endpoint World)
      (q : Process World)
      → Partly K S L g st hb db i j c
      → Delivered c.process c.sock g.header_block i hb bytes q
      → During K S L g st' (write_at i bytes hb) db (i + length bytes) j [] none [] (record c {
        process = q;
        header_buffer = some (window g.header_block (length hb) (i + length bytes));
        state = st';
      })
  header_got-During g st st' hb db bytes i j c q p r =
      let d = p.during in
      let len = length-write_at i bytes hb r.fits in
      let one_part : (take j db ≡ []) ⊎ (bytes ≡ []) = elim p.in_order [
        | inl e ↦ inl (ap (λ n. take n db) e)
        | inr e ↦ inr (nil_of_length bytes (omega (arith, r.fits)))
      ] in
      record {
        linked = record {
          on = d.linked.on;
          known = r.known c.epfd c.sock ∙ d.linked.known;
          valid = d.linked.valid;
        };
        held = record {
          header_owner = d.held.header_owner ∙ ap (λ n. some (owned g.header_block n)) (sym len);
          data_owner = d.held.data_owner;
          header_view = ap (λ n. some (window g.header_block n (i + length bytes))) (sym len);
          data_view = d.held.data_view;
          header_holds = r.holds;
          data_holds = r.others g.data_block db (λ e. d.held.distinct (sym e)) d.held.data_holds;
          distinct = d.held.distinct;
          header_fits = omega (arith, len, d.held.header_fits);
          data_fits = d.held.data_fits;
          header_part = omega (arith, len, r.fits);
          data_part = d.held.data_part;
        };
        state = refl;
        queue = d.queue;
        reply_free = d.reply_free;
        meta_length = d.meta_length;
        header_length = len ∙ d.header_length;
        data_length = d.data_length;
        stream =
            d.stream
            ∙ ap (λ s. g.meta ++ (take i hb ++ (take j db ++ s))) r.stream
            ∙ ap (◌++◌ g.meta)
                (next_part (take i hb) (take j db) bytes (incoming q.world c.sock) one_part)
            ∙ ap (λ s. g.meta ++ (s ++ (take j db ++ incoming q.world c.sock)))
                (sym (take-write_at i bytes hb r.fits));
        replied = r.unsent ∙ d.replied;
      }

  -- More of the data is in its block.
  pub data_got-During :
      (g : Exchange) (st : State) (hb db bytes : List ℕ) (j : ℕ) (c : Endpoint World)
      (q : Process World)
      → During K S L g st hb db (length hb) j [] none [] c
      → Delivered c.process c.sock g.data_block j db bytes q
      → During K S L g st hb
          (write_at j bytes db)
          (length hb)
          (j + length bytes)
          []
          none
          []
          (record c {
            process = q;
            data_buffer = some (window g.data_block (length db) (j + length bytes));
          })
  data_got-During g st hb db bytes j c q d r =
      let len = length-write_at j bytes db r.fits in
      record {
        linked = record {
          on = d.linked.on;
          known = r.known c.epfd c.sock ∙ d.linked.known;
          valid = d.linked.valid;
        };
        held = record {
          header_owner = d.held.header_owner;
          data_owner = d.held.data_owner ∙ ap (λ n. some (owned g.data_block n)) (sym len);
          header_view = d.held.header_view;
          data_view = ap (λ n. some (window g.data_block n (j + length bytes))) (sym len);
          header_holds = r.others g.header_block hb d.held.distinct d.held.header_holds;
          data_holds = r.holds;
          distinct = d.held.distinct;
          header_fits = d.held.header_fits;
          data_fits = omega (arith, len, d.held.data_fits);
          header_part = d.held.header_part;
          data_part = omega (arith, len, r.fits);
        };
        state = d.state;
        queue = d.queue;
        reply_free = d.reply_free;
        meta_length = d.meta_length;
        header_length = d.header_length;
        data_length = len ∙ d.data_length;
        stream =
            d.stream
            ∙ ap (λ s. g.meta ++ (take (length hb) hb ++ (take j db ++ s))) r.stream
            ∙ ap (λ s. g.meta ++ (take (length hb) hb ++ s))
                (sym (append_assoc (take j db) bytes (incoming q.world c.sock))
                  ∙ ap (λ s. s ++ incoming q.world c.sock) (sym (take-write_at j bytes db r.fits)));
        replied = r.unsent ∙ d.replied;
      }
