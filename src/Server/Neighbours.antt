-- ===== src/Server/Neighbours.antt =====
-- The connections of the server of src/socket/socket_bw_app.{h,cc} beside one another.
use rpc_bench.Common.{
  ℕ, ◌≡◌, ◌≢◌, ◌<◌, ◌≤◌, refl, sym, ap, ◌∙◌, subst, ◌⊎◌, inl, inr, ℤ, Bool, true, List, Option,
  none, some, ◌==◌, Bool-cases, arith,
}
use rpc_bench.Kernel.{Kernel}
use rpc_bench.Kernel.Laws.{Stream, InterestList, Memory}
use rpc_bench.Heap.{Heap}
use rpc_bench.Buffer.{Buffer}
use rpc_bench.Socket.{invalid_socket}
use rpc_bench.Endpoint.{Endpoint}
use rpc_bench.Endpoint.Frames.{Exchange, owned, Held}
use rpc_bench.Endpoint.Idle.{Owner}
use rpc_bench.Endpoint.Connection.{Conn, at_rest, in_rpc, in_reply}
use rpc_bench.Endpoint.Lifetime.{IsUntouched, with_process, kept-Conn}
use rpc_bench.Endpoint.Spared.{Has, Owns, IsTidy, Moved}
use rpc_bench.Server.{Server, find, put}

Owner-below : (h : Heap) (o : Option Buffer) (n a : ℕ) → Owner h o n → Has o a → a < h.fresh
Owner-below h o n a (inl (e, z)) (b, same, at) = absurd (cc)
Owner-below h o n a (inr (x, block, e, held, l)) (b, same, at) =
    let x≡a : x ≡ a = ground (arith, e, same, at) in omega (arith, x≡a, held.1)

Held-below :
    (g : Exchange) (hb db : List ℕ) (i j : ℕ) (h : Heap) (o₁ o₂ o₃ o₄ : Option Buffer) (a : ℕ)
    → Held g hb db i j h o₁ o₂ o₃ o₄
    → Has o₁ a ⊎ Has o₂ a
    → a < h.fresh
Held-below g hb db i j h o₁ o₂ o₃ o₄ a held (inl (b, same, at)) =
    let e : g.header_block ≡ a = ground (arith, held.header_owner, same, at) in
    omega (arith, e, held.header_holds.1)
Held-below g hb db i j h o₁ o₂ o₃ o₄ a held (inr (b, same, at)) =
    let e : g.data_block ≡ a = ground (arith, held.data_owner, same, at) in
    omega (arith, e, held.data_holds.1)

module _ (K : Kernel) (S : Stream K) (L : InterestList K) where
  open K use {World}

  -- The blocks of a sound connection are below those to come.
  pub Conn-below :
      (fd : ℤ) (input : List ℕ) (c : Endpoint World) (a : ℕ)
      → Conn K S L fd input c
      → Owns c a
      → a < c.process.heap.fresh
  Conn-below fd input c a (at_rest h sound idle inp out) own = elim own [
    | inl has ↦ Owner-below c.process.heap c.header_buffer_owner _ a idle.header_owner has
    | inr has ↦ Owner-below c.process.heap c.data_buffer_owner _ a idle.data_owner has
  ]
  Conn-below fd input c a (in_rpc h g st hb db i j sound after p) own =
      Held-below g hb db i j c.process.heap _ _ _ _ a p.during.held own
  Conn-below fd input c a (in_reply h g hb db k sound after fits d armed) own =
      Held-below g hb db _ _ c.process.heap _ _ _ _ a d.held own

  -- The server, where `inputs` is what arrives for each object: every open connection is sound in
  -- the process as it is, and no two endpoints share a socket or a block.
  pub record Sound (M : Memory K) (inputs : ℕ → List ℕ) (s : Server World) : Type 0 where
    pub conn :
        (n : ℕ) (c : Endpoint World)
        → s.objects n ≡ some c
        → c.sock ≢ invalid_socket
        → Conn K S L c.sock (inputs n) (with_process K S L M c s.process)
    pub tidy : (n : ℕ) (c : Endpoint World) → s.objects n ≡ some c → IsTidy c
    pub below :
        (n : ℕ) (c : Endpoint World) (a : ℕ)
        → s.objects n ≡ some c
        → Owns c a
        → a < s.process.heap.fresh
    pub own_blocks :
        (n m : ℕ) (c d : Endpoint World) (a : ℕ)
        → n ≢ m
        → s.objects n ≡ some c
        → s.objects m ≡ some d
        → Owns c a
        → ¬ Owns d a
    pub own_sockets :
        (n m : ℕ) (c d : Endpoint World)
        → n ≢ m
        → s.objects n ≡ some c
        → s.objects m ≡ some d
        → c.sock ≢ invalid_socket
        → c.sock ≢ d.sock
    -- What the map has under a descriptor is the endpoint with that socket, or a closed one.
    pub mapped :
        (fd : ℤ) (n : ℕ)
        → find fd s.endpoints ≡ some n
        → (c : Endpoint World) × (s.objects n ≡ some c)
          × ((c.sock ≡ fd) ⊎ (c.sock ≡ invalid_socket))
    pub mapped_once :
        (fd fd' : ℤ) (n : ℕ)
        → find fd s.endpoints ≡ some n
        → find fd' s.endpoints ≡ some n
        → fd ≡ fd'
    pub no_closed : find invalid_socket s.endpoints ≡ none
    pub numbered : (n : ℕ) (c : Endpoint World) → s.objects n ≡ some c → n < s.fresh

  -- What handling an event made of an endpoint: it touched its own socket and blocks alone, and is
  -- sound on the socket that it had, or it is closed, which happens only where the event says that
  -- the socket failed.
  pub record Handled (failed : Bool) (input : List ℕ) (c c' : Endpoint World) : Type 0 where
    pub tidy : IsTidy c'
    pub moved : Moved K S L (Owns c) c.sock c.process c'.process
    pub owners : (a : ℕ) → Owns c' a → Owns c a ⊎ (c.process.heap.fresh ≤ a)
    pub below : (a : ℕ) → Owns c' a → a < c'.process.heap.fresh
    pub outcome :
        ((c'.sock ≡ c.sock) × Conn K S L c'.sock input c')
        ⊎ ((failed ≡ true) × (c'.sock ≡ invalid_socket))

  -- An object of the server with a new value at `object`.
  pub put-cases :
      (s : Server World) (object : ℕ) (c' : Endpoint World) (n : ℕ) (d : Endpoint World)
      → (put K s object c').objects n ≡ some d
      → ((n ≡ object) × (d ≡ c')) ⊎ ((n ≢ object) × (s.objects n ≡ some d))
  put-cases s object c' n d e = elim (Bool-cases (n == object)) [
    | inl same ↦ inl (ground arith, ground (arith, e))
    | inr apart ↦ inr (ground arith, ground (arith, e))
  ]

  module _ (M : Memory K) (inputs : ℕ → List ℕ) (s : Server World) (object : ℕ)
      (c c' : Endpoint World) (failed : Bool) (there : s.objects object ≡ some c)
      (open_ : c.sock ≢ invalid_socket) (sound : Sound M inputs s)
      (h : Handled failed (inputs object) (with_process K S L M c s.process) c') where
    -- The other endpoints cannot tell.
    untouched :
        (n : ℕ) (d : Endpoint World)
        → n ≢ object
        → s.objects n ≡ some d
        → d.sock ≢ invalid_socket
        → IsUntouched K S L M (with_process K S L M d s.process) c'.process
    untouched n d ne e live =
        let same = h.moved.spared d.sock (sound.own_sockets n object d c ne e there live) in
        record {
          same_incoming = same.incoming_kept;
          same_sent = same.sent_kept;
          same_registered = same.registered_kept d.epfd;
          header_kept = λ a block (k, own) held.
              h.moved.kept a block
                (sound.own_blocks n object d c a ne e there (inl (owned a k, own, refl))) held;
          data_kept = λ a block (k, own) held.
              h.moved.kept a block
                (sound.own_blocks n object d c a ne e there (inr (owned a k, own, refl))) held;
        }

    put-Conn :
        (n : ℕ) (d : Endpoint World)
        → (put K s object c').objects n ≡ some d
        → d.sock ≢ invalid_socket
        → Conn K S L d.sock (inputs n) (with_process K S L M d c'.process)
    put-Conn n d e live = elim (put-cases s object c' n d e) [
      | inr (ne, old) ↦
          kept-Conn K S L M d.sock (inputs n) (with_process K S L M d s.process) c'.process
            (untouched n d ne old live) (sound.conn n d old live)
      | inl (same, new) ↦ elim h.outcome [
        | inr (bad, closed) ↦ absurd (live (ap (λ x. x.sock) new ∙ closed))
        | inl (kept, conn) ↦
            subst (λ x. Conn K S L x.sock (inputs n) (with_process K S L M x c'.process)) (sym new)
              (subst (λ k. Conn K S L c'.sock (inputs k) c') (sym same) conn)
      ]
    ]

    put-IsTidy : (n : ℕ) (d : Endpoint World) → (put K s object c').objects n ≡ some d → IsTidy d
    put-IsTidy n d e = elim (put-cases s object c' n d e) [
      | inr (ne, old) ↦ sound.tidy n d old
      | inl (same, new) ↦ subst IsTidy (sym new) h.tidy
    ]

    put-below :
        (n : ℕ) (d : Endpoint World) (a : ℕ)
        → (put K s object c').objects n ≡ some d
        → Owns d a
        → a < c'.process.heap.fresh
    put-below n d a e own = elim (put-cases s object c' n d e) [
      | inr (ne, old) ↦ omega (arith, sound.below n d a old own, h.moved.later)
      | inl (same, new) ↦ h.below a (subst (λ x. Owns x a) new own)
    ]

    -- No other endpoint has a block of the new value.
    foreign :
        (n : ℕ) (d : Endpoint World) (a : ℕ)
        → n ≢ object
        → s.objects n ≡ some d
        → Owns d a
        → ¬ Owns c' a
    foreign n d a ne e own mine = elim (h.owners a mine) [
      | inl old ↦ sound.own_blocks n object d c a ne e there own old
      | inr new ↦ omega (arith, sound.below n d a e own)
    ]

    put-own_blocks :
        (n m : ℕ) (x y : Endpoint World) (a : ℕ)
        → n ≢ m
        → (put K s object c').objects n ≡ some x
        → (put K s object c').objects m ≡ some y
        → Owns x a
        → ¬ Owns y a
    put-own_blocks n m x y a ne e f own own' = elim (put-cases s object c' n x e) [
      | inr (n_other, old) ↦ elim (put-cases s object c' m y f) [
        | inr (m_other, old') ↦ sound.own_blocks n m x y a ne old old' own own'
        | inl (same', new') ↦ foreign n x a n_other old own (subst (λ z. Owns z a) new' own')
      ]
      | inl (same, new) ↦ elim (put-cases s object c' m y f) [
        | inr (m_other, old') ↦ foreign m y a m_other old' own' (subst (λ z. Owns z a) new own)
        | inl (same', new') ↦ absurd (ne (same ∙ sym same'))
      ]
    ]

    put-own_sockets :
        (n m : ℕ) (x y : Endpoint World)
        → n ≢ m
        → (put K s object c').objects n ≡ some x
        → (put K s object c').objects m ≡ some y
        → x.sock ≢ invalid_socket
        → x.sock ≢ y.sock
    put-own_sockets n m x y ne e f live clash = elim (put-cases s object c' n x e) [
      | inr (n_other, old) ↦ elim (put-cases s object c' m y f) [
        | inr (m_other, old') ↦ sound.own_sockets n m x y ne old old' live clash
        | inl (same', new') ↦ elim h.outcome [
          | inl (kept, conn) ↦
              sound.own_sockets n object x c n_other old there live
                (clash ∙ ap (λ z. z.sock) new' ∙ kept)
          | inr (bad, closed) ↦ live (clash ∙ ap (λ z. z.sock) new' ∙ closed)
        ]
      ]
      | inl (same, new) ↦ elim (put-cases s object c' m y f) [
        | inr (m_other, old') ↦ elim h.outcome [
          | inl (kept, conn) ↦
              sound.own_sockets object m c y (λ e'. m_other (sym e')) there old' open_
                (sym (ap (λ z. z.sock) new ∙ kept) ∙ clash)
          | inr (bad, closed) ↦ live (ap (λ z. z.sock) new ∙ closed)
        ]
        | inl (same', new') ↦ absurd (ne (same ∙ sym same'))
      ]
    ]

    put-mapped :
        (fd : ℤ) (n : ℕ)
        → find fd s.endpoints ≡ some n
        → (d : Endpoint World) × ((put K s object c').objects n ≡ some d)
          × ((d.sock ≡ fd) ⊎ (d.sock ≡ invalid_socket))
    put-mapped fd n found =
        let (d, e, on) = sound.mapped fd n found in
        elim (Bool-cases (n == object)) [
          | inr apart ↦ (d, rw apart e, on)
          | inl same ↦
              let n≡ : n ≡ object = ground arith in
              let d≡c : d ≡ c = ground (arith, e, there, ap s.objects n≡) in
              (
                c',
                rw same refl,
                elim h.outcome [
                  | inr (bad, closed) ↦ inr closed
                  | inl (kept, conn) ↦ elim on [
                    | inl here ↦ inl (kept ∙ sym (ap (λ x. x.sock) d≡c) ∙ here)
                    | inr closed ↦ inr (kept ∙ sym (ap (λ x. x.sock) d≡c) ∙ closed)
                  ]
                ],
              )
        ]

    put-numbered :
        (n : ℕ) (d : Endpoint World) → (put K s object c').objects n ≡ some d → n < s.fresh
    put-numbered n d e = elim (put-cases s object c' n d e) [
      | inr (ne, old) ↦ sound.numbered n d old
      | inl (same, new) ↦ omega (arith, same, sound.numbered object c there)
    ]

    -- The server is sound with the new value of the object.
    pub put-Sound : Sound M inputs (put K s object c')
    put-Sound = record {
      conn = put-Conn;
      tidy = put-IsTidy;
      below = put-below;
      own_blocks = put-own_blocks;
      own_sockets = put-own_sockets;
      mapped = put-mapped;
      mapped_once = sound.mapped_once;
      no_closed = sound.no_closed;
      numbered = put-numbered;
    }
