-- ===== src/Server/Ending.antt =====
-- The end of a closed endpoint that the map of src/socket/socket_bw_app.cc has no more.
use rpc_bench.Common.{
  ℕ, ◌≡◌, ◌≢◌, refl, sym, ap, ◌∙◌, subst, ◌⊎◌, inl, inr, ℤ, List, [], ◌∷◌, true, false, Option,
  none, some, All, done, ◌==◌, ==ℤ_iff, if◌then◌else◌, Bool-cases, arith,
}
use rpc_bench.Kernel.{Kernel}
use rpc_bench.Kernel.Laws.{Stream, InterestList, Memory}
use rpc_bench.Heap.{Heap, Holds}
use rpc_bench.Buffer.{Buffer}
use rpc_bench.Socket.{invalid_socket, is_closed}
use rpc_bench.Socket.Transfer.{Process}
use rpc_bench.Endpoint.{Endpoint, drop_buffer}
use rpc_bench.Endpoint.Frames.{owned}
use rpc_bench.Endpoint.Handlers.{drop_all, destroy_endpoint}
use rpc_bench.Endpoint.Lifetime.{IsUntouched, with_process, kept-Conn}
use rpc_bench.Endpoint.Spared.{
  Has, IsUnowned, AreUnowned, drop_buffer-kept, drop_buffer-fresh, drop_buffer-unowned, Owns,
  IsTidy,
}
use rpc_bench.Server.{Server, find}
use rpc_bench.Server.Neighbours.{Sound}

module _ (K : Kernel) where
  open K use {World}

  -- The destructors of what an endpoint has leave the blocks of others.
  drop_all-kept :
      (h : Heap) (os : List (Option Buffer)) (b : ℕ) (block : List ℕ)
      → All (λ o. IsUnowned o ⊎ (¬ Has o b)) os
      → Holds h b block
      → Holds (drop_all K h os) b block
  unfolding drop_all
  drop_all-kept h [] b block apart held = held
  drop_all-kept h (o ∷ os) b block apart held = elim apart.0 [
    | inl view ↦
        drop_all-kept (drop_buffer h o) os b block apart.1
          (subst (λ heap. Holds heap b block) (sym (drop_buffer-unowned h o view)) held)
    | inr ne ↦
        drop_all-kept (drop_buffer h o) os b block apart.1 (drop_buffer-kept h o b block ne held)
  ]

  drop_all-fresh : (h : Heap) (os : List (Option Buffer)) → (drop_all K h os).fresh ≡ h.fresh
  unfolding drop_all
  drop_all-fresh h [] = refl
  drop_all-fresh h (o ∷ os) = drop_all-fresh (drop_buffer h o) os ∙ drop_buffer-fresh h o

  All-unowned :
      (os : List (Option Buffer)) (b : ℕ) → AreUnowned os → All (λ o. IsUnowned o ⊎ (¬ Has o b)) os
  All-unowned [] b u = tt
  All-unowned (o ∷ os) b u = (inl u.0, All-unowned os b u.1)

  -- The process after an endpoint is gone: its blocks are free, and no other changed.
  pub record Freed (own : ℕ → Type 0) (p q : Process World) : Type 0 where
    pub same_world : q.world ≡ p.world
    pub same_fresh : q.heap.fresh ≡ p.heap.fresh
    pub kept : (b : ℕ) (block : List ℕ) → ¬ own b → Holds p.heap b block → Holds q.heap b block

  pub destroy_endpoint-Freed :
      (c : Endpoint World)
      → c.sock ≡ invalid_socket
      → IsTidy c
      → (q : Process World) × (destroy_endpoint K c ≡ done q) × Freed (Owns c) c.process q
  unfolding destroy_endpoint is_closed
  destroy_endpoint-Freed c closed t =
      let os =
        c.reply_buffer
        ∷ (c.data_buffer
            ∷ (c.header_buffer ∷ (c.data_buffer_owner ∷ (c.header_buffer_owner ∷ c.tx_queue)))) in
      let shut : is_closed c.sock ≡ true = (==ℤ_iff c.sock invalid_socket).1 closed in
      (
        record { heap = drop_all K c.process.heap os; world = c.process.world },
        rw (shut, destroy_endpoint) refl,
        record {
          same_world = refl;
          same_fresh = drop_all-fresh c.process.heap os;
          kept = λ b block ne held.
              drop_all-kept c.process.heap os b block
                (
                  inl t.reply,
                  (
                    inr (λ has. ne (inr (t.data_view b has))),
                    (
                      inr (λ has. ne (inl (t.header_view b has))),
                      (
                        inr (λ has. ne (inr has)),
                        (inr (λ has. ne (inl has)), All-unowned c.tx_queue b t.queue),
                      ),
                    ),
                  ),
                )
                held;
        },
      )

module _ (K : Kernel) (S : Stream K) (L : InterestList K) where
  open K use {World}

  -- The server without an object.
  abbrev pub without : Server World → ℕ → Process World → Server World
  without s object p = record s {
    process = p;
    objects = λ n. if n == object then none else s.objects n;
  }

  module _ (M : Memory K) (inputs : ℕ → List ℕ) (s : Server World) (object : ℕ) (c : Endpoint World)
      (q : Process World) (there : s.objects object ≡ some c)
      (unmapped : (fd : ℤ) → find fd s.endpoints ≢ some object) (sound : Sound K S L M inputs s)
      (f : Freed K (Owns c) s.process q) where
    left :
        (n : ℕ) (d : Endpoint World)
        → (without s object q).objects n ≡ some d
        → (n ≢ object) × (s.objects n ≡ some d)
    left n d e = elim (Bool-cases (n == object)) [
      | inl same ↦ absurd (ground (arith, e))
      | inr apart ↦ (ground arith, ground (arith, e))
    ]

    left-IsUntouched :
        (n : ℕ) (d : Endpoint World)
        → n ≢ object
        → s.objects n ≡ some d
        → IsUntouched K S L M (with_process K S L M d s.process) q
    left-IsUntouched n d ne e = record {
      same_incoming = ap (λ w. S.incoming w d.sock) f.same_world;
      same_sent = ap (λ w. S.sent w d.sock) f.same_world;
      same_registered = ap (λ w. L.registered w d.epfd d.sock) f.same_world;
      header_kept = λ a block (k, own) held.
          f.kept a block (sound.own_blocks n object d c a ne e there (inl (owned a k, own, refl)))
            held;
      data_kept = λ a block (k, own) held.
          f.kept a block (sound.own_blocks n object d c a ne e there (inr (owned a k, own, refl)))
            held;
    }

    pub without-Sound : Sound K S L M inputs (without s object q)
    without-Sound = record {
      conn = λ n d e live.
          let (ne, old) = left n d e in
          kept-Conn K S L M d.sock (inputs n) (with_process K S L M d s.process) q
            (left-IsUntouched n d ne old) (sound.conn n d old live);
      tidy = λ n d e. sound.tidy n d (left n d e).1;
      below = λ n d a e own. omega (arith, sound.below n d a (left n d e).1 own, f.same_fresh);
      own_blocks =
          λ n m x y a ne e e'. sound.own_blocks n m x y a ne (left n x e).1 (left m y e').1;
      own_sockets = λ n m x y ne e e'. sound.own_sockets n m x y ne (left n x e).1 (left m y e').1;
      mapped = λ fd n found.
          let (d, e, on) = sound.mapped fd n found in
          let ne : n ≢ object = λ same. unmapped fd (found ∙ ap (λ k. some k) same) in
          let apart : (n == object) ≡ false = ground (arith, ne) in (d, rw apart e, on);
      mapped_once = sound.mapped_once;
      no_closed = sound.no_closed;
      numbered = λ n d e. sound.numbered n d (left n d e).1;
    }
