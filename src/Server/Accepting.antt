-- ===== src/Server/Accepting.antt =====
-- HandleNewConnection of src/socket/socket_bw_app.cc, beside the connections that are there.
use rpc_bench.Common.{
  Post, ℕ, ◌≡◌, ◌≢◌, refl, sym, ap, ◌∙◌, subst, inl, inr, ℤ, List, [], true, false, Option, none,
  some, IfDone, IfDone-bind, Post-both, Post-mono, ◌==◌, ◌==ℤ◌, ==ℤ_iff, Bool-cases, arith,
}
use rpc_bench.Kernel.{Kernel, got, accept}
use rpc_bench.Kernel.Laws.{Stream, InterestList, Memory, Reply-cases}
use rpc_bench.Kernel.Apart.{Spares, Apart, Accepts, Spares-trans}
use rpc_bench.Socket.{invalid_socket, accept_socket}
use rpc_bench.Socket.Transfer.{Process}
use rpc_bench.Endpoint.Spared.{Owns}
use rpc_bench.Endpoint.{Endpoint, new_endpoint}
use rpc_bench.Endpoint.Handlers.{on_accepted}
use rpc_bench.Endpoint.Connection.{Conn}
use rpc_bench.Server.Aborts.{Unaccepted}
use rpc_bench.Server.{Server, find, release, handle_new_connection}
use rpc_bench.Server.Events.{Added, handle_new_connection-Added}
use rpc_bench.Server.Neighbours.{Sound}
use rpc_bench.Server.Welcoming.{IsNew, new_endpoint-IsNew}
use rpc_bench.Server.Replacing.{
  IsGuest, Welcomed, added, added-Sound, added-Welcomed, assigned, not_fresh,
}
use rpc_bench.Server.Ending.{Freed, without, destroy_endpoint-Freed, without-Sound}

module _ (K : Kernel) (S : Stream K) (L : InterestList K) (M : Memory K) (A : Apart K S L)
    (B : Accepts K S L) where
  open K use {World, call}
  open S use {incoming, sent}
  open B use {accept_apart, accept_unsent}

  -- What accept(2) gives: a descriptor that no open endpoint has, and `inputs` is what arrives on it.
  abbrev pub IsFresh : (ℕ → List ℕ) → Server World → Type 0
  IsFresh inputs s =
      (new : ℤ)
      → (call s.process.world (accept s.listener)).0 ≡ got new
      → (incoming (call s.process.world (accept s.listener)).1 new ≡ inputs s.fresh)
        × ((n : ℕ) (d : Endpoint World) → s.objects n ≡ some d → d.sock ≢ new)

  accept_socket-Accepted :
      (w : World) (fd : ℤ)
      → IfDone
          (λ r.
            (r.0 ≢ invalid_socket)
            × ((call w (accept fd)).0 ≡ got r.0)
            × (r.1 ≡ (call w (accept fd)).1))
          (accept_socket K w fd)
  unfolding accept_socket
  accept_socket-Accepted w fd = elim (Reply-cases (call w (accept fd)).0) [
    | inr (errno, e) ↦ rw (e, accept_socket) tt
    | inl (new, e) ↦ elim (Bool-cases (new ==ℤ invalid_socket)) [
      | inl bad ↦ rw (e, accept_socket) (rw bad tt)
      | inr good ↦
          rw (e, accept_socket)
            (rw good (λ same. cc ((==ℤ_iff new invalid_socket).1 same, good), refl, refl))
    ]
  ]

  abbrev Welcomes : (ℕ → List ℕ) → Server World → Server World → Type 0
  Welcomes inputs s s' = Sound K S L M inputs s' × Welcomed K S L s s'

  -- A closed object goes.
  without-Welcomed :
      (inputs : ℕ → List ℕ) (s : Server World) (c : Endpoint World) (n : ℕ) (d : Endpoint World)
      (q : Process World)
      → Sound K S L M inputs s
      → IsGuest K S L M inputs s c
      → s.objects n ≡ some d
      → d.sock ≡ invalid_socket
      → Freed K (Owns d) c.process q
      → Welcomed K S L s (without K S L (added K S L s c) n q)
  without-Welcomed inputs s c n d q sound g there closed f =
      let w = added-Welcomed K S L M inputs s c sound g in
      let ne =
        λ (k : ℕ) (x : Endpoint World) (e : s.objects k ≡ some x) (live : x.sock ≢ invalid_socket)
            (same : k ≡ n).
          let x≡d : x ≡ d = ground (arith, e, there, ap s.objects same) in
          live (ap (λ z. z.sock) x≡d ∙ closed) in
      record {
        number = refl;
        newcomer = c;
        there =
            let before = sound.numbered n d there in
            let other : (s.fresh == n) ≡ false = ground (arith, before) in
            let here : (s.fresh == s.fresh) ≡ true = ground arith in rw other (rw here refl);
        live = g.live;
        kept = λ k x e live.
            let other : (k == n) ≡ false = ground (arith, ne k x e live) in
            rw other (w.kept k x e live);
        spared = subst (Spares K S L c.sock s.process.world) (sym f.same_world) g.spared;
        blocks = λ k x a block e live own held.
            f.kept a block (sound.own_blocks k n x d a (ne k x e live) e there own)
              (w.blocks k x a block e live own held);
      }

  -- The object that the new one replaces in the map is closed, and goes.
  release-Sound :
      (inputs : ℕ → List ℕ) (s : Server World) (c : Endpoint World)
      → Sound K S L M inputs s
      → IsGuest K S L M inputs s c
      → IfDone (Welcomes inputs s) (release K (added K S L s c) (find c.sock s.endpoints))
  unfolding release
  release-Sound inputs s c sound g = from (find c.sock s.endpoints) refl
    where
      from :
          (o : Option ℕ)
          → find c.sock s.endpoints ≡ o
          → IfDone (Welcomes inputs s) (release K (added K S L s c) o)
      from none e =
          (added-Sound K S L M inputs s c sound g, added-Welcomed K S L M inputs s c sound g)
      from (some n) e =
          let (d, there, on) = sound.mapped c.sock n e in
          let closed : d.sock ≡ invalid_socket = elim on [
            | inl same ↦ absurd (g.unused n d there same)
            | inr gone ↦ gone
          ] in
          let not_new = not_fresh K S L M inputs s c sound g c.sock n e in
          let other : (n == s.fresh) ≡ false = ground (arith, not_new) in
          let t = sound.tidy n d there in
          let (q, gone, f) =
            destroy_endpoint-Freed K (record d { process = c.process }) closed
              (record {
                header_view = t.header_view;
                data_view = t.data_view;
                reply = t.reply;
                queue = t.queue;
              }) in
          let unmapped = λ (fd : ℤ) (found : find fd (added K S L s c).endpoints ≡ some n).
            let clash : ⊥ = elim (assigned K S L M inputs s c sound g fd n found) [
              | inl (here, new) ↦ not_new new
              | inr (ne, old) ↦ ne (sound.mapped_once fd c.sock n old e)
            ] in
            clash in
          let there' : (added K S L s c).objects n ≡ some d = rw other there in
          rw (there', release)
            (rw (gone, release)
              (
                without-Sound K S L M inputs (added K S L s c) n d q there' unmapped
                    (added-Sound K S L M inputs s c sound g) f,
                without-Welcomed inputs s c n d q sound g there closed f,
              ))

  -- The new endpoint beside the others.
  IsNew-IsGuest :
      (inputs : ℕ → List ℕ) (s : Server World) (new : ℤ) (c : Endpoint World)
      → IsFresh inputs s
      → new ≢ invalid_socket
      → (call s.process.world (accept s.listener)).0 ≡ got new
      → IsNew K S L A B
          (record s.process { world = (call s.process.world (accept s.listener)).1 })
          s.poll
          s.fresh
          new
          c
      → IsGuest K S L M inputs s c
  IsNew-IsGuest inputs s new c fresh good e n =
      let w₁ = (call s.process.world (accept s.listener)).1 in
      let same : new ≡ c.sock = sym n.on in
      record {
        live = λ bad. good (same ∙ bad);
        conn =
            subst (λ i. Conn K S L c.sock i c) (fresh new e).0
              (subst (λ fd. Conn K S L fd (incoming w₁ new) c) same n.conn);
        tidy = n.tidy;
        bare = n.bare;
        spared =
            subst (λ fd. Spares K S L fd s.process.world c.process.world) same
              (Spares-trans K S L new s.process.world w₁ c.process.world
                (accept_apart s.process.world s.listener new e) n.spared);
        same_heap = n.same_heap;
        unused = λ k d there on. (fresh new e).1 k d there (on ∙ n.on);
      }

  handle_new_connection-IfDone :
      (inputs : ℕ → List ℕ) (s : Server World)
      → Sound K S L M inputs s
      → IsFresh inputs s
      → IfDone (Welcomes inputs s) (handle_new_connection K s)
  unfolding handle_new_connection
  handle_new_connection-IfDone inputs s sound fresh =
      IfDone-bind _ (Welcomes inputs s) (accept_socket K s.process.world s.listener) _
        (accept_socket-Accepted s.process.world s.listener)
        (λ (new, w) (good, e, world).
          let p = record s.process { world = w } in
          let silent : sent w new ≡ [] =
            ap (λ v. sent v new) world ∙ accept_unsent s.process.world s.listener new e in
          IfDone-bind (IsNew K S L A B p s.poll s.fresh new) (Welcomes inputs s)
            (on_accepted K (new_endpoint p s.poll s.fresh new)) _
            (new_endpoint-IsNew K S L A B p s.poll s.fresh new silent)
            (λ c n. release-Sound inputs s c sound (
              IsNew-IsGuest inputs s new c fresh good e (
                subst (λ v. IsNew K S L A B (record s.process { world = v }) s.poll s.fresh new c)
                  world n))))

  pub handle_new_connection-Sound :
      (inputs : ℕ → List ℕ) (s : Server World)
      → Sound K S L M inputs s
      → IsFresh inputs s
      → Post
          (Unaccepted K)
          (λ s'.
            Added s.endpoints s.fresh s'.endpoints × Sound K S L M inputs s' × Welcomed K S L s s')
          (handle_new_connection K s)
  handle_new_connection-Sound inputs s sound fresh =
      Post-mono (Unaccepted K) (λ s'. Added s.endpoints s.fresh s'.endpoints × Welcomes inputs s s')
        (λ s'.
          Added s.endpoints s.fresh s'.endpoints × Sound K S L M inputs s' × Welcomed K S L s s')
        (handle_new_connection K s)
        (Post-both (Unaccepted K) (λ s'. Added s.endpoints s.fresh s'.endpoints) (Welcomes inputs s)
          (handle_new_connection K s)
          (handle_new_connection-Added K s
            (λ fd n found. let (c, there, on) = sound.mapped fd n found in (c, there)))
          (handle_new_connection-IfDone inputs s sound fresh))
        (λ s' (a, (now, w)). (a, now, w))
