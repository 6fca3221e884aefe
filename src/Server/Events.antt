-- ===== src/Server/Events.antt =====
-- What the server's loop does to its map of endpoints.
use rpc_bench.Common.{
  Post, Post-bind, ℕ, ◌≡◌, ◌≢◌, if◌then◌else◌, refl, subst, sym, ap, ◌∙◌, ℤ, ◌==ℤ◌, ==ℤ_iff, ◌==◌,
  List, [], ◌∷◌, Option, none, some, Post-mono, arith, Bool-cases, inl, inr,
}
use rpc_bench.Kernel.{Kernel}
use rpc_bench.Socket.{accept_socket}
use rpc_bench.Endpoint.{Endpoint, new_endpoint}
use rpc_bench.Endpoint.Handlers.{on_accepted, destroy_endpoint}
use rpc_bench.Server.{Server, find, erase, assign, release, handle_new_connection}
use rpc_bench.Server.Aborts.{
  Any, Unaccepted, accept_socket-Admits, on_accepted-Admits, destroy_endpoint-Admits,
}

pub find-erase_self : (fd : ℤ) (m : List (ℤ × ℕ)) → find fd (erase fd m) ≡ none
unfolding find erase
find-erase_self fd [] = refl
find-erase_self fd ((key, object) ∷ rest) = elim (Bool-cases (key ==ℤ fd)) [
  | inl e ↦ rw (e, erase) (find-erase_self fd rest)
  | inr e ↦ rw (e, erase) (rw (e, find) (find-erase_self fd rest))
]

pub find-erase_other :
    (fd other : ℤ) (m : List (ℤ × ℕ)) → other ≢ fd → find other (erase fd m) ≡ find other m
unfolding find erase
find-erase_other fd other [] ne = refl
find-erase_other fd other ((key, object) ∷ rest) ne = elim (Bool-cases (key ==ℤ fd)) [
  | inl e ↦
      rw (e, erase)
        (elim (Bool-cases (key ==ℤ other)) [
          | inl e' ↦ absurd (ne (sym ((==ℤ_iff key other).0 e') ∙ (==ℤ_iff key fd).0 e))
          | inr e' ↦ rw (e', find) (find-erase_other fd other rest ne)
        ])
  | inr e ↦
      rw (e, erase)
        (ap (λ r. if key ==ℤ other then some object else r) (find-erase_other fd other rest ne))
]

-- Erasing a key that is not there changes nothing.
pub erase_absent : (fd : ℤ) (m : List (ℤ × ℕ)) → find fd m ≡ none → erase fd m ≡ m
unfolding find erase
erase_absent fd [] h = refl
erase_absent fd ((key, object) ∷ rest) h = elim (Bool-cases (key ==ℤ fd)) [
  | inl e ↦ absurd (ground arith)
  | inr e ↦ rw (e, erase) (ap (◌∷◌ (key, object)) (erase_absent fd rest (ground arith)))
]

-- A new object is in the map under one descriptor, and every other descriptor has what it had.
abbrev pub Added : List (ℤ × ℕ) → ℕ → List (ℤ × ℕ) → Type 0
Added old object new =
    (fd : ℤ) × (find fd new ≡ some object)
    × ((other : ℤ) → other ≢ fd → find other new ≡ find other old)

assign-Added :
    (fd : ℤ) (object : ℕ) (m new : List (ℤ × ℕ)) → new ≡ assign fd object m → Added m object new
unfolding assign find
assign-Added fd object m new e = subst (Added m object) (sym e) (
  fd,
  rw ((==ℤ_iff fd fd).1 refl) refl,
  λ other ne. elim (Bool-cases (fd ==ℤ other)) [
    | inl same ↦ absurd (ne (sym ((==ℤ_iff fd other).0 same)))
    | inr apart ↦ rw (apart, find) (find-erase_other fd other m ne)
  ],
)

-- Every object in the map is there.
abbrev pub IsLive : {W : Type 0} → Server W → Type 0
IsLive {W} s =
    (fd : ℤ) (object : ℕ)
    → find fd s.endpoints ≡ some object
    → (e : Endpoint W) × (s.objects object ≡ some e)

put_there :
    {A : Type 0} (n object : ℕ) (e : A) (old : Option A)
    → (e' : A) × (old ≡ some e')
    → (e' : A) × ((if n == object then some e else old) ≡ some e')
put_there n object e old (e', h) = elim (Bool-cases (n == object)) [
  | inl same ↦ (e, rw same refl)
  | inr apart ↦ (e', rw apart h)
]

module _ (K : Kernel) where
  open K use {World}

  release-endpoints :
      (s : Server World) (m : List (ℤ × ℕ)) (o : Option ℕ)
      → ((object : ℕ) → o ≡ some object → (e : Endpoint World) × (s.objects object ≡ some e))
      → s.endpoints ≡ m
      → Post (Unaccepted K) (λ s'. s'.endpoints ≡ m) (release K s o)
  unfolding release
  release-endpoints s m none live same = same
  release-endpoints s m (some object) live same =
      let (e, there) = live object refl in
      rw (there, release)
        (Post-bind (Unaccepted K) Any (λ s'. s'.endpoints ≡ m)
          (destroy_endpoint K (record e { process = s.process })) _
          (destroy_endpoint-Admits K (record e { process = s.process })) (λ p h. same))

  -- HandleNewConnection, where every object in the map is there, returns or a call on the
  -- new socket fails: a new object is in the map under one descriptor, and every other descriptor has what it had.
  pub handle_new_connection-Added :
      (s : Server World)
      → IsLive s
      → Post
          (Unaccepted K)
          (λ s'. Added s.endpoints s.fresh s'.endpoints)
          (handle_new_connection K s)
  unfolding handle_new_connection
  handle_new_connection-Added s live =
      Post-bind (Unaccepted K) Any (λ s'. Added s.endpoints s.fresh s'.endpoints)
        (accept_socket K s.process.world s.listener) _
        (accept_socket-Admits K s.process.world s.listener)
        (λ accepted h.
          Post-bind (Unaccepted K) Any (λ s'. Added s.endpoints s.fresh s'.endpoints)
            (on_accepted K
              (new_endpoint (record s.process { world = accepted.1 }) s.poll s.fresh accepted.0))
            _ (on_accepted-Admits K _)
            (λ e h'.
              Post-mono (Unaccepted K) (λ s'. s'.endpoints ≡ assign e.sock s.fresh s.endpoints)
                (λ s'. Added s.endpoints s.fresh s'.endpoints) _
                (release-endpoints _ _ (find e.sock s.endpoints)
                  (λ object found.
                    put_there object s.fresh e (s.objects object) (live e.sock object found))
                  refl)
                (λ s' same. assign-Added e.sock s.fresh s.endpoints s'.endpoints same)))
