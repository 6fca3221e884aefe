-- ===== src/App/Choice.antt =====
-- Which applications there are.
use rpc_bench.Common.{
  ◌≡◌, refl, inl, inr, Bool, true, false, Option, none, some, Outcome, done, fatal, fault, hung,
  Bool-cases, if◌then◌else◌,
}
use rpc_bench.App.{
  App, Kind, server_app, client_app, grpc_bw, socket_bw, brpc_bw, zeromq_bw, grpc_lat, grpc_tput,
  hotel_reservation, create_named,
}
use Prim.Native.String.{String}
use text.Mathlib.Text.{◌==◌}
use text.Mathlib.TextEquality.{eq_iff}

-- The names of a kind of application.
unfoldable pub IsNamed : Kind → String → String → Type 0
IsNamed grpc_bw app rpc = (app ≡ "bandwidth") × (rpc ≡ "grpc")
IsNamed socket_bw app rpc = (app ≡ "bandwidth") × (rpc ≡ "socket")
IsNamed brpc_bw app rpc = (app ≡ "bandwidth") × (rpc ≡ "brpc")
IsNamed zeromq_bw app rpc = (app ≡ "bandwidth") × (rpc ≡ "zeromq")
IsNamed grpc_lat app rpc = (app ≡ "latency") × (rpc ≡ "grpc")
IsNamed grpc_tput app rpc = (app ≡ "throughput") × (rpc ≡ "grpc")
IsNamed hotel_reservation app rpc = (app ≡ "hotel_reservation") × (rpc ≡ "grpc")

abbrev pub made : Bool → Kind → App
made b k = if b then server_app k else client_app k

named_created :
    (b : Bool) (k : Kind) (app rpc : String)
    → IsNamed k app rpc
    → create_named (some b) app rpc ≡ done (some (made b k))
unfolding create_named IsNamed
named_created b grpc_bw app rpc (e, f) = rw (e, f) refl
named_created b socket_bw app rpc (e, f) = rw (e, f) refl
named_created b brpc_bw app rpc (e, f) = rw (e, f) refl
named_created b zeromq_bw app rpc (e, f) = rw (e, f) refl
named_created b grpc_lat app rpc (e, f) = rw (e, f) refl
named_created b grpc_tput app rpc (e, f) = rw (e, f) refl
named_created b hotel_reservation app rpc (e, f) = rw (e, f) refl

-- What the choice comes to on names that may be unknown.
abbrev pub Chosen : Bool → String → String → Outcome (Option App) → Type 0
Chosen b app rpc (done (some x)) = (k : Kind) × IsNamed k app rpc × (x ≡ made b k)
Chosen b app rpc (done none) = app ≡ "bandwidth"
Chosen b app rpc (fatal c) = ¬ (app ≡ "bandwidth")
Chosen b app rpc fault = ⊥
Chosen b app rpc hung = ⊥

bandwidth-Chosen :
    (b : Bool) (rpc : String) → Chosen b "bandwidth" rpc (create_named (some b) "bandwidth" rpc)
unfolding create_named IsNamed
bandwidth-Chosen b rpc = (elim (Bool-cases (rpc == "grpc")) [
  | inl f ↦ rw f (grpc_bw, (refl, (eq_iff rpc _).0 f), refl)
  | inr f ↦ rw f (elim (Bool-cases (rpc == "socket")) [
    | inl f ↦ rw f (socket_bw, (refl, (eq_iff rpc _).0 f), refl)
    | inr f ↦ rw f (elim (Bool-cases (rpc == "brpc")) [
      | inl f ↦ rw f (brpc_bw, (refl, (eq_iff rpc _).0 f), refl)
      | inr f ↦ rw f (elim (Bool-cases (rpc == "zeromq")) [
        | inl f ↦ rw f (zeromq_bw, (refl, (eq_iff rpc _).0 f), refl)
        | inr f ↦ rw f refl
      ])
    ])
  ])
])

not_both : {x : Bool} → x ≡ false → x ≡ true → ⊥
not_both e f = cc

other-Chosen :
    (b : Bool) (app rpc : String)
    → (app == "bandwidth") ≡ false
    → Chosen b app rpc (create_named (some b) app rpc)
unfolding create_named IsNamed
other-Chosen b app rpc ne =
    let no : ¬ (app ≡ "bandwidth") = λ e. not_both ne ((eq_iff app "bandwidth").1 e) in
    elim (Bool-cases (app == "latency")) [
      | inl e ↦
          rw (ne, e)
            (elim (Bool-cases (rpc == "grpc")) [
              | inl f ↦ rw f (grpc_lat, ((eq_iff app "latency").0 e, (eq_iff rpc "grpc").0 f), refl)
              | inr f ↦ rw f no
            ])
      | inr e_grpc_lat ↦ elim (Bool-cases (app == "throughput")) [
        | inl e ↦
            rw (ne, e_grpc_lat, e)
              (elim (Bool-cases (rpc == "grpc")) [
                | inl f ↦
                    rw f (grpc_tput, ((eq_iff app "throughput").0 e, (eq_iff rpc "grpc").0 f), refl)
                | inr f ↦ rw f no
              ])
        | inr e_grpc_tput ↦ elim (Bool-cases (app == "hotel_reservation")) [
          | inl e ↦
              rw (ne, e_grpc_lat, e_grpc_tput, e)
                (elim (Bool-cases (rpc == "grpc")) [
                  | inl f ↦ rw f (
                    hotel_reservation,
                    ((eq_iff app "hotel_reservation").0 e, (eq_iff rpc "grpc").0 f),
                    refl,
                  )
                  | inr f ↦ rw f no
                ])
          | inr e_hotel_reservation ↦ rw (ne, e_grpc_lat, e_grpc_tput, e_hotel_reservation) no
        ]
      ]
    ]

-- The server or client of the named kind is created exactly for the seven pairs of names. Without
-- abort, nothing is created for "bandwidth" with another library; every other pair aborts.
pub create_named-Chosen :
    (b : Bool) (app rpc : String)
    → ((k : Kind) → IsNamed k app rpc → create_named (some b) app rpc ≡ done (some (made b k)))
      × Chosen b app rpc (create_named (some b) app rpc)
unfolding create_named IsNamed
create_named-Chosen b app rpc = (
  λ k. named_created b k app rpc,
  elim (Bool-cases (app == "bandwidth")) [
    | inl e ↦ rw ((eq_iff app "bandwidth").0 e) (bandwidth-Chosen b rpc)
    | inr e ↦ other-Chosen b app rpc e
  ],
)
