-- ===== src/Program/Outcomes.antt =====
-- How the process ends, by its command line, and what the monitor prints.
use rpc_bench.Common.{
  ◌≡◌, ◌≤◌, ◌<◌, arith, refl, sym, ap, ◌∙◌, inl, inr, ◌⊎◌, zero, suc, ℕ, ℤ, Bool, true, false, List,
  [], ◌∷◌, length, Option, none, some, Outcome, done, fatal, fault, hung, Option-cases, deref,
  ◌>>=◌,
}
use rpc_bench.Options.{
  CommandOpts, Flag, Parsed, returned, exited, thrown, help, unknown, default_opts,
}
use rpc_bench.Options.Last.{Ready, Explained, last_app, last_rpc, first_last, is_bad}
use rpc_bench.Options.Parse.{parse_argument-Explained}
use rpc_bench.App.{App, Kind, server_app, client_app, create}
use rpc_bench.App.Choice.{IsNamed, Chosen, made, create_named-Chosen}
use rpc_bench.Program.{End, usage_shown, help_shown, uncaught, ran, run_app, main}
use Prim.Native.String.{String}

-- The last -a option, and the last -r option, name application `x`, a server without a host and a
-- client with one.
pub record IsAsked (flags : List Flag) (rest : List String) (x : App) : Type 0 where
  pub app : String
  pub rpc : String
  pub kind : Kind
  pub last_a : last_app none flags ≡ some app
  pub last_r : last_rpc none flags ≡ some rpc
  pub named : IsNamed kind app rpc
  pub side :
      ((rest ≡ []) × (x ≡ server_app kind))
      ⊎ ((h : String) × (rest ≡ h ∷ []) × (x ≡ client_app kind))

module _ (D : Type 0) (of_int : ℤ → D) (stoi : String → Option ℤ) (stof : String → Option D)
    (run : App → ℕ) where
  -- What an end of the process says of the command line.
  abbrev pub Ended : List Flag → List String → Outcome End → Type 0
  Ended flags rest (done usage_shown) =
      (first_last D of_int stoi stof flags ≡ some unknown)
      ⊎ ((first_last D of_int stoi stof flags ≡ none) × (2 ≤ length rest))
  Ended flags rest (done help_shown) = first_last D of_int stoi stof flags ≡ some help
  Ended flags rest (done uncaught) =
      (f : Flag) × (first_last D of_int stoi stof flags ≡ some f)
      × (is_bad D of_int stoi stof f ≡ true)
  Ended flags rest (done (ran monitored x code)) =
      (first_last D of_int stoi stof flags ≡ none) × IsAsked flags rest x × (code ≡ run x)
  Ended flags rest (fatal cause) =
      (first_last D of_int stoi stof flags ≡ none)
      × (length rest < 2)
      × (¬ (last_app none flags ≡ some "bandwidth") ⊎ (last_rpc none flags ≡ none))
  Ended flags rest fault =
      (first_last D of_int stoi stof flags ≡ none)
      × (length rest < 2)
      × (last_app none flags ≡ some "bandwidth")
  Ended flags rest hung = ⊥

  -- What main does with an application that was chosen.
  Chosen-Ended :
      (flags : List Flag) (rest : List String) (monitored b : Bool) (app rpc : String)
      → first_last D of_int stoi stof flags ≡ none
      → length rest < 2
      → last_app none flags ≡ some app
      → last_rpc none flags ≡ some rpc
      → ((k : Kind)
          → ((rest ≡ []) × (made b k ≡ server_app k))
            ⊎ ((h : String) × (rest ≡ h ∷ []) × (made b k ≡ client_app k)))
      → (m : Outcome (Option App)) → Chosen b app rpc m
      → Ended flags rest (m >>= λ o. deref o >>= λ x. done (ran monitored x (run x)))
  Chosen-Ended flags rest monitored b app rpc went few a r side (done (some x)) (k, named, e) = (
    went,
    record {
      app = app;
      rpc = rpc;
      kind = k;
      last_a = a;
      last_r = r;
      named = named;
      side = elim (side k) [
        | inl (empty, server) ↦ inl (empty, e ∙ server)
        | inr (h, host, client) ↦ inr (h, host, e ∙ client)
      ];
    },
    refl,
  )
  Chosen-Ended flags rest monitored b app rpc went few a r side (done none) h =
      (went, few, a ∙ ap some h)
  Chosen-Ended flags rest monitored b app rpc went few a r side (fatal cause) h =
      (went, few, inl (λ e. h cc))
  Chosen-Ended flags rest monitored b app rpc went few a r side fault h = absurd h
  Chosen-Ended flags rest monitored b app rpc went few a r side hung h = h

  create-Ended :
      (flags : List Flag) (rest : List String) (monitored : Bool) (o : CommandOpts D)
      → first_last D of_int stoi stof flags ≡ none
      → length rest < 2
      → Ready D of_int stoi stof o rest
      → o.app ≡ last_app none flags
      → o.rpc ≡ last_rpc none flags
      → Ended flags rest (create o >>= λ m. deref m >>= λ x. done (ran monitored x (run x)))
  unfolding create
  create-Ended flags rest monitored o went few ready ea er = elim (Option-cases o.app) [
    | inl missing ↦ rw (missing, create) (went, few, inl (λ e. cc))
    | inr (app, ha) ↦ elim (Option-cases o.rpc) [
      | inl missing ↦ rw (ha, missing, create) (went, few, inr (sym er ∙ missing))
      | inr (rpc, hr) ↦
          rw (ha, hr, create)
            (elim ready [
              | inl (empty, server, host) ↦
                  rw (server, create)
                    (Chosen-Ended flags rest monitored true app rpc went few (sym ea ∙ ha)
                      (sym er ∙ hr) (λ k. inl (empty, refl)) _ (create_named-Chosen true app rpc).1)
              | inr (h, one, server, host) ↦
                  rw (server, create)
                    (Chosen-Ended flags rest monitored false app rpc went few (sym ea ∙ ha)
                      (sym er ∙ hr) (λ k. inr (h, one, refl)) _
                      (create_named-Chosen false app rpc).1)
            ])
    ]
  ]

  Ready-few :
      (o : CommandOpts D) (rest : List String) → Ready D of_int stoi stof o rest → length rest < 2
  Ready-few o rest (inl (empty, server, host)) = omega (arith, ap length empty)
  Ready-few o rest (inr (h, one, server, host)) = omega (arith, ap length one)

  run_app-Ended :
      (flags : List Flag) (rest : List String) (p : Parsed (CommandOpts D))
      → Explained D of_int stoi stof (default_opts D of_int stoi stof) flags rest p
      → Ended flags rest (run_app run p)
  unfolding run_app default_opts
  run_app-Ended flags rest (returned zero o) (went, ready, set) =
      create-Ended flags rest _ o went (Ready-few o rest ready) ready set.0 set.1
  run_app-Ended flags rest (returned (suc err) o) (one, h) = h
  run_app-Ended flags rest exited h = h
  run_app-Ended flags rest thrown h = h

  -- How main ends: with 1 where an unknown option is the first to end the loop over the options, or
  -- none does and more than one host is left; with 0 where that is --help; with an exception where
  -- it is an option whose argument is no number. Where no option ends the loop and one host or none
  -- is left, main ends with the code of Run of the application that the last -a and -r options name,
  -- the server without a host and the client of the one host else, or with an abort, which comes only
  -- of a name that is missing or of an application other than "bandwidth", or it uses a null pointer,
  -- which comes only of "bandwidth".
  pub main-Ended :
      (flags : List Flag) (rest : List String)
      → Ended flags rest (main D of_int stoi stof run flags rest)
  unfolding main default_opts
  main-Ended flags rest = run_app-Ended flags rest _ (
      parse_argument-Explained D of_int stoi stof (default_opts D of_int stoi stof) flags rest refl)
