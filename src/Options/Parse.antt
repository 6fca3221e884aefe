-- ===== src/Options/Parse.antt =====
-- What ParseArgument leaves in the options.
use rpc_bench.Common.{
  ◌≡◌, refl, sym, ◌∙◌, ap, zero, suc, arith, Option-cases, inl, inr, ℤ, true, false, List, [], ◌∷◌,
  Option, none, some,
}
use rpc_bench.Options.{
  CommandOpts, Flag, Parsed, Next, returned, exited, thrown, goes_on, out1, exits, throws,
  take_flag, take_rest, parse_argument, size_of_int, help, port, app, rpc, proto, data_size,
  concurrency, thread, time, monitor_time, warmup, persistent, unknown,
}
use rpc_bench.Options.Last.{
  or_else, map_option, is_none, is_bad, is_last, Settled, Settled-cons, Explained,
}
use Prim.Native.String.{String}

module _ (D : Type 0) (of_int : ℤ → D) (stoi : String → Option ℤ) (stof : String → Option D) where
  take_rest-Explained :
      (o : CommandOpts D) (rest : List String)
      → o.host ≡ none
      → Explained D of_int stoi stof o [] rest (take_rest D of_int stoi stof o rest)
  unfolding take_rest
  take_rest-Explained o [] e = (
    refl,
    inl (refl, refl, e),
    (refl, refl, refl, refl, refl, refl, refl, refl, refl, refl, refl),
  )
  take_rest-Explained o (x ∷ []) e = (
    refl,
    inr (x, refl, refl, refl),
    (refl, refl, refl, refl, refl, refl, refl, refl, refl, refl, refl),
  )
  take_rest-Explained o (x ∷ y ∷ zs) e = (refl, inr (refl, omega arith))

  -- What a case of the switch says of its option.
  abbrev Taken : CommandOpts D → Flag → Next D of_int stoi stof → Type 0
  Taken o f (goes_on o') =
      (is_last D of_int stoi stof f ≡ false)
      × Settled D of_int stoi stof o (f ∷ []) o'
      × (o'.host ≡ o.host)
  Taken o f out1 = f ≡ unknown
  Taken o f exits = f ≡ help
  Taken o f throws = (is_last D of_int stoi stof f ≡ true) × (is_bad D of_int stoi stof f ≡ true)

  take_flag-Taken : (o : CommandOpts D) (f : Flag) → Taken o f (take_flag D of_int stoi stof o f)
  unfolding take_flag
  take_flag-Taken o help = refl
  take_flag-Taken o unknown = refl
  take_flag-Taken o (app s) =
      (refl, (refl, refl, refl, refl, refl, refl, refl, refl, refl, refl, refl), refl)
  take_flag-Taken o (rpc s) =
      (refl, (refl, refl, refl, refl, refl, refl, refl, refl, refl, refl, refl), refl)
  take_flag-Taken o (proto s) =
      (refl, (refl, refl, refl, refl, refl, refl, refl, refl, refl, refl, refl), refl)
  take_flag-Taken o (port s) = elim (Option-cases (stoi s)) [
    | inl bad ↦ rw (bad, take_flag) (ap is_none bad, ap is_none bad)
    | inr (n, good) ↦
        rw (good, take_flag)
          (
            ap is_none good,
            (
              refl,
              refl,
              refl,
              sym (ap (or_else o.port) good),
              refl,
              refl,
              refl,
              refl,
              refl,
              refl,
              refl,
            ),
            refl,
          )
  ]
  take_flag-Taken o (data_size s) = elim (Option-cases (stoi s)) [
    | inl bad ↦ rw (bad, take_flag) (ap is_none bad, ap is_none bad)
    | inr (n, good) ↦
        rw (good, take_flag)
          (
            ap is_none good,
            (
              refl,
              refl,
              refl,
              refl,
              sym (ap (λ x. or_else o.data_size (map_option size_of_int x)) good),
              refl,
              refl,
              refl,
              refl,
              refl,
              refl,
            ),
            refl,
          )
  ]
  take_flag-Taken o (concurrency s) = elim (Option-cases (stoi s)) [
    | inl bad ↦ rw (bad, take_flag) (ap is_none bad, ap is_none bad)
    | inr (n, good) ↦
        rw (good, take_flag)
          (
            ap is_none good,
            (
              refl,
              refl,
              refl,
              refl,
              refl,
              sym (ap (or_else o.concurrency) good),
              refl,
              refl,
              refl,
              refl,
              refl,
            ),
            refl,
          )
  ]
  take_flag-Taken o (thread s) = elim (Option-cases (stoi s)) [
    | inl bad ↦ rw (bad, take_flag) (ap is_none bad, ap is_none bad)
    | inr (n, good) ↦
        rw (good, take_flag)
          (
            ap is_none good,
            (
              refl,
              refl,
              refl,
              refl,
              refl,
              refl,
              sym (ap (or_else o.thread) good),
              refl,
              refl,
              refl,
              refl,
            ),
            refl,
          )
  ]
  take_flag-Taken o (persistent) =
      (refl, (refl, refl, refl, refl, refl, refl, refl, refl, refl, refl, refl), refl)
  take_flag-Taken o (time s) = elim (Option-cases (stoi s)) [
    | inl bad ↦ rw (bad, take_flag) (ap is_none bad, ap is_none bad)
    | inr (n, good) ↦
        rw (good, take_flag)
          (
            ap is_none good,
            (
              refl,
              refl,
              refl,
              refl,
              refl,
              refl,
              refl,
              refl,
              sym (ap (λ x. or_else o.time_duration_sec (map_option of_int x)) good),
              refl,
              refl,
            ),
            refl,
          )
  ]
  take_flag-Taken o (monitor_time s) = elim (Option-cases (stof s)) [
    | inl bad ↦ rw (bad, take_flag) (ap is_none bad, ap is_none bad)
    | inr (n, good) ↦
        rw (good, take_flag)
          (
            ap is_none good,
            (
              refl,
              refl,
              refl,
              refl,
              refl,
              refl,
              refl,
              refl,
              refl,
              sym (ap (λ x. or_else o.monitor_time_sec (map_option some x)) good),
              refl,
            ),
            refl,
          )
  ]
  take_flag-Taken o (warmup s) = elim (Option-cases (stof s)) [
    | inl bad ↦ rw (bad, take_flag) (ap is_none bad, ap is_none bad)
    | inr (n, good) ↦
        rw (good, take_flag)
          (
            ap is_none good,
            (
              refl,
              refl,
              refl,
              refl,
              refl,
              refl,
              refl,
              refl,
              refl,
              refl,
              sym (ap (or_else o.monitor_warmup_sec) good),
            ),
            refl,
          )
  ]

  -- On options without a host: with err = 0 no option ended the loop, the options are those of a
  -- server when nothing is left of the line, or of a client of the one host that is left, and each
  -- other field has the value of the last of its options, or the old one. err is 1, if it is not 0,
  -- and comes of an unknown option that is the first to end the loop, or of more than one host
  -- where none does; exit of --help, and an exception of an argument that is no number, each as the
  -- first to end the loop. So each of these comes exactly then.
  pub parse_argument-Explained :
      (o : CommandOpts D) (flags : List Flag) (rest : List String)
      → o.host ≡ none
      → Explained D of_int stoi stof o flags rest (parse_argument D of_int stoi stof o flags rest)
  unfolding parse_argument
  parse_argument-Explained o [] rest e = take_rest-Explained o rest e
  parse_argument-Explained o (f ∷ flags) rest e =
      from (take_flag D of_int stoi stof o f) (take_flag-Taken o f)
        (λ o' same. parse_argument-Explained o' flags rest (same ∙ e))
    where
      later :
          (o' : CommandOpts D) (p : Parsed (CommandOpts D))
          → is_last D of_int stoi stof f ≡ false
          → Settled D of_int stoi stof o (f ∷ []) o'
          → Explained D of_int stoi stof o' flags rest p
          → Explained D of_int stoi stof o (f ∷ flags) rest p
      later o' (returned zero r) go first (none_last, ready, set) =
          (rw go none_last, ready, Settled-cons D of_int stoi stof f flags o o' r first set)
      later o' (returned (suc n) r) go first (one, inl h) = (one, inl (rw go h))
      later o' (returned (suc n) r) go first (one, inr (h, k)) = (one, inr (rw go h, k))
      later o' exited go first h = rw go h
      later o' thrown go first (g, h, k) = (g, rw go h, k)

      from :
          (next : Next D of_int stoi stof)
          → Taken o f next
          → ((o' : CommandOpts D)
              → o'.host ≡ o.host
              → Explained D of_int stoi stof o' flags rest
                  (parse_argument D of_int stoi stof o' flags rest))
          → Explained D of_int stoi stof o (f ∷ flags) rest (elim next [
            | goes_on opts' ↦ parse_argument D of_int stoi stof opts' flags rest
            | out1 ↦ returned 1 o
            | exits ↦ exited
            | throws ↦ thrown
          ])
      from (goes_on o') (go, first, same) next = later o' _ go first (next o' same)
      from out1 h next = (refl, inl (rw h refl))
      from exits h next = rw h refl
      from throws (last, bad) next = (f, rw last refl, bad)
