-- ===== src/Options/Last.antt =====
-- What the options of a command line say, for the theorems on ParseArgument.
use rpc_bench.Common.{
  ℕ, ◌≡◌, ◌∙◌, ap, ◌≤◌, zero, suc, length, ◌⊎◌, ℤ, Bool, true, false, List, [], ◌∷◌, Option, none,
  some, if◌then◌else◌,
}
use rpc_bench.Options.{
  CommandOpts, Flag, Parsed, returned, exited, thrown, size_of_int, help, port, app, rpc, proto,
  data_size, concurrency, thread, time, monitor_time, warmup, persistent, unknown,
}
use Prim.Native.String.{String}

-- The last value that `pick` finds in the options, or `old`.
abbrev pub or_else {ℓ} : {A : Type ℓ} → A → Option A → A
or_else old none = old
or_else old (some a) = a

abbrev pub last_of {ℓ} : {A : Type ℓ} → (Flag → Option A) → A → List Flag → A
last_of pick old [] = old
last_of pick old (f ∷ flags) = last_of pick (or_else old (pick f)) flags

abbrev pub map_option {ℓ κ} : {A : Type ℓ} {B : Type κ} → (A → B) → Option A → Option B
map_option f none = none
map_option f (some a) = some (f a)

abbrev pub pick_app : Flag → Option (Option String)
pick_app (app s) = some (some s)
pick_app _ = none

abbrev pub pick_rpc : Flag → Option (Option String)
pick_rpc (rpc s) = some (some s)
pick_rpc _ = none

abbrev pub pick_proto : Flag → Option (Option String)
pick_proto (proto s) = some (some s)
pick_proto _ = none

-- The value of the last `app` and of the last `rpc` option, or what stood there before.
abbrev pub last_app : Option String → List Flag → Option String
last_app old flags = last_of pick_app old flags

abbrev pub last_rpc : Option String → List Flag → Option String
last_rpc old flags = last_of pick_rpc old flags

abbrev pub is_none {ℓ} : {A : Type ℓ} → Option A → Bool
is_none none = true
is_none (some a) = false

module _ (D : Type 0) (of_int : ℤ → D) (stoi : String → Option ℤ) (stof : String → Option D) where
  abbrev pub pick_port : Flag → Option (ℤ)
  pick_port (port s) = stoi s
  pick_port _ = none

  abbrev pub pick_data_size : Flag → Option (ℕ)
  pick_data_size (data_size s) = map_option size_of_int (stoi s)
  pick_data_size _ = none

  abbrev pub pick_concurrency : Flag → Option (ℤ)
  pick_concurrency (concurrency s) = stoi s
  pick_concurrency _ = none

  abbrev pub pick_thread : Flag → Option (ℤ)
  pick_thread (thread s) = stoi s
  pick_thread _ = none

  abbrev pub pick_persistent : Flag → Option (Bool)
  pick_persistent (persistent) = some true
  pick_persistent _ = none

  abbrev pub pick_time_duration_sec : Flag → Option (D)
  pick_time_duration_sec (time s) = map_option of_int (stoi s)
  pick_time_duration_sec _ = none

  abbrev pub pick_monitor_time_sec : Flag → Option (Option D)
  pick_monitor_time_sec (monitor_time s) = map_option some (stof s)
  pick_monitor_time_sec _ = none

  abbrev pub pick_monitor_warmup_sec : Flag → Option (D)
  pick_monitor_warmup_sec (warmup s) = stof s
  pick_monitor_warmup_sec _ = none

  -- An option that ends the loop: --help, an unknown one, or one whose argument is not a number.
  abbrev pub is_bad : Flag → Bool
  is_bad (port s) = is_none (stoi s)
  is_bad (data_size s) = is_none (stoi s)
  is_bad (concurrency s) = is_none (stoi s)
  is_bad (thread s) = is_none (stoi s)
  is_bad (time s) = is_none (stoi s)
  is_bad (monitor_time s) = is_none (stof s)
  is_bad (warmup s) = is_none (stof s)
  is_bad _ = false

  abbrev pub is_last : Flag → Bool
  is_last help = true
  is_last unknown = true
  is_last f = is_bad f

  -- The first such option.
  abbrev pub first_last : List Flag → Option Flag
  first_last [] = none
  first_last (f ∷ fs) = let rest = first_last fs in if is_last f then some f else rest

  -- The options of a server or of a client.
  abbrev pub Ready : CommandOpts D → List String → Type 0
  Ready o rest =
      ((rest ≡ []) × (o.is_server ≡ some true) × (o.host ≡ none))
      ⊎ ((h : String) × (rest ≡ h ∷ []) × (o.is_server ≡ some false) × (o.host ≡ some h))

  -- Every field that options set has the value of the last of its options, or the old one.
  abbrev pub Settled : CommandOpts D → List Flag → CommandOpts D → Type 0
  Settled old flags new =
      (new.app ≡ last_of pick_app old.app flags)
      × (new.rpc ≡ last_of pick_rpc old.rpc flags)
      × (new.proto ≡ last_of pick_proto old.proto flags)
      × (new.port ≡ last_of pick_port old.port flags)
      × (new.data_size ≡ last_of pick_data_size old.data_size flags)
      × (new.concurrency ≡ last_of pick_concurrency old.concurrency flags)
      × (new.thread ≡ last_of pick_thread old.thread flags)
      × (new.persistent ≡ last_of pick_persistent old.persistent flags)
      × (new.time_duration_sec ≡ last_of pick_time_duration_sec old.time_duration_sec flags)
      × (new.monitor_time_sec ≡ last_of pick_monitor_time_sec old.monitor_time_sec flags)
      × (new.monitor_warmup_sec ≡ last_of pick_monitor_warmup_sec old.monitor_warmup_sec flags)

  -- What a result says of the options and of the rest of the line. No two of the cases hold at once.
  abbrev pub Explained : CommandOpts D → List Flag → List String → Parsed (CommandOpts D) → Type 0
  Explained old flags rest (returned zero o) =
      (first_last flags ≡ none) × Ready o rest × Settled old flags o
  Explained old flags rest (returned (suc err) o) =
      (err ≡ 0)
      × ((first_last flags ≡ some unknown) ⊎ ((first_last flags ≡ none) × (2 ≤ length rest)))
  Explained old flags rest exited = first_last flags ≡ some help
  Explained old flags rest thrown = (f : Flag) × (first_last flags ≡ some f) × (is_bad f ≡ true)

  pub Settled-cons :
      (f : Flag) (flags : List Flag) (a b c : CommandOpts D)
      → Settled a (f ∷ []) b
      → Settled b flags c
      → Settled a (f ∷ flags) c
  Settled-cons f flags a b c first later = (
    later.0 ∙ ap (λ x. last_of pick_app x flags) first.0,
    later.1 ∙ ap (λ x. last_of pick_rpc x flags) first.1,
    later.2 ∙ ap (λ x. last_of pick_proto x flags) first.2,
    later.3 ∙ ap (λ x. last_of pick_port x flags) first.3,
    later.4 ∙ ap (λ x. last_of pick_data_size x flags) first.4,
    later.5 ∙ ap (λ x. last_of pick_concurrency x flags) first.5,
    later.6 ∙ ap (λ x. last_of pick_thread x flags) first.6,
    later.7 ∙ ap (λ x. last_of pick_persistent x flags) first.7,
    later.8 ∙ ap (λ x. last_of pick_time_duration_sec x flags) first.8,
    later.9 ∙ ap (λ x. last_of pick_monitor_time_sec x flags) first.9,
    later.10 ∙ ap (λ x. last_of pick_monitor_warmup_sec x flags) first.10,
  )
