-- ===== src/Options.antt =====
-- struct CommandOpts of src/command_opts.h, and ParseArgument of src/rpc_bench.cc over the answers of
-- getopt_long. What stoi and stof make of a string is a parameter, and `D` is double.
pub mod Last
pub mod Parse
use rpc_bench.Common.{
  ℕ, ◌+◌, ◌-◌, ◌^◌, ℤ, pos, negsuc, Bool, true, false, List, [], ◌∷◌, Option, none, some,
}
use Prim.Native.String.{String}

pub record CommandOpts (D : Type 0) : Type 0 where
  pub is_server : Option Bool
  pub host : Option String
  pub port : ℤ
  pub app : Option String
  pub rpc : Option String
  pub proto : Option String
  pub data_size : ℕ
  pub concurrency : ℤ
  pub thread : ℤ
  pub persistent : Bool
  pub time_duration_sec : D
  pub monitor_time_sec : Option D
  pub monitor_warmup_sec : D

-- One answer of getopt_long: the option with `optarg`. `unknown` is '?' or a value of no case.
pub data Flag : Type 0 where
  help : Flag
  port proto app rpc data_size concurrency thread time monitor_time warmup : String → Flag
  persistent : Flag
  unknown : Flag

-- A run of ParseArgument: a return of `err`, exit(0) after the usage, or an exception of stoi or
-- stof.
pub data Parsed (A : Type 0) : Type 0 where
  returned : (err : ℕ) → A → Parsed A
  exited : Parsed A
  thrown : Parsed A

-- The conversion of an int to size_t.
unfoldable pub size_of_int : ℤ → ℕ
size_of_int (pos n) = n
size_of_int (negsuc n) = 2 ^ 64 - 1 - n

module _ (D : Type 0) (of_int : ℤ → D) (stoi : String → Option ℤ) (stof : String → Option D) where
  -- CommandOpts().
  unfoldable pub default_opts : CommandOpts D
  default_opts = record {
    is_server = none;
    host = none;
    port = pos 18000;
    app = none;
    rpc = none;
    proto = none;
    data_size = 0;
    concurrency = pos 32;
    thread = pos 1;
    persistent = false;
    time_duration_sec = of_int (pos 10);
    monitor_time_sec = none;
    monitor_warmup_sec = of_int (pos 1);
  }

  -- What a case of the switch does: go on with new options, leave by `goto out1`, or not return.
  pub data Next : Type 0 where
    goes_on : CommandOpts D → Next
    out1 exits throws : Next

  parsed {ℓ} : {A : Type ℓ} → Option A → (A → CommandOpts D) → Next
  parsed none f = throws
  parsed (some a) f = goes_on (f a)

  -- switch (c).
  unfoldable pub take_flag : CommandOpts D → Flag → Next
  unfolding parsed
  take_flag opts help = exits
  take_flag opts (port s) = parsed (stoi s) (λ n. record opts { port = n })
  take_flag opts (app s) = goes_on (record opts { app = some s })
  take_flag opts (rpc s) = goes_on (record opts { rpc = some s })
  take_flag opts (proto s) = goes_on (record opts { proto = some s })
  take_flag opts (data_size s) = parsed (stoi s) (λ n. record opts { data_size = size_of_int n })
  take_flag opts (concurrency s) = parsed (stoi s) (λ n. record opts { concurrency = n })
  take_flag opts (thread s) = parsed (stoi s) (λ n. record opts { thread = n })
  take_flag opts persistent = goes_on (record opts { persistent = true })
  take_flag opts (monitor_time s) = parsed (stof s) (λ x. record opts { monitor_time_sec = some x })
  take_flag opts (warmup s) = parsed (stof s) (λ x. record opts { monitor_warmup_sec = x })
  take_flag opts (time s) = parsed (stoi s) (λ n. record opts { time_duration_sec = of_int n })
  take_flag opts unknown = out1

  -- After the loop: what getopt_long left from `optind` on.
  unfoldable pub take_rest : CommandOpts D → List String → Parsed (CommandOpts D)
  take_rest opts [] = returned 0 (record opts { is_server = some true })
  take_rest opts (host ∷ []) = returned 0 (record opts { is_server = some false; host = some host })
  take_rest opts (_ ∷ _ ∷ _) = returned 1 opts

  unfoldable pub parse_argument : CommandOpts D → List Flag → List String → Parsed (CommandOpts D)
  parse_argument opts [] rest = take_rest opts rest
  parse_argument opts (flag ∷ flags) rest = elim (take_flag opts flag) [
    | goes_on opts' ↦ parse_argument opts' flags rest
    | out1 ↦ returned 1 opts
    | exits ↦ exited
    | throws ↦ thrown
  ]
