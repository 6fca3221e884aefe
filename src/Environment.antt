-- ===== src/Environment.antt =====
-- GetEnvOrDefault of src/prism/utils.h, where `env` is getenv(3) and `read` is the conversion that
-- the macro names, and the settings that the program takes from it.
use rpc_bench.Common.{ℤ, pos, ◌==ℤ◌, Bool, not, Option, none, some}
use Prim.Native.String.{String}

unfoldable pub get_env_or_default :
    {A : Type 0} → (String → Option String) → (String → A) → String → A → A
get_env_or_default env read name default_value = elim (env name) [
  | none ↦ default_value
  | some value ↦ read value
]

module _ (env : String → Option String) (atoi : String → ℤ) where
  -- `disable` of a meter, as a test.
  unfoldable pub meter_disabled : Bool
  meter_disabled = not (get_env_or_default env atoi "RPC_BENCH_DISABLE_METER" (pos 0) ==ℤ pos 0)

  -- timeout_ms and max_events of the server's loop.
  unfoldable pub epoll_timeout_ms : ℤ
  epoll_timeout_ms = get_env_or_default env atoi "EPOLL_TIMEOUT_MS" (pos 1000)

  unfoldable pub epoll_max_events : ℤ
  epoll_max_events = get_env_or_default env atoi "EPOLL_MAX_EVENTS" (pos 1024)

  -- new_max_threads of the gRPC servers.
  unfoldable pub grpc_max_threads : ℤ → ℤ
  grpc_max_threads hardware_concurrency =
      get_env_or_default env atoi "RPC_BENCH_GRPC_MAX_THREAD" hardware_concurrency
