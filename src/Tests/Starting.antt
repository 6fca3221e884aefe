-- ===== src/Tests/Starting.antt =====
-- Where an application connects, at a concrete command line.
use rpc_bench.Common.{arith, ◌≡◌, refl, ℤ, pos, false, List, [], ◌∷◌, some}
use rpc_bench.Options.{
  CommandOpts, Flag, app, rpc, thread, parse_argument, default_opts, take_flag, take_rest,
}
use rpc_bench.App.{client_app, grpc_tput, create, create_named}
use rpc_bench.Setup.{start, to_string, uri, digits}
use rpc_bench.Setup.Addresses.{Starts, start-Reaches}
use rpc_bench.Setup.Sides.{IsSide, opened, clients_of}
use rpc_bench.Tests.Tools.{read_int}

uri_example : uri "host" (pos 18000) ≡ "host:18000"
unfolding uri to_string digits
uri_example = refl

abbrev throughput_flags : List Flag
throughput_flags = app "throughput" ∷ rpc "grpc" ∷ thread "7" ∷ []

abbrev throughput_options : CommandOpts ℤ
throughput_options = record (default_opts ℤ (λ n. n) read_int read_int) {
  is_server = some false;
  host = some "host";
  app = some "throughput";
  rpc = some "grpc";
  thread = pos 7;
}

start-Reaches_example :
    Starts
      (λ c. 0)
      (λ calls.
        IsSide 18000 ("host" ∷ []) (client_app grpc_tput) calls
        × (opened calls ≡ clients_of throughput_options (client_app grpc_tput)))
      (start (λ c. 0) (pos 4) throughput_options (client_app grpc_tput))
unfolding default_opts parse_argument take_flag take_rest create create_named
start-Reaches_example =
    start-Reaches (λ c. 0) ℤ (λ n. n) read_int read_int (pos 4) throughput_flags ("host" ∷ [])
      throughput_options (client_app grpc_tput) 7 18000 refl refl refl refl (omega arith)
