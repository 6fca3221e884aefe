-- ===== src/Tests/Loop.antt =====
-- The theorems on the server's loop and the client at concrete inputs.
use rpc_bench.Common.{ℕ, pos, refl, List, [], ◌∷◌, Option, some, true, false}
use rpc_bench.Kernel.Script.{World}
use rpc_bench.Endpoint.{Endpoint}
use rpc_bench.Server.{Server}
use rpc_bench.Meter.{Meter, add_bytes}
use rpc_bench.Client.{Round, count_round, run}
use rpc_bench.Client.Totals.{IsOver, run-IsOver}
use rpc_bench.Tests.Data.{waiting_endpoint}

abbrev one_object : ℕ → Option (Endpoint World)
one_object n = some waiting_endpoint

abbrev server : Server World
server = record {
  process = waiting_endpoint.process;
  listener = pos 3;
  poll = pos 4;
  endpoints = (pos 5, 7) ∷ [];
  objects = one_object;
  fresh = 8;
}

abbrev rounds : List Round
rounds =
    record { success = true; metered_at = 1; now = 2 }
    ∷ (record { success = false; metered_at = 0; now = 8 }
        ∷ (record { success = true; metered_at = 11; now = 12 } ∷ []))

abbrev quiet_meter : Meter
quiet_meter = record {
  sample = 1;
  cnt = 0;
  bytes = 0;
  qps = 0;
  tp = 0;
  interval = 1000;
  disable = true;
}

run-IsOver_example : IsOver 10 100 0 rounds (200, quiet_meter)
unfolding run count_round add_bytes
run-IsOver_example = run-IsOver 0 10 100 rounds (0, quiet_meter) (200, quiet_meter) refl
