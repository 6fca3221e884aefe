-- ===== src/Tests/Queue.antt =====
-- The theorems on the loops over a completion queue at concrete inputs.
use rpc_bench.Common.{◌+◌, ◌≡◌, refl, true, false, List, [], ◌∷◌, arith}
use rpc_bench.Async.{Completion, Job, hotel_count, run_job}
use rpc_bench.Async.Drain.{run_job-Drained, hotel_count-Counts}

abbrev late_job : Job
late_job = record {
  req_cnt = 2;
  count = 5;
  overlimit = 1;
  rx_size = 0;
  timeout = true;
  time_cnt = 3;
  meter = record {
    sample = 1;
    cnt = 0;
    bytes = 0;
    qps = 0;
    tp = 0;
    interval = 1000;
    disable = true;
  };
}

abbrev last_calls : List Completion
last_calls =
    record { ok = true; size = 4; ack_size = 4; metered_at = 20; now = 21 }
    ∷ (record { ok = false; size = 4; ack_size = 0; metered_at = 22; now = 23 } ∷ [])

run_job-Drained_example :
    ((run_job hotel_count 10 last_calls late_job).req_cnt ≡ 0)
    × ((run_job hotel_count 10 last_calls late_job).count
          + (run_job hotel_count 10 last_calls late_job).overlimit
        ≡ late_job.count + late_job.overlimit + late_job.req_cnt)
run_job-Drained_example =
    run_job-Drained hotel_count hotel_count-Counts 10 last_calls late_job refl
      (omega arith, (omega arith, tt)) (omega arith)
