-- ===== src/Async.antt =====
-- The loops over a gRPC completion queue: GrpcTputClientApp::Job of src/grpc/grpc_tput_app.cc, and
-- the client and the server of src/grpc/hotel_reservation_app.cc. What the queue's Next yields is
-- an argument: a completed call of the client, or the tag of a call of the server.
pub mod Drain
pub mod Waiting
use rpc_bench.Common.{
  ℕ, suc, ◌+◌, ◌*◌, ◌-◌, ◌/◌, ◌%◌, ◌^◌, Bool, true, false, not, List, [], ◌∷◌, Option, none, some,
  Outcome, done, fault, ◌>>=◌, ltb, leb, ◌==◌, if◌then◌else◌,
}
use rpc_bench.Meter.{Meter, add_qps}

-- A call that Next yields: its status, what it sent and received, the clock in AddQps, and the
-- clock at the check of the time.
pub record Completion : Type 0 where
  pub ok : Bool
  pub size : ℕ
  pub ack_size : ℕ
  pub metered_at : ℕ
  pub now : ℕ

-- The locals of the loop; a counter of type long or int has room for the run.
pub record Job : Type 0 where
  pub req_cnt : ℕ
  pub count : ℕ
  pub overlimit : ℕ
  pub rx_size : ℕ
  pub timeout : Bool
  pub time_cnt : ℕ
  pub meter : Meter

-- After `concurrency` calls are started.
unfoldable pub start_job : ℕ → Meter → Job
start_job concurrency meter = record {
  req_cnt = concurrency;
  count = 0;
  overlimit = 0;
  rx_size = 0;
  timeout = false;
  time_cnt = 0;
  meter = meter;
}

-- The status of the call, in Job.
unfoldable pub tput_count : ℕ → Completion → Job → Job
tput_count data_size c j =
    if c.ok
    then record j {
      count = j.count + 1;
      rx_size = (j.rx_size + c.ack_size) % 2 ^ 64;
      meter = (add_qps c.metered_at data_size 1 j.meter).1;
    }
    else record j { overlimit = j.overlimit + 1 }

-- The status of the call, in HotelReservationClientApp::Run.
unfoldable pub hotel_count : Completion → Job → Job
hotel_count c j =
    if c.ok
    then record j {
      count = j.count + 1;
      rx_size = (j.rx_size + c.ack_size) % 2 ^ 64;
      meter = (add_qps c.metered_at c.size 1 j.meter).1;
    }
    else record j { overlimit = j.overlimit + 1; meter = (add_qps c.metered_at 0 0 j.meter).1 }

-- The time is checked at every 1000th call.
unfoldable pub check_time : ℕ → Completion → Job → Job
check_time deadline c j =
    if leb 1000 (j.time_cnt + 1)
    then record j { time_cnt = 0; timeout = ltb deadline c.now }
    else record j { time_cnt = j.time_cnt + 1 }

-- The body of the loop after the status is counted: the call is deleted, and another starts
-- unless the time is over.
unfoldable pub next_call : ℕ → Completion → Job → Job
next_call deadline c j =
    let j' = check_time deadline c (record j { req_cnt = j.req_cnt - 1 }) in
    if j'.timeout then j' else record j' { req_cnt = j'.req_cnt + 1 }

-- while (req_cnt > 0 && cq.Next(&tag, &ok)), with `count_call` for the status.
unfoldable pub run_job : (Completion → Job → Job) → ℕ → List Completion → Job → Job
run_job count_call deadline [] j = j
run_job count_call deadline (c ∷ rest) j =
    let j' = run_job count_call deadline rest (next_call deadline c (count_call c j)) in
    if j.req_cnt == 0 then j else j'

-- GrpcTputClientApp::Job and HotelReservationClientApp::Run over all that Next yields.
unfoldable pub tput_job : ℕ → ℕ → ℕ → Meter → List Completion → Job
tput_job data_size deadline concurrency meter cs =
    run_job (tput_count data_size) deadline cs (start_job concurrency meter)

unfoldable pub hotel_job : ℕ → ℕ → Meter → List Completion → Job
hotel_job deadline concurrency meter cs =
    run_job hotel_count deadline cs (start_job concurrency meter)

-- fast_rand: the new seed, and the number.
unfoldable pub fast_rand : ℕ → ℕ × ℕ
fast_rand seed = let seed' = (214013 * seed + 2531011) % 2 ^ 32 in (seed', seed' / 2 ^ 16 % 2 ^ 15)

-- The index of GenerateWorkload.
unfoldable pub workload_index : ℕ → ℕ × ℕ
workload_index seed = let (seed', n) = fast_rand seed in (seed', if ltb (n % 100) 1 then 0 else 1)

-- AsyncServerCall::CallStatus.
pub data CallStatus : Type 0 where
  create process finish : CallStatus

-- The calls that live, by their tags.
pub record Calls : Type 0 where
  pub live : List (ℕ × CallStatus)
  pub fresh : ℕ

unfoldable pub status_of : ℕ → List (ℕ × CallStatus) → Option CallStatus
status_of tag [] = none
status_of tag ((key, status) ∷ rest) = if key == tag then some status else status_of tag rest

unfoldable pub set_status : ℕ → CallStatus → List (ℕ × CallStatus) → List (ℕ × CallStatus)
set_status tag new [] = []
set_status tag new ((key, status) ∷ rest) =
    let others = set_status tag new rest in
    if key == tag then (key, new) ∷ rest else (key, status) ∷ others

unfoldable pub delete_call : ℕ → List (ℕ × CallStatus) → List (ℕ × CallStatus)
delete_call tag [] = []
delete_call tag ((key, status) ∷ rest) =
    let others = delete_call tag rest in if key == tag then rest else (key, status) ∷ others

-- new AsyncServerCall(service_, cq_): the constructor proceeds from CREATE to PROCESS, and so asks
-- for the next request.
unfoldable pub new_call : Calls → Calls
new_call s = record { live = (s.fresh, process) ∷ s.live; fresh = suc s.fresh }

-- Proceed() of the call `tag`, by its status.
unfoldable pub proceed_from : CallStatus → ℕ → Calls → Calls
proceed_from create tag s = record s { live = set_status tag process s.live }
proceed_from process tag s =
    let s' = new_call s in record s' { live = set_status tag finish s'.live }
proceed_from finish tag s = record s { live = delete_call tag s.live }

-- One round of HandleRpcs; a tag of no live call is a dangling pointer.
unfoldable pub handle_tag : ℕ → Calls → Outcome Calls
handle_tag tag s = elim (status_of tag s.live) [
  | none ↦ fault
  | some status ↦ done (proceed_from status tag s)
]
