-- ===== src/Latency.antt =====
-- The latency application: GrpcLatClientApp::Run and GrpcLatServerApp of
-- src/grpc/grpc_lat_app.{h,cc}, and LatClientApp::print of src/lat_app.cc. What the queue's Next
-- yields is an argument, and so are std::sort and the products with a double. Times are in
-- nanoseconds on a clock that does not go back.
pub mod Timing
pub mod Quantiles
use rpc_bench.Common.{
  ℕ, suc, ◌+◌, ◌-◌, ◌%◌, ◌^◌, ◌&&◌, Bool, true, false, List, [], ◌∷◌, ◌++◌, Option, none, some,
  get_elem?, length, Outcome, done, fault, ◌>>=◌, ltb, if◌then◌else◌, deref,
}
use rpc_bench.Async.{
  CallStatus, create, process, finish, Calls, status_of, set_status, delete_call, new_call,
}

-- A call of the client: its status, the clock when Next yields it, and the clock after its latency
-- is stored.
pub record LatCall : Type 0 where
  pub ok : Bool
  pub now : ℕ
  pub later : ℕ

-- overlimit, latencies and last.
pub record LatRun : Type 0 where
  pub overlimit : ℕ
  pub latencies : List ℕ
  pub last : ℕ

unfoldable pub lat_round : LatCall → LatRun → LatRun
lat_round c r =
    if c.ok
    then record r { latencies = r.latencies ++ ((c.now - r.last) ∷ []); last = c.later }
    else record r { overlimit = r.overlimit + 1 }

-- while (!timeout): what a client has when the loop ends, `none` while it goes on. The time is
-- looked at after a success only.
unfoldable pub lat_loop : ℕ → ℕ → List LatCall → LatRun → Option LatRun
lat_loop start time_dura [] r = none
lat_loop start time_dura (c ∷ rest) r =
    let later = lat_loop start time_dura rest (lat_round c r) in
    if c.ok && ltb (start + time_dura) c.now then some (lat_round c r) else later

unfoldable pub lat_run : ℕ → ℕ → List LatCall → Option LatRun
lat_run start time_dura cs =
    lat_loop start time_dura cs (record { overlimit = 0; latencies = []; last = start })

-- What print shows: the number of samples, their sum, and the samples at 0.5, 0.05, 0.99, 0.999,
-- 0.9999, 0.99999 and 0.999999 of them, and the last.
pub record Summary : Type 0 where
  pub samples : ℕ
  pub sum : ℕ
  pub p50 : ℕ
  pub p5 : ℕ
  pub p99 : ℕ
  pub p999 : ℕ
  pub p9999 : ℕ
  pub p99999 : ℕ
  pub p999999 : ℕ
  pub largest : ℕ

unfoldable pub sum_of : List ℕ → ℕ
sum_of [] = 0
sum_of (x ∷ xs) = x + sum_of xs

-- latencies[i].
unfoldable pub sample_at : List ℕ → ℕ → Outcome ℕ
sample_at xs i = deref (get_elem? xs i)

-- latencies[(int)(q / 10^6 * len)], where `product q len` is the product of the two doubles without
-- its fraction; what no int holds is undefined.
unfoldable pub quantile : (ℕ → ℕ → ℕ) → List ℕ → ℕ → Outcome ℕ
quantile product xs q =
    let i = product q (length xs) in elim (ltb i (2 ^ 31)) [ true ↦ sample_at xs i | false ↦ fault ]

-- print, where `product` is that of doubles.
unfoldable pub print : (List ℕ → List ℕ) → (ℕ → ℕ → ℕ) → List ℕ → Outcome Summary
print sort product latencies = do
  let sorted = sort latencies
  let len = length sorted
  a ← quantile product sorted 500_000
  b ← quantile product sorted 50_000
  c ← quantile product sorted 990_000
  d ← quantile product sorted 999_000
  e ← quantile product sorted 999_900
  f ← quantile product sorted 999_990
  g ← quantile product sorted 999_999
  h ← sample_at sorted ((len + 2 ^ 64 - 1) % 2 ^ 64)
  done (record {
    samples = len;
    sum = sum_of sorted;
    p50 = a;
    p5 = b;
    p99 = c;
    p999 = d;
    p9999 = e;
    p99999 = f;
    p999999 = g;
    largest = h;
  })

-- AsyncServerCall::Proceed of the call `tag`, by its status.
unfoldable pub lat_proceed : CallStatus → ℕ → Calls → Calls
lat_proceed create tag s = record s { live = set_status tag process s.live }
lat_proceed process tag s =
    let s' = new_call s in record s' { live = set_status tag finish s'.live }
lat_proceed finish tag s = record s { live = delete_call tag s.live }

-- A round of GrpcLatServerApp::Job; a tag of no live call is a dangling pointer.
unfoldable pub lat_tag : ℕ → Calls → Outcome Calls
lat_tag tag s = elim (status_of tag s.live) [
  | none ↦ fault
  | some status ↦ done (lat_proceed status tag s)
]

unfoldable pub lat_tags : List ℕ → Calls → Outcome Calls
lat_tags [] s = done s
lat_tags (tag ∷ rest) s = do s' ← lat_tag tag s; lat_tags rest s'

-- GrpcLatServerApp::Job over the tags that Next yields.
unfoldable pub lat_job : List ℕ → Outcome Calls
lat_job tags = lat_tags tags (new_call (record { live = []; fresh = 0 }))
