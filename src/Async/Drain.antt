-- ===== src/Async/Drain.antt =====
-- How the clients' loop ends.
use rpc_bench.Common.{
  ℕ, ◌+◌, ◌-◌, ◌<◌, ◌≤◌, ◌≡◌, ◌∙◌, true, List, [], ◌∷◌, All, arith, length, Bool-cases, inl, inr,
  ◌==◌,
}
use rpc_bench.Async.{Completion, Job, tput_count, hotel_count, check_time, next_call, run_job}

-- A way of counting that leaves the loop's control alone and counts each call once.
pub record Counts (count_call : Completion → Job → Job) : Type 0 where
  pub req_cnt : (c : Completion) (j : Job) → (count_call c j).req_cnt ≡ j.req_cnt
  pub timeout : (c : Completion) (j : Job) → (count_call c j).timeout ≡ j.timeout
  pub once :
      (c : Completion) (j : Job)
      → (count_call c j).count + (count_call c j).overlimit ≡ j.count + j.overlimit + 1

pub tput_count-Counts : (data_size : ℕ) → Counts (tput_count data_size)
unfolding tput_count
tput_count-Counts data_size = record {
  req_cnt = λ c j. ground arith;
  timeout = λ c j. ground arith;
  once = λ c j. ground arith;
}

pub hotel_count-Counts : Counts hotel_count
unfolding hotel_count
hotel_count-Counts = record {
  req_cnt = λ c j. ground arith;
  timeout = λ c j. ground arith;
  once = λ c j. ground arith;
}

next_call-late :
    (deadline : ℕ) (c : Completion) (j : Job)
    → deadline < c.now
    → j.timeout ≡ true
    → ((next_call deadline c j).req_cnt ≡ j.req_cnt - 1)
      × ((next_call deadline c j).timeout ≡ true)
      × ((next_call deadline c j).count + (next_call deadline c j).overlimit
          ≡ j.count + j.overlimit)
unfolding next_call check_time
next_call-late deadline c j late e = (ground arith, ground arith, ground arith)

-- Once the time is over, the loop of a client, over calls that come after the time, takes every
-- call still under way, counts each once, and ends with none left.
pub run_job-Drained :
    (count_call : Completion → Job → Job)
    → Counts count_call
    → (deadline : ℕ) (cs : List Completion) (j : Job) → j.timeout ≡ true
    → All (λ c. deadline < c.now) cs
    → j.req_cnt ≤ length cs
    → ((run_job count_call deadline cs j).req_cnt ≡ 0)
      × ((run_job count_call deadline cs j).count + (run_job count_call deadline cs j).overlimit
          ≡ j.count + j.overlimit + j.req_cnt)
unfolding run_job
run_job-Drained f counts deadline [] j e late enough = (omega arith, omega arith)
run_job-Drained f counts deadline (c ∷ rest) j e late enough = elim (Bool-cases (j.req_cnt == 0)) [
  | inl none_left ↦ rw (none_left, run_job) (ground arith, ground arith)
  | inr some_left ↦
      let step = next_call-late deadline c (f c j) late.0 (counts.timeout c j ∙ e) in
      let ih =
        run_job-Drained f counts deadline rest (next_call deadline c (f c j)) step.1 late.1
          (omega (arith, step.0, counts.req_cnt c j)) in
      rw (some_left, run_job)
        (ih.0, ground (arith, ih.1, step.0, step.2, counts.req_cnt c j, counts.once c j))
]
