-- ===== src/Latency/Timing.antt =====
-- When the client of the latency application stops, and what it prints.
use rpc_bench.Common.{
  ℕ, suc, ◌+◌, ◌-◌, ◌≤◌, ◌<◌, ◌≡◌, refl, ap, ◌⊎◌, inl, inr, true, false, ◌&&◌, List, [], ◌∷◌, ◌++◌,
  some, none, length, length-append, All, ltb, Bool-cases, if◌then◌else◌, arith,
}
use rpc_bench.Latency.{LatCall, LatRun, lat_round, lat_loop, lat_run}

abbrev pub successes : List LatCall → ℕ
successes [] = 0
successes (c ∷ cs) = if c.ok then suc (successes cs) else successes cs

abbrev pub failures : List LatCall → ℕ
failures [] = 0
failures (c ∷ cs) = if c.ok then failures cs else suc (failures cs)

-- The loop ended over `cs`: the call `final` succeeded after the time, and none of `before` did.
pub record Stopped (start time_dura : ℕ) (cs : List LatCall) (samples overlimit : ℕ) (r : LatRun)
    : Type 0 where
  pub before : List LatCall
  pub final : LatCall
  pub unused : List LatCall
  pub split : cs ≡ before ++ (final ∷ unused)
  pub final_ok : final.ok ≡ true
  pub final_late : start + time_dura < final.now
  pub not_late : All (λ c. (c.ok ≡ false) ⊎ (c.now ≤ start + time_dura)) before
  pub sampled : length r.latencies ≡ samples + successes before + 1
  pub failed : r.overlimit ≡ overlimit + failures before

-- One more call before the others.
Stopped-cons :
    (start time_dura : ℕ) (c : LatCall) (cs : List LatCall) (r r' : LatRun)
    → (c.ok && ltb (start + time_dura) c.now) ≡ false
    → Stopped start time_dura cs (length (lat_round c r).latencies) (lat_round c r).overlimit r'
    → Stopped start time_dura (c ∷ cs) (length r.latencies) r.overlimit r'
unfolding lat_round
Stopped-cons start time_dura c cs r r' e s = elim (Bool-cases c.ok) [
  | inl ok ↦ record {
    before = c ∷ s.before;
    final = s.final;
    unused = s.unused;
    split = ap (◌∷◌ c) s.split;
    final_ok = s.final_ok;
    final_late = s.final_late;
    not_late = (inr (ground arith), s.not_late);
    sampled = ground (arith, s.sampled, length-append r.latencies ((c.now - r.last) ∷ []));
    failed = ground (arith, s.failed);
  }
  | inr bad ↦ record {
    before = c ∷ s.before;
    final = s.final;
    unused = s.unused;
    split = ap (◌∷◌ c) s.split;
    final_ok = s.final_ok;
    final_late = s.final_late;
    not_late = (inl bad, s.not_late);
    sampled = ground (arith, s.sampled);
    failed = ground (arith, s.failed);
  }
]

lat_loop-Stopped :
    (start time_dura : ℕ) (cs : List LatCall) (r r' : LatRun)
    → lat_loop start time_dura cs r ≡ some r'
    → Stopped start time_dura cs (length r.latencies) r.overlimit r'
unfolding lat_loop lat_round
lat_loop-Stopped start time_dura [] r r' e = cc
lat_loop-Stopped start time_dura (c ∷ cs) r r' e =
    elim (Bool-cases (c.ok && ltb (start + time_dura) c.now)) [
      | inr on ↦
          Stopped-cons start time_dura c cs r r' on
            (lat_loop-Stopped start time_dura cs (lat_round c r) r' (ground arith))
      | inl over ↦ record {
        before = [];
        final = c;
        unused = cs;
        split = refl;
        final_ok = ground arith;
        final_late = ground arith;
        not_late = tt;
        sampled = ground (arith, length-append r.latencies ((c.now - r.last) ∷ []));
        failed = ground arith;
      }
    ]

-- When the client's loop ends, it ends after the first call that succeeds past the time; there is
-- one sample for each success up to there, and overlimit counts the other calls.
pub lat_run-Stopped :
    (start time_dura : ℕ) (cs : List LatCall) (r : LatRun)
    → lat_run start time_dura cs ≡ some r
    → Stopped start time_dura cs 0 0 r
unfolding lat_run
lat_run-Stopped start time_dura cs r e =
    lat_loop-Stopped start time_dura cs (record { overlimit = 0; latencies = []; last = start }) r e

lat_loop-failing :
    (start time_dura : ℕ) (cs : List LatCall) (r : LatRun)
    → All (λ c. c.ok ≡ false) cs
    → lat_loop start time_dura cs r ≡ none
unfolding lat_loop
lat_loop-failing start time_dura [] r bad = refl
lat_loop-failing start time_dura (c ∷ cs) r bad =
    let ih = lat_loop-failing start time_dura cs (lat_round c r) bad.1 in ground (arith, bad.0)

-- As long as no call succeeds, the loop of the latency client goes on, whatever the time.
pub lat_run-failing :
    (start time_dura : ℕ) (cs : List LatCall)
    → All (λ c. c.ok ≡ false) cs
    → lat_run start time_dura cs ≡ none
unfolding lat_run
lat_run-failing start time_dura cs bad = lat_loop-failing start time_dura cs _ bad
