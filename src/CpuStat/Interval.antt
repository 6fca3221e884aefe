-- ===== src/CpuStat/Interval.antt =====
-- What CpuStats::GetCpuInterval counts.
use rpc_bench.Common.{
  ℕ, ◌+◌, ◌-◌, ◌%◌, ◌^◌, ◌≤◌, ◌<◌, ◌≡◌, refl, ltb, arith, Bool-cases, inl, inr, Post,
}
use rpc_bench.CpuStat.{
  CpuSnapshot, CpuStats, sum, total, sub64, shift_of, get_cpu_interval, average_idle, snapshot,
}

-- The user counters contain the guest counters, and the sum is a uint64_t.
pub record IsCounted (s : CpuSnapshot) : Type 0 where
  pub guest_within : s.guest ≤ s.user
  pub guest_nice_within : s.guest_nice ≤ s.nice
  pub fits : sum s < 2 ^ 64

-- No counter goes back, but for `user` and `nice`.
pub record IsLater (p c : CpuSnapshot) : Type 0 where
  pub guest : p.guest ≤ c.guest
  pub guest_nice : p.guest_nice ≤ c.guest_nice
  pub sys : p.sys ≤ c.sys
  pub idle : p.idle ≤ c.idle
  pub iowait : p.iowait ≤ c.iowait
  pub hardirq : p.hardirq ≤ c.hardirq
  pub softirq : p.softirq ≤ c.softirq
  pub steal : p.steal ≤ c.steal

-- The time of each kind that passed, without the guests in `user` and `nice`; time that went back
-- counts as none.
unfoldable pub elapsed : CpuSnapshot → CpuSnapshot → ℕ
elapsed p c =
    ((c.user - c.guest) - (p.user - p.guest))
    + ((c.nice - c.guest_nice) - (p.nice - p.guest_nice))
    + (c.guest - p.guest)
    + (c.guest_nice - p.guest_nice)
    + (c.sys - p.sys)
    + (c.idle - p.idle)
    + (c.iowait - p.iowait)
    + (c.hardirq - p.hardirq)
    + (c.softirq - p.softirq)
    + (c.steal - p.steal)

sub64_within : (a b : ℕ) → b ≤ a → a < 2 ^ 64 → sub64 a b ≡ a - b
unfolding sub64
sub64_within a b le lt = omega arith

shift_of_lem : (p c : ℕ) → p < 2 ^ 64 → shift_of p c ≡ p - c
unfolding shift_of
shift_of_lem p c lt = ground (arith, sub64_within p c)

wrapped_difference :
    (a b s t : ℕ)
    → a < 2 ^ 64
    → b < 2 ^ 64
    → s < 2 ^ 64
    → a + s ≡ b + t
    → t < 2 ^ 64
    → (sub64 (a % 2 ^ 64) (b % 2 ^ 64) + s % 2 ^ 64) % 2 ^ 64 ≡ t
unfolding sub64
wrapped_difference a b s t ha hb hs e ht = omega arith

-- The time that a pair of counters seems to have gone back.
abbrev back : CpuSnapshot → CpuSnapshot → ℕ
back p c =
    ((p.user - p.guest) - (c.user - c.guest)) + ((p.nice - p.guest_nice) - (c.nice - c.guest_nice))

shifts_lem :
    (p c : CpuSnapshot)
    → IsCounted p
    → IsCounted c
    → shift_of (sub64 p.user p.guest) (sub64 c.user c.guest)
        + shift_of (sub64 p.nice p.guest_nice) (sub64 c.nice c.guest_nice)
      ≡ back p c
shifts_lem p c hp hc =
    rw
      (
        sub64_within p.user p.guest hp.guest_within (omega (arith, hp.fits)),
        sub64_within c.user c.guest hc.guest_within (omega (arith, hc.fits)),
        sub64_within p.nice p.guest_nice hp.guest_nice_within (omega (arith, hp.fits)),
        sub64_within c.nice c.guest_nice hc.guest_nice_within (omega (arith, hc.fits)),
        shift_of_lem (p.user - p.guest) (c.user - c.guest) (omega (arith, hp.fits)),
        shift_of_lem (p.nice - p.guest_nice) (c.nice - c.guest_nice) (omega (arith, hp.fits)),
      )
      refl

pair_lem :
    (u g u' g' : ℕ)
    → g ≤ u
    → g' ≤ u'
    → g ≤ g'
    → u' + ((u - g) - (u' - g')) ≡ u + (((u' - g') - (u - g)) + (g' - g))
pair_lem u g u' g' h h' le = omega arith

balance :
    (p c : CpuSnapshot)
    → IsCounted p
    → IsCounted c
    → IsLater p c
    → sum c + back p c ≡ sum p + elapsed p c
unfolding elapsed
balance p c hp hc l = omega (
  arith,
  pair_lem p.user p.guest c.user c.guest hp.guest_within hc.guest_within l.guest,
  pair_lem p.nice p.guest_nice c.nice c.guest_nice hp.guest_nice_within hc.guest_nice_within
      l.guest_nice,
  l.sys,
  l.idle,
  l.iowait,
  l.hardirq,
  l.softirq,
  l.steal,
)

below : {a b c : ℕ} → a ≤ b → b < c → a < c
below le lt = omega arith

back_fits : (p c : CpuSnapshot) → back p c ≤ sum p
back_fits p c = omega arith

no_more : (a b s t : ℕ) → a + s ≡ b + t → s ≤ b → t ≤ a
no_more a b s t e le = omega arith

elapsed_fits : (p c : CpuSnapshot) → IsCounted p → IsCounted c → IsLater p c → elapsed p c ≤ sum c
elapsed_fits p c hp hc l =
    no_more (sum c) (sum p) (back p c) (elapsed p c) (balance p c hp hc l) (back_fits p c)

among : (a b c d e i f g h j : ℕ) → i ≤ a + b + c + d + e + i + f + g + h + j
among a b c d e i f g h j = omega arith

idle_within : (p c : CpuSnapshot) → c.idle - p.idle ≤ elapsed p c
unfolding elapsed
idle_within p c = among _ _ _ _ _ (c.idle - p.idle) _ _ _ _

-- The interval between two snapshots is the time of every kind that passed, though the counters are
-- unsigned and `user` or `nice` may fall below the guest counters' growth, where the guest counters
-- are within them, the sums fit 64 bits, and no other counter goes back.
pub get_cpu_interval-elapsed :
    (p c : CpuSnapshot)
    → IsCounted p
    → IsCounted c
    → IsLater p c
    → get_cpu_interval p c ≡ elapsed p c
unfolding get_cpu_interval total
get_cpu_interval-elapsed p c hp hc l = rw (shifts_lem p c hp hc) (
    wrapped_difference (sum c) (sum p) (back p c) (elapsed p c) hc.fits hp.fits
      (below (back_fits p c) hp.fits) (balance p c hp hc l)
      (below (elapsed_fits p c hp hc l) hc.fits))

-- After two snapshots of such counters AverageIdle divides the idle time by the whole time, which
-- is no less; it aborts only where the idle counter is 0.
pub average_idle-IsShare :
    (taken : CpuSnapshot) (s : CpuStats)
    → IsCounted s.curr
    → IsCounted taken
    → IsLater s.curr taken
    → Post
        (λ cause. taken.idle ≡ 0)
        (λ r.
          (r.numerator ≡ taken.idle - s.curr.idle)
          × (r.denominator ≡ elapsed s.curr taken)
          × (r.numerator ≤ r.denominator))
        (average_idle (snapshot taken s))
unfolding average_idle snapshot
average_idle-IsShare taken s hp hc l = elim (Bool-cases (ltb 0 taken.idle)) [
  | inr zero ↦ rw (zero, average_idle) (ground arith)
  | inl some ↦ elim (Bool-cases (ltb taken.idle s.curr.idle)) [
    | inl less ↦ absurd (ground (arith, l.idle))
    | inr more ↦
        rw
          (
            some,
            more,
            get_cpu_interval-elapsed s.curr taken hp hc l,
            sub64_within taken.idle s.curr.idle l.idle (omega (arith, hc.fits)),
          )
          (refl, refl, idle_within s.curr taken)
  ]
]
