-- ===== src/Poll/Bits.antt =====
-- Interests as sets of two flags, and their translation to epoll flags.
use rpc_bench.Common.{
  ℕ, zero, suc, ◌≤◌, ◌≡◌, refl, ◌∙◌, Bool, true, not, ◌&&◌, ◌||◌, done, arith, bit_or, bit_and, ◌-◌,
  ◌^◌, leb, if◌then◌else◌,
}
use rpc_bench.Poll.{
  Interest, interest, is_readable, is_writable, add, remove, add_assign, interest_to_epoll,
  writable, epollin, epollout, epollrdhup, has,
}

-- The values that the constructor lets through.
abbrev pub IsValid : Interest → Type 0
IsValid i = i.inner ≤ 3

-- A test of every set of two flags.
on_all : (ℕ → Bool) → Bool
on_all test = test 0 && (test 1 && (test 2 && test 3))

on_all-each : (test : ℕ → Bool) (flags : ℕ) → flags ≤ 3 → on_all test ≡ true → test flags ≡ true
unfolding on_all
on_all-each test zero le h = ground arith
on_all-each test (suc zero) le h = ground arith
on_all-each test (suc (suc zero)) le h = ground arith
on_all-each test (suc (suc (suc zero))) le h = ground arith
on_all-each test (suc (suc (suc (suc n)))) le h = absurd (omega arith)

abbrev same : Bool → Bool → Bool
same a b = if a then b else not b

-- What is to be shown of a pair of interests, as one test.
joined : (ℕ → ℕ → ℕ) → (Bool → Bool → Bool) → ℕ → ℕ → Bool
joined op f n m =
    leb (op n m) 3
    && same (has (op n m) 1) (f (has n 1) (has m 1))
    && same (has (op n m) 2) (f (has n 2) (has m 2))

abbrev without : ℕ → ℕ → ℕ
without n m = bit_and n (2 ^ 8 - 1 - m)

union_table : on_all (λ n. on_all (joined bit_or (λ a b. a || b) n)) ≡ true
unfolding on_all joined
union_table = refl

difference_table : on_all (λ n. on_all (joined without (λ a b. a && not b) n)) ≡ true
unfolding on_all joined
difference_table = refl

joined_at :
    (op : ℕ → ℕ → ℕ) (f : Bool → Bool → Bool) (n m : ℕ)
    → on_all (λ n. on_all (joined op f n)) ≡ true
    → n ≤ 3
    → m ≤ 3
    → joined op f n m ≡ true
joined_at op f n m table hn hm =
    on_all-each (joined op f n) m hm (on_all-each (λ n. on_all (joined op f n)) n hn table)

-- `k` has a flag exactly when the flags of `i` and `j`, joined by `f`, have it.
abbrev pub Joins : (Bool → Bool → Bool) → Interest → Interest → Interest → Type 0
Joins f i j k =
    IsValid k
    × (is_readable k ≡ f (is_readable i) (is_readable j))
    × (is_writable k ≡ f (is_writable i) (is_writable j))

-- On valid interests, `add` joins the flags and never aborts, `|=` gives the same interest, and
-- `remove` keeps the flags of the first interest that the second lacks.
pub add-remove-Joins :
    (i j : Interest)
    → IsValid i
    → IsValid j
    → (add i j ≡ done (add_assign i j))
      × Joins (λ a b. a || b) i j (add_assign i j)
      × ((k : Interest) × (remove i j ≡ done k) × Joins (λ a b. a && not b) i j k)
unfolding add remove interest add_assign is_readable is_writable joined
add-remove-Joins i j hi hj =
    let both = joined_at bit_or (λ a b. a || b) i.inner j.inner union_table hi hj in
    let rest = joined_at without (λ a b. a && not b) i.inner j.inner difference_table hi hj in
    (
      ground (arith, both),
      (ground (arith, both), ground (arith, both), ground (arith, both)),
      (
        record { inner = without i.inner j.inner },
        ground (arith, rest),
        (ground (arith, rest), ground (arith, rest), ground (arith, rest)),
      ),
    )

or_true : (b : Bool) → (b || true) ≡ true
or_true b = ground arith

-- `interest_ |= Interest::WRITABLE`.
pub add_assign-writable :
    (i : Interest)
    → IsValid i
    → IsValid (add_assign i (record { inner = writable }))
      × (is_writable (add_assign i (record { inner = writable })) ≡ true)
unfolding is_writable
add_assign-writable i v =
    let joins = (add-remove-Joins i (record { inner = writable }) v (omega arith)).1 in
    (joins.0, joins.2 ∙ or_true (is_writable i))

flags : ℕ → Bool
flags n =
    let i : Interest = record { inner = n } in
    let events = interest_to_epoll i in
    same (has events epollin) (is_readable i)
    && same (has events epollrdhup) (is_readable i)
    && same (has events epollout) (is_writable i)

flags_table : on_all flags ≡ true
unfolding on_all flags interest_to_epoll is_readable is_writable
flags_table = refl

-- The epoll mask of a valid interest has EPOLLIN and EPOLLRDHUP exactly when the interest is
-- readable, and EPOLLOUT exactly when it is writable.
pub interest_to_epoll_flags :
    (i : Interest)
    → IsValid i
    → (has (interest_to_epoll i) epollin ≡ is_readable i)
      × (has (interest_to_epoll i) epollrdhup ≡ is_readable i)
      × (has (interest_to_epoll i) epollout ≡ is_writable i)
unfolding flags
interest_to_epoll_flags i h =
    let e = on_all-each flags i.inner h flags_table in
    (ground (arith, e), ground (arith, e), ground (arith, e))
