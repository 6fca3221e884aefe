-- ===== src/Async/Waiting.antt =====
-- The server's calls.
use rpc_bench.Common.{
  Post, subst, ap₂, ==_iff, ℕ, ◌+◌, ◌≡◌, All, ◌<◌, suc, refl, List, [], ◌∷◌, some, arith,
  Bool-cases, inl, inr, ◌==◌,
}
use rpc_bench.Async.{
  CallStatus, create, process, finish, Calls, status_of, set_status, delete_call, new_call,
  proceed_from, handle_tag,
}

-- How many calls wait for a request.
abbrev pub one_if_waiting : CallStatus → ℕ
one_if_waiting create = 0
one_if_waiting process = 1
one_if_waiting finish = 0

abbrev pub waiting : List (ℕ × CallStatus) → ℕ
waiting [] = 0
waiting (call ∷ rest) = one_if_waiting call.1 + waiting rest

-- A live call was made before and has left CREATE, which its constructor sees to.
abbrev pub IsSound : Calls → Type 0
IsSound s = All (λ call. (call.0 < s.fresh) × ¬ (call.1 ≡ create)) s.live

set_status-waiting :
    (tag : ℕ) (m : List (ℕ × CallStatus))
    → status_of tag m ≡ some process
    → suc (waiting (set_status tag finish m)) ≡ waiting m
unfolding status_of set_status
set_status-waiting tag [] h = cc
set_status-waiting tag ((key, status) ∷ rest) h = elim (Bool-cases (key == tag)) [
  | inl e ↦ ground arith
  | inr e ↦ ground (arith, set_status-waiting tag rest (ground arith))
]

delete_call-waiting :
    (tag : ℕ) (m : List (ℕ × CallStatus))
    → status_of tag m ≡ some finish
    → waiting (delete_call tag m) ≡ waiting m
unfolding status_of delete_call
delete_call-waiting tag [] h = cc
delete_call-waiting tag ((key, status) ∷ rest) h = elim (Bool-cases (key == tag)) [
  | inl e ↦ ground arith
  | inr e ↦ ground (arith, delete_call-waiting tag rest (ground arith))
]

set_status-All :
    (P : ℕ × CallStatus → Type 0) (tag : ℕ) (new : CallStatus) (m : List (ℕ × CallStatus))
    → ((key : ℕ) (old : CallStatus) → P (key, old) → P (key, new))
    → All P m
    → All P (set_status tag new m)
unfolding set_status
set_status-All P tag new [] change h = tt
set_status-All P tag new ((key, status) ∷ rest) change h = elim (Bool-cases (key == tag)) [
  | inl e ↦ rw (e, set_status) (change key status h.0, h.1)
  | inr e ↦ rw (e, set_status) (h.0, set_status-All P tag new rest change h.1)
]

delete_call-All :
    (P : ℕ × CallStatus → Type 0) (tag : ℕ) (m : List (ℕ × CallStatus))
    → All P m
    → All P (delete_call tag m)
unfolding delete_call
delete_call-All P tag [] h = tt
delete_call-All P tag ((key, status) ∷ rest) h = elim (Bool-cases (key == tag)) [
  | inl e ↦ rw (e, delete_call) h.1
  | inr e ↦ rw (e, delete_call) (h.0, delete_call-All P tag rest h.1)
]

All-status_of :
    (P : ℕ × CallStatus → Type 0) (tag : ℕ) (m : List (ℕ × CallStatus)) (status : CallStatus)
    → All P m
    → status_of tag m ≡ some status
    → P (tag, status)
unfolding status_of
All-status_of P tag [] status h e = cc
All-status_of P tag ((key, old) ∷ rest) status h e = elim (Bool-cases (key == tag)) [
  | inl same ↦
      let key_is : key ≡ tag = (==_iff key tag).0 same in
      let old_is : old ≡ status = ground arith in subst P (ap₂ (λ k st. (k, st)) key_is old_is) h.0
  | inr apart ↦ All-status_of P tag rest status h.1 (ground arith)
]

-- The tag of a call that was made is another than the next one.
fresh_process :
    (tag : ℕ) (s : Calls)
    → tag < s.fresh
    → status_of tag s.live ≡ some process
    → status_of tag (new_call s).live ≡ some process
unfolding status_of new_call
fresh_process tag s lt e = ground arith

aged :
    (n : ℕ) (m : List (ℕ × CallStatus))
    → All (λ call. (call.0 < n) × ¬ (call.1 ≡ create)) m
    → All (λ call. (call.0 < suc n) × ¬ (call.1 ≡ create)) m
aged n [] h = tt
aged n (call ∷ rest) h = ((omega (arith, h.0.0), h.0.1), aged n rest h.1)

pub proceed_from-IsSound :
    (status : CallStatus) (tag : ℕ) (s : Calls)
    → IsSound s
    → status_of tag s.live ≡ some status
    → IsSound (proceed_from status tag s)
      × (waiting (proceed_from status tag s).live ≡ waiting s.live)
unfolding proceed_from new_call
proceed_from-IsSound create tag s h e = absurd ((All-status_of _ tag s.live create h e).1 refl)
proceed_from-IsSound process tag s h e =
    let lt = (All-status_of _ tag s.live process h e).0 in
    (
      set_status-All (λ call. (call.0 < suc s.fresh) × ¬ (call.1 ≡ create)) tag finish _
          (λ key old p. (p.0, λ q. cc)) ((omega arith, λ q. cc), aged s.fresh s.live h),
      omega (arith, set_status-waiting tag (new_call s).live (fresh_process tag s lt e)),
    )
proceed_from-IsSound finish tag s h e =
    (delete_call-All _ tag s.live h, delete_call-waiting tag s.live e)

-- HandleRpcs, where the calls are sound, takes the tag of a live call without a fault: the calls
-- are sound again, and as many of them wait for a request as before.
pub handle_tag-IsSound :
    (tag : ℕ) (s : Calls) (status : CallStatus)
    → IsSound s
    → status_of tag s.live ≡ some status
    → Post (λ cause. ⊥) (λ s'. IsSound s' × (waiting s'.live ≡ waiting s.live)) (handle_tag tag s)
unfolding handle_tag
handle_tag-IsSound tag s status h e = rw (e, handle_tag) (proceed_from-IsSound status tag s h e)
