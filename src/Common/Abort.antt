-- ===== src/Common/Abort.antt =====
-- How a call ends. A failed CHECK, PCHECK or LOG(FATAL) of src/logging.h aborts the process;
-- `fault` is an access outside a live block, the value of an empty unique_ptr or optional, or a
-- length that a container refuses; `hung` is fuel used up.
use Prim.Native.Nat.{ℕ}
use mathlib.Core.Bool.{Bool, true, false}
use mathlib.Core.Option.{Option, none, some}

pub data Cause : Type 0 where
  check : Cause  -- CHECK and its relatives
  pcheck : ℕ → Cause  -- PCHECK, with errno
  unimplemented : Cause  -- RPC_UNIMPLEMENTED
  log_fatal : Cause  -- LOG(FATAL)

pub data Outcome {ℓ} (A : Type ℓ) : Type ℓ where
  done : A → Outcome A
  fatal : Cause → Outcome A
  fault : Outcome A
  hung : Outcome A

infixl 5 ◌>>=◌ ◌>>◌
abbrev pub ◌>>=◌ {ℓ κ} : {A : Type ℓ} {B : Type κ} → Outcome A → (A → Outcome B) → Outcome B
done a >>= f = f a
fatal c >>= f = fatal c
fault >>= f = fault
hung >>= f = hung

abbrev pub ◌>>◌ {κ} : {B : Type κ} → Outcome (Unit {0}) → Outcome B → Outcome B
m >> k = m >>= λ _. k

-- CHECK(b).
abbrev pub require : Bool → Cause → Outcome (Unit {0})
require true c = done tt
require false c = fatal c

-- The use of a pointer that may be null.
abbrev pub deref {ℓ} : {A : Type ℓ} → Option A → Outcome A
deref none = fault
deref (some a) = done a

-- A postcondition of total, fault-free code: it returns with `Q`, or aborts with a cause in `F`.
abbrev pub Post {ℓ} : {A : Type ℓ} → (Cause → Type 0) → (A → Type 0) → Outcome A → Type 0
Post F Q (done a) = Q a
Post F Q (fatal c) = F c
Post F Q fault = ⊥
Post F Q hung = ⊥

pub Post-bind {ℓ κ} :
    {A : Type ℓ} {B : Type κ} (F : Cause → Type 0) (P : A → Type 0) (Q : B → Type 0) (m : Outcome A)
    (f : A → Outcome B)
    → Post F P m
    → ((a : A) → P a → Post F Q (f a))
    → Post F Q (m >>= f)
Post-bind F P Q (done a) f h k = k a h
Post-bind F P Q (fatal c) f h k = h
Post-bind F P Q fault f h k = absurd h
Post-bind F P Q hung f h k = absurd h

pub Post-mono {ℓ} :
    {A : Type ℓ} (F : Cause → Type 0) (P Q : A → Type 0) (m : Outcome A)
    → Post F P m
    → ((a : A) → P a → Q a)
    → Post F Q m
Post-mono F P Q (done a) h k = k a h
Post-mono F P Q (fatal c) h k = h
Post-mono F P Q fault h k = absurd h
Post-mono F P Q hung h k = absurd h

-- More causes.
pub Post-causes {ℓ} :
    {A : Type ℓ} (F G : Cause → Type 0) (Q : A → Type 0) (m : Outcome A)
    → Post F Q m
    → ((c : Cause) → F c → G c)
    → Post G Q m
Post-causes F G Q (done a) h k = h
Post-causes F G Q (fatal c) h k = k c h
Post-causes F G Q fault h k = h
Post-causes F G Q hung h k = h

-- What holds of the result, if there is one.
abbrev pub IfDone {ℓ} : {A : Type ℓ} → (A → Type 0) → Outcome A → Type 0
IfDone P (done a) = P a
IfDone P (fatal cause) = Unit {0}
IfDone P fault = Unit {0}
IfDone P hung = Unit {0}

pub Post-both {ℓ} :
    {A : Type ℓ} (F : Cause → Type 0) (P Q : A → Type 0) (m : Outcome A)
    → Post F P m
    → IfDone Q m
    → Post F (λ a. P a × Q a) m
Post-both F P Q (done a) h k = (h, k)
Post-both F P Q (fatal cause) h k = h
Post-both F P Q fault h k = h
Post-both F P Q hung h k = h

pub IfDone-bind {ℓ κ} :
    {A : Type ℓ} {B : Type κ} (P : A → Type 0) (Q : B → Type 0) (m : Outcome A) (f : A → Outcome B)
    → IfDone P m
    → ((a : A) → P a → IfDone Q (f a))
    → IfDone Q (m >>= f)
IfDone-bind P Q (done a) f h go = go a h
IfDone-bind P Q (fatal cause) f h go = tt
IfDone-bind P Q fault f h go = tt
IfDone-bind P Q hung f h go = tt

pub IfDone-last {ℓ κ} :
    {A : Type ℓ} {B : Type κ} (P : B → Type 0) (m : Outcome A) (f : A → B)
    → ((a : A) → P (f a))
    → IfDone P (m >>= λ a. done (f a))
IfDone-last P (done a) f h = h a
IfDone-last P (fatal cause) f h = tt
IfDone-last P fault f h = tt
IfDone-last P hung f h = tt

pub IfDone-mono {ℓ} :
    {A : Type ℓ} (P Q : A → Type 0) (m : Outcome A)
    → IfDone P m
    → ((a : A) → P a → Q a)
    → IfDone Q m
IfDone-mono P Q (done a) h k = k a h
IfDone-mono P Q (fatal cause) h k = tt
IfDone-mono P Q fault h k = tt
IfDone-mono P Q hung h k = tt

pub IfDone-any {ℓ} : {A : Type ℓ} (m : Outcome A) → IfDone (λ (a : A). Unit {0}) m
IfDone-any (done a) = tt
IfDone-any (fatal cause) = tt
IfDone-any fault = tt
IfDone-any hung = tt
