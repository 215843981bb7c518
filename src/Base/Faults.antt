-- ===== src/Base/Faults.antt =====
-- The result of kernel code that can stop the machine.
-- `assert` (common/debug.h) calls `__assertion_failed`, `panic` logs and calls `abort`: neither
-- returns. `out_of_range` stands for an access outside an array, and `undefined` for any other
-- operation that C leaves undefined. `endless` is no result of the code: a loop that goes by a
-- number was still running after the rounds that the model gives it. `page_fault` is an access to a
-- page that is not mapped.
use mathlib.Core.Path.{◌≡◌, refl}
use mathlib.Core.Bool.{Bool, true, false}
use mathlib.Core.Option.{none, some}
use mathlib.Core.List.{List}
use Prim.Native.Nat.{ℕ}
use rastapopoulos.Base.Lists.{get_elem?, length, set}
use rastapopoulos.Base.Tests.{if◌then◌else◌, ltb}

pub data Fault : Type 0 where
  assertion_failed aborted out_of_range undefined endless page_fault : Fault

pub data Outcome {ℓ} (A : Type ℓ) : Type ℓ where
  ok : A → Outcome A
  fail : Fault → Outcome A

infixl 5 ◌>>=◌ ◌>>◌
abbrev pub ◌>>=◌ {ℓ κ} : {A : Type ℓ} {B : Type κ} → Outcome A → (A → Outcome B) → Outcome B
fail why >>= next = fail why
ok x >>= next = next x

abbrev pub ◌>>◌ {ℓ} : {B : Type ℓ} → Outcome (Unit {0}) → Outcome B → Outcome B
check >> next = check >>= (λ done. next)

abbrev pub assert : Bool → Outcome (Unit {0})
assert true = ok tt
assert false = fail assertion_failed

-- A read of `xs[i]`.
abbrev pub read {ℓ} : {A : Type ℓ} → List A → ℕ → Outcome A
read xs i = elim (get_elem? xs i) [ none ↦ fail out_of_range | some x ↦ ok x ]

-- A write of `xs[i]`.
abbrev pub store {ℓ} : {A : Type ℓ} → List A → ℕ → A → Outcome (List A)
store xs i v = if ltb i (length xs) then ok (set xs i v) else fail out_of_range

-- What returns as a whole returned at its first step.
pub first_step {ℓ κ} :
    {A : Type ℓ} {B : Type κ} (m : Outcome A) (next : A → Outcome B) {y : B}
    → (m >>= next) ≡ ok y
    → (x : A) × (m ≡ ok x) × (next x ≡ ok y)
first_step (fail why) next e = cc
first_step (ok x) next e = (x, refl, e)
