-- ===== src/Base/Ends.antt =====
-- Results that are no `endless`: the rounds that a loop of the model was given were enough. And what
-- a call that returns makes sure of.
use rastapopoulos.Base.{
  Bool, Fault, List, Outcome, aborted, assert, assertion_failed, endless, fail, false, get_elem?,
  if◌then◌else◌, none, Option, ok, out_of_range, page_fault, read, refl, some, true, undefined, ℕ,
  ◌>>=◌, ◌≡◌, ◌≢◌,
}

abbrev pub Ends {ℓ} : {A : Type ℓ} → Outcome A → Type ℓ
Ends result = result ≢ fail endless

pub Ends-ok {ℓ} : {A : Type ℓ} (x : A) → Ends (ok x)
Ends-ok x e = cc

pub Ends-assertion {ℓ} : {A : Type ℓ} → Ends {A = A} (fail assertion_failed)
Ends-assertion e = cc

pub Ends-abort {ℓ} : {A : Type ℓ} → Ends {A = A} (fail aborted)
Ends-abort e = cc

pub Ends-range {ℓ} : {A : Type ℓ} → Ends {A = A} (fail out_of_range)
Ends-range e = cc

pub Ends-undefined {ℓ} : {A : Type ℓ} → Ends {A = A} (fail undefined)
Ends-undefined e = cc

pub Ends-page_fault {ℓ} : {A : Type ℓ} → Ends {A = A} (fail page_fault)
Ends-page_fault e = cc

pub Ends-assert : (c : Bool) → Ends (assert c)
Ends-assert true = Ends-ok tt
Ends-assert false = Ends-assertion

pub Ends-if {ℓ} :
    {A : Type ℓ} (c : Bool) {a b : Outcome A} → Ends a → Ends b → Ends (if c then a else b)
Ends-if true p q = p
Ends-if false p q = q

failed {ℓ κ} :
    {A : Type ℓ} {B : Type κ} (why : Fault) → Ends {A = A} (fail why) → Ends {A = B} (fail why)
failed assertion_failed p = Ends-assertion
failed aborted p = Ends-abort
failed out_of_range p = Ends-range
failed undefined p = Ends-undefined
failed endless p = absurd (p refl)
failed page_fault p = Ends-page_fault

pub Ends-bind {ℓ κ} :
    {A : Type ℓ} {B : Type κ} (r : Outcome A) (next : A → Outcome B)
    → Ends r
    → ((x : A) → Ends (next x))
    → Ends (r >>= next)
Ends-bind (ok x) next p q = q x
Ends-bind (fail why) next p q = failed why p

pub Ends-option {ℓ κ} :
    {A : Type ℓ} {B : Type κ} (found : Option A) {a : Outcome B} {next : A → Outcome B}
    → Ends a
    → ((x : A) → Ends (next x))
    → Ends (elim found [ none ↦ a | some x ↦ next x ])
Ends-option none p q = p
Ends-option (some x) p q = q x

pub Ends-read {ℓ} : {A : Type ℓ} (xs : List A) (i : ℕ) → Ends (read xs i)
Ends-read xs i = Ends-option (get_elem? xs i) Ends-range Ends-ok

pub ruleset ends_rules = (
  Ends-ok, Ends-assertion, Ends-abort, Ends-range, Ends-undefined, Ends-page_fault, Ends-assert,
  Ends-if, Ends-bind, Ends-read, Ends-option,
)

-- The value that is returned, if one is, has the property.
pub data Post {ℓ κ} {A : Type ℓ} (P : A → Type κ) : Outcome A → Type (ℓ ⊔ κ) where
  post_ok : (x : A) → P x → Post P (ok x)
  post_fail : (why : Fault) → Post P (fail why)

pub Post-any {ℓ κ} :
    {A : Type ℓ} {P : A → Type κ} (result : Outcome A) → ((x : A) → P x) → Post P result
Post-any (ok x) all = post_ok x (all x)
Post-any (fail why) all = post_fail why

pub Post-bind {ℓ κ ι ο} :
    {A : Type ℓ} {B : Type κ} {Q : A → Type ι} {P : B → Type ο} (result : Outcome A)
    (next : A → Outcome B)
    → Post Q result
    → ((x : A) → Q x → Post P (next x))
    → Post P (result >>= next)
Post-bind _ next (post_ok x q) all = all x q
Post-bind _ next (post_fail why) all = post_fail why

-- When nothing is known of the first result.
pub Post-after {ℓ κ ο} :
    {A : Type ℓ} {B : Type κ} {P : B → Type ο} (result : Outcome A) (next : A → Outcome B)
    → ((x : A) → Post P (next x))
    → Post P (result >>= next)
Post-after (ok x) next all = all x
Post-after (fail why) next all = post_fail why

pub Post-if {ℓ κ} :
    {A : Type ℓ} {P : A → Type κ} (c : Bool) {a b : Outcome A}
    → (c ≡ true → Post P a)
    → (c ≡ false → Post P b)
    → Post P (if c then a else b)
Post-if true p q = p refl
Post-if false p q = q refl

pub Ends-Post {ℓ κ ι} :
    {A : Type ℓ} {B : Type κ} {Q : A → Type ι} (r : Outcome A) (next : A → Outcome B)
    → Ends r
    → Post Q r
    → ((x : A) → Q x → Ends (next x))
    → Ends (r >>= next)
Ends-Post _ next p (post_ok x q) all = all x q
Ends-Post _ next p (post_fail why) all = failed why p
