-- ===== src/Scheduler/Queues.antt =====
-- How often a task stands in a queue, and what appending and removing do to that.
use rastapopoulos.Base.{
  Bool, Bool-cases, List, [], arith, false, inl, inr, ltb, refl, some, true, ℕ, ◌+◌, ◌<◌, ◌==◌, ◌∷◌,
  ◌≡◌,
}
use rastapopoulos.Scheduler.{Task, contains, first_due, is_due, push, remove}

abbrev pub one_if : Bool → ℕ
one_if true = 1
one_if false = 0

unfoldable pub count : ℕ → List ℕ → ℕ
count p [] = 0
count p (x ∷ q) = one_if (x == p) + count p q

pub count-push : (p : ℕ) (q : List ℕ) (x : ℕ) → count p (push q x) ≡ count p q + one_if (x == p)
unfolding count
count-push p [] x = omega arith
count-push p (y ∷ q) x = omega (arith, count-push p q x)

-- Removing a task that stands in the queue takes one occurrence of it away.
pub count-remove :
    (p : ℕ) (q : List ℕ) (x : ℕ)
    → 0 < count x q
    → count p (remove q x) + one_if (x == p) ≡ count p q
unfolding count remove
count-remove p [] x h = absurd (omega arith)
count-remove p (y ∷ q) x h = elim (Bool-cases (y == x)) [
  | inl e ↦ ground arith
  | inr e ↦ ground (arith, count-remove p q x)
]

pub contains-count : (q : List ℕ) (p : ℕ) → contains q p ≡ ltb 0 (count p q)
unfolding count contains
contains-count [] p = refl
contains-count (x ∷ q) p = ground (arith, contains-count q p)

-- A task that is due stands in the queue.
pub first_due-count :
    (tasks : ℕ → Task) (now : ℕ) (q : List ℕ) {p : ℕ}
    → first_due tasks now q ≡ some p
    → 0 < count p q
unfolding count first_due
first_due-count tasks now [] e = cc
first_due-count tasks now (x ∷ q) {p} e = elim (Bool-cases (is_due now (tasks x))) [
  | inl due ↦ ground arith
  | inr no_due ↦ ground (arith, first_due-count tasks now q {p = p})
]
