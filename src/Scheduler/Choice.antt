-- ===== src/Scheduler/Choice.antt =====
-- Who runs next, in the order of `task_switch_next`, said without its code.
-- The deadline of none of the tasks has come; 0 is no deadline.
use native.Mathlib.Decide.{ℕ_discrete}
use rastapopoulos.Base.{
  Bool-cases, List, [], ap, arith, false, inl, inr, none, refl, some, sym, true, ℕ, ◌++◌, ◌<◌, ◌==◌,
  ◌∙◌, ◌∷◌, ◌≡◌, ◌≢◌, ◌≤◌, ◌⊎◌,
}
use rastapopoulos.Scheduler.{Scheduler, Task, first_due, is_due, remove}

abbrev pub NoneDue : (ℕ → Task) → ℕ → List ℕ → Type 0
NoneDue table now [] = Unit
NoneDue table now (p ∷ q) =
    (((table p).sleep_deadline ≡ 0) ⊎ (now < (table p).sleep_deadline)) × NoneDue table now q

-- From `s`, in which the task that ran has its place in a queue, the first sleeping task whose
-- deadline has come runs, and leaves the sleeping queue; else the oldest ready task, and leaves the
-- ready queue; else the idle task. Nothing else changes.
pub data Runs (s after : Scheduler) : Type 0 where
  runs_due :
      (front behind : List ℕ) (p : ℕ)
      → s.sleeping ≡ front ++ (p ∷ behind)
      → NoneDue s.tasks s.now front
      → (s.tasks p).sleep_deadline ≢ 0
      → (s.tasks p).sleep_deadline ≤ s.now
      → after ≡ record s { sleeping = front ++ behind; current = p }
      → Runs s after
  runs_ready :
      (p : ℕ) (rest : List ℕ)
      → NoneDue s.tasks s.now s.sleeping
      → s.ready ≡ p ∷ rest
      → after ≡ record s { ready = rest; current = p }
      → Runs s after
  runs_idle :
      NoneDue s.tasks s.now s.sleeping
      → s.ready ≡ []
      → after ≡ record s { current = s.idle }
      → Runs s after

due_lem :
    (now : ℕ) (t : Task) → is_due now t ≡ true → (t.sleep_deadline ≢ 0) × (t.sleep_deadline ≤ now)
due_lem now t e = (ground arith, ground arith)

not_due_lem :
    (now : ℕ) (t : Task) → is_due now t ≡ false → (t.sleep_deadline ≡ 0) ⊎ (now < t.sleep_deadline)
not_due_lem now t e = elim (ℕ_discrete t.sleep_deadline 0) [
  | yes none_set ↦ inl none_set
  | no some_set ↦ inr (ground arith)
]

pub first_due-none :
    (table : ℕ → Task) (now : ℕ) (q : List ℕ) → first_due table now q ≡ none → NoneDue table now q
unfolding first_due
first_due-none table now [] e = tt
first_due-none table now (x ∷ q) e = elim (Bool-cases (is_due now (table x))) [
  | inl due ↦ absurd (ground (arith, e, due))
  | inr early ↦
      (not_due_lem now (table x) early, first_due-none table now q (sym (rw early refl) ∙ e))
]

-- The first task that is due, with those around it.
pub record FirstDue (table : ℕ → Task) (now : ℕ) (q : List ℕ) (p : ℕ) : Type 0 where
  pub ahead : List ℕ
  pub rear : List ℕ
  pub whole : q ≡ ahead ++ (p ∷ rear)
  pub ahead_waits : NoneDue table now ahead
  pub deadline_set : (table p).sleep_deadline ≢ 0
  pub deadline_come : (table p).sleep_deadline ≤ now
  pub taken_out : remove q p ≡ ahead ++ rear

still_waits :
    (t u : Task) (now : ℕ)
    → t.sleep_deadline ≡ u.sleep_deadline
    → (t.sleep_deadline ≡ 0) ⊎ (now < t.sleep_deadline)
    → u.sleep_deadline ≢ 0
    → ¬ (u.sleep_deadline ≤ now)
still_waits t u now e (inl none_set) some_set come = some_set (sym e ∙ none_set)
still_waits t u now e (inr later) some_set come = omega arith

pub first_due-some :
    (table : ℕ → Task) (now : ℕ) (q : List ℕ) (p : ℕ)
    → first_due table now q ≡ some p
    → FirstDue table now q p
unfolding first_due remove
first_due-some table now [] p e = absurd (ground (arith, e))
first_due-some table now (x ∷ q) p e = elim (Bool-cases (is_due now (table x))) [
  | inl due ↦
      let same : x ≡ p = ground (arith, e, due) in
      let (set_then, come) =
        due_lem now (table p) (sym (ap (λ (k : ℕ). is_due now (table k)) same) ∙ due) in
      let test : (x == p) ≡ true = ground arith in
      record {
        ahead = [];
        rear = q;
        whole = ap (λ (k : ℕ). k ∷ q) same;
        ahead_waits = tt;
        deadline_set = set_then;
        deadline_come = come;
        taken_out = rw test refl;
      }
  | inr early ↦
      let w = first_due-some table now q p (sym (rw early refl) ∙ e) in
      let waits = not_due_lem now (table x) early in
      let apart : x ≢ p = λ h.
        still_waits (table x) (table p) now (ap (λ (k : ℕ). (table k).sleep_deadline) h) waits
          w.deadline_set w.deadline_come in
      let test : (x == p) ≡ false = ground arith in
      record {
        ahead = x ∷ w.ahead;
        rear = w.rear;
        whole = ap (λ (l : List ℕ). x ∷ l) w.whole;
        ahead_waits = (waits, w.ahead_waits);
        deadline_set = w.deadline_set;
        deadline_come = w.deadline_come;
        taken_out = rw test (ap (λ (l : List ℕ). x ∷ l) w.taken_out);
      }
]
