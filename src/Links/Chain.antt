-- ===== src/Links/Chain.antt =====
-- When the links are those of a list, and what that says of one element's neighbours.
use mathlib.Core.Path.{subst}
use native.Mathlib.Decide.{ℕ_discrete}
use rastapopoulos.Base.{List, [], ap, arith, false, refl, sym, true, ℕ, ◌==◌, ◌∙◌, ◌∷◌, ◌≡◌, ◌≢◌}
use rastapopoulos.Links.{Links}
use rastapopoulos.Scheduler.{contains}

abbrev pub first : List ℕ → ℕ
first [] = 0
first (x ∷ xs) = x

abbrev pub Absent : ℕ → List ℕ → Type 0
Absent e [] = Unit
Absent e (x ∷ xs) = (x ≢ e) × Absent e xs

abbrev pub Unique : List ℕ → Type 0
Unique [] = Unit
Unique (x ∷ xs) = Absent x xs × Unique xs

-- From an element `p` on, 0 in front of the first, the links go along `xs` to the tail and back.
abbrev pub Linked : (ℕ → ℕ) → (ℕ → ℕ) → ℕ → ℕ → List ℕ → Type 0
Linked next prev tail p [] = tail ≡ p
Linked next prev tail p (x ∷ xs) =
    (x ≢ 0) × (prev x ≡ p) × (next x ≡ first xs) × Linked next prev tail x xs

pub record IsList (l : Links) (xs : List ℕ) : Type 0 where
  pub starts : l.head ≡ first xs
  pub linked : Linked l.next l.prev l.tail 0 xs
  pub unique : Unique xs

pub contains-Absent : (xs : List ℕ) (e : ℕ) → contains xs e ≡ false → Absent e xs
unfolding contains
contains-Absent [] e h = tt
contains-Absent (x ∷ xs) e h = elim (ℕ_discrete x e) [
  | yes same ↦ let test : (x == e) ≡ true = ground arith in absurd (ground (arith, h, test))
  | no other ↦
      let test : (x == e) ≡ false = ground arith in
      (other, contains-Absent xs e (sym (rw test refl) ∙ h))
]

-- The neighbours of an element.
pub record Neighbours (next prev : ℕ → ℕ) (e : ℕ) : Type 0 where
  pub before_apart : prev e ≢ e
  pub behind_apart : next e ≢ e
  pub before_back : prev e ≢ 0 → next (prev e) ≡ e
  pub behind_back : next e ≢ 0 → prev (next e) ≡ e

pub first_back :
    (next prev : ℕ → ℕ) (tail p : ℕ) (xs : List ℕ)
    → Linked next prev tail p xs
    → first xs ≢ 0
    → prev (first xs) ≡ p
first_back next prev tail p [] links some_first = absurd (some_first refl)
first_back next prev tail p (x ∷ xs) links some_first = links.1

pub Absent-first : (e : ℕ) (xs : List ℕ) → e ≢ 0 → Absent e xs → first xs ≢ e
Absent-first e [] some_e absent = λ h. some_e (sym h)
Absent-first e (x ∷ xs) some_e absent = absent.0

pub linked-Neighbours :
    (next prev : ℕ → ℕ) (tail p e : ℕ) (xs : List ℕ)
    → Linked next prev tail p xs
    → Unique xs
    → p ≢ e
    → (p ≢ 0 → next p ≡ first xs)
    → contains xs e ≡ true
    → Neighbours next prev e
unfolding contains
linked-Neighbours next prev tail p e [] links unique apart back h = cc
linked-Neighbours next prev tail p e (x ∷ xs) (some_x, before, behind, links) (absent, unique) apart
      back h =
    elim (ℕ_discrete x e) [
      | no other ↦
          let test : (x == e) ≡ false = ground arith in
          linked-Neighbours next prev tail x e xs links unique other (λ z. behind)
            (sym (rw test refl) ∙ h)
      | yes same ↦
          let e_before : prev e ≡ p = sym (ap prev same) ∙ before in
          let e_behind : next e ≡ first xs = sym (ap next same) ∙ behind in
          let some_e : e ≢ 0 = λ z. some_x (same ∙ z) in
          let apart_xs : Absent e xs = subst (λ (k : ℕ). Absent k xs) same absent in
          record {
            before_apart = λ h. apart (sym e_before ∙ h);
            behind_apart = λ h. Absent-first e xs some_e apart_xs (sym e_behind ∙ h);
            before_back =
                λ some_before. ap next e_before ∙ back (λ z. some_before (e_before ∙ z)) ∙ same;
            behind_back = λ some_behind.
                ap prev e_behind
                ∙ first_back next prev tail x xs links (λ z. some_behind (e_behind ∙ z))
                ∙ same;
          }
    ]
