-- ===== src/Links/Relink.antt =====
-- The links of a list after an element was taken out.
-- Links that differ from those of a list at an element `e` and its neighbours `p` and `f`, as they do
-- when it is taken out.
use mathlib.Core.Path.{subst}
use native.Mathlib.Decide.{ℕ_discrete}
use rastapopoulos.Base.{List, [], ap, arith, false, refl, sym, true, ℕ, ◌==◌, ◌∙◌, ◌∷◌, ◌≡◌, ◌≢◌}
use rastapopoulos.Links.Chain.{Absent, Linked, Unique, first, first_back}
use rastapopoulos.Scheduler.{remove}

module _ (next prev next' prev' : ℕ → ℕ) (tail tail' e p f : ℕ) (some_e : e ≢ 0)
    (before : prev e ≡ p) (behind : next e ≡ f) (p_apart : p ≢ e) (f_apart : f ≢ e)
    (before_back : p ≢ 0 → next p ≡ e) (behind_back : f ≢ 0 → prev f ≡ e)
    (next_same : (x : ℕ) → x ≢ e → x ≢ p → next' x ≡ next x)
    (prev_same : (x : ℕ) → x ≢ e → x ≢ f → prev' x ≡ prev x) (next_at : p ≢ 0 → next' p ≡ f)
    (prev_at : f ≢ 0 → prev' f ≡ p) (tail_at : tail ≡ e → tail' ≡ p)
    (tail_same : tail ≢ e → tail' ≡ tail) where
  untouched :
      (q : ℕ) (xs : List ℕ)
      → Linked next prev tail q xs
      → q ≢ e
      → Absent e xs
      → Absent p xs
      → Absent f xs
      → Linked next' prev' tail' q xs
  untouched q [] links apart a b c = tail_same (λ h. apart (sym links ∙ h)) ∙ links
  untouched q (x ∷ xs) (some_x, back, on, links) apart (not_e, a) (not_p, b) (not_f, c) = (
    some_x,
    prev_same x not_e not_f ∙ back,
    next_same x not_e not_p ∙ on,
    untouched x xs links not_e a b c,
  )

  skipped :
      (xs : List ℕ)
      → Linked next prev tail e xs
      → first xs ≡ f
      → Absent e xs
      → Absent p xs
      → Unique xs
      → Linked next' prev' tail' p xs
  skipped [] links first_is a b unique = tail_at links
  skipped (x ∷ xs) (some_x, back, on, links) first_is (not_e, a) (not_p, b) (c, unique) =
      let some_f : f ≢ 0 = λ z. some_x (first_is ∙ z) in
      (
        some_x,
        ap prev' first_is ∙ prev_at some_f,
        next_same x not_e not_p ∙ on,
        untouched x xs links not_e a b (subst (λ (k : ℕ). Absent k xs) first_is c),
      )

  pub first_removed :
      (q : ℕ) (xs : List ℕ)
      → Linked next prev tail q xs
      → (first xs ≡ e → first (remove xs e) ≡ f) × (first xs ≢ e → first (remove xs e) ≡ first xs)
  unfolding remove
  first_removed q [] links = (λ h. absurd (some_e (sym h)), λ h. refl)
  first_removed q (x ∷ xs) (some_x, back, on, links) = (
    λ h. let test : (x == e) ≡ true = ground arith in rw test (sym on ∙ ap next h ∙ behind),
    λ h. let test : (x == e) ≡ false = ground arith in rw test refl,
  )

  pub removed :
      (q : ℕ) (xs : List ℕ)
      → Linked next prev tail q xs
      → Unique xs
      → q ≢ e
      → Absent q xs
      → Linked next' prev' tail' q (remove xs e)
  unfolding remove
  removed q [] links unique apart absent = tail_same (λ h. apart (sym links ∙ h)) ∙ links
  removed q (x ∷ xs) (some_x, back, on, links) (absent, unique) apart (not_q, no_q) =
      elim (ℕ_discrete x e) [
        | yes same ↦
            let test : (x == e) ≡ true = ground arith in
            let q_is : q ≡ p = sym back ∙ ap prev same ∙ before in
            rw (test, q_is)
              (skipped xs (subst (λ (k : ℕ). Linked next prev tail k xs) same links)
                (sym on ∙ ap next same ∙ behind) (subst (λ (k : ℕ). Absent k xs) same absent)
                (subst (λ (k : ℕ). Absent k xs) q_is no_q) unique)
        | no other ↦
            let test : (x == e) ≡ false = ground arith in
            let not_f : x ≢ f =
              λ h. apart (sym back ∙ ap prev h ∙ behind_back (λ z. some_x (h ∙ z))) in
            let new_on : next' x ≡ first (remove xs e) = elim (ℕ_discrete x p) [
              | yes h ↦
                  let some_p : p ≢ 0 = λ z. some_x (h ∙ z) in
                  let e_first : first xs ≡ e = sym on ∙ ap next h ∙ before_back some_p in
                  ap next' h ∙ next_at some_p ∙ sym ((first_removed x xs links).0 e_first)
              | no not_p ↦
                  let e_later : first xs ≢ e = λ h. not_p (
                    sym (first_back next prev tail x xs links (λ z. some_e (sym h ∙ z)))
                    ∙ ap prev h
                    ∙ before) in
                  next_same x other not_p ∙ on ∙ sym ((first_removed x xs links).1 e_later)
            ] in
            rw test (
              some_x,
              prev_same x other not_f ∙ back,
              new_on,
              removed x xs links unique other absent,
            )
      ]
