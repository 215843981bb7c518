-- ===== src/Base/Sequences.antt =====
-- Lists by their elements: appending, reversing, and when two are equal.
use Prim.Native.Nat.{ℕ, suc, zero, ◌+◌, ◌-◌, ◌<◌, ◌≤◌}
use mathlib.Core.List.{List, [], reverse, reverse-cons, ◌++◌, ◌∷◌}
use mathlib.Core.Bool.{true}
use mathlib.Core.Logic.{inl, inr}
use mathlib.Core.Option.{some}
use mathlib.Core.Path.{ap, refl, sym, ◌∙◌, ◌≡◌}
use native.Mathlib.Omega.{arith}
use rastapopoulos.Base.Faults.{ok, read, store}
use rastapopoulos.Base.Lists.{
  drop, get_elem?, get_elem?-eq-get_or, get_or, length, length-append, set, take,
}
use rastapopoulos.Base.Tests.{Bool-cases, ltb}

pub get_or-append_left :
    (xs ys : List ℕ) (j : ℕ) → j < length xs → get_or (xs ++ ys) j 0 ≡ get_or xs j 0
get_or-append_left [] ys j h = absurd (omega arith)
get_or-append_left (x ∷ xs) ys zero h = refl
get_or-append_left (x ∷ xs) ys (suc j) h = get_or-append_left xs ys j (omega arith)

pub get_or-append_right :
    (xs ys : List ℕ) (j : ℕ) → get_or (xs ++ ys) (length xs + j) 0 ≡ get_or ys j 0
get_or-append_right [] ys j = let e : 0 + j ≡ j = omega arith in ap (λ (k : ℕ). get_or ys k 0) e
get_or-append_right (x ∷ xs) ys j =
    let e : suc (length xs) + j ≡ suc (length xs + j) = omega arith in
    ap (λ (k : ℕ). get_or (x ∷ (xs ++ ys)) k 0) e ∙ get_or-append_right xs ys j

pub length-reverse : (xs : List ℕ) → length (reverse xs) ≡ length xs
length-reverse [] = refl
length-reverse (x ∷ xs) =
    ap length (reverse-cons x xs)
    ∙ omega (arith, length-append (reverse xs) (x ∷ []), length-reverse xs)

pub get_or-reverse :
    (xs : List ℕ) (j : ℕ)
    → j < length xs
    → get_or (reverse xs) j 0 ≡ get_or xs (length xs - 1 - j) 0
get_or-reverse [] j h = absurd (omega arith)
get_or-reverse (x ∷ xs) j h =
    let len = length-reverse xs in
    ap (λ (l : List ℕ). get_or l j 0) (reverse-cons x xs) ∙ elim (Bool-cases (ltb j (length xs))) [
      | inl before ↦
          let p : j < length xs = ground arith in
          let e : length xs - 1 - j + 1 ≡ suc (length xs) - 1 - j = omega arith in
          get_or-append_left (reverse xs) (x ∷ []) j (omega arith)
          ∙ get_or-reverse xs j p
          ∙ shifted x xs (length xs - 1 - j) (suc (length xs) - 1 - j) e
      | inr last ↦
          let q : j ≡ length (reverse xs) + 0 = ground arith in
          let z : suc (length xs) - 1 - j ≡ 0 = ground arith in
          ap (λ (k : ℕ). get_or (reverse xs ++ (x ∷ [])) k 0) q
          ∙ get_or-append_right (reverse xs) (x ∷ []) 0
          ∙ ap (λ (k : ℕ). get_or (x ∷ xs) k 0) (sym z)
    ]
  where
    shifted : (x : ℕ) (xs : List ℕ) (i k : ℕ) → i + 1 ≡ k → get_or xs i 0 ≡ get_or (x ∷ xs) k 0
    shifted x xs i k e = let f : suc i ≡ k = omega arith in ap (λ (m : ℕ). get_or (x ∷ xs) m 0) f

pub list_ext :
    (xs ys : List ℕ)
    → length xs ≡ length ys
    → ((j : ℕ) → j < length xs → get_or xs j 0 ≡ get_or ys j 0)
    → xs ≡ ys
list_ext [] [] e h = refl
list_ext [] (y ∷ ys) e h = absurd (omega arith)
list_ext (x ∷ xs) [] e h = absurd (omega arith)
list_ext (x ∷ xs) (y ∷ ys) e h =
    cc (h 0 (omega arith), list_ext xs ys (omega arith) (λ j p. h (suc j) (omega arith)))

pub set_append :
    (front behind : List ℕ) (t c : ℕ)
    → set (front ++ (t ∷ behind)) (length front) c ≡ front ++ (c ∷ behind)
set_append [] behind t c = refl
set_append (x ∷ front) behind t c = ap (λ (l : List ℕ). x ∷ l) (set_append front behind t c)

-- Accesses that are in range.
pub read_lem :
    (memory : List ℕ) (i : ℕ) → i < length memory → read memory i ≡ ok (get_or memory i 0)
read_lem memory i h = rw (read, get_elem?-eq-get_or memory i 0 h) refl

pub store_lem :
    (memory : List ℕ) (i v : ℕ) → i < length memory → store memory i v ≡ ok (set memory i v)
store_lem memory i v h = ground arith

-- Lists of any type, cut at an element or after a number of elements.
module _ {ℓ} {A : Type ℓ} where
  at_front :
      (front behind : List A) (t : A) → get_elem? (front ++ (t ∷ behind)) (length front) ≡ some t
  at_front [] behind t = refl
  at_front (x ∷ front) behind t = at_front front behind t

  pub read_at : (front behind : List A) (t : A) → read (front ++ (t ∷ behind)) (length front) ≡ ok t
  read_at front behind t = rw (read, at_front front behind t) refl

  set_at :
      (front behind : List A) (t c : A)
      → set (front ++ (t ∷ behind)) (length front) c ≡ front ++ (c ∷ behind)
  set_at [] behind t c = refl
  set_at (x ∷ front) behind t c = ap (λ (l : List A). x ∷ l) (set_at front behind t c)

  pub store_at :
      (front behind : List A) (t c : A)
      → store (front ++ (t ∷ behind)) (length front) c ≡ ok (front ++ (c ∷ behind))
  store_at front behind t c =
      let within : ltb (length front) (length (front ++ (t ∷ behind))) ≡ true =
        ground (arith, length-append front (t ∷ behind)) in
      rw (within, set_at front behind t c) refl

  pub cut_at :
      (n : ℕ) (xs : List A)
      → n ≤ length xs
      → (xs ≡ take n xs ++ drop n xs) × (length (take n xs) ≡ n)
  cut_at zero xs h = (refl, refl)
  cut_at (suc n) [] h = absurd (omega arith)
  cut_at (suc n) (x ∷ xs) h =
      let (e, len) = cut_at n xs (omega arith) in (ap (λ (l : List A). x ∷ l) e, ap suc len)

  pub cut_before :
      (n : ℕ) (xs : List A) → n < length xs → (t : A) × (rest : List A) × (drop n xs ≡ t ∷ rest)
  cut_before n [] h = absurd (omega arith)
  cut_before zero (x ∷ xs) h = (x, xs, refl)
  cut_before (suc n) (x ∷ xs) h = cut_before n xs (omega arith)

  pub take-append : (xs ys : List A) (n : ℕ) → n ≤ length xs → take n (xs ++ ys) ≡ take n xs
  take-append xs ys zero h = refl
  take-append [] ys (suc n) h = absurd (omega arith)
  take-append (x ∷ xs) ys (suc n) h = ap (λ (l : List A). x ∷ l) (take-append xs ys n (omega arith))

  pub take_all : (xs : List A) (n : ℕ) → n ≡ length xs → take n xs ≡ xs
  take_all [] zero h = refl
  take_all [] (suc n) h = refl
  take_all (x ∷ xs) zero h = absurd (omega arith)
  take_all (x ∷ xs) (suc n) h = ap (λ (l : List A). x ∷ l) (take_all xs n (omega arith))
