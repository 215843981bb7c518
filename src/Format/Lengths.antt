-- ===== src/Format/Lengths.antt =====
-- How long a numeral is, and a buffer that a text was written over.
use native.Mathlib.Decide.{dec_lt}
use native.Mathlib.Nat.{mul-le-mul_right, mul_assoc, mul_comm, pow-le-pow_right, pow-suc, pow-zero}
use rastapopoulos.Base.{
  List, [], ap, append_assoc, arith, length, length-append, overwrite, refl, suc, sym, ℕ, ◌*◌, ◌++◌,
  ◌+◌, ◌<◌, ◌^◌, ◌∙◌, ◌∷◌, ◌≡◌, ◌≤◌,
}
use rastapopoulos.Format.Numerals.{IsNumeral, char_value, value_from}

module _ (base : ℕ) where
  value_from-digits : (acc : ℕ) (s : List ℕ) → acc * base ^ length s ≤ value_from base acc s
  unfolding value_from
  value_from-digits acc [] = omega (arith, ap (λ (k : ℕ). acc * k) (pow-zero base))
  value_from-digits acc (c ∷ s) =
      let longer : acc * base ^ suc (length s) ≡ acc * base * base ^ length s =
        ap (λ (k : ℕ). acc * k) (pow-suc base (length s))
        ∙ ap (λ (k : ℕ). acc * k) (mul_comm (base ^ length s) base)
        ∙ sym (mul_assoc acc base (base ^ length s)) in
      let more : acc * base * base ^ length s ≤ (acc * base + char_value c) * base ^ length s =
        mul-le-mul_right (base ^ length s) (omega arith) in
      omega (arith, longer, more, value_from-digits (acc * base + char_value c) s)

  -- The numeral of a number below base ^ (k + 1) has at most k + 1 digits.
  pub numeral_short :
      (k n : ℕ) (s : List ℕ) → 0 < base → IsNumeral base n s → n < base ^ suc k → length s ≤ suc k
  unfolding value_from
  numeral_short k n [] pos w small = omega arith
  numeral_short k n (c ∷ s) pos w small = elim (dec_lt (length s) (suc k)) [
    | yes short ↦ omega arith
    | no long ↦
        let front = w.canonical (omega arith) in
        let start : char_value c ≡ 0 * base + char_value c = omega arith in
        let denoted : value_from base (char_value c) s ≡ n =
          ap (λ (k : ℕ). value_from base k s) start ∙ w.denotes in
        let bound = value_from-digits (char_value c) s in
        let power : base ^ suc k ≤ base ^ length s =
          pow-le-pow_right pos {i = suc k} (omega arith) in
        let product : 1 * base ^ length s ≤ char_value c * base ^ length s =
          mul-le-mul_right (base ^ length s) (omega arith) in
        absurd (omega (arith, bound, power, product, denoted))
  ]

pub overwrite-front :
    (xs buffer : List ℕ)
    → length xs ≤ length buffer
    → (behind : List ℕ) × (overwrite xs buffer ≡ xs ++ behind)
overwrite-front [] buffer h = (buffer, refl)
overwrite-front (x ∷ xs) [] h = absurd (omega arith)
overwrite-front (x ∷ xs) (b ∷ buffer) h =
    let (behind, e) = overwrite-front xs buffer (omega arith) in
    (behind, ap (λ (l : List ℕ). x ∷ l) e)

-- A terminated text that was written over the front of a buffer.
pub overwrite-text :
    (s buffer : List ℕ)
    → length s < length buffer
    → (behind : List ℕ) × (overwrite (s ++ (0 ∷ [])) buffer ≡ s ++ (0 ∷ behind))
overwrite-text s buffer h =
    let (behind, whole) =
      overwrite-front (s ++ (0 ∷ [])) buffer (omega (arith, length-append s (0 ∷ []))) in
    (behind, whole ∙ append_assoc s (0 ∷ []) behind)
