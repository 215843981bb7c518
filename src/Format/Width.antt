-- ===== src/Format/Width.antt =====
-- `formatv` reading the width of a conversion behind its leading 0.
use rastapopoulos.Base.{
  List, Outcome, [], ap, arith, fail, ok, refl, ℕ, ◌*◌, ◌++◌, ◌+◌, ◌<◌, ◌>>=◌, ◌^◌, ◌∙◌, ◌∷◌, ◌≡◌,
  ◌≤◌,
}
use rastapopoulos.Format.{Arg, convert, convert_flag, formatv_from, inside}
use rastapopoulos.Format.Numerals.{AllDigits, IsDigit, IsNumeral, char_value, value_from}

convert_digit :
    (width c : ℕ) (num_buffer : List ℕ) (args : List Arg)
    → IsDigit 10 c
    → 0 < width * 10 + char_value c
    → width * 10 + char_value c < 2 ^ 31
    → convert num_buffer 0 width 1 c args ≡ ok ([], args, inside 0 (width * 10 + char_value c) 1)
unfolding convert convert_flag
convert_digit width c num_buffer args h pos small = ground arith

pub all_out : (r : Outcome (List ℕ)) → (r >>= λ rest. ok ([] ++ rest)) ≡ r
all_out (ok out) = refl
all_out (fail e) = refl

read_digit :
    (width c : ℕ) (num_buffer fmt : List ℕ) (args : List Arg)
    → IsDigit 10 c
    → 0 < width * 10 + char_value c
    → width * 10 + char_value c < 2 ^ 31
    → formatv_from num_buffer (inside 0 width 1) (c ∷ fmt) args
      ≡ formatv_from num_buffer (inside 0 (width * 10 + char_value c) 1) fmt args
unfolding formatv_from
read_digit width c num_buffer fmt args h pos small =
    rw (convert_digit width c num_buffer args h pos small) (all_out _)

acc-le-value_from : (acc : ℕ) (s : List ℕ) → acc ≤ value_from 10 acc s
unfolding value_from
acc-le-value_from acc [] = omega arith
acc-le-value_from acc (c ∷ s) = omega (arith, acc-le-value_from (acc * 10 + char_value c) s)

-- The digits of a width are read to their end.
read_digits :
    (width : ℕ) (s num_buffer fmt : List ℕ) (args : List Arg)
    → AllDigits 10 s
    → 0 < width
    → value_from 10 width s < 2 ^ 31
    → formatv_from num_buffer (inside 0 width 1) (s ++ fmt) args
      ≡ formatv_from num_buffer (inside 0 (value_from 10 width s) 1) fmt args
unfolding value_from
read_digits width [] num_buffer fmt args all pos small = refl
read_digits width (c ∷ s) num_buffer fmt args all pos small =
    let next = acc-le-value_from (width * 10 + char_value c) s in
    read_digit width c num_buffer (s ++ fmt) args all.0 (omega arith) (omega (arith, next))
    ∙ read_digits (width * 10 + char_value c) s num_buffer fmt args all.1 (omega arith) small

-- A width that is written as its numeral is read as the number.
pub read_width :
    (width : ℕ) (s num_buffer fmt : List ℕ) (args : List Arg)
    → IsNumeral 10 width s
    → 1 ≤ width
    → width < 2 ^ 31
    → formatv_from num_buffer (inside 0 0 1) (s ++ fmt) args
      ≡ formatv_from num_buffer (inside 0 width 1) fmt args
unfolding value_from
read_width width [] num_buffer fmt args w pos small = absurd (omega (arith, w.some_digit))
read_width width (c ∷ []) num_buffer fmt args w pos small =
    read_digit 0 c num_buffer fmt args w.digits.0 (omega (arith, w.denotes))
      (omega (arith, w.denotes))
    ∙ ap (λ (k : ℕ). formatv_from num_buffer (inside 0 k 1) fmt args) w.denotes
read_width width (c ∷ d ∷ s) num_buffer fmt args w pos small =
    let first = w.canonical (omega arith) in
    let whole : value_from 10 (0 * 10 + char_value c) (d ∷ s) ≡ width = w.denotes in
    let next = acc-le-value_from (0 * 10 + char_value c) (d ∷ s) in
    read_digit 0 c num_buffer (d ∷ s ++ fmt) args w.digits.0 (omega arith)
      (omega (arith, next, whole))
    ∙ read_digits (0 * 10 + char_value c) (d ∷ s) num_buffer fmt args w.digits.1
        (omega (arith, first)) (omega (arith, whole))
    ∙ ap (λ (k : ℕ). formatv_from num_buffer (inside 0 k 1) fmt args) whole
