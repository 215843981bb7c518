-- ===== src/Format/Numbers.antt =====
-- `format_int` as a whole: the numeral of the number, if it fits.
use mathlib.Core.List.{reverse}
use native.Mathlib.Decide.{dec_lt}
use rastapopoulos.Base.{
  List, [], ap, arith, drop, false, if◌then◌else◌, length, length-append, length-set, ok, overwrite,
  refl, set, store, suc, sym, take, true, zero, ℕ, ◌++◌, ◌+◌, ◌-◌, ◌<◌, ◌==◌, ◌^◌, ◌∙◌, ◌∷◌, ◌≡◌,
  ◌≤◌,
}
use rastapopoulos.Base.Sequences.{length-reverse, store_lem}
use rastapopoulos.Format.{Digits, digit_rounds, format_int, terminate_digits}
use rastapopoulos.Format.Numerals.{
  IsNumeral, digits_short, low_digits, low_digits-IsNumeral, low_digits-NoNul,
}
use rastapopoulos.Format.Printing.{digits_loop_counts, digits_loop_fits, split_at, store_append}
use rastapopoulos.Strings.Reverse.{strreverse_lem}

-- The digits that `format_int` prints, the lowest first, and the text of the number.
abbrev digits_of : ℕ → ℕ → List ℕ
digits_of n base = low_digits digit_rounds false n base

pub numeral : ℕ → ℕ → List ℕ
numeral n base = reverse (digits_of n base)

format_int_parts :
    (u z left n base : ℕ) (us tail : List ℕ)
    → 2 ≤ base
    → base ≤ 36
    → n < 2 ^ 64
    → length (u ∷ us) ≡ length (digits_of n base)
    → format_int ((u ∷ us) ++ (z ∷ tail)) (length (digits_of n base) + suc left) n base
      ≡ ok (length (digits_of n base) + 1, reverse (digits_of n base) ++ (0 ∷ tail))
unfolding format_int terminate_digits
format_int_parts u z left n base us tail two most small len =
    let ds = digits_of n base in
    let base_ok : (base == 0) ≡ false = ground arith in
    let size_ok : (length ds + suc left == 0) ≡ false = ground arith in
    let cleared : store ((u ∷ us) ++ (z ∷ tail)) 0 0 ≡ ok ((0 ∷ us) ++ (z ∷ tail)) =
      store_lem ((u ∷ us) ++ (z ∷ tail)) 0 0 (omega arith) in
    let looped =
      digits_loop_fits base two ds (0 ∷ us) (z ∷ tail) [] 64 (suc left) 0 n refl
        (small, omega arith) (omega arith) in
    let ended = store_append ds tail z 0 in
    let reversed =
      strreverse_lem ds tail (low_digits-NoNul digit_rounds false n base two most)
        (omega (arith, digits_short digit_rounds false n base)) in
    let some_left : (suc left == 0) ≡ false = ground arith in
    let plain : 0 + length ds ≡ length ds = omega arith in
    rw (base_ok, size_ok, cleared, looped, ended, reversed, some_left, plain) refl

pub overwrite-append :
    (xs us tail : List ℕ) (z : ℕ)
    → length us ≡ length xs
    → overwrite (xs ++ (0 ∷ [])) (us ++ (z ∷ tail)) ≡ xs ++ (0 ∷ tail)
overwrite-append [] [] tail z e = refl
overwrite-append [] (u ∷ us) tail z e = absurd (omega arith)
overwrite-append (x ∷ xs) [] tail z e = absurd (omega arith)
overwrite-append (x ∷ xs) (u ∷ us) tail z e =
    ap (λ (l : List ℕ). x ∷ l) (overwrite-append xs us tail z (omega arith))

-- A buffer as the bytes that the digits take, the one behind them, and the rest.
format_int_split :
    (n base size : ℕ) (used behind : List ℕ)
    → 2 ≤ base
    → base ≤ 36
    → n < 2 ^ 64
    → length used ≡ length (digits_of n base)
    → 0 < length used
    → 0 < length behind
    → length (digits_of n base) < size
    → format_int (used ++ behind) size n base
      ≡ ok (length (digits_of n base) + 1, overwrite (numeral n base ++ (0 ∷ [])) (used ++ behind))
unfolding numeral
format_int_split n base size [] behind two most small len digit more fits = absurd (omega arith)
format_int_split n base size (u ∷ us) [] two most small len digit more fits = absurd (omega arith)
format_int_split n base size (u ∷ us) (z ∷ tail) two most small len digit more fits =
    let m = length (digits_of n base) in
    let left : size ≡ m + suc (size - m - 1) = omega arith in
    ap (λ (k : ℕ). format_int ((u ∷ us) ++ (z ∷ tail)) k n base) left
    ∙ format_int_parts u z (size - m - 1) n base us tail two most small len
    ∙ ap (λ (l : List ℕ). ok (m + 1, l))
        (sym (
          overwrite-append (reverse (digits_of n base)) (u ∷ us) tail z
            (omega (arith, length-reverse (digits_of n base)))))

pub numeral-IsNumeral :
    (n base : ℕ) → 2 ≤ base → base ≤ 36 → n < 2 ^ 64 → IsNumeral base n (numeral n base)
unfolding numeral
numeral-IsNumeral n base two most small =
    low_digits-IsNumeral base two most 64 n (omega arith) small

length-numeral : (n base : ℕ) → length (numeral n base) ≡ length (digits_of n base)
unfolding numeral
length-numeral n base = length-reverse (digits_of n base)

pub format_int_fits :
    (n base size : ℕ) (buffer : List ℕ)
    → 2 ≤ base
    → base ≤ 36
    → n < 2 ^ 64
    → size ≤ length buffer
    → length (numeral n base) < size
    → format_int buffer size n base
      ≡ ok (length (numeral n base) + 1, overwrite (numeral n base ++ (0 ∷ [])) buffer)
format_int_fits n base size buffer two most small inside_buffer fits =
    let m = length (digits_of n base) in
    let same_length = length-numeral n base in
    let (whole, used) = split_at m buffer (omega arith) in
    let rest : 0 < length (drop m buffer) =
      omega (arith, ap length whole, length-append (take m buffer) (drop m buffer)) in
    let some_digit = (numeral-IsNumeral n base two most small).some_digit in
    ap (λ (b : List ℕ). format_int b size n base) whole
    ∙ format_int_split n base size (take m buffer) (drop m buffer) two most small used (omega arith)
        rest (omega arith)
    ∙ rw (sym whole, same_length) refl

cleared_buffer :
    (buffer : List ℕ) (size : ℕ)
    → size ≤ length buffer
    → (cleared : List ℕ) × ((if size == 0 then ok buffer else store buffer 0 0) ≡ ok cleared)
      × (length cleared ≡ length buffer)
cleared_buffer buffer zero h = (buffer, refl, refl)
cleared_buffer buffer (suc size) h =
    let test : (suc size == 0) ≡ false = ground arith in
    (set buffer 0 0, rw (test, store_lem buffer 0 0 (omega arith)) refl, length-set buffer 0 0)

format_int_counts :
    (n base size : ℕ) (buffer : List ℕ)
    → 2 ≤ base
    → base ≤ 36
    → n < 2 ^ 64
    → size ≤ length buffer
    → size ≤ length (numeral n base)
    → (buffer' : List ℕ) × (format_int buffer size n base
        ≡ ok (length (numeral n base) + 1, buffer'))
unfolding format_int terminate_digits
format_int_counts n base size buffer two most small inside_buffer short =
    let (cleared, e, len) = cleared_buffer buffer size inside_buffer in
    let start : Digits = record { buffer = cleared; out = 0; room = size; ret = 0 } in
    let (s, looped, ret, room, within) =
      digits_loop_counts base two (digits_of n base) start 64 n refl (small, omega arith)
        (omega arith) in
    let base_ok : (base == 0) ≡ false = ground arith in
    let full : (s.room == 0) ≡ true = ground (arith, length-numeral n base) in
    let count : s.ret ≡ length (numeral n base) = omega (arith, length-numeral n base) in
    (s.buffer, rw (base_ok, e, looped, full, count) refl)

-- `format_int` in a base from 2 to 36, into a buffer of at least `size` bytes, returns one more than
-- the length of the numeral of the 64-bit number, which has upper-case digits and no leading zero
-- but for 0 itself. If the numeral is shorter than `size`, it stands at the front of the buffer with
-- a 0 behind it, and the rest of the buffer is as it was.
pub format_int_lem :
    (n base size : ℕ) (buffer : List ℕ)
    → 2 ≤ base
    → base ≤ 36
    → n < 2 ^ 64
    → size ≤ length buffer
    → (s after : List ℕ) × IsNumeral base n s
      × (format_int buffer size n base ≡ ok (length s + 1, after))
      × (length s < size → after ≡ overwrite (s ++ (0 ∷ [])) buffer)
format_int_lem n base size buffer two most small inside_buffer =
    let numeral_ok = numeral-IsNumeral n base two most small in
    elim (dec_lt (length (numeral n base)) size) [
      | yes fits ↦ (
        numeral n base,
        _,
        numeral_ok,
        format_int_fits n base size buffer two most small inside_buffer fits,
        λ h. refl,
      )
      | no full ↦
          let (after, e) =
            format_int_counts n base size buffer two most small inside_buffer (omega arith) in
          (numeral n base, after, numeral_ok, e, λ h. absurd (full h))
    ]
