-- ===== src/Format/Hexadecimal.antt =====
-- `xtoa` reads what `itox` wrote.
use rastapopoulos.Base.{
  List, [], ap, arith, bit_or, false, length, ok, refl, some, suc, zero, ℕ, ◌%◌, ◌*◌, ◌++◌, ◌+◌,
  ◌/◌, ◌<◌, ◌==◌, ◌^◌, ◌∙◌, ◌∷◌, ◌≡◌, ◌≤◌,
}
use rastapopoulos.Base.Bits.{bit-bit_or, bit-zero, bit_or-lt, bit_or_digit, bits_ext}
use rastapopoulos.Base.Words.{u32}
use rastapopoulos.Format.{itox}
use rastapopoulos.Format.Lengths.{numeral_short, overwrite-text}
use rastapopoulos.Format.Numbers.{format_int_fits, numeral, numeral-IsNumeral}
use rastapopoulos.Format.Numerals.{AllDigits, IsDigit, char_value, value_from}
use rastapopoulos.Strings.{hex_digit, xtoa, xtoa_loop}

bit_or-zero : (a : ℕ) → a < 2 ^ 32 → bit_or a 0 ≡ a
bit_or-zero a h =
    bits_ext 32 (bit_or a 0) a (bit_or-lt 32 a 0 h (omega arith)) h
      (λ i p. ground (arith, bit-bit_or a 0 i, bit-zero i))

or_even : (x d : ℕ) → bit_or (x * 2) d ≡ d % 2 + 2 * bit_or x (d / 2)
or_even x d =
    let even : x * 2 % 2 ≡ 0 = omega arith in
    let half : x * 2 / 2 ≡ x = omega arith in bit_or_digit (x * 2) d ∙ rw (even, half) (omega arith)

-- A hexadecimal digit fills the four places that the shift left free.
bit_or-nibble : (x d : ℕ) → x < 2 ^ 32 → d < 16 → bit_or (x * 2 ^ 4) d ≡ x * 16 + d
bit_or-nibble x d small h =
    let four : x * 2 ^ 4 ≡ x * 2 * 2 * 2 * 2 = omega arith in
    let none_left : d / 2 / 2 / 2 / 2 ≡ 0 = omega arith in
    let last : bit_or x (d / 2 / 2 / 2 / 2) ≡ x = rw none_left (bit_or-zero x small) in
    rw four (
      omega (
        arith,
        or_even (x * 2 * 2 * 2) d,
        or_even (x * 2 * 2) (d / 2),
        or_even (x * 2) (d / 2 / 2),
        or_even x (d / 2 / 2 / 2),
        last,
      ))

hex_digit_lem : (c : ℕ) → IsDigit 16 c → (hex_digit c ≡ some (char_value c)) × (0 < c)
hex_digit_lem c h = (ground arith, ground arith)

xtoa_step :
    (left res c : ℕ) (p : List ℕ)
    → IsDigit 16 c
    → res < 2 ^ 28
    → xtoa_loop (suc left) res (c ∷ p) ≡ xtoa_loop left (res * 16 + char_value c) p
unfolding xtoa_loop
xtoa_step left res c p h small =
    let (digit, pos) = hex_digit_lem c h in
    let more : (c == 0) ≡ false = ground arith in
    let fits : u32 (res * 2 ^ 4) ≡ res * 2 ^ 4 = omega arith in
    let joined = bit_or-nibble res (char_value c) (omega arith) h.0 in
    rw (xtoa_loop, more, digit, fits, joined) refl

acc-le-value_from : (acc : ℕ) (s : List ℕ) → acc ≤ value_from 16 acc s
unfolding value_from
acc-le-value_from acc [] = omega arith
acc-le-value_from acc (c ∷ s) = omega (arith, acc-le-value_from (acc * 16 + char_value c) s)

xtoa_end : (left res : ℕ) (p : List ℕ) → xtoa_loop left res (0 ∷ p) ≡ ok res
unfolding xtoa_loop
xtoa_end zero res p = refl
xtoa_end (suc left) res p = refl

pub xtoa_numeral :
    (left acc : ℕ) (s behind : List ℕ)
    → AllDigits 16 s
    → length s ≤ left
    → value_from 16 acc s < 2 ^ 32
    → xtoa_loop left acc (s ++ (0 ∷ behind)) ≡ ok (value_from 16 acc s)
unfolding value_from
xtoa_numeral left acc [] behind h short small = xtoa_end left acc behind
xtoa_numeral zero acc (c ∷ s) behind h short small = absurd (omega arith)
xtoa_numeral (suc left) acc (c ∷ s) behind h short small =
    xtoa_step left acc c (s ++ (0 ∷ behind)) h.0
      (omega (arith, acc-le-value_from (acc * 16 + char_value c) s))
    ∙ xtoa_numeral left (acc * 16 + char_value c) s behind h.1 (omega arith) small

-- What `itox` writes for a 32-bit number into a buffer of 9 bytes or more, `xtoa` reads as that
-- number.
pub itox-xtoa :
    (str : List ℕ) (n : ℕ)
    → 9 ≤ length str
    → n < 2 ^ 32
    → (ret : ℕ) × (after : List ℕ) × (itox str n ≡ ok (ret, after)) × (xtoa after ≡ ok n)
unfolding itox xtoa
itox-xtoa str n room small =
    let w = numeral-IsNumeral n 16 (omega arith) (omega arith) (omega arith) in
    let short = numeral_short 16 7 n (numeral n 16) (omega arith) w (omega arith) in
    let (behind, ended) = overwrite-text (numeral n 16) str (omega arith) in
    let fits : value_from 16 0 (numeral n 16) < 2 ^ 32 = omega (arith, w.denotes) in
    (
      _,
      _,
      format_int_fits n 16 9 str (omega arith) (omega arith) (omega arith) room (omega arith),
      ap xtoa ended ∙ xtoa_numeral 8 0 (numeral n 16) behind w.digits short fits ∙ ap ok w.denotes,
    )
