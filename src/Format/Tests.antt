-- ===== src/Format/Tests.antt =====
-- Runs of the printing functions, and their theorems at small inputs.
use rastapopoulos.Base.{
  List, [], arith, fail, length, ok, out_of_range, overwrite, refl, replicate, ℕ, ◌++◌, ◌+◌, ◌<◌,
  ◌∷◌, ◌≡◌, ◌≤◌,
}
use rastapopoulos.Format.{
  characters, convert, convert_flag, digits_loop, format_int, formatv, formatv_from, itox,
  next_number, put_digit, put_number, put_text, terminate_digits, vsncatf, vsnprintf, word,
}
use rastapopoulos.Format.Conversions.{formatv_lem}
use rastapopoulos.Format.Hexadecimal.{itox-xtoa}
use rastapopoulos.Format.Items.{Item, PrintsAll, args_of, format_of, hexadecimal, plain, string}
use rastapopoulos.Format.Numbers.{format_int_lem}
use rastapopoulos.Format.Numerals.{IsNumeral, value_from}
use rastapopoulos.Format.Output.{vsnprintf_lem}
use rastapopoulos.Strings.{reverse_between, reverse_first, strlen, strreverse, xtoa}

format_runs :
    (format_int (7 ∷ 7 ∷ 7 ∷ 7 ∷ []) 4 0x1F 16 ≡ ok (3, b'1' ∷ b'F' ∷ 0 ∷ 7 ∷ []))
    × (format_int (7 ∷ 7 ∷ []) 2 0 10 ≡ ok (2, b'0' ∷ 0 ∷ []))
    × (format_int (7 ∷ 7 ∷ []) 2 123 10 ≡ ok (4, b'3' ∷ b'2' ∷ []))
unfolding format_int digits_loop put_digit terminate_digits strreverse reverse_first reverse_between
    strlen
format_runs = (refl, refl, refl)

abbrev nums : List ℕ
nums = replicate 64 0xCC

-- "%05d" of 42; an unknown conversion is put out and does not end the conversion, which runs on to
-- the end of the format and behind it.
formatv_runs :
    (formatv nums (b'%' ∷ b'0' ∷ b'5' ∷ b'd' ∷ 0 ∷ []) (word 42 ∷ [])
      ≡ ok (b'0' ∷ b'0' ∷ b'0' ∷ b'4' ∷ b'2' ∷ []))
    × (formatv nums (b'%' ∷ b'%' ∷ b'd' ∷ 0 ∷ []) (word 7 ∷ []) ≡ ok (b'%' ∷ b'7' ∷ []))
    × (formatv nums (b'9' ∷ b'%' ∷ b'%' ∷ 0 ∷ []) [] ≡ fail out_of_range)
unfolding formatv formatv_from convert convert_flag next_number put_number characters format_int
    digits_loop put_digit terminate_digits strreverse reverse_first reverse_between strlen
formatv_runs = (refl, refl, refl)

concat_runs :
    (vsncatf nums (b'a' ∷ 0 ∷ 7 ∷ 7 ∷ []) 4 (b'b' ∷ 0 ∷ []) [] ≡ ok (2, b'a' ∷ b'b' ∷ 0 ∷ 7 ∷ []))
    × (vsncatf nums (b'a' ∷ b'b' ∷ 0 ∷ []) 3 (b'c' ∷ 0 ∷ []) [] ≡ ok (0, b'a' ∷ b'b' ∷ 0 ∷ []))
unfolding vsncatf vsnprintf put_text formatv formatv_from strlen
concat_runs = (refl, refl)

format_int_runs :
    (s after : List ℕ) × IsNumeral 16 0x1F s
    × (format_int (7 ∷ 7 ∷ 7 ∷ 7 ∷ []) 4 0x1F 16 ≡ ok (length s + 1, after))
    × (length s < 4 → after ≡ overwrite (s ++ (0 ∷ [])) (7 ∷ 7 ∷ 7 ∷ 7 ∷ []))
format_int_runs =
    format_int_lem 0x1F 16 4 (7 ∷ 7 ∷ 7 ∷ 7 ∷ []) (omega arith) (omega arith) (omega arith)
      (omega arith)

itox-xtoa_example :
    (ret : ℕ) × (after : List ℕ) × (itox (replicate 9 7) 0xBEEF ≡ ok (ret, after))
    × (xtoa after ≡ ok 0xBEEF)
itox-xtoa_example = itox-xtoa (replicate 9 7) 0xBEEF (omega arith) (omega arith)

-- "a%s%012X", with "bc" and 10
abbrev sample : List Item
sample = plain b'a' ∷ string (b'b' ∷ b'c' ∷ []) ∷ hexadecimal 12 (b'1' ∷ b'2' ∷ []) 10 ∷ []

twelve-IsNumeral : IsNumeral 10 12 (b'1' ∷ b'2' ∷ [])
unfolding value_from
twelve-IsNumeral = record {
  digits = ((omega arith, refl), ((omega arith, refl), tt));
  denotes = refl;
  some_digit = omega arith;
  canonical = λ h. omega arith;
}

formatv_lem_example :
    (out : List ℕ) × PrintsAll sample out
    × (formatv nums (format_of sample) (args_of sample) ≡ ok out)
formatv_lem_example = formatv_lem nums sample refl (
  (omega arith, λ e. omega arith),
  (
    (omega arith, omega arith, (omega arith, omega arith, tt)),
    ((omega arith, omega arith, twelve-IsNumeral, omega arith), tt),
  ),
)

vsnprintf_lem_example :
    (2 < 3
      → vsnprintf nums (7 ∷ 7 ∷ 7 ∷ []) 3 (b'a' ∷ b'b' ∷ 0 ∷ []) [] ≡ ok (3, b'a' ∷ b'b' ∷ 0 ∷ []))
    × (3 ≤ 2 → vsnprintf nums (7 ∷ 7 ∷ 7 ∷ []) 3 (b'a' ∷ b'b' ∷ 0 ∷ []) [] ≡ fail out_of_range)
unfolding formatv formatv_from
vsnprintf_lem_example =
    vsnprintf_lem nums (7 ∷ 7 ∷ 7 ∷ []) (b'a' ∷ b'b' ∷ 0 ∷ []) (b'a' ∷ b'b' ∷ []) 3 [] refl
      (omega arith) (omega arith) refl
