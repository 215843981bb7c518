-- ===== src/Format/Conversions.antt =====
-- `formatv` item by item.
use rastapopoulos.Base.{
  List, [], ap, append_assoc, arith, drop, false, if◌then◌else◌, length, not, ok, refl, replicate,
  suc, zero, ℕ, ◌++◌, ◌-◌, ◌<◌, ◌==◌, ◌^◌, ◌∙◌, ◌∷◌, ◌≡◌, ◌≢◌, ◌≤◌,
}
use rastapopoulos.Format.{
  Arg, characters, convert, convert_flag, format_int, formatv, formatv_from, inside, next_number,
  next_text, outside, put_number, put_pointer, word,
}
use rastapopoulos.Format.Items.{
  AllItems, IsItem, Item, Prints, PrintsAll, args_of, decimal, format_of, hexadecimal, long_decimal,
  passed, plain, pointer, spelled, string,
}
use rastapopoulos.Format.Lengths.{numeral_short, overwrite-text}
use rastapopoulos.Format.Numbers.{format_int_fits, numeral, numeral-IsNumeral}
use rastapopoulos.Format.Numerals.{AllDigits, IsNumeral}
use rastapopoulos.Format.Width.{all_out, read_width}
use rastapopoulos.Strings.Compare.{NoNul}

characters_lem : (s behind : List ℕ) → NoNul s → characters (s ++ (0 ∷ behind)) ≡ ok s
unfolding characters
characters_lem [] behind h = refl
characters_lem (c ∷ s) behind h =
    let more : (c == 0) ≡ false = ground (arith, h.0) in rw (characters_lem s behind h.2, more) refl

digits-NoNul : (base : ℕ) (s : List ℕ) → base ≤ 36 → AllDigits base s → NoNul s
digits-NoNul base [] most h = tt
digits-NoNul base (c ∷ s) most h =
    (ground (arith, h.0), ground (arith, h.0), digits-NoNul base s most h.1)

-- What is left in the buffer of a number reads as its numeral.
number_text :
    (k n base size : ℕ) (buffer : List ℕ)
    → 2 ≤ base
    → base ≤ 36
    → n < 2 ^ 64
    → n < base ^ suc k
    → suc k < size
    → size ≤ length buffer
    → (ret : ℕ) × (after : List ℕ) × (format_int buffer size n base ≡ ok (ret, after))
      × (characters after ≡ ok (numeral n base))
number_text k n base size buffer two most small digits room inside_buffer =
    let w = numeral-IsNumeral n base two most small in
    let short = numeral_short base k n (numeral n base) (omega arith) w digits in
    let (behind, ended) = overwrite-text (numeral n base) buffer (omega arith) in
    (
      _,
      _,
      format_int_fits n base size buffer two most small inside_buffer (omega arith),
      ap characters ended
          ∙ characters_lem (numeral n base) behind (digits-NoNul base _ most w.digits),
    )

abbrev zero_fill : ℕ → ℕ → List ℕ → List ℕ
zero_fill leading_zero width digits =
    if not (leading_zero == 0) then replicate (width - length digits) b'0' else []

put_number_lem :
    (k n base leading_zero width : ℕ) (num_buffer : List ℕ)
    → 2 ≤ base
    → base ≤ 36
    → n < 2 ^ 64
    → n < base ^ suc k
    → suc k < 64
    → length num_buffer ≡ 64
    → put_number num_buffer leading_zero width n base
      ≡ ok (zero_fill leading_zero width (numeral n base) ++ numeral n base)
unfolding put_number
put_number_lem k n base leading_zero width num_buffer two most small digits room len =
    let (ret, after, e, read_back) =
      number_text k n base 64 num_buffer two most small digits room (omega arith) in
    rw (e, read_back) refl

-- After an item, `formatv` goes on with the rest of the format.
record Steps (num_buffer : List ℕ) (i : Item) (first : List ℕ) : Type 0 where
  prints : Prints i first
  steps :
      (fmt : List ℕ) (args : List Arg) (rest : List ℕ)
      → formatv_from num_buffer outside fmt args ≡ ok rest
      → formatv_from num_buffer outside (spelled i ++ fmt) (passed i args) ≡ ok (first ++ rest)

length-drop : (n : ℕ) (xs : List ℕ) → length (drop n xs) ≡ length xs - n
length-drop zero xs = omega arith
length-drop (suc n) [] = omega arith
length-drop (suc n) (x ∷ xs) = omega (arith, length-drop n xs)

convert_zero :
    (num_buffer : List ℕ) (args : List Arg)
    → convert num_buffer 0 0 0 b'0' args ≡ ok ([], args, inside 0 0 1)
unfolding convert convert_flag
convert_zero num_buffer args = refl

convert_hex :
    (n width leading_zero : ℕ) (num_buffer out : List ℕ) (args : List Arg)
    → put_number num_buffer leading_zero width n 16 ≡ ok out
    → convert num_buffer 0 width leading_zero b'X' (word n ∷ args) ≡ ok (out, args, outside)
unfolding convert next_number
convert_hex n width leading_zero num_buffer out args printed = rw printed refl

module _ (num_buffer : List ℕ) (len : length num_buffer ≡ 64) where
  decimal-Steps : (n : ℕ) → n < 2 ^ 32 → Steps num_buffer (decimal n) (numeral n 10)
  unfolding formatv_from convert next_number
  decimal-Steps n h =
      let printed =
        put_number_lem 19 n 10 0 0 num_buffer (omega arith) (omega arith) (omega arith)
          (omega arith) (omega arith) len in
      record {
        prints = numeral-IsNumeral n 10 (omega arith) (omega arith) (omega arith);
        steps = λ fmt args rest e. rw (printed, e) refl;
      }

  long_decimal-Steps : (n : ℕ) → n < 2 ^ 64 → Steps num_buffer (long_decimal n) (numeral n 10)
  unfolding formatv_from convert next_number convert_flag
  long_decimal-Steps n h =
      let printed =
        put_number_lem 19 n 10 0 0 num_buffer (omega arith) (omega arith) (omega arith)
          (omega arith) (omega arith) len in
      record {
        prints = numeral-IsNumeral n 10 (omega arith) (omega arith) (omega arith);
        steps = λ fmt args rest e. rw (printed, e) refl;
      }

  string-Steps : (s : List ℕ) → NoNul s → Steps num_buffer (string s) s
  unfolding formatv_from convert next_text
  string-Steps s h = record {
    prints = refl;
    steps = λ fmt args rest e. rw (characters_lem s [] h, e) refl;
  }

  plain-Steps : (c : ℕ) → 0 < c → c ≢ b'%' → Steps num_buffer (plain c) (c ∷ [])
  unfolding formatv_from
  plain-Steps c h k =
      let more : (c == 0) ≡ false = ground arith in
      let literal : (c == b'%') ≡ false = ground arith in
      record { prints = refl; steps = λ fmt args rest e. rw (more, literal, e) refl }

  pointer-Steps : (n : ℕ) → n < 2 ^ 32 → Steps num_buffer (pointer n) (b'0' ∷ b'x' ∷ numeral n 16)
  unfolding formatv_from convert next_number put_pointer
  pointer-Steps n h =
      let (ret, after, e, read_back) =
        number_text 15 n 16 62 (drop 2 num_buffer) (omega arith) (omega arith) (omega arith)
          (omega arith) (omega arith) (omega (arith, length-drop 2 num_buffer)) in
      record {
        prints =
            (numeral n 16, numeral-IsNumeral n 16 (omega arith) (omega arith) (omega arith), refl);
        steps = λ fmt args rest e'. rw (e, read_back, e') refl;
      }

  hexadecimal-Steps :
      (width n : ℕ) (digits : List ℕ)
      → IsNumeral 10 width digits
      → 1 ≤ width
      → width < 2 ^ 31
      → n < 2 ^ 32
      → Steps num_buffer
          (hexadecimal width digits n)
          (zero_fill 1 width (numeral n 16) ++ numeral n 16)
  unfolding formatv_from next_number
  hexadecimal-Steps width n digits w low high h =
      let printed =
        put_number_lem 15 n 16 1 width num_buffer (omega arith) (omega arith) (omega arith)
          (omega arith) (omega arith) len in
      record {
        prints =
            (numeral n 16, numeral-IsNumeral n 16 (omega arith) (omega arith) (omega arith), refl);
        steps = λ fmt args rest e.
            rw
              (
                convert_zero num_buffer (word n ∷ args),
                append_assoc digits (b'X' ∷ []) fmt,
                all_out (
                    formatv_from num_buffer (inside 0 0 1) (digits ++ (b'X' ∷ fmt))
                      (word n ∷ args)),
                read_width width digits num_buffer (b'X' ∷ fmt) (word n ∷ args) w low high,
                convert_hex n width 1 num_buffer _ args printed,
                e,
              )
              refl;
      }

  item-Steps : (i : Item) → IsItem i → (first : List ℕ) × Steps num_buffer i first
  item-Steps (plain c) (h, k) = (_, plain-Steps c h k)
  item-Steps (decimal n) h = (_, decimal-Steps n h)
  item-Steps (long_decimal n) h = (_, long_decimal-Steps n h)
  item-Steps (pointer n) h = (_, pointer-Steps n h)
  item-Steps (hexadecimal width digits n) (low, high, w, h) =
      (_, hexadecimal-Steps width n digits w low high h)
  item-Steps (string s) h = (_, string-Steps s h)

-- A format of characters and of the conversions %d, %lld, %p, %0<width>X and %s, with a width
-- from 1 to below 2^31 written as its decimal numeral and an argument of the right type for each, is
-- printed to its end: the output is that of the items in order, each number as its numeral, whatever
-- the buffer for the numbers held.
pub formatv_lem :
    (num_buffer : List ℕ) (items : List Item)
    → length num_buffer ≡ 64
    → AllItems items
    → (out : List ℕ) × PrintsAll items out
      × (formatv num_buffer (format_of items) (args_of items) ≡ ok out)
unfolding formatv formatv_from
formatv_lem num_buffer [] len h = ([], refl, refl)
formatv_lem num_buffer (i ∷ items) len h =
    let (first, w) = item-Steps num_buffer len i h.0 in
    let (rest, p, e) = formatv_lem num_buffer items len h.1 in
    (
      first ++ rest,
      (first, rest, w.prints, p, refl),
      w.steps (format_of items) (args_of items) rest e,
    )
