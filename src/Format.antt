-- ===== src/Format.antt =====
-- common/string.c: numbers as text, and formatted output.
-- The calls of the callback are the list of the characters that it is given, in order. The arguments
-- behind the format are a list; reading one of another type than was passed is undefined.
pub mod Numerals
pub mod Printing
pub mod Numbers
pub mod Lengths
pub mod Hexadecimal
pub mod Items
pub mod Width
pub mod Conversions
pub mod Output
mod Tests
use rastapopoulos.Base.{
  List, Outcome, [], drop, endless, fail, if◌then◌else◌, leb, length, ltb, not, ok, out_of_range,
  replicate, store, suc, take, undefined, zero, ℕ, ◌%◌, ◌&&◌, ◌*◌, ◌++◌, ◌+◌, ◌-◌, ◌/◌, ◌==◌, ◌>>=◌,
  ◌>>◌, ◌^◌, ◌||◌, ◌∷◌,
}
use rastapopoulos.Base.Words.{sub32}
use rastapopoulos.Strings.{strlen, strreverse, whole_string}

abbrev pub digit_char : ℕ → ℕ
digit_char d = if ltb d 10 then b'0' + d else b'A' + (d - 10)

-- The loop of `format_int`: the digits from the lowest up, while there is room, and how many there
-- are. Its results are the buffer, the index behind the last character, the room left, and `ret`.
pub record Digits : Type 0 where
  pub buffer : List ℕ
  pub out : ℕ
  pub room : ℕ
  pub ret : ℕ

pub put_digit : Digits → ℕ → Outcome Digits
put_digit s d =
    if s.room == 0
    then ok (record s { ret = s.ret + 1 })
    else (store s.buffer s.out (digit_char d) >>= λ buffer.
        ok (record { buffer = buffer; out = s.out + 1; room = s.room - 1; ret = s.ret + 1 }))

pub digits_loop : ℕ → Digits → ℕ → ℕ → Outcome Digits
digits_loop zero s n base = fail endless
digits_loop (suc rounds) s n base =
    let next = put_digit s (n % base) >>= λ s'. digits_loop rounds s' (n / base) base in
    if s.ret == 0 || not (n == 0) then next else ok s

-- A number of 64 bits has at most 64 digits, and the test is made once more behind them.
abbrev pub digit_rounds : ℕ
digit_rounds = 65

pub terminate_digits : Digits → Outcome (ℕ × List ℕ)
terminate_digits s =
    let terminated =
      (store s.buffer s.out 0 >>= λ buffer.
      strreverse buffer whole_string >>= λ reversed. ok (s.ret + 1, reversed)) in
    if s.room == 0 then ok (s.ret + 1, s.buffer) else terminated

pub format_int : List ℕ → ℕ → ℕ → ℕ → Outcome (ℕ × List ℕ)
format_int buffer size n base = if base == 0 then fail undefined else do
  cleared ← (if size == 0 then ok buffer else store buffer 0 0)
  s ← digits_loop digit_rounds (record { buffer = cleared; out = 0; room = size; ret = 0 }) n base
  terminate_digits s

pub lltoa : List ℕ → ℕ → ℕ → Outcome (ℕ × List ℕ)
lltoa buffer size n = format_int buffer size n 10

pub itoa : List ℕ → ℕ → Outcome (List ℕ)
itoa str n = format_int str 15 n 10 >>= λ (ret, str'). ok str'

pub itox : List ℕ → ℕ → Outcome (ℕ × List ℕ)
itox str n = format_int str 9 n 16

-- What may be passed for a conversion: an `unsigned`, an `unsigned long long`, a string.
pub data Arg : Type 0 where
  word : ℕ → Arg
  long_word : ℕ → Arg
  text : List ℕ → Arg

-- Where `formatv` is in its format: outside a conversion, or inside one with what was read of it.
pub data Mode : Type 0 where
  outside : Mode
  inside : ℕ → ℕ → ℕ → Mode

-- The characters of a string up to its end, as `while(*p) callback(*(p++))` gives them.
pub characters : List ℕ → Outcome (List ℕ)
characters [] = fail out_of_range
characters (c ∷ p) = let rest = characters p >>= λ s. ok (c ∷ s) in if c == 0 then ok [] else rest

-- `l < 2`: an `unsigned`, else an `unsigned long long`.
pub next_number : ℕ → List Arg → Outcome (ℕ × List Arg)
next_number l [] = fail undefined
next_number l (word n ∷ args) = if ltb l 2 then ok (n, args) else fail undefined
next_number l (long_word n ∷ args) = if ltb l 2 then fail undefined else ok (n, args)
next_number l (text s ∷ args) = fail undefined

pub next_text : List Arg → Outcome (List ℕ × List Arg)
next_text [] = fail undefined
next_text (word n ∷ args) = fail undefined
next_text (long_word n ∷ args) = fail undefined
next_text (text s ∷ args) = ok (s, args)

-- The number in `num_buffer`, whose 64 bytes hold anything before, behind the zeros that fill it up.
pub put_number : List ℕ → ℕ → ℕ → ℕ → ℕ → Outcome (List ℕ)
put_number num_buffer leading_zero width n base = do
  (ret, formatted) ← format_int num_buffer 64 n base
  digits ← characters formatted
  let fill = if not (leading_zero == 0) then replicate (width - length digits) b'0' else []
  ok (fill ++ digits)

-- "0x", then the digits behind it.
pub put_pointer : List ℕ → ℕ → Outcome (List ℕ)
put_pointer num_buffer n = do
  (ret, formatted) ← format_int (drop 2 num_buffer) 62 n 16
  digits ← characters formatted
  ok (b'0' ∷ b'x' ∷ digits)

-- The other characters: `l`, a digit of the width, a leading 0, and what is none of them, which is
-- put out and does not end the conversion, also if it is the end of the format.
pub convert_flag : ℕ → ℕ → ℕ → ℕ → List Arg → Outcome (List ℕ × List Arg × Mode)
convert_flag l width leading_zero c args =
    if c == b'l'
    then ok ([], args, inside (l + 1) width leading_zero)
    else if c == b'0' && width == 0
    then ok ([], args, inside l width (leading_zero + 1))
    else if leb b'0' c && leb c b'9'
    then (if ltb (width * 10 + (c - b'0')) (2 ^ 31)
        then ok ([], args, inside l (width * 10 + (c - b'0')) leading_zero)
        else fail undefined)
    else ok (if c == 0 then [] else c ∷ [], args, inside l width leading_zero)

-- What one character inside a conversion does: its output, the arguments left, and whether the
-- conversion goes on.
pub convert : List ℕ → ℕ → ℕ → ℕ → ℕ → List Arg → Outcome (List ℕ × List Arg × Mode)
convert num_buffer l width leading_zero c args =
    if c == b'd' || c == b'u'
    then (do
      (n, left) ← next_number l args
      out ← put_number num_buffer leading_zero width n 10
      ok (out, left, outside))
    else if c == b's'
    then (do (s, left) ← next_text args; out ← characters s; ok (out, left, outside))
    else if c == b'X' || c == b'x'
    then (do
      (n, left) ← next_number l args
      out ← put_number num_buffer leading_zero width n 16
      ok (out, left, outside))
    else if c == b'p' || c == b'P'
    then (do
      (n, left) ← next_number l args
      out ← put_pointer num_buffer n
      ok (out, left, outside))
    else convert_flag l width leading_zero c args

-- `formatv`: the return value is the number of the characters.
pub formatv_from : List ℕ → Mode → List ℕ → List Arg → Outcome (List ℕ)
formatv_from num_buffer mode [] args = fail out_of_range
formatv_from num_buffer outside (c ∷ fmt) args =
    let opened = formatv_from num_buffer (inside 0 0 0) fmt args in
    let plain = formatv_from num_buffer outside fmt args >>= λ out. ok (c ∷ out) in
    if c == 0 then ok [] else if c == b'%' then opened else plain
formatv_from num_buffer (inside l width leading_zero) (c ∷ fmt) args =
    convert num_buffer l width leading_zero c args >>= λ (out, left, mode).
    (formatv_from num_buffer mode fmt left >>= λ rest. ok (out ++ rest))

pub formatv : List ℕ → List ℕ → List Arg → Outcome (List ℕ)
formatv num_buffer fmt args = formatv_from num_buffer outside fmt args

-- `snprintf_callback` for each character of the output: `siz` is an `int`, less by one at each write.
pub put_text : List ℕ → ℕ → ℕ → List ℕ → Outcome (List ℕ)
put_text buffer at siz [] = ok buffer
put_text buffer at siz (c ∷ chars) =
    let written = store buffer at c >>= λ buffer'. put_text buffer' (at + 1) (sub32 siz 1) chars in
    if siz == 0 then put_text buffer at siz chars else written

-- The arguments are not in the buffer.
pub vsnprintf : List ℕ → List ℕ → ℕ → List ℕ → List Arg → Outcome (ℕ × List ℕ)
vsnprintf num_buffer buffer size fmt args = do
  output ← formatv num_buffer fmt args
  filled ← put_text buffer 0 (sub32 size 1) output
  ended ← store filled (length output) 0
  ok (length output + 1, ended)

pub vsncatf : List ℕ → List ℕ → ℕ → List ℕ → List Arg → Outcome (ℕ × List ℕ)
vsncatf num_buffer buffer size fmt args = do
  len ← strlen buffer
  let appended = vsnprintf num_buffer (drop len buffer) (size - len) fmt args >>= λ (ret, tail).
      ok (ret, take len buffer ++ tail)
  if leb size (len + 1) then ok (0, buffer) else appended
