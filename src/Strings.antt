-- ===== src/Strings.antt =====
-- common/string.c: the functions on strings and on blocks of memory.
-- A `char` is the byte that stands for it. A `char*` that is only moved forward is the list of the
-- bytes from it to the end of its object; where code moves both ways, memory is one list and a
-- pointer an index of it. The two strings of a call lie in different objects; memcpy alone is
-- about two blocks of one memory.
pub mod Copy
pub mod Bounded
pub mod Compare
pub mod Reverse
mod Tests
use rastapopoulos.Base.{
  List, Option, Outcome, [], bit_or, fail, if◌then◌else◌, leb, ltb, none, not, ok, out_of_range,
  read, some, store, suc, zero, ℕ, ◌&&◌, ◌*◌, ◌+◌, ◌-◌, ◌==◌, ◌>>=◌, ◌>>◌, ◌^◌, ◌||◌, ◌∷◌,
}
use rastapopoulos.Base.Words.{sub32, u32}

-- `memcpy`: from the last byte down if the source begins before the destination and runs into it.
pub copy_up : ℕ → List ℕ → ℕ → ℕ → Outcome (List ℕ)
copy_up zero memory d s = ok memory
copy_up (suc n) memory d s = do
  b ← read memory s
  memory' ← store memory d b
  copy_up n memory' (d + 1) (s + 1)

pub copy_down : ℕ → List ℕ → ℕ → ℕ → Outcome (List ℕ)
copy_down zero memory d s = ok memory
copy_down (suc n) memory d s = do
  b ← read memory (s + n)
  memory' ← store memory (d + n) b
  copy_down n memory' d s

pub memcpy : List ℕ → ℕ → ℕ → ℕ → Outcome (List ℕ)
memcpy memory d s size =
    if ltb s d && ltb d (s + size) then copy_down size memory d s else copy_up size memory d s

-- `b - a` for two bytes, as the pattern of an `int`
abbrev pub byte_difference : ℕ → ℕ → ℕ
byte_difference a b = sub32 b a

pub memcmp : ℕ → List ℕ → List ℕ → Outcome ℕ
memcmp zero p0 p1 = ok 0
memcmp (suc size) [] p1 = fail out_of_range
memcmp (suc size) (a ∷ p0) [] = fail out_of_range
memcmp (suc size) (a ∷ p0) (b ∷ p1) =
    let rest = memcmp size p0 p1 in if not (a == b) then ok (byte_difference a b) else rest

unfoldable pub strlen : List ℕ → Outcome ℕ
strlen [] = fail out_of_range
strlen (c ∷ s) = let rest = strlen s >>= λ n. ok (n + 1) in if c == 0 then ok 0 else rest

-- The destination after the call, as far as its object goes.
unfoldable pub strlcpy : List ℕ → List ℕ → ℕ → Outcome (List ℕ)
strlcpy [] src siz = fail out_of_range
strlcpy (d ∷ dst) [] siz = if ltb 1 siz then fail out_of_range else ok (0 ∷ dst)
strlcpy (d ∷ dst) (c ∷ src) siz =
    let rest = strlcpy dst src (siz - 1) >>= λ copied. ok (c ∷ copied) in
    if ltb 1 siz && not (c == 0) then rest else ok (0 ∷ dst)

-- The second loop of `strlcat` is that of `strlcpy` but for the order of its tests; the first looks
-- for the end of the destination while `siz` lasts.
pub append_at : List ℕ → List ℕ → ℕ → Outcome (List ℕ)
append_at [] src siz = fail out_of_range
append_at (d ∷ dst) [] siz = fail out_of_range
append_at (d ∷ dst) (c ∷ src) siz =
    let rest = append_at dst src (siz - 1) >>= λ copied. ok (c ∷ copied) in
    if not (c == 0) && ltb 1 siz then rest else ok (0 ∷ dst)

pub strlcat : List ℕ → List ℕ → ℕ → Outcome (List ℕ)
strlcat [] src siz = fail out_of_range
strlcat (d ∷ dst) src siz =
    let rest = strlcat dst src (siz - 1) >>= λ joined. ok (d ∷ joined) in
    if not (d == 0) && not (siz == 0) then rest else append_at (d ∷ dst) src siz

-- A `char` as an `int`, and `*s1 - *s0`
abbrev pub signed_char : ℕ → ℕ
signed_char c = if ltb c 128 then c else 2 ^ 32 - 256 + c

abbrev pub char_difference : ℕ → ℕ → ℕ
char_difference a b = sub32 (signed_char b) (signed_char a)

unfoldable pub strcmp : List ℕ → List ℕ → Outcome ℕ
strcmp [] s1 = fail out_of_range
strcmp (a ∷ s0) [] = fail out_of_range
strcmp (a ∷ s0) (b ∷ s1) =
    let rest = strcmp s0 s1 in
    if a == 0
    then ok (char_difference a b)
    else if not (a == b)
    then ok (char_difference a b)
    else rest

-- `basename`: the pointer moves to every slash, and behind the last.
pub last_slash : List ℕ → List ℕ → Outcome (List ℕ)
last_slash result [] = fail out_of_range
last_slash result (c ∷ filename) =
    let rest = last_slash (if c == b'/' then c ∷ filename else result) filename in
    if c == 0 then ok result else rest

pub skip_slash : List ℕ → Outcome (List ℕ)
skip_slash [] = fail out_of_range
skip_slash (c ∷ result) = ok (if c == b'/' then result else c ∷ result)

pub basename : List ℕ → Outcome (List ℕ)
basename filename = last_slash filename filename >>= skip_slash

-- The loop of `strreverse`, on the characters `start` to `end` of memory; `rounds` is more than it
-- takes.
unfoldable pub reverse_between : ℕ → List ℕ → ℕ → ℕ → Outcome (List ℕ)
reverse_between zero memory start end = ok memory
reverse_between (suc rounds) memory start end =
    let swapped = (do
      tmp ← read memory start
      last ← read memory end
      first_written ← store memory start last
      both ← store first_written end tmp
      reverse_between rounds both (start + 1) (end - 1)) in
    if ltb start end then swapped else ok memory

-- A size of -1 asks for the length of the string; `end` is
-- negative for a size of 0 or of more than 2 ^ 31.
abbrev pub whole_string : ℕ
whole_string = 0xFFFFFFFF

unfoldable pub reverse_first : List ℕ → ℕ → Outcome (List ℕ)
reverse_first buffer size =
    if size == 0 || ltb (2 ^ 31) size then ok buffer else reverse_between size buffer 0 (size - 1)

unfoldable pub strreverse : List ℕ → ℕ → Outcome (List ℕ)
strreverse buffer size =
    if size == whole_string
    then (strlen buffer >>= reverse_first buffer)
    else reverse_first buffer size

-- `xtoa`: up to eight hexadecimal digits.
abbrev pub hex_digit : ℕ → Option ℕ
hex_digit c =
    if leb b'0' c && leb c b'9'
    then some (c - b'0')
    else if leb b'a' c && leb c b'f'
    then some (c - b'a' + 10)
    else if leb b'A' c && leb c b'F'
    then some (c - b'A' + 10)
    else none

unfoldable pub xtoa_loop : ℕ → ℕ → List ℕ → Outcome ℕ
xtoa_loop left res [] = fail out_of_range
xtoa_loop zero res (c ∷ p) = ok res
xtoa_loop (suc left) res (c ∷ p) = if c == 0 then ok res else elim (hex_digit c) [
  | none ↦ ok res
  | some digit ↦ xtoa_loop left (bit_or (u32 (res * 2 ^ 4)) digit) p
]

unfoldable pub xtoa : List ℕ → Outcome ℕ
xtoa str = xtoa_loop 8 0 str
