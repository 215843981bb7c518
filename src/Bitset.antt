-- ===== src/Bitset.antt =====
-- kernel/bitset.c: a set of `size` numbers as the bits of an array of 32-bit words.
pub mod Invariant
pub mod Init
pub mod Loops
pub mod Find
pub mod Samples
mod Tests
use rastapopoulos.Base.{
  Bool, List, Outcome, [], assert, assertion_failed, bit_and, bit_or, fail, false, if◌then◌else◌,
  leb, ltb, not, ok, out_of_range, read, set, suc, true, zero, ℕ, ◌%◌, ◌*◌, ◌+◌, ◌/◌, ◌==◌, ◌>>=◌,
  ◌>>◌, ◌^◌, ◌∷◌,
}
use rastapopoulos.Base.Bits.{bit}
use rastapopoulos.Base.Words.{align, not32, u32}

-- `struct bitset`, `words` being those that lie behind it
pub record Bitset : Type 0 where
  pub size : ℕ
  pub element_count : ℕ
  pub words : List ℕ

-- BIT_PER_ELEMENT
abbrev pub bit_per_element : ℕ
bit_per_element = 32

-- BITSET_INVALID_INDEX
abbrev pub invalid_index : ℕ
invalid_index = 0xFFFFFFFF

-- a word with every bit set
abbrev pub full_word : ℕ
full_word = 0xFFFFFFFF

-- `memset` of the first `n` words of an array
pub fill : ℕ → ℕ → List ℕ → Outcome (List ℕ)
fill zero w words = ok words
fill (suc n) w [] = fail out_of_range
fill (suc n) w (x ∷ words) = do rest ← fill n w words; ok (w ∷ rest)

pub clear_all : Bitset → Outcome Bitset
clear_all b = do ws ← fill b.element_count 0 b.words; ok (record b { words = ws })

pub set_all : Bitset → Outcome Bitset
set_all b = do ws ← fill b.element_count full_word b.words; ok (record b { words = ws })

-- `storage` is what stands in the memory of the words before the call.
pub init : List ℕ → ℕ → Outcome Bitset
init storage size = clear_all (record {
  size = size;
  element_count = align size bit_per_element / bit_per_element;
  words = storage;
})

-- The header is 8 bytes, a word 4.
pub alloc_size : ℕ → Outcome ℕ
alloc_size size = do
  let element_count = align size bit_per_element / bit_per_element
  assert (leb size (u32 (element_count * bit_per_element)))
  ok (u32 (8 + u32 (4 * element_count)))

-- `1 << (offset % BIT_PER_ELEMENT)`
abbrev pub mask : ℕ → ℕ
mask offset = 2 ^ (offset % bit_per_element)

unfoldable pub test : Bitset → ℕ → Outcome Bool
test b offset = do
  assert (ltb offset b.size)
  w ← read b.words (offset / bit_per_element)
  ok (not (bit_and w (mask offset) == 0))

unfoldable pub insert : Bitset → ℕ → Outcome Bitset
insert b offset = do
  assert (ltb offset b.size)
  w ← read b.words (offset / bit_per_element)
  ok (record b { words = set b.words (offset / bit_per_element) (bit_or w (mask offset)) })

unfoldable pub clear : Bitset → ℕ → Outcome Bitset
clear b offset = do
  assert (ltb offset b.size)
  w ← read b.words (offset / bit_per_element)
  ok (record b { words = set b.words (offset / bit_per_element) (bit_and w (not32 (mask offset))) })

-- Whether `bitset_find` looks into a word: for a set bit into one that is not 0, for a clear bit
-- into one that is not full.
abbrev pub wanted : Bool → ℕ → Bool
wanted true w = not (w == 0)
wanted false w = not (w == full_word)

-- The loop over the words, `left` of them from `i` on; BITSET_INVALID_INDEX if none is wanted.
unfoldable pub find_word : Bitset → Bool → ℕ → ℕ → Outcome ℕ
find_word b value zero i = ok invalid_index
find_word b value (suc left) i = do
  w ← read b.words i
  let rest = find_word b value left (i + 1)
  if wanted value w then ok i else rest

-- Whether the search ends at a bit that `bitset_test` reads as `t`.
abbrev pub matching : Bool → Bool → Bool
matching true t = t
matching false t = not t

-- The loop over the bits of a word. Behind it stands `assert(!"This should not happen")`.
unfoldable pub find_bit : Bitset → Bool → ℕ → ℕ → Outcome ℕ
find_bit b value zero i = fail assertion_failed
find_bit b value (suc left) i = do
  t ← test b i
  let rest = find_bit b value left (i + 1)
  if matching value t then ok i else rest

-- `value` is the C `unsigned`: any number but 0 asks for a set bit.
unfoldable pub find : Bitset → ℕ → Outcome ℕ
find b value = do
  let bit = not (value == 0)
  element_index ← find_word b bit b.element_count 0
  let found = find_bit b bit bit_per_element (u32 (element_index * bit_per_element))
  if element_index == invalid_index then ok invalid_index else found
