-- ===== src/Bitset/Invariant.antt =====
-- What the words of a bitset stand for, and that each operation keeps them in order.
use rastapopoulos.Base.{
  Bool-cases, Outcome, arith, bit_and, bit_or, get_elem?-eq-get_or, get_or, get_or-set-lt,
  get_or-set_ne, get_or-set_self, if◌then◌else◌, inl, inr, length, length-set, ok, read, refl, set,
  ℕ, ◌%◌, ◌*◌, ◌+◌, ◌-◌, ◌/◌, ◌<◌, ◌==◌, ◌^◌, ◌∙◌, ◌≡◌, ◌≤◌,
}
use rastapopoulos.Base.Bits.{
  bit, bit-bit_and, bit-bit_or, bit-complement, bit-lt-two, bit-pow, bit_and-le, bit_and-pow,
  bit_or-lt, two_pow_lt, two_pow_pos,
}
use rastapopoulos.Base.Words.{not32}
use rastapopoulos.Bitset.{Bitset, bit_per_element, clear, insert, mask, test}

-- the bit that stands for the number `j`: 1 if it is in the set
abbrev pub bit_at : Bitset → ℕ → ℕ
bit_at b j = bit (get_or b.words (j / bit_per_element) 0) (j % bit_per_element)

-- Every word is below 2 ^ 32, and there are just enough words for `size` bits.
pub record IsValid (b : Bitset) : Type 0 where
  pub counted : length b.words ≡ b.element_count
  pub enough : b.size ≤ b.element_count * bit_per_element
  pub tight : b.element_count * bit_per_element < b.size + bit_per_element
  pub small : b.size ≤ 2 ^ 32 - 32
  pub word_range : (i : ℕ) → get_or b.words i 0 < 2 ^ 32

-- The index of the word of a number of the set.
pub word_in_range :
    {b : Bitset} (j : ℕ) → IsValid b → j < b.size → j / bit_per_element < length b.words
word_in_range j v h = omega arith

read_word :
    {b : Bitset} (j : ℕ)
    → IsValid b
    → j < b.size
    → read b.words (j / bit_per_element) ≡ ok (get_or b.words (j / bit_per_element) 0)
read_word {b} j v h =
    rw (get_elem?-eq-get_or b.words (j / bit_per_element) 0 (word_in_range j v h), read)

-- `bitset_test` reads the bit.
pub test_lem : {b : Bitset} (j : ℕ) → IsValid b → j < b.size → test b j ≡ ok (bit_at b j == 1)
unfolding test
test_lem {b} j v h = ground (
  arith,
  read_word j v h,
  bit_and-pow (get_or b.words (j / bit_per_element) 0) (j % bit_per_element),
  bit-lt-two (get_or b.words (j / bit_per_element) 0) (j % bit_per_element),
  two_pow_pos (j % bit_per_element),
)

-- The word at index `e` becomes `w`.
abbrev replace_word : Bitset → ℕ → ℕ → Bitset
replace_word b e w = record b { words = set b.words e w }

replace_word-IsValid :
    {b : Bitset} (e w : ℕ) → IsValid b → w < 2 ^ 32 → IsValid (replace_word b e w)
replace_word-IsValid {b} e w v h = record {
  counted = length-set b.words e w ∙ v.counted;
  enough = v.enough;
  tight = v.tight;
  small = v.small;
  word_range = λ i. get_or-set-lt b.words e i w v.word_range h;
}

-- With digit `k` of a word changed to `value` and the others kept, one bit of the set changes.
bit_at-replace_word :
    (b : Bitset) (j w value : ℕ)
    → j / bit_per_element < length b.words
    → ((i : ℕ)
        → i < 32
        → bit w i ≡ (
            if i == j % bit_per_element
            then value
            else bit (get_or b.words (j / bit_per_element) 0) i))
    → (i : ℕ)
    → bit_at (replace_word b (j / bit_per_element) w) i ≡ (if i == j then value else bit_at b i)
bit_at-replace_word b j w value lt h i =
    elim (Bool-cases (i / bit_per_element == j / bit_per_element)) [
      | inl same ↦
          ground
            (arith, h (i % bit_per_element), get_or-set_self b.words (j / bit_per_element) w 0 lt)
      | inr other ↦
          ground (arith, get_or-set_ne b.words (j / bit_per_element) (i / bit_per_element) w 0)
    ]

-- What an operation leaves: a valid bitset of the same size in which the bit of `j` is `value`
-- and the others are as before.
pub record Updated (b : Bitset) (j value : ℕ) (result : Outcome Bitset) : Type 0 where
  pub after : Bitset
  pub returns : result ≡ ok after
  pub valid : IsValid after
  pub same_size : after.size ≡ b.size
  pub same_count : after.element_count ≡ b.element_count
  pub bits : (i : ℕ) → bit_at after i ≡ (if i == j then value else bit_at b i)

-- `bitset_set` puts a number below `size` into a valid set and changes no other; the set stays
-- valid.
pub insert-Updated : {b : Bitset} (j : ℕ) → IsValid b → j < b.size → Updated b j 1 (insert b j)
insert-Updated {b} j v h = record {
  after = replace_word b e new_word;
  returns = unfold insert in ground (arith, read_word j v h);
  valid = replace_word-IsValid e new_word v in_word;
  same_size = refl;
  same_count = refl;
  bits = bit_at-replace_word b j new_word 1 (word_in_range j v h) digits_of;
}
  where
    e : ℕ
    e = j / bit_per_element

    old : ℕ
    old = get_or b.words e 0

    new_word : ℕ
    new_word = bit_or old (mask j)

    in_word : new_word < 2 ^ 32
    in_word =
        bit_or-lt 32 old (mask j) (v.word_range e)
          (two_pow_lt (j % bit_per_element) 32 (omega arith))

    digits_of :
        (i : ℕ) → i < 32 → bit new_word i ≡ (if i == j % bit_per_element then 1 else bit old i)
    digits_of i lt =
        ground (arith, bit-bit_or old (mask j) i, bit-pow (j % bit_per_element) i, bit-lt-two old i)

-- `bitset_clear` takes a number below `size` out of a valid set and changes no other; the set
-- stays valid.
pub clear-Updated : {b : Bitset} (j : ℕ) → IsValid b → j < b.size → Updated b j 0 (clear b j)
clear-Updated {b} j v h = record {
  after = replace_word b e new_word;
  returns = unfold clear in ground (arith, read_word j v h);
  valid = replace_word-IsValid e new_word v in_word;
  same_size = refl;
  same_count = refl;
  bits = bit_at-replace_word b j new_word 0 (word_in_range j v h) digits_of;
}
  where
    e : ℕ
    e = j / bit_per_element

    old : ℕ
    old = get_or b.words e 0

    new_word : ℕ
    new_word = bit_and old (not32 (mask j))

    in_word : new_word < 2 ^ 32
    in_word = omega (arith, bit_and-le old old (not32 (mask j)) (omega arith), v.word_range e)

    digits_of :
        (i : ℕ) → i < 32 → bit new_word i ≡ (if i == j % bit_per_element then 0 else bit old i)
    digits_of i lt = ground (
      arith,
      bit-bit_and old (not32 (mask j)) i,
      bit-complement 32 (mask j) i (two_pow_lt (j % bit_per_element) 32 (omega arith)) lt,
      bit-pow (j % bit_per_element) i,
      bit-lt-two old i,
    )

pub bit_at-lt-two : (b : Bitset) (j : ℕ) → bit_at b j < 2
bit_at-lt-two b j = bit-lt-two (get_or b.words (j / bit_per_element) 0) (j % bit_per_element)

-- `bitset_set` puts a number below `size` into a valid set, `bitset_clear` takes it out; both change
-- no other number, and the set stays valid.
pub updates-Updated :
    (b : Bitset) (j : ℕ)
    → IsValid b
    → j < b.size
    → Updated b j 1 (insert b j) × Updated b j 0 (clear b j)
updates-Updated b j v h = (insert-Updated j v h, clear-Updated j v h)
