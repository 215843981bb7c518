-- ===== src/Bitset/Samples.antt =====
-- Sets of 40 numbers for the tests of kernel/bitset.c and kernel/pmm.c.
use rastapopoulos.Base.{[], arith, get_or, refl, suc, zero, ℕ, ◌%◌, ◌/◌, ◌<◌, ◌^◌, ◌∷◌, ◌≡◌, ◌≤◌}
use rastapopoulos.Base.Bits.{bit, bit-ones, bit-zero, bit_above}
use rastapopoulos.Bitset.{Bitset, full_word}
use rastapopoulos.Bitset.Find.{PaddingClear}
use rastapopoulos.Bitset.Invariant.{IsValid, bit_at}

-- 40 numbers: the first word full, the second empty
abbrev pub half_full : Bitset
half_full = record { size = 40; element_count = 2; words = full_word ∷ 0 ∷ [] }

-- 40 numbers, all of them in the set: the last 24 bits of the second word are padding
abbrev pub all_in : Bitset
all_in = record { size = 40; element_count = 2; words = full_word ∷ 0xFF ∷ [] }

two_words_lt : (a b i : ℕ) → a < 2 ^ 32 → b < 2 ^ 32 → get_or (a ∷ b ∷ []) i 0 < 2 ^ 32
two_words_lt a b zero h k = h
two_words_lt a b (suc zero) h k = k
two_words_lt a b (suc (suc i)) h k = omega arith

pub half_full-IsValid : IsValid half_full
half_full-IsValid = record {
  counted = refl;
  enough = omega arith;
  tight = omega arith;
  small = omega arith;
  word_range = λ i. two_words_lt full_word 0 i (omega arith) (omega arith);
}

pub all_in-IsValid : IsValid all_in
all_in-IsValid = record {
  counted = refl;
  enough = omega arith;
  tight = omega arith;
  small = omega arith;
  word_range = λ i. two_words_lt full_word 0xFF i (omega arith) (omega arith);
}

second_word_padding :
    (e i : ℕ) → 1 ≤ e → (e ≡ 1 → 8 ≤ i) → bit (get_or (full_word ∷ 0xFF ∷ []) e 0) i ≡ 0
second_word_padding zero i h k = absurd (omega arith)
second_word_padding (suc zero) i h k = bit_above 8 0xFF i (omega arith) (k refl)
second_word_padding (suc (suc e)) i h k = bit-zero i

pub all_in_padding : PaddingClear all_in
all_in_padding j h = second_word_padding (j / 32) (j % 32) (omega arith) (λ e. omega arith)

pub all_in_full : (j : ℕ) → j < 40 → bit_at all_in j ≡ 1
all_in_full j h = in_word (j / 32) (j % 32) (λ e. omega arith) (λ e. omega arith) (omega arith)
  where
    in_word :
        (e i : ℕ)
        → (e ≡ 0 → i < 32)
        → (e ≡ 1 → i < 8)
        → e < 2
        → bit (get_or (full_word ∷ 0xFF ∷ []) e 0) i ≡ 1
    in_word zero i h k lt = bit-ones 32 i (h refl)
    in_word (suc zero) i h k lt = bit-ones 8 i (k refl)
    in_word (suc (suc e)) i h k lt = absurd (omega arith)

-- the empty set of 40 numbers
abbrev pub none_in : Bitset
none_in = record { size = 40; element_count = 2; words = 0 ∷ 0 ∷ [] }

none_in_bits : (e i : ℕ) → bit (get_or (0 ∷ 0 ∷ []) e 0) i ≡ 0
none_in_bits zero i = bit-zero i
none_in_bits (suc zero) i = bit-zero i
none_in_bits (suc (suc e)) i = bit-zero i

pub none_in-IsValid : IsValid none_in
none_in-IsValid = record {
  counted = refl;
  enough = omega arith;
  tight = omega arith;
  small = omega arith;
  word_range = λ i. two_words_lt 0 0 i (omega arith) (omega arith);
}

pub none_in_padding : PaddingClear none_in
none_in_padding j h = none_in_bits (j / 32) (j % 32)
