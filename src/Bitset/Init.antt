-- ===== src/Bitset/Init.antt =====
-- `bitset_init`, `bitset_alloc_size` and the `memset` of all words.
use rastapopoulos.Base.{
  List, [], arith, assertion_failed, fail, get_or, if◌then◌else◌, leb, length, length-replicate, ok,
  refl, replicate, suc, sym, zero, ℕ, ◌%◌, ◌*◌, ◌+◌, ◌-◌, ◌/◌, ◌<◌, ◌^◌, ◌∙◌, ◌∷◌, ◌≡◌, ◌≤◌,
}
use rastapopoulos.Base.Bits.{bit-zero}
use rastapopoulos.Base.Words.{align, align_word_bits}
use rastapopoulos.Bitset.{Bitset, alloc_size, clear_all, fill, init}
use rastapopoulos.Bitset.Invariant.{IsValid, bit_at}

fill-length :
    (words : List ℕ) (w : ℕ) → fill (length words) w words ≡ ok (replicate (length words) w)
unfolding fill
fill-length [] w = refl
fill-length (x ∷ words) w = rw (fill-length words w)

get_or-replicate_zero : (n i : ℕ) → get_or {A = ℕ} (replicate n 0) i 0 ≡ 0
get_or-replicate_zero zero i = refl
get_or-replicate_zero (suc n) zero = refl
get_or-replicate_zero (suc n) (suc i) = get_or-replicate_zero n i

-- the words that a set of `size` numbers takes, where `ALIGN` does not wrap
abbrev pub words_for : ℕ → ℕ
words_for size = (size + 31) / 32

fill_words : (n w : ℕ) (words : List ℕ) → length words ≡ n → fill n w words ≡ ok (replicate n w)
fill_words n w words e = rw (← e) (fill-length words w)

element_count_lem : (size : ℕ) → size ≤ 2 ^ 32 - 32 → align size 32 / 32 ≡ words_for size
element_count_lem size h = omega (arith, align_word_bits size)

-- Over storage of the right length, `bitset_init` makes a valid set with every bit clear, the
-- padding too, whatever the memory held.
pub init_lem :
    (storage : List ℕ) (size : ℕ)
    → size ≤ 2 ^ 32 - 32
    → length storage ≡ words_for size
    → (b : Bitset) × (init storage size ≡ ok b)
      × (b.size ≡ size)
      × IsValid b
      × ((j : ℕ) → bit_at b j ≡ 0)
init_lem storage size h e = (
  made,
  unfold init clear_all in rw (fill_words n 0 storage (e ∙ sym (element_count_lem size h))),
  refl,
  made-IsValid,
  λ j. rw (get_or-replicate_zero n (j / 32)) (bit-zero (j % 32)),
)
  where
    n : ℕ
    n = align size 32 / 32

    made : Bitset
    made = record { size = size; element_count = n; words = replicate n 0 }

    made-IsValid : IsValid made
    made-IsValid = record {
      counted = length-replicate n 0;
      enough = omega (arith, element_count_lem size h);
      tight = omega (arith, element_count_lem size h);
      small = h;
      word_range = λ i. omega (arith, get_or-replicate_zero n i);
    }

-- The bytes that `bitset_alloc_size` asks for hold the header and the words of the set. A size of
-- more than 2 ^ 32 - 32, at which `ALIGN` wraps, fails its assertion.
pub alloc_size_lem :
    (size : ℕ)
    → size < 2 ^ 32
    → alloc_size size
      ≡ (if leb size (2 ^ 32 - 32) then ok (8 + 4 * words_for size) else fail assertion_failed)
unfolding alloc_size
alloc_size_lem size h = ground (arith, align_word_bits size)

-- `bitset_alloc_size` asks for the bytes of the header and of the words of the set; a size of more
-- than 2 ^ 32 - 32, at which `ALIGN` wraps, fails its assertion. Over words of that number,
-- `bitset_init` makes a valid set of a smaller size, with every bit clear, the padding too.
pub alloc_size-init :
    (storage : List ℕ) (size : ℕ)
    → size < 2 ^ 32
    → length storage ≡ words_for size
    → (alloc_size size
        ≡ (if leb size (2 ^ 32 - 32) then ok (8 + 4 * words_for size) else fail assertion_failed))
      × (size ≤ 2 ^ 32 - 32
          → (b : Bitset) × (init storage size ≡ ok b)
            × (b.size ≡ size)
            × IsValid b
            × ((j : ℕ) → bit_at b j ≡ 0))
alloc_size-init storage size h e = (alloc_size_lem size h, λ fits. init_lem storage size fits e)
