-- ===== src/Bitset/Find.antt =====
-- `bitset_find`: which index it returns, and when it stops the machine.
use native.Mathlib.Decide.{dec_lt}
use rastapopoulos.Base.{
  Bool, Outcome, arith, assertion_failed, fail, false, get_or, if◌then◌else◌, inl, inr, not, ok,
  refl, true, ℕ, ◌%◌, ◌*◌, ◌+◌, ◌/◌, ◌<◌, ◌==◌, ◌∙◌, ◌≡◌, ◌≤◌, ◌⊎◌,
}
use rastapopoulos.Bitset.{Bitset, bit_per_element, find, find_bit, find_word, invalid_index, wanted}
use rastapopoulos.Bitset.Invariant.{IsValid, bit_at}
use rastapopoulos.Bitset.Loops.{
  BitFound, BitMissing, WordFound, WordMissing, digit, find_bit_lem, find_word_lem, unwanted_digits,
  wanted_has_digit,
}

-- `j` is the first number of the set's range whose bit is `d`.
pub record IsFirst (b : Bitset) (d j : ℕ) : Type 0 where
  pub in_size : j < b.size
  pub hit : bit_at b j ≡ d
  pub before : (m : ℕ) → m < j → bit_at b m + d ≡ 1

-- No number of the set's range has the bit `d`.
abbrev pub NoneHas : Bitset → ℕ → Type 0
NoneHas b d = (m : ℕ) → m < b.size → bit_at b m + d ≡ 1

-- The three ends of `bitset_find`: the first match; no word that holds one; or the failed
-- assertion, where the only matches lie in the last word behind the last number of the set.
pub data Finds (b : Bitset) (value : Bool) (result : Outcome ℕ) : Type 0 where
  first : (j : ℕ) → result ≡ ok j → IsFirst b (digit value) j → Finds b value result
  missing :
      result ≡ ok invalid_index
      → ((m : ℕ) → m < b.element_count * bit_per_element → bit_at b m + digit value ≡ 1)
      → Finds b value result
  stray :
      result ≡ fail assertion_failed
      → NoneHas b (digit value)
      → ¬ (
          (j : ℕ)
          → b.size ≤ j
          → j < b.element_count * bit_per_element
          → bit_at b j + digit value ≡ 1)
      → Finds b value result

module _ (b : Bitset) (value : Bool) (v : IsValid b) where
  -- The words before `k` have no match.
  others_before :
      (k : ℕ)
      → ((m : ℕ) → m < k → wanted value (get_or b.words m 0) ≡ false)
      → (m : ℕ) → m < k * 32
      → bit_at b m + digit value ≡ 1
  others_before k h m lt =
      unwanted_digits value (get_or b.words (m / 32) 0) (m % 32) (h (m / 32) (omega arith))
        (omega arith)

  -- A wanted word has a match.
  match_in :
      (k : ℕ)
      → wanted value (get_or b.words k 0) ≡ true
      → ¬ ((j : ℕ) → k * 32 ≤ j → j < k * 32 + 32 → bit_at b j + digit value ≡ 1)
  match_in k h all =
      wanted_has_digit value (get_or b.words k 0) (v.word_range k) h
        λ i lt. ground (arith, all (k * 32 + i))

  -- What the second loop makes of the word that the first loop chose.
  in_word :
      (k : ℕ) {result : Outcome ℕ}
      → k < b.element_count
      → wanted value (get_or b.words k 0) ≡ true
      → ((m : ℕ) → m < k → wanted value (get_or b.words m 0) ≡ false)
      → BitFound b value v (k * 32) result ⊎ BitMissing b value v (k * 32) (k * 32 + 32) result
      → Finds b value result
  in_word k lt h before (inl f) = first f.at f.returns (record {
    in_size = f.in_size;
    hit = f.hit;
    before = λ m p. elim (dec_lt m (k * 32)) [
      | yes q ↦ others_before k before m q
      | no q ↦ f.before m (omega arith) p
    ];
  })
  in_word k lt h before (inr n) = stray n.returns none_has λ padding. match_in k h λ j p q.
      elim (dec_lt j b.size) [ yes r ↦ none_has j r | no r ↦ padding j (omega arith) (omega arith) ]
    where
      straddles : b.size < k * 32 + 32
      straddles = elim (dec_lt b.size (k * 32 + 32)) [
        | yes p ↦ p
        | no p ↦ absurd (match_in k h (λ j q r. n.others j q r (omega arith)))
      ]

      none_has : NoneHas b (digit value)
      none_has m p = elim (dec_lt m (k * 32)) [
        | yes q ↦ others_before k before m q
        | no q ↦ n.others m (omega arith) (omega (arith, straddles)) p
      ]

find_found :
    (b : Bitset) (value k : ℕ)
    → IsValid b
    → k < b.element_count
    → find_word b (not (value == 0)) b.element_count 0 ≡ ok k
    → find b value ≡ find_bit b (not (value == 0)) 32 (k * 32)
unfolding find
find_found b value k v lt e = rw e (ground arith)

find_missing :
    (b : Bitset) (value : ℕ)
    → find_word b (not (value == 0)) b.element_count 0 ≡ ok invalid_index
    → find b value ≡ ok invalid_index
unfolding find
find_missing b value e = rw e refl

-- What `bitset_find` does with a valid set: it returns the first number whose bit is the one asked
-- for; or there is none, and it returns BITSET_INVALID_INDEX, or stops at an assertion, which
-- needs such a bit in the last word behind the last number.
pub find-Finds : (b : Bitset) (value : ℕ) → IsValid b → Finds b (not (value == 0)) (find b value)
find-Finds b value v = by_word (find_word_lem b bit_value v b.element_count 0 (omega arith))
  where
    bit_value : Bool
    bit_value = not (value == 0)

    by_word :
        WordFound b bit_value v 0 (find_word b bit_value b.element_count 0)
          ⊎ WordMissing b bit_value v 0 (find_word b bit_value b.element_count 0)
        → Finds b bit_value (find b value)
    by_word (inl f) = rw (find_found b value f.at v f.in_range f.returns) (
        in_word b bit_value v f.at f.in_range f.hit (λ m p. f.before m (omega arith) p)
          (find_bit_lem b bit_value v 32 (f.at * 32) (f.at * 32 + 32) (omega arith)))
    by_word (inr n) = missing (find_missing b value n.returns) λ m p.
        others_before b bit_value v b.element_count (λ k q. n.none_wanted k (omega arith) q) m p

-- The bits behind the last number are clear, as `bitset_init` leaves them.
abbrev pub PaddingClear : Bitset → Type 0
PaddingClear b = (j : ℕ) → b.size ≤ j → bit_at b j ≡ 0

-- If a number below `size` is not in a valid set, `bitset_find(b, 0)` returns the first such
-- number.
pub find_clear-IsFirst :
    (b : Bitset) (j : ℕ)
    → IsValid b
    → j < b.size
    → bit_at b j ≡ 0
    → (k : ℕ) × (find b 0 ≡ ok k) × IsFirst b 0 k
find_clear-IsFirst b j v lt h = go (find-Finds b 0 v)
  where
    go : Finds b false (find b 0) → (k : ℕ) × (find b 0 ≡ ok k) × IsFirst b 0 k
    go (first k e f) = (k, e, f)
    go (missing e others) = absurd (omega (arith, others j (omega arith)))
    go (stray e others p) = absurd (omega (arith, others j lt))

-- For a valid set with clear padding, `bitset_find(b, 1)` returns the first number in the set, or
-- BITSET_INVALID_INDEX if the set is empty: it never stops at its assertion.
pub find_set-IsFirst :
    (b : Bitset)
    → IsValid b
    → PaddingClear b
    → ((k : ℕ) × (find b 1 ≡ ok k) × IsFirst b 1 k)
      ⊎ ((find b 1 ≡ ok invalid_index) × ((m : ℕ) → m < b.size → bit_at b m ≡ 0))
find_set-IsFirst b v clear_padding = go (find-Finds b 1 v)
  where
    go :
        Finds b true (find b 1)
        → ((k : ℕ) × (find b 1 ≡ ok k) × IsFirst b 1 k)
          ⊎ ((find b 1 ≡ ok invalid_index) × ((m : ℕ) → m < b.size → bit_at b m ≡ 0))
    go (first k e f) = inl (k, e, f)
    go (missing e others) = inr (e, λ m p. omega (arith, others m (omega arith)))
    go (stray e others p) = absurd (p (λ j q r. omega (arith, clear_padding j q)))

-- When every number is in a valid set whose padding is clear, `bitset_find(b, 0)` returns
-- BITSET_INVALID_INDEX if `size` is a multiple of 32, and stops at a failed assertion otherwise.
pub find_clear_full :
    (b : Bitset)
    → IsValid b
    → PaddingClear b
    → ((j : ℕ) → j < b.size → bit_at b j ≡ 1)
    → find b 0 ≡ (if b.size % 32 == 0 then ok invalid_index else fail assertion_failed)
find_clear_full b v clear_padding all = go (find-Finds b 0 v)
  where
    go :
        Finds b false (find b 0)
        → find b 0 ≡ (if b.size % 32 == 0 then ok invalid_index else fail assertion_failed)
    go (first k e f) = absurd (omega (arith, all k f.in_size, f.hit))
    go (missing e others) = elim (dec_lt b.size (b.element_count * 32)) [
      | yes p ↦ absurd (omega (arith, others b.size p, clear_padding b.size (omega arith)))
      | no p ↦ e ∙ ground arith
    ]
    go (stray e others p) = elim (dec_lt b.size (b.element_count * 32)) [
      | yes q ↦ e ∙ ground arith
      | no q ↦ absurd (p (λ j r t. absurd (omega arith)))
    ]

-- In a valid set, `bitset_find(b, 0)` returns the first number below `size` that is not in the set, if
-- there is one. If the padding is clear, too: where every number is in the set, it returns
-- BITSET_INVALID_INDEX if `size` is a multiple of 32 and stops at a failed assertion otherwise; and
-- `bitset_find(b, 1)` returns the first number in the set, or BITSET_INVALID_INDEX if there is none.
pub find_lem :
    (b : Bitset)
    → IsValid b
    → ((j : ℕ) → j < b.size → bit_at b j ≡ 0 → (k : ℕ) × (find b 0 ≡ ok k) × IsFirst b 0 k)
      × (PaddingClear b
          → ((j : ℕ) → j < b.size → bit_at b j ≡ 1)
          → find b 0 ≡ (if b.size % 32 == 0 then ok invalid_index else fail assertion_failed))
      × (PaddingClear b
          → ((k : ℕ) × (find b 1 ≡ ok k) × IsFirst b 1 k)
            ⊎ ((find b 1 ≡ ok invalid_index) × ((m : ℕ) → m < b.size → bit_at b m ≡ 0)))
find_lem b v = (λ j h e. find_clear-IsFirst b j v h e, find_clear_full b v, find_set-IsFirst b v)
