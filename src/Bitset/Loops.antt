-- ===== src/Bitset/Loops.antt =====
-- The two loops of `bitset_find`: each ends at the first hit, or finds that there is none.
use native.Mathlib.Decide.{dec_lt}
use rastapopoulos.Base.{
  Bool, Bool-cases, Outcome, arith, assertion_failed, fail, false, get_elem?-eq-get_or, get_or,
  if◌then◌else◌, inl, inr, ok, read, refl, suc, true, zero, ℕ, ◌+◌, ◌<◌, ◌==◌, ◌^◌, ◌∙◌, ◌≡◌, ◌≤◌,
  ◌⊎◌,
}
use rastapopoulos.Base.Bits.{bit, bit-ones, bit-zero, bits_ext}
use rastapopoulos.Bitset.{
  Bitset, find_bit, find_word, full_word, invalid_index, matching, test, wanted,
}
use rastapopoulos.Bitset.Invariant.{IsValid, bit_at, bit_at-lt-two, test_lem}

-- the bit that the search looks for
abbrev pub digit : Bool → ℕ
digit true = 1
digit false = 0

pub unwanted_digits :
    (value : Bool) (w i : ℕ) → wanted value w ≡ false → i < 32 → bit w i + digit value ≡ 1
unwanted_digits true w i h lt = ground (arith, bit-zero i)
unwanted_digits false w i h lt = ground (arith, bit-ones 32 i lt)

-- A word that is looked into has the bit that is looked for.
pub wanted_has_digit :
    (value : Bool) (w : ℕ)
    → w < 2 ^ 32
    → wanted value w ≡ true
    → ¬ ((i : ℕ) → i < 32 → bit w i + digit value ≡ 1)
wanted_has_digit true w h e all =
    ground (arith, bits_ext 32 w 0 h (omega arith) (λ i lt. omega (arith, all i lt, bit-zero i)))
wanted_has_digit false w h e all = ground (
  arith,
  bits_ext 32 w full_word h (omega arith) (λ i lt. omega (arith, all i lt, bit-ones 32 i lt)),
)

matching-digit : (value : Bool) (d : ℕ) → d < 2 → matching value (d == 1) ≡ true → d ≡ digit value
matching-digit true d lt h = ground arith
matching-digit false d lt h = ground arith

other_digit : (value : Bool) (d : ℕ) → d < 2 → matching value (d == 1) ≡ false → d + digit value ≡ 1
other_digit true d lt h = ground arith
other_digit false d lt h = ground arith

module _ (b : Bitset) (value : Bool) (v : IsValid b) where
  -- Every bit from `lo` on and below `hi` is the other one.
  abbrev pub AllOther : ℕ → ℕ → Type 0
  AllOther lo hi = (m : ℕ) → lo ≤ m → m < hi → bit_at b m + digit value ≡ 1

  abbrev pub word_wanted : ℕ → Bool
  word_wanted k = wanted value (get_or b.words k 0)

  pub record WordFound (i : ℕ) (result : Outcome ℕ) : Type 0 where
    pub at : ℕ
    pub returns : result ≡ ok at
    pub after : i ≤ at
    pub in_range : at < b.element_count
    pub hit : word_wanted at ≡ true
    pub before : (m : ℕ) → i ≤ m → m < at → word_wanted m ≡ false

  pub record WordMissing (i : ℕ) (result : Outcome ℕ) : Type 0 where
    pub returns : result ≡ ok invalid_index
    pub none_wanted : (m : ℕ) → i ≤ m → m < b.element_count → word_wanted m ≡ false

  find_word_step :
      (left i : ℕ)
      → i < b.element_count
      → find_word b value (suc left) i
        ≡ (if word_wanted i then ok i else find_word b value left (i + 1))
  unfolding find_word
  find_word_step left i h = rw (get_elem?-eq-get_or b.words i 0 (omega (arith, v.counted)), read)

  word_later :
      (i : ℕ) {result : Outcome ℕ}
      → word_wanted i ≡ false
      → WordFound (i + 1) result ⊎ WordMissing (i + 1) result
      → WordFound i result ⊎ WordMissing i result
  word_later i e (inl f) = inl (record {
    at = f.at;
    returns = f.returns;
    after = omega (arith, f.after);
    in_range = f.in_range;
    hit = f.hit;
    before = λ m p q. ground (arith, f.before m);
  })
  word_later i e (inr n) =
      inr (record { returns = n.returns; none_wanted = λ m p q. ground (arith, n.none_wanted m) })

  pub find_word_lem :
      (left i : ℕ)
      → i + left ≡ b.element_count
      → WordFound i (find_word b value left i) ⊎ WordMissing i (find_word b value left i)
  find_word_lem zero i e =
      inr
        (record { returns = unfold find_word in refl; none_wanted = λ m p q. absurd (omega arith) })
  find_word_lem (suc left) i e = elim (Bool-cases (word_wanted i)) [
    | inl h ↦ inl (record {
      at = i;
      returns = find_word_step left i (omega arith) ∙ rw h;
      after = omega arith;
      in_range = omega arith;
      hit = h;
      before = λ m p q. absurd (omega arith);
    })
    | inr h ↦
        rw (find_word_step left i (omega arith), h)
          (word_later i h (find_word_lem left (i + 1) (omega arith)))
  ]

  pub record BitFound (i : ℕ) (result : Outcome ℕ) : Type 0 where
    pub at : ℕ
    pub returns : result ≡ ok at
    pub in_size : at < b.size
    pub hit : bit_at b at ≡ digit value
    pub before : AllOther i at

  -- The loop left the set, or the word, without a match.
  pub record BitMissing (i hi : ℕ) (result : Outcome ℕ) : Type 0 where
    pub returns : result ≡ fail assertion_failed
    pub others : (m : ℕ) → i ≤ m → m < hi → m < b.size → bit_at b m + digit value ≡ 1

  find_bit_step :
      (left i : ℕ)
      → i < b.size
      → find_bit b value (suc left) i
        ≡ (if matching value (bit_at b i == 1) then ok i else find_bit b value left (i + 1))
  unfolding find_bit
  find_bit_step left i h = rw (test_lem i v h)

  find_bit_outside :
      (left i : ℕ) → b.size ≤ i → find_bit b value (suc left) i ≡ fail assertion_failed
  unfolding find_bit test
  find_bit_outside left i h = ground arith

  bit_later :
      (i hi : ℕ) {result : Outcome ℕ}
      → bit_at b i + digit value ≡ 1
      → BitFound (i + 1) result ⊎ BitMissing (i + 1) hi result
      → BitFound i result ⊎ BitMissing i hi result
  bit_later i hi e (inl f) = inl (record {
    at = f.at;
    returns = f.returns;
    in_size = f.in_size;
    hit = f.hit;
    before = λ m p q. ground (arith, f.before m);
  })
  bit_later i hi e (inr n) =
      inr (record { returns = n.returns; others = λ m p q r. ground (arith, n.others m) })

  pub find_bit_lem :
      (left i hi : ℕ)
      → i + left ≡ hi
      → BitFound i (find_bit b value left i) ⊎ BitMissing i hi (find_bit b value left i)
  find_bit_lem zero i hi e =
      inr (record { returns = unfold find_bit in refl; others = λ m p q r. absurd (omega arith) })
  find_bit_lem (suc left) i hi e = elim (dec_lt i b.size) [
    | no h ↦ inr (record {
      returns = find_bit_outside left i (omega arith);
      others = λ m p q r. absurd (omega arith);
    })
    | yes h ↦ elim (Bool-cases (matching value (bit_at b i == 1))) [
      | inl hit ↦ inl (record {
        at = i;
        returns = find_bit_step left i h ∙ rw hit;
        in_size = h;
        hit = matching-digit value (bit_at b i) (bit_at-lt-two b i) hit;
        before = λ m p q. absurd (omega arith);
      })
      | inr miss ↦
          rw (find_bit_step left i h, miss)
            (bit_later i hi (other_digit value (bit_at b i) (bit_at-lt-two b i) miss)
              (find_bit_lem left (i + 1) hi (omega arith)))
    ]
  ]
