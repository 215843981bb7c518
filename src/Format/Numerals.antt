-- ===== src/Format/Numerals.antt =====
-- Texts of digits: what number a text denotes, and the digits of a number from the lowest up.
use mathlib.Core.List.{reverse, reverse-cons}
use native.Mathlib.Decide.{dec_lt}
use native.Mathlib.Nat.{div-add-mod', div-eq_of_lt, div-lt_iff_lt-mul, mod-lt, pow-suc, zero-mul}
use rastapopoulos.Base.{
  Bool, Bool-cases, List, [], ap, arith, false, get_or, if◌then◌else◌, inl, inr, leb, length, ltb,
  refl, suc, true, zero, ℕ, ◌%◌, ◌&&◌, ◌*◌, ◌++◌, ◌+◌, ◌-◌, ◌/◌, ◌<◌, ◌==◌, ◌^◌, ◌||◌, ◌∙◌, ◌∷◌,
  ◌≡◌, ◌≤◌,
}
use rastapopoulos.Base.Sequences.{length-reverse}
use rastapopoulos.Format.{digit_char}
use rastapopoulos.Strings.Compare.{NoNul}

abbrev pub char_value : ℕ → ℕ
char_value c = if leb c b'9' then c - b'0' else c - b'A' + 10

-- A character that stands for a digit of the base, in upper case.
abbrev pub IsDigit : ℕ → ℕ → Type 0
IsDigit base c = (char_value c < base) × (digit_char (char_value c) ≡ c)

abbrev pub AllDigits : ℕ → List ℕ → Type 0
AllDigits base [] = Unit
AllDigits base (c ∷ s) = IsDigit base c × AllDigits base s

-- The number that a text denotes, read on from one that was read before.
unfoldable pub value_from : ℕ → ℕ → List ℕ → ℕ
value_from base acc [] = acc
value_from base acc (c ∷ s) = value_from base (acc * base + char_value c) s

-- A text is the numeral of a number: digits that denote it, one at least, no leading 0 but for "0".
pub record IsNumeral (base n : ℕ) (s : List ℕ) : Type 0 where
  pub digits : AllDigits base s
  pub denotes : value_from base 0 s ≡ n
  pub some_digit : 0 < length s
  pub canonical : 1 < length s → 0 < char_value (get_or s 0 0)

-- The digits that the loop finds, the lowest first; `started` says that there was one.
pub low_digits : ℕ → Bool → ℕ → ℕ → List ℕ
low_digits zero started n base = []
low_digits (suc rounds) started n base = elim (started && (n == 0)) [
  | true ↦ []
  | false ↦ digit_char (n % base) ∷ low_digits rounds true (n / base) base
]

digit_char_value : (d base : ℕ) → d < base → base ≤ 36 → IsDigit base (digit_char d)
digit_char_value d base h k = ground arith

char_value-digit_char : (d : ℕ) → d < 36 → char_value (digit_char d) ≡ d
char_value-digit_char d h = ground arith

pub digit_char_pos : (d : ℕ) → 0 < digit_char d
digit_char_pos d = ground arith

value_from-append :
    (base acc c : ℕ) (s : List ℕ)
    → value_from base acc (s ++ (c ∷ [])) ≡ value_from base acc s * base + char_value c
unfolding value_from
value_from-append base acc c [] = refl
value_from-append base acc c (x ∷ s) = value_from-append base (acc * base + char_value x) c s

AllDigits-append :
    (base c : ℕ) (s : List ℕ) → AllDigits base s → IsDigit base c → AllDigits base (s ++ (c ∷ []))
AllDigits-append base c [] h k = (k, tt)
AllDigits-append base c (x ∷ s) h k = (h.0, AllDigits-append base c s h.1 k)

pub half_bound : (n base p : ℕ) → 2 ≤ base → n < p * 2 → n / base < p
half_bound n base p h k =
    let wide : p * 2 ≤ p * base = grind arith in (div-lt_iff_lt-mul (omega arith)).1 (omega arith)

-- One round of the loop: a digit, then the digits of the quotient.
pub low_digits_more :
    (rounds : ℕ) (started : Bool) (n base : ℕ)
    → started && (n == 0) ≡ false
    → low_digits (suc rounds) started n base
      ≡ digit_char (n % base) ∷ low_digits rounds true (n / base) base
unfolding low_digits
low_digits_more rounds started n base h = rw (low_digits, h) refl

pub low_digits_stop :
    (rounds : ℕ) (started : Bool) (n base : ℕ)
    → started && (n == 0) ≡ true
    → low_digits (suc rounds) started n base ≡ []
unfolding low_digits
low_digits_stop rounds started n base h = rw (low_digits, h) refl

low_digits_end : (rounds : ℕ) (base : ℕ) → low_digits rounds true 0 base ≡ []
unfolding low_digits
low_digits_end zero base = refl
low_digits_end (suc rounds) base = refl

head_of : (c : ℕ) (s : List ℕ) → 0 < length s → get_or (s ++ (c ∷ [])) 0 0 ≡ get_or s 0 0
head_of c [] h = absurd (omega arith)
head_of c (x ∷ s) h = refl

-- What the digits of a number below 2 ^ k are, if there is a round for each and one to stop.
record LowDigits (started : Bool) (n base : ℕ) (s : List ℕ) : Type 0 where
  digits : AllDigits base (reverse s)
  denotes : value_from base 0 (reverse s) ≡ n
  top : 0 < n → (0 < length s) × (0 < char_value (get_or (reverse s) 0 0))
  short : n ≡ 0 → length s ≡ (if started then 0 else 1)

module _ (base : ℕ) (two : 2 ≤ base) (most : base ≤ 36) where
  LowDigits-zero : LowDigits true 0 base []
  unfolding value_from
  LowDigits-zero = record {
    digits = tt;
    denotes = refl;
    top = λ h. absurd (omega arith);
    short = λ e. refl;
  }

  top_digit :
      (n : ℕ) (s : List ℕ)
      → 0 < n
      → LowDigits true (n / base) base s
      → 0 < char_value (get_or (reverse (digit_char (n % base) ∷ s)) 0 0)
  top_digit n [] h w =
      let low : n % base < base = mod-lt n (omega arith) in
      let none_left : n / base ≡ 0 = ground (arith, w.top) in
      let all : n % base ≡ n =
        omega (arith, div-add-mod' n base, ap (λ (q : ℕ). q * base) none_left, zero-mul base) in
      rw (char_value-digit_char (n % base) (omega arith)) (omega arith)
  top_digit n (x ∷ s) h w =
      let left : 0 < n / base = ground (arith, w.short) in
      let c = digit_char (n % base) in
      rw (reverse-cons c (x ∷ s))
        (rw (head_of c (reverse (x ∷ s)) (omega (arith, length-reverse (x ∷ s)))) (w.top left).1)

  LowDigits-cons :
      (started : Bool) (n : ℕ) (s : List ℕ)
      → started && (n == 0) ≡ false
      → LowDigits true (n / base) base s
      → LowDigits started n base (digit_char (n % base) ∷ s)
  LowDigits-cons started n s go w =
      let c = digit_char (n % base) in
      let low : n % base < base = mod-lt n (omega arith) in
      let split = div-add-mod' n base in
      record {
        digits = rw (reverse-cons c s) (
            AllDigits-append base c (reverse s) w.digits
              (digit_char_value (n % base) base low most));
        denotes = rw (reverse-cons c s) (
            value_from-append base 0 c (reverse s)
            ∙ rw (w.denotes, char_value-digit_char (n % base) (omega arith)) split);
        top = λ h. (omega arith, top_digit n s h w);
        short = λ e.
            let none_left : n / base ≡ 0 = div-eq_of_lt (omega arith) in
            ground (arith, w.short none_left);
      }

  low_digits-LowDigits :
      (k : ℕ) (started : Bool) (n : ℕ)
      → n < 2 ^ k
      → started || ltb 0 k ≡ true
      → LowDigits started n base (low_digits (suc k) started n base)
  low_digits-LowDigits zero true zero small room = rw (low_digits_end 1 base) LowDigits-zero
  low_digits-LowDigits zero true (suc n) small room = absurd (omega arith)
  low_digits-LowDigits zero false n small room = cc
  low_digits-LowDigits (suc k) true zero small room =
      rw (low_digits_end (suc (suc k)) base) LowDigits-zero
  low_digits-LowDigits (suc k) true (suc n) small room =
      rw (low_digits_more (suc k) true (suc n) base (ground arith)) (
        LowDigits-cons true (suc n) _ (ground arith) (
          low_digits-LowDigits k true (suc n / base)
            (half_bound (suc n) base (2 ^ k) two (omega (arith, pow-suc 2 k))) refl))
  low_digits-LowDigits (suc k) false n small room = rw (low_digits_more (suc k) false n base refl) (
      LowDigits-cons false n _ refl (
        low_digits-LowDigits k true (n / base)
          (half_bound n base (2 ^ k) two (omega (arith, pow-suc 2 k))) refl))

  -- Read from the highest digit down, they are the numeral of the number.
  pub low_digits-IsNumeral :
      (k n : ℕ) → 0 < k → n < 2 ^ k → IsNumeral base n (reverse (low_digits (suc k) false n base))
  low_digits-IsNumeral k n p small =
      let w = low_digits-LowDigits k false n small (ground arith) in
      let len = length-reverse (low_digits (suc k) false n base) in
      record {
        digits = w.digits;
        denotes = w.denotes;
        some_digit = elim (dec_lt 0 n) [
          | yes q ↦ omega (arith, (w.top q).0, len)
          | no q ↦ omega (arith, w.short (omega arith), len)
        ];
        canonical = λ h. elim (dec_lt 0 n) [
          | yes q ↦ (w.top q).1
          | no q ↦ absurd (omega (arith, w.short (omega arith), len))
        ];
      }

pub low_digits-NoNul :
    (rounds : ℕ) (started : Bool) (n base : ℕ)
    → 2 ≤ base
    → base ≤ 36
    → NoNul (low_digits rounds started n base)
unfolding low_digits
low_digits-NoNul zero started n base two most = tt
low_digits-NoNul (suc rounds) started n base two most = elim (Bool-cases (started && (n == 0))) [
  | inl end ↦ rw (low_digits, end) tt
  | inr go ↦
      let low : n % base < base = mod-lt n (omega arith) in
      rw (low_digits, go)
        (
          digit_char_pos (n % base),
          digit_char_byte (n % base) (omega arith),
          low_digits-NoNul rounds true (n / base) base two most,
        )
]
  where
    digit_char_byte : (d : ℕ) → d < 36 → digit_char d < 256
    digit_char_byte d h = ground arith

pub digits_short :
    (rounds : ℕ) (started : Bool) (n base : ℕ) → length (low_digits rounds started n base) ≤ rounds
unfolding low_digits
digits_short zero started n base = omega arith
digits_short (suc rounds) started n base = elim (Bool-cases (started && (n == 0))) [
  | inl end ↦ rw (low_digits, end) (omega arith)
  | inr go ↦ rw (low_digits, go) (omega (arith, digits_short rounds true (n / base) base))
]
