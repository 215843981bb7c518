-- ===== src/Base/Bits.antt =====
-- The binary digits of a number, and `&`, `|` digit by digit.
-- `bit w i` is digit `i` of `w`. The native operations are defined by a recursion on digits with
-- fuel; `bit_and_digit` and `bit_or_digit` drop the fuel.
use Prim.Native.Nat.{
  bit_and, bit_and-bitwise, bit_or, bit_or-bitwise, bitwise, digits, max, min, suc, zero, ℕ, ◌%◌,
  ◌*◌, ◌+◌, ◌-◌, ◌/◌, ◌<◌, ◌^◌, ◌≤◌,
}
use mathlib.Core.Path.{ap, refl, ◌∙◌, ◌≡◌}
use native.Mathlib.Nat.{pow-suc}
use native.Mathlib.Omega.{arith}
use rastapopoulos.Base.Tests.{if◌then◌else◌, ◌==◌}

abbrev pub bit : ℕ → ℕ → ℕ
bit w zero = w % 2
bit w (suc i) = bit (w / 2) i

-- With fuel at least the first number, more fuel changes nothing.
module _ (ends : ℕ → ℕ) (digit : ℕ → ℕ → ℕ) where
  enough_fuel : (a b n m : ℕ) → a ≤ n → a ≤ m → digits ends digit n a b ≡ digits ends digit m a b
  enough_fuel zero b zero zero p q = refl
  enough_fuel zero b zero (suc m) p q = refl
  enough_fuel zero b (suc n) zero p q = refl
  enough_fuel zero b (suc n) (suc m) p q = refl
  enough_fuel (suc a) b zero m p q = absurd (omega arith)
  enough_fuel (suc a) b (suc n) zero p q = absurd (omega arith)
  enough_fuel (suc a) b (suc n) (suc m) p q =
      rw (enough_fuel (suc a / 2) (b / 2) n m (omega arith) (omega arith))

  digitwise :
      (a b : ℕ)
      → bitwise ends digit (suc a) b
        ≡ bitwise ends digit (suc a / 2) (b / 2) * 2 + digit (suc a % 2) (b % 2)
  digitwise a b =
      omega (arith, enough_fuel (suc a / 2) (b / 2) a (suc a / 2) (omega arith) (omega arith))

pub bit_and_digit : (x y : ℕ) → bit_and x y ≡ min (x % 2) (y % 2) + 2 * bit_and (x / 2) (y / 2)
bit_and_digit zero y = simp bit_and-bitwise (omega arith)
bit_and_digit (suc x) y = simp bit_and-bitwise (omega (arith, digitwise (λ rest. 0) min x y))

pub bit_or_digit : (x y : ℕ) → bit_or x y ≡ max (x % 2) (y % 2) + 2 * bit_or (x / 2) (y / 2)
bit_or_digit zero y = simp bit_or-bitwise (omega arith)
bit_or_digit (suc x) y = simp bit_or-bitwise (omega (arith, digitwise (λ rest. rest) max x y))

pub bit-lt-two : (w i : ℕ) → bit w i < 2
bit-lt-two w zero = omega arith
bit-lt-two w (suc i) = bit-lt-two (w / 2) i

pub bit-zero : (i : ℕ) → bit 0 i ≡ 0
bit-zero zero = refl
bit-zero (suc i) = bit-zero i

pub bit-bit_and : (a b i : ℕ) → bit (bit_and a b) i ≡ min (bit a i) (bit b i)
bit-bit_and a b zero = omega (arith, bit_and_digit a b)
bit-bit_and a b (suc i) =
    ap (λ w. bit w i) (omega (arith, bit_and_digit a b)) ∙ bit-bit_and (a / 2) (b / 2) i

pub bit-bit_or : (a b i : ℕ) → bit (bit_or a b) i ≡ max (bit a i) (bit b i)
bit-bit_or a b zero = omega (arith, bit_or_digit a b)
bit-bit_or a b (suc i) =
    ap (λ w. bit w i) (omega (arith, bit_or_digit a b)) ∙ bit-bit_or (a / 2) (b / 2) i

-- `1 << k` has the one digit `k`.
pub bit-pow : (k i : ℕ) → bit (2 ^ k) i ≡ (if k == i then 1 else 0)
bit-pow zero zero = refl
bit-pow zero (suc i) = bit-zero i ∙ ground arith
bit-pow (suc k) zero = ground (arith, pow-suc 2 k)
bit-pow (suc k) (suc i) =
    ap (λ w. bit w i) (omega (arith, pow-suc 2 k)) ∙ bit-pow k i ∙ ground arith

-- `~a` in an `n`-bit word.
pub bit-complement : (n a i : ℕ) → a < 2 ^ n → i < n → bit (2 ^ n - 1 - a) i + bit a i ≡ 1
bit-complement zero a i h lt = absurd (omega arith)
bit-complement (suc n) a zero h lt = omega (arith, pow-suc 2 n)
bit-complement (suc n) a (suc i) h lt =
    ap (λ w. bit w i + bit (a / 2) i) (omega (arith, pow-suc 2 n))
    ∙ bit-complement n (a / 2) i (omega (arith, pow-suc 2 n)) (omega arith)

zero-bit_and : (b : ℕ) → bit_and 0 b ≡ 0
zero-bit_and b = simp bit_and-bitwise (omega arith)

bit_and-zero_below : (n a : ℕ) → a ≤ n → bit_and a 0 ≡ 0
bit_and-zero_below n zero h = zero-bit_and 0
bit_and-zero_below zero (suc a) h = absurd (omega arith)
bit_and-zero_below (suc n) (suc a) h =
    omega (arith, bit_and_digit (suc a) 0, bit_and-zero_below n (suc a / 2) (omega arith))

pub bit_and-zero : (a : ℕ) → bit_and a 0 ≡ 0
bit_and-zero a = bit_and-zero_below a a (omega arith)

-- A mask of one digit gives that digit, at its place.
pub bit_and-pow : (w k : ℕ) → bit_and w (2 ^ k) ≡ bit w k * 2 ^ k
bit_and-pow w zero = omega (arith, bit_and_digit w 1, bit_and-zero (w / 2))
bit_and-pow w (suc k) =
    grind (arith, bit_and_digit w (2 ^ suc k), pow-suc 2 k, bit_and-pow (w / 2) k)

zero-bit_or : (b : ℕ) → bit_or 0 b ≡ b
zero-bit_or b = simp bit_or-bitwise (omega arith)

pub two_pow_pos : (n : ℕ) → 0 < 2 ^ n
two_pow_pos zero = omega arith
two_pow_pos (suc n) = omega (arith, pow-suc 2 n, two_pow_pos n)

pub two_pow_lt : (k n : ℕ) → k < n → 2 ^ k < 2 ^ n
two_pow_lt k zero h = absurd (omega arith)
two_pow_lt zero (suc n) h = omega (arith, pow-suc 2 n, two_pow_pos n)
two_pow_lt (suc k) (suc n) h = omega (arith, pow-suc 2 k, pow-suc 2 n, two_pow_lt k n (omega arith))

pub bit_or-lt : (n a b : ℕ) → a < 2 ^ n → b < 2 ^ n → bit_or a b < 2 ^ n
bit_or-lt zero a b p q = ground (arith, zero-bit_or b)
bit_or-lt (suc n) a b p q = omega (
  arith,
  bit_or_digit a b,
  pow-suc 2 n,
  bit_or-lt n (a / 2) (b / 2) (omega (arith, pow-suc 2 n)) (omega (arith, pow-suc 2 n)),
)

pub bit_and-le : (n a b : ℕ) → a ≤ n → bit_and a b ≤ a
bit_and-le zero a b h = ground (arith, zero-bit_and b)
bit_and-le (suc n) zero b h = omega (arith, zero-bit_and b)
bit_and-le (suc n) (suc a) b h =
    omega (arith, bit_and_digit (suc a) b, bit_and-le n (suc a / 2) (b / 2) (omega arith))

-- Numbers below 2 ^ n with the same digits are equal.
pub bits_ext : (n a b : ℕ) → a < 2 ^ n → b < 2 ^ n → ((i : ℕ) → i < n → bit a i ≡ bit b i) → a ≡ b
bits_ext zero a b p q h = omega arith
bits_ext (suc n) a b p q h = omega (
  arith,
  h 0 (omega arith),
  bits_ext n (a / 2) (b / 2) (omega (arith, pow-suc 2 n)) (omega (arith, pow-suc 2 n))
      (λ i lt. h (suc i) (omega arith)),
)

pub bit-ones : (n i : ℕ) → i < n → bit (2 ^ n - 1) i ≡ 1
bit-ones n i lt = ground (arith, bit-complement n 0 i (two_pow_pos n) lt, bit-zero i)

double : (q k : ℕ) → q * 2 ^ suc k ≡ 2 * (q * 2 ^ k)
double q k = omega (arith, ap (λ (t : ℕ). q * t) (pow-suc 2 k))

half_ones : (m : ℕ) → (2 ^ suc m - 1) / 2 ≡ 2 ^ m - 1
half_ones m = omega (arith, pow-suc 2 m, two_pow_pos m)

bit_and_ones : (m q : ℕ) → q < 2 ^ m → bit_and q (2 ^ m - 1) ≡ q
bit_and_ones zero q h = ground (arith, bit_and-zero q)
bit_and_ones (suc m) q h = omega (
  arith,
  bit_and_digit q (2 ^ suc m - 1),
  pow-suc 2 m,
  two_pow_pos m,
  ap (λ (t : ℕ). bit_and (q / 2) t) (half_ones m),
  bit_and_ones m (q / 2) (omega (arith, pow-suc 2 m)),
)

-- `x & ~(2 ^ k - 1)` in a word of `k + m` bits cuts the low `k` bits off.
pub bit_and_high :
    (k m q r : ℕ)
    → r < 2 ^ k
    → q < 2 ^ m
    → bit_and (q * 2 ^ k + r) ((2 ^ m - 1) * 2 ^ k) ≡ q * 2 ^ k
bit_and_high zero m q r p h = ground (arith, bit_and_ones m q)
bit_and_high (suc k) m q r p h = grind (
  arith,
  bit_and_digit (q * 2 ^ suc k + r) ((2 ^ m - 1) * 2 ^ suc k),
  double q k,
  double (2 ^ m - 1) k,
  pow-suc 2 k,
  bit_and_high k m q (r / 2) (omega (arith, pow-suc 2 k)) h,
)

-- A number below 2 ^ k has no digit from `k` on.
pub bit_above : (k w i : ℕ) → w < 2 ^ k → k ≤ i → bit w i ≡ 0
bit_above zero w i h le = ap (λ v. bit v i) (omega arith) ∙ bit-zero i
bit_above (suc k) w zero h le = absurd (omega arith)
bit_above (suc k) w (suc i) h le = bit_above k (w / 2) i (omega (arith, pow-suc 2 k)) (omega arith)
