-- ===== src/Base/Words.antt =====
-- `uint32_t`, and the macros of common/util.h over it.
use Prim.Native.Nat.{ℕ, ◌+◌, ◌-◌, ◌*◌, ◌/◌, ◌%◌, ◌^◌, ◌<◌, bit_and}
use mathlib.Core.Path.{◌≡◌}
use mathlib.Core.Bool.{Bool}
use native.Mathlib.Omega.{arith}
use rastapopoulos.Base.Tests.{◌==◌}
use rastapopoulos.Base.Bits.{bit_and_high}

abbrev pub u32 : ℕ → ℕ
u32 n = n % 2 ^ 32

-- `a - b` in `uint32_t`, for `a` and `b` below 2 ^ 32
abbrev pub sub32 : ℕ → ℕ → ℕ
sub32 a b = (a + 2 ^ 32 - b) % 2 ^ 32

-- `~a`
abbrev pub not32 : ℕ → ℕ
not32 a = 2 ^ 32 - 1 - a

-- `ALIGN(val, align)`: the next multiple of a power of two, computed in `uint32_t`.
unfoldable pub align : ℕ → ℕ → ℕ
align val a = bit_and (u32 (val + sub32 a 1)) (not32 (sub32 a 1))

-- `TRUNCATE(val, align)`
abbrev pub truncate : ℕ → ℕ → ℕ
truncate val a = val / a * a

-- `IS_ALIGNED(val, align)`
abbrev pub is_aligned : ℕ → ℕ → Bool
is_aligned val a = val % a == 0

cut_low :
    (k m x q r : ℕ)
    → x ≡ q * 2 ^ k + r
    → r < 2 ^ k
    → q < 2 ^ m
    → bit_and x ((2 ^ m - 1) * 2 ^ k) ≡ q * 2 ^ k
cut_low k m x q r e p h = rw e (bit_and_high k m q r p h)

-- `ALIGN` to the sizes that the kernel uses: it rounds `(val + a - 1) mod 2 ^ 32` down to a
-- multiple of `a`.
pub align_eight : (x : ℕ) → align x 8 ≡ u32 (x + 7) / 8 * 8
unfolding align
align_eight x =
    cut_low 3 29 (u32 (x + 7)) (u32 (x + 7) / 8) (u32 (x + 7) % 8) (omega arith) (omega arith)
      (omega arith)

pub align_word_bits : (x : ℕ) → align x 32 ≡ u32 (x + 31) / 32 * 32
unfolding align
align_word_bits x =
    cut_low 5 27 (u32 (x + 31)) (u32 (x + 31) / 32) (u32 (x + 31) % 32) (omega arith) (omega arith)
      (omega arith)

pub align_sector : (x : ℕ) → align x 512 ≡ u32 (x + 511) / 512 * 512
unfolding align
align_sector x =
    cut_low 9 23 (u32 (x + 511)) (u32 (x + 511) / 512) (u32 (x + 511) % 512) (omega arith)
      (omega arith) (omega arith)

pub align_page : (x : ℕ) → align x 4096 ≡ u32 (x + 4095) / 4096 * 4096
unfolding align
align_page x =
    cut_low 12 20 (u32 (x + 4095)) (u32 (x + 4095) / 4096) (u32 (x + 4095) % 4096) (omega arith)
      (omega arith) (omega arith)
