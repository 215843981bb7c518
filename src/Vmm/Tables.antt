-- ===== src/Vmm/Tables.antt =====
-- The abstract view of the tables, and when they are sound.
use rastapopoulos.Pmm.Invariant as Regions
use native.Mathlib.Nat.{mul_assoc, pow-suc}
use rastapopoulos.Base.{
  Option, ap, arith, bit_or, if◌then◌else◌, none, some, suc, sym, true, zero, ℕ, ◌%◌, ◌&&◌, ◌*◌,
  ◌+◌, ◌/◌, ◌<◌, ◌^◌, ◌∙◌, ◌≡◌,
}
use rastapopoulos.Base.Bits.{bit-bit_or, bit-zero, bit_or-lt, bit_or_digit, bits_ext}
use rastapopoulos.Pmm.Spec.{status}
use rastapopoulos.Vmm.{Memory, flag_bits, frame_bits, is_present}

-- The entry of a page, by its numbers in the directory and in the table: its frame and its flags.
unfoldable pub mapping : Memory → ℕ → ℕ → Option (ℕ × ℕ)
mapping m d t =
    let pde = m.frames m.cr3 d in
    let pte = m.frames (frame_bits pde) t in
    if is_present pde && is_present pte then some (frame_bits pte, flag_bits pte) else none

-- Paging is on; the last entry of the directory is that of the directory itself, for reading and
-- writing; every table lies in a frame of its own, which the page allocator does not give out, and its
-- entry of the directory lets the kernel and programs read and write.
pub record IsValid (m : Memory) : Type 0 where
  pub paging : m.is_paging ≡ true
  pub cr3_aligned : m.cr3 % 4096 ≡ 0
  pub self_present : m.frames m.cr3 1023 % 2 ≡ 1
  pub self_writable : m.frames m.cr3 1023 / 2 % 2 ≡ 1
  pub self_frame : frame_bits (m.frames m.cr3 1023) ≡ m.cr3
  pub word_range : (f i : ℕ) → m.frames f i < 2 ^ 32
  pub regions_valid : Regions.IsValid m.regions
  pub open_tables : (d : ℕ) → d < 1023 → m.frames m.cr3 d % 2 ≡ 1 → m.frames m.cr3 d % 8 ≡ 7
  pub reserved :
      (d : ℕ)
      → d < 1024
      → m.frames m.cr3 d % 2 ≡ 1
      → status m.regions (frame_bits (m.frames m.cr3 d)) ≡ some true
  pub apart :
      (d e : ℕ)
      → d < 1024
      → e < 1024
      → m.frames m.cr3 d % 2 ≡ 1
      → m.frames m.cr3 e % 2 ≡ 1
      → frame_bits (m.frames m.cr3 d) ≡ frame_bits (m.frames m.cr3 e)
      → d ≡ e

bit_or_zero : (a : ℕ) → a < 2 ^ 32 → bit_or a 0 ≡ a
bit_or_zero a h =
    bits_ext 32 (bit_or a 0) a (bit_or-lt 32 a 0 h (omega arith)) h
      (λ i p. ground (arith, bit-bit_or a 0 i, bit-zero i))

bit_or_low : (k q r : ℕ) → q < 2 ^ 32 → r < 2 ^ k → bit_or (q * 2 ^ k) r ≡ q * 2 ^ k + r
bit_or_low zero q r h p =
    let none_left : r ≡ 0 = omega (arith, p) in
    let plain : q * 2 ^ 0 ≡ q = omega arith in rw (plain, none_left) (bit_or_zero q h ∙ omega arith)
bit_or_low (suc k) q r h p =
    let power = pow-suc 2 k in
    let doubled : q * 2 ^ suc k ≡ q * 2 ^ k * 2 =
      ap (λ (x : ℕ). q * x) power ∙ sym (mul_assoc q (2 ^ k) 2) in
    let rest = bit_or_low k q (r / 2) h (omega (arith, power)) in
    let even : q * 2 ^ k * 2 % 2 ≡ 0 = omega arith in
    let half : q * 2 ^ k * 2 / 2 ≡ q * 2 ^ k = omega arith in
    rw doubled (bit_or_digit (q * 2 ^ k * 2) r ∙ rw (even, half, rest) (omega arith))

-- An entry that is made of an aligned frame and flags.
pub entry_lem :
    (frame flags : ℕ)
    → frame % 4096 ≡ 0
    → frame < 2 ^ 32
    → flags < 4096
    → (frame_bits (bit_or frame flags) ≡ frame) × (flag_bits (bit_or frame flags) ≡ flags)
entry_lem frame flags a h p =
    let whole : frame / 4096 * 2 ^ 12 ≡ frame = omega arith in
    let joined = bit_or_low 12 (frame / 4096) flags (omega arith) p in
    let sum : bit_or frame flags ≡ frame + flags =
      ap (λ (x : ℕ). bit_or x flags) (sym whole) ∙ joined ∙ omega arith in
    (omega (arith, sum), omega (arith, sum))
