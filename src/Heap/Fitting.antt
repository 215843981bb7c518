-- ===== src/Heap/Fitting.antt =====
-- `fit` on a free segment, for data that are to lie at a multiple of 8: what the segment becomes.
-- A segment in use, with a free one in front and one behind where those are not empty.
use mathlib.Core.Path.{subst}
use native.Mathlib.Decide.{dec_lt, ℕ_discrete}
use rastapopoulos.Base.{
  Bool-cases, List, Option, Outcome, [], arith, false, if◌then◌else◌, inl, inr, ltb, none, ok, refl,
  some, sym, true, ℕ, ◌%◌, ◌*◌, ◌+◌, ◌-◌, ◌<◌, ◌==◌, ◌^◌, ◌∷◌, ◌≡◌, ◌≤◌, ◌⊎◌,
}
use rastapopoulos.Base.Words.{align, align_eight, sub32, u32}
use rastapopoulos.Heap.{Block, block_header, create_block, is_valid_block, set_allocated, set_free}
use rastapopoulos.Heap.Allocate.{cut_rest, fit, fit_at_start, fit_behind, push_data}
use rastapopoulos.Heap.Chain.{Segment, block_at, blocks_from, free_segment, used_segment}

abbrev pub optional : ℕ → List Segment → List Segment
optional n segments = if n == 0 then segments else free_segment n ∷ segments

unfoldable pub parts_of : ℕ → ℕ → ℕ → List Segment
parts_of before given after = optional before (used_segment given ∷ optional after [])

pub record Fits (a m size : ℕ) (result : Outcome (Option (List Block × Block))) : Type 0 where
  pub lead : ℕ
  pub taken_bytes : ℕ
  pub left_over : ℕ
  pub fit_returns :
      result
      ≡ ok (
          some (
            blocks_from a (parts_of lead taken_bytes left_over),
            block_at (a + lead) true taken_bytes,
          ))
  pub fit_whole : lead + taken_bytes + left_over ≡ m
  pub fit_aligned : (a + lead + block_header) % 8 ≡ 0
  pub lead_room : (lead ≡ 0) ⊎ (block_header ≤ lead)
  pub left_over_room : (left_over ≡ 0) ⊎ (block_header ≤ left_over)
  pub fit_room : size + 10 ≤ taken_bytes

fit_at_start-Fits :
    (a m size : ℕ)
    → a % 8 ≡ 0
    → block_header + size ≤ m
    → a + m < 2 ^ 32
    → Fits a m size (fit_at_start (block_at a false m) size)
unfolding fit_at_start set_allocated is_valid_block create_block blocks_from parts_of
fit_at_start-Fits a m size even enough small =
    let fits : ltb m (u32 (block_header + size)) ≡ false = ground arith in
    let left : sub32 (sub32 m block_header) size ≡ m - 16 - size = omega arith in
    let short : u32 (block_header + size) ≡ size + 16 = omega arith in
    let address : u32 (a + size + block_header) ≡ a + (size + 16) = omega arith in
    let plain : a + 0 ≡ a = omega arith in
    elim (Bool-cases (ltb 16 (m - 16 - size))) [
      | inl split ↦
          let conserved : (u32 (m - 16 - size + (size + 16)) == m) ≡ true = ground arith in
          let some_left : (m - 16 - size == 0) ≡ false = ground arith in
          record {
            lead = 0;
            taken_bytes = size + 16;
            left_over = m - 16 - size;
            fit_returns =
                rw (fit_at_start, fits, left, split, short, address, conserved, some_left, plain)
                  refl;
            fit_whole = ground arith;
            fit_aligned = omega arith;
            lead_room = inl refl;
            left_over_room = inr (ground arith);
            fit_room = omega arith;
          }
      | inr keep ↦ record {
        lead = 0;
        taken_bytes = m;
        left_over = 0;
        fit_returns = rw (fit_at_start, fits, left, keep, plain) refl;
        fit_whole = omega arith;
        fit_aligned = omega arith;
        lead_room = inl refl;
        left_over_room = inl refl;
        fit_room = omega arith;
      }
    ]

-- The data of a block whose header is not fit_aligned begin behind the header at the next multiple of 8.
pushed_twice :
    (a g : ℕ) → 17 ≤ g → g ≤ 23 → a + g + 16 < 2 ^ 32 → push_data 32 a 8 (a + g) ≡ ok (a + g + 16)
unfolding push_data
pushed_twice a g low high small =
    let once : u32 (a + g + 8) ≡ a + g + 8 = omega arith in
    let twice : u32 (a + g + 8 + 8) ≡ a + g + 16 = omega arith in
    let near : ltb (sub32 (a + g) a) (block_header * 2) ≡ true = ground arith in
    let nearer : ltb (sub32 (a + g + 8) a) (block_header * 2) ≡ true = ground arith in
    let far : ltb (sub32 (a + g + 16) a) (block_header * 2) ≡ false = ground arith in
    rw (near, once, nearer, twice, far) refl

cut_rest-Fits :
    (a g m size : ℕ)
    → 17 ≤ g
    → g ≤ 23
    → (a + g) % 8 ≡ 0
    → size + 32 < m
    → a + m < 2 ^ 32
    → Fits a m size (cut_rest (block_at a false g) (block_at (a + g) false (m - g)) size m)
unfolding cut_rest set_allocated set_free is_valid_block create_block blocks_from parts_of
cut_rest-Fits a g m size low high even enough small =
    let h2 = m - g in
    let some_front : (g == 0) ≡ false = ground arith in
    let bound : u32 (size + block_header * 2) ≡ size + 32 = omega arith in
    elim (Bool-cases (ltb (size + 32) h2)) [
      | inl long ↦
          let left : sub32 (sub32 h2 size) block_header ≡ m - g - size - 16 = ground arith in
          let address : u32 (a + g + size + block_header) ≡ a + g + (size + 16) = ground arith in
          let short : u32 (size + block_header) ≡ size + 16 = omega arith in
          let conserved : (u32 (g + (size + 16) + (m - g - size - 16)) == m) ≡ true =
            ground arith in
          let some_left : (m - g - size - 16 == 0) ≡ false = ground arith in
          record {
            lead = g;
            taken_bytes = size + 16;
            left_over = m - g - size - 16;
            fit_returns =
                rw (some_front, bound, long, left, address, short, conserved, some_left) refl;
            fit_whole = ground arith;
            fit_aligned = omega arith;
            lead_room = inr (omega arith);
            left_over_room = inr (ground arith);
            fit_room = omega arith;
          }
      | inr fits ↦ record {
        lead = g;
        taken_bytes = m - g;
        left_over = 0;
        fit_returns = rw (some_front, bound, fits) refl;
        fit_whole = omega arith;
        fit_aligned = omega arith;
        lead_room = inr (omega arith);
        left_over_room = inl refl;
        fit_room = omega arith;
      }
    ]

fit_behind-Fits :
    (a g m size : ℕ)
    → 17 ≤ g
    → g ≤ 23
    → (a + g) % 8 ≡ 0
    → size + 32 < m
    → a + m < 2 ^ 32
    → Fits a m size (fit_behind (block_at a false m) size (a + g))
unfolding fit_behind set_free is_valid_block create_block
fit_behind-Fits a g m size low high even enough small =
    let front : sub32 (a + g) a ≡ g = omega arith in
    let rest : sub32 m g ≡ m - g = omega arith in
    let bound : ltb (u32 (block_header * 2 + size)) m ≡ true = ground arith in
    let conserved : (u32 (g + (m - g)) == m) ≡ true = ground arith in
    let cut : fit_behind (block_at a false m) size (a + g)
        ≡ cut_rest (block_at a false g) (block_at (a + g) false (m - g)) size m =
      rw (bound, front, rest, conserved) refl in
    subst (Fits a m size) (sym cut) (cut_rest-Fits a g m size low high even enough small)

-- `fit` at the alignment of `heap_alloc`.
pub fit_lem :
    (a m size : ℕ)
    → block_header + size ≤ m
    → a + m + 48 < 2 ^ 32
    → Fits a m size (fit (block_at a false m) size 8)
      ⊎ ((fit (block_at a false m) size 8 ≡ ok none) × (m ≤ size + 32))
unfolding fit fit_behind
fit_lem a m size enough small = elim (ℕ_discrete (a % 8) 0) [
  | yes even ↦
      let start : (align (u32 (a + block_header)) 8 == u32 (a + block_header)) ≡ true =
        ground (arith, align_eight (u32 (a + block_header))) in
      let at_start : fit (block_at a false m) size 8 ≡ fit_at_start (block_at a false m) size =
        rw start refl in
      inl (
        subst (Fits a m size) (sym at_start) (fit_at_start-Fits a m size even enough (omega arith)))
  | no odd ↦
      let g = 24 - a % 8 in
      let next : align (u32 (a + block_header)) 8 ≡ a + g =
        omega (arith, align_eight (u32 (a + block_header))) in
      let start : (a + g == u32 (a + block_header)) ≡ false = ground arith in
      let pushed = pushed_twice a g (omega arith) (omega arith) (omega arith) in
      let header : sub32 (a + g + 16) block_header ≡ a + g = omega arith in
      elim (dec_lt (size + 32) m) [
        | yes more ↦
            let behind : fit (block_at a false m) size 8
                ≡ fit_behind (block_at a false m) size (a + g) =
              rw (next, start, pushed, header) refl in
            inl (
              subst (Fits a m size) (sym behind) (
                fit_behind-Fits a g m size (omega arith) (omega arith) (omega arith) more
                  (omega arith)))
        | no less ↦
            let bound : ltb (u32 (block_header * 2 + size)) m ≡ false = ground arith in
            inr (rw (next, start, pushed, header, bound) refl, omega arith)
      ]
]
