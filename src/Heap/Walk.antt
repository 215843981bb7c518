-- ===== src/Heap/Walk.antt =====
-- `walk` over a heap of segments: which segment is given out, and what there is if none is.
use mathlib.Core.Path.{subst}
use native.Mathlib.Decide.{dec_le}
use rastapopoulos.Base.{
  Bool, List, Option, Outcome, [], ap, arith, false, inl, inr, leb, ltb, none, ok, refl, some, suc,
  sym, true, ℕ, ◌%◌, ◌++◌, ◌+◌, ◌<◌, ◌>>=◌, ◌^◌, ◌∙◌, ◌∷◌, ◌≡◌, ◌≤◌, ◌⊎◌,
}
use rastapopoulos.Base.Words.{sub32, u32}
use rastapopoulos.Heap.{
  Block, Heap, block_header, heap_is_free, heap_lock, heap_unlock, is_valid_block, with_canary,
  write_canary,
}
use rastapopoulos.Heap.Allocate.{
  alloc_loop, fit, heap_alloc, heap_alloc_aligned, heap_alloc_block_aligned, walk, walked_past,
}
use rastapopoulos.Heap.Chain.{
  AllSized, Segment, block_at, blocks_from, free_segment, total, total-append,
}
use rastapopoulos.Heap.Fitting.{Fits, fit_lem, parts_of}
use rastapopoulos.Vmm.{Memory}

blocks_from-append :
    (a : ℕ) (xs ys : List Segment)
    → blocks_from a (xs ++ ys) ≡ blocks_from a xs ++ blocks_from (a + total xs) ys
unfolding blocks_from total
blocks_from-append a [] ys = ap (λ (k : ℕ). blocks_from k ys) (omega arith)
blocks_from-append a (s ∷ xs) ys =
    let address : a + s.bytes + total xs ≡ a + (s.bytes + total xs) = omega arith in
    ap (λ (l : List Block). block_at a s.used s.bytes ∷ l)
      (blocks_from-append (a + s.bytes) xs ys
        ∙ ap (λ (k : ℕ). blocks_from (a + s.bytes) xs ++ blocks_from k ys) address)

-- A free segment of `m` bytes between `front` and `behind` was cut, for a block of `given` bytes.
pub record Gives (a size : ℕ) (segments : List Segment)
    (result : Outcome (Option (List Block × Block))) : Type 0 where
  front : List Segment
  behind : List Segment
  m : ℕ
  before : ℕ
  given : ℕ
  after : ℕ
  was : segments ≡ front ++ (free_segment m ∷ behind)
  returns :
      result
      ≡ ok (
          some (
            blocks_from a (front ++ (parts_of before given after ++ behind)),
            block_at (a + total front + before) true given,
          ))
  whole : before + given + after ≡ m
  aligned : (a + total front + before + block_header) % 8 ≡ 0
  room : size + 10 ≤ given
  before_room : (before ≡ 0) ⊎ (block_header ≤ before)

-- No free segment has more than `size` + 32 bytes.
abbrev pub AllShort : ℕ → List Segment → Type 0
AllShort size [] = Unit
AllShort size (s ∷ segments) = (s.used ≡ false → s.bytes ≤ size + 32) × AllShort size segments

total-parts_of :
    (before given after : ℕ) → total (parts_of before given after) ≡ before + given + after
unfolding total parts_of
total-parts_of before given after = ground arith

past-Gives :
    (a size : ℕ) (s : Segment) (segments : List Segment)
    (result : Outcome (Option (List Block × Block)))
    → Gives (a + s.bytes) size segments result
    → Gives a size
        (s ∷ segments)
        (result >>= λ later. ok (walked_past (block_at a s.used s.bytes) later))
unfolding blocks_from total
past-Gives a size s segments result w =
    let address : a + s.bytes + total w.front + w.before
        ≡ a + (s.bytes + total w.front) + w.before =
      omega arith in
    record {
      front = s ∷ w.front;
      behind = w.behind;
      m = w.m;
      before = w.before;
      given = w.given;
      after = w.after;
      was = ap (λ (l : List Segment). s ∷ l) w.was;
      returns = rw (w.returns, address) refl;
      whole = w.whole;
      aligned = ap (λ (k : ℕ). (k + block_header) % 8) (sym address) ∙ w.aligned;
      room = w.room;
      before_room = w.before_room;
    }

fitted-Gives :
    (a size m : ℕ) (segments : List Segment)
    → Fits a m size (fit (block_at a false m) size 8)
    → block_header + size ≤ m
    → a + m < 2 ^ 32
    → Gives a size
        (free_segment m ∷ segments)
        (walk (blocks_from a (free_segment m ∷ segments)) size 8)
unfolding walk blocks_from total heap_is_free is_valid_block
fitted-Gives a size m segments w enough small =
    let fits : leb size (sub32 m block_header) ≡ true = ground arith in
    let sized : total (parts_of w.lead w.taken_bytes w.left_over) ≡ m =
      total-parts_of w.lead w.taken_bytes w.left_over ∙ w.fit_whole in
    let address : a + 0 + w.lead ≡ a + w.lead = omega arith in
    let joined =
      blocks_from-append a (parts_of w.lead w.taken_bytes w.left_over) segments
      ∙ ap
          (λ (k : ℕ).
            blocks_from a (parts_of w.lead w.taken_bytes w.left_over)
            ++ blocks_from (a + k) segments)
          sized in
    record {
      front = [];
      behind = segments;
      m = m;
      before = w.lead;
      given = w.taken_bytes;
      after = w.left_over;
      was = refl;
      returns = rw (fits, w.fit_returns, address, joined) refl;
      whole = w.fit_whole;
      aligned = ap (λ (k : ℕ). (k + block_header) % 8) address ∙ w.fit_aligned;
      room = w.fit_room;
      before_room = w.lead_room;
    }

walk_lem :
    (a size : ℕ) (segments : List Segment)
    → AllSized segments
    → a + total segments + 48 < 2 ^ 32
    → Gives a size segments (walk (blocks_from a segments) size 8)
      ⊎ ((walk (blocks_from a segments) size 8 ≡ ok none) × AllShort size segments)
unfolding walk blocks_from total heap_is_free is_valid_block
walk_lem a size [] all small = inr (refl, tt)
walk_lem a size (s ∷ segments) all small =
    walk_step s.used s.bytes all.0 (omega arith)
      (walk_lem (a + s.bytes) size segments all.1 (omega arith))
  where
    passed :
        (u : Bool) (n : ℕ)
        → walk (block_at a u n ∷ blocks_from (a + n) segments) size 8 ≡ (
            walk (blocks_from (a + n) segments) size 8 >>= λ later.
            ok (walked_past (block_at a u n) later))
        → (u ≡ false → n ≤ size + 32)
        → Gives (a + n) size segments (walk (blocks_from (a + n) segments) size 8)
          ⊎ ((walk (blocks_from (a + n) segments) size 8 ≡ ok none) × AllShort size segments)
        → Gives a size
            (record { used = u; bytes = n } ∷ segments)
            (walk (block_at a u n ∷ blocks_from (a + n) segments) size 8)
          ⊎ ((walk (block_at a u n ∷ blocks_from (a + n) segments) size 8 ≡ ok none)
              × AllShort size (record { used = u; bytes = n } ∷ segments))
    passed u n e short (inl w) = inl (
        subst (Gives a size (record { used = u; bytes = n } ∷ segments)) (sym e)
          (past-Gives a size (record { used = u; bytes = n }) segments _ w))
    passed u n e short (inr (none_fits, others)) = inr (e ∙ rw none_fits refl, (short, others))

    walk_step :
        (u : Bool) (n : ℕ)
        → block_header ≤ n
        → a + n + 48 < 2 ^ 32
        → Gives (a + n) size segments (walk (blocks_from (a + n) segments) size 8)
          ⊎ ((walk (blocks_from (a + n) segments) size 8 ≡ ok none) × AllShort size segments)
        → Gives a size
            (record { used = u; bytes = n } ∷ segments)
            (walk (block_at a u n ∷ blocks_from (a + n) segments) size 8)
          ⊎ ((walk (block_at a u n ∷ blocks_from (a + n) segments) size 8 ≡ ok none)
              × AllShort size (record { used = u; bytes = n } ∷ segments))
    walk_step true n sized fits rest = passed true n refl (λ e. cc) rest
    walk_step false n sized fits rest = elim (dec_le (block_header + size) n) [
      | no short ↦
          let test : leb size (sub32 n block_header) ≡ false = ground arith in
          passed false n (rw test refl) (λ e. omega arith) rest
      | yes enough ↦
          let test : leb size (sub32 n block_header) ≡ true = ground arith in
          elim (fit_lem a n size enough fits) [
            | inl w ↦ inl (fitted-Gives a size n segments w enough (omega arith))
            | inr (no_fit, short) ↦ passed false n (rw (test, no_fit) refl) (λ e. short) rest
          ]
    ]

pub heap_alloc_lem :
    (rounds : ℕ) (s : Heap) (a size : ℕ) (segments : List Segment) (m : Memory)
    → s.lock ≡ 0
    → s.blocks ≡ blocks_from a segments
    → AllSized segments
    → a + total segments + 48 < 2 ^ 32
    → 6 ≤ size
    → size + 8 < 2 ^ 32
    → ¬ AllShort (size + 8) segments
    → (front behind : List Segment) × (free before given after : ℕ) × (segments
        ≡ front ++ (free_segment free ∷ behind))
      × (before + given + after ≡ free)
      × (size + 18 ≤ given)
      × (block_header + 8 ≤ given)
      × ((before ≡ 0) ⊎ (block_header ≤ before))
      × ((a + total front + before + block_header) % 8 ≡ 0)
      × (heap_alloc (suc rounds) s size m
          ≡ ok (
            a + total front + before + block_header,
            record s {
              blocks = blocks_from a (front ++ (parts_of before given after ++ behind));
              words = with_canary s.words (block_at (a + total front + before) true given);
            },
            m,
          ))
unfolding heap_alloc heap_alloc_aligned heap_alloc_block_aligned alloc_loop heap_lock heap_unlock
    total write_canary
heap_alloc_lem rounds s a size segments m unlocked blocks all small enough fits some_long =
    elim (walk_lem a (size + 8) segments all small) [
      | inr (none_fits, short) ↦ absurd (some_long short)
      | inl w ↦
          let asked : u32 (size + 8) ≡ size + 8 = omega arith in
          let bytes = ap total w.was ∙ total-append w.front (free_segment w.m ∷ w.behind) in
          let pointer : u32 (a + total w.front + w.before + block_header)
              ≡ a + total w.front + w.before + block_header =
            omega (arith, bytes, w.whole, w.room) in
          let long : ltb w.given (block_header + 8) ≡ false = ground (arith, w.room, enough) in
          (
            w.front,
            w.behind,
            w.m,
            w.before,
            w.given,
            w.after,
            w.was,
            w.whole,
            omega (arith, w.room),
            omega (arith, w.room, enough),
            w.before_room,
            w.aligned,
            rw (unlocked, asked, blocks, w.returns, write_canary, long, pointer) refl,
          )
    ]
