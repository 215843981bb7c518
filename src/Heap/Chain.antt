-- ===== src/Heap/Chain.antt =====
-- The abstract heap: segments that lie one behind the other, each in use or free.
use rastapopoulos.Base.{
  Bool, List, [], arith, false, if◌then◌else◌, true, ℕ, ◌++◌, ◌+◌, ◌∙◌, ◌∷◌, ◌≡◌, ◌≤◌,
}
use rastapopoulos.Heap.{Block, block_header, magic_allocated, magic_free}

pub record Segment : Type 0 where
  pub used : Bool
  pub bytes : ℕ

unfoldable pub total : List Segment → ℕ
total [] = 0
total (s ∷ segments) = s.bytes + total segments

-- The block that a segment is, and the blocks of segments from an address on.
abbrev pub block_at : ℕ → Bool → ℕ → Block
block_at a true n = record { address = a; magic = magic_allocated; flags = 1; size = n }
block_at a false n = record { address = a; magic = magic_free; flags = 0; size = n }

unfoldable pub blocks_from : ℕ → List Segment → List Block
blocks_from a [] = []
blocks_from a (s ∷ segments) = block_at a s.used s.bytes ∷ blocks_from (a + s.bytes) segments

-- Each segment has room for its header.
abbrev pub AllSized : List Segment → Type 0
AllSized [] = Unit
AllSized (s ∷ segments) = (block_header ≤ s.bytes) × AllSized segments

abbrev pub free_segment : ℕ → Segment
free_segment n = record { used = false; bytes = n }

abbrev pub used_segment : ℕ → Segment
used_segment n = record { used = true; bytes = n }

-- Giving `n` bytes back: they are joined with what is free behind them, and in front of them.
unfoldable pub joined_behind : ℕ → List Segment → List Segment
joined_behind n [] = free_segment n ∷ []
joined_behind n (s ∷ segments) =
    if s.used then free_segment n ∷ s ∷ segments else free_segment (n + s.bytes) ∷ segments

unfoldable pub released : List Segment → ℕ → List Segment → List Segment
released [] n behind = joined_behind n behind
released (p ∷ []) n behind =
    if p.used then p ∷ joined_behind n behind else joined_behind (p.bytes + n) behind
released (p ∷ q ∷ front) n behind = p ∷ released (q ∷ front) n behind

pub total-append : (xs ys : List Segment) → total (xs ++ ys) ≡ total xs + total ys
unfolding total
total-append [] ys = omega arith
total-append (s ∷ xs) ys = omega (arith, total-append xs ys)

total-joined_behind :
    (n : ℕ) (behind : List Segment) → total (joined_behind n behind) ≡ n + total behind
unfolding total joined_behind
total-joined_behind n [] = omega arith
total-joined_behind n (s ∷ behind) = ground arith

pub total-released :
    (front : List Segment) (n : ℕ) (behind : List Segment)
    → total (released front n behind) ≡ total front + (n + total behind)
unfolding total released
total-released [] n behind = total-joined_behind n behind ∙ omega arith
total-released (p ∷ []) n behind =
    ground (arith, total-joined_behind n behind, total-joined_behind (p.bytes + n) behind)
total-released (p ∷ q ∷ front) n behind = omega (arith, total-released (q ∷ front) n behind)
