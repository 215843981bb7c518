-- ===== src/Heap/Release.antt =====
-- `heap_free_block` gives a segment back.
use rastapopoulos.Base.{
  Bool, List, [], aborted, ap, arith, fail, false, ltb, ok, refl, true, ℕ, ◌++◌, ◌+◌, ◌<◌, ◌==◌,
  ◌^◌, ◌∷◌, ◌≡◌, ◌≢◌, ◌≤◌,
}
use rastapopoulos.Base.Words.{u32}
use rastapopoulos.Heap.{
  Heap, block_header, canary, canary_address, check_canary, check_magic, find_block, free_behind,
  free_block, free_from, free_in, heap_free_block, heap_is_allocated, heap_is_free, heap_lock,
  heap_unlock, is_valid_block, join_next, merge_blocks, set_free,
}
use rastapopoulos.Heap.Chain.{
  AllSized, Segment, block_at, blocks_from, free_segment, joined_behind, released, total,
  total-released, used_segment,
}

joined_blocks :
    (a n m : ℕ) (segments : List Segment)
    → blocks_from (a + n + m) segments ≡ blocks_from (a + (n + m)) segments
joined_blocks a n m segments = ap (λ (k : ℕ). blocks_from k segments) (omega arith)

join_next_step :
    (a n m : ℕ) (in_use : Bool) (behind : List Segment)
    → 0 < n
    → a + (n + (m + total behind)) < 2 ^ 32
    → join_next (block_at a false n) (block_at (a + n) in_use m ∷ blocks_from (a + n + m) behind)
      ≡ ok (blocks_from a (joined_behind n (record { used = in_use; bytes = m } ∷ behind)))
unfolding join_next merge_blocks heap_is_free is_valid_block blocks_from joined_behind
join_next_step a n m true behind pos small = refl
join_next_step a n m false behind pos small =
    let before : ltb a (a + n) ≡ true = ground arith in
    let sum : u32 (n + m) ≡ n + m = omega arith in rw (before, sum, joined_blocks a n m behind) refl

join_next_lem :
    (a n : ℕ) (behind : List Segment)
    → 0 < n
    → a + (n + total behind) < 2 ^ 32
    → join_next (block_at a false n) (blocks_from (a + n) behind)
      ≡ ok (blocks_from a (joined_behind n behind))
unfolding join_next blocks_from joined_behind total
join_next_lem a n [] pos small = refl
join_next_lem a n (s ∷ behind) pos small = join_next_step a n s.bytes s.used behind pos small

free_behind_lem :
    (a p n : ℕ) (in_use : Bool) (behind : List Segment)
    → 0 < p
    → 0 < n
    → a + (p + (n + total behind)) < 2 ^ 32
    → free_behind (block_at a in_use p) (block_at (a + p) true n) (blocks_from (a + p + n) behind)
      ≡ ok (blocks_from a (released (record { used = in_use; bytes = p } ∷ []) n behind))
unfolding free_behind free_block heap_is_allocated set_free heap_is_free is_valid_block merge_blocks
    blocks_from released
free_behind_lem a p n true behind front pos small =
    rw (join_next_lem (a + p) n behind pos (omega arith)) refl
free_behind_lem a p n false behind front pos small =
    let before : ltb a (a + p) ≡ true = ground arith in
    let sum : u32 (p + n) ≡ p + n = omega arith in
    rw
      (
        before,
        sum,
        joined_blocks a p n behind,
        join_next_lem a (p + n) behind (omega arith) (omega arith),
      )
      refl

valid_at : (a n : ℕ) (in_use : Bool) → is_valid_block (block_at a in_use n) ≡ true
unfolding is_valid_block
valid_at a n true = refl
valid_at a n false = refl

address_at : (a n : ℕ) (in_use : Bool) → (block_at a in_use n).address ≡ a
address_at a n true = refl
address_at a n false = refl

free_from_lem :
    (a p n at : ℕ) (in_use : Bool) (front behind : List Segment)
    → 0 < p
    → block_header ≤ n
    → AllSized front
    → at ≡ a + p + total front
    → a + (p + (total front + (n + total behind))) < 2 ^ 32
    → free_from (block_at a in_use p) (blocks_from (a + p) (front ++ (used_segment n ∷ behind))) at
      ≡ ok (blocks_from a (released (record { used = in_use; bytes = p } ∷ front) n behind))
unfolding free_from blocks_from released total
free_from_lem a p n at in_use [] behind pos sized all e small =
    let here : (a + p == at) ≡ true = ground arith in
    rw here (free_behind_lem a p n in_use behind pos (omega arith) (omega arith))
free_from_lem a p n at in_use (q ∷ front) behind pos sized all e small =
    let there : ((block_at (a + p) q.used q.bytes).address == at) ≡ false =
      rw (address_at (a + p) q.bytes q.used) (ground (arith, all.0)) in
    let rest =
      free_from_lem (a + p) q.bytes n at q.used front behind (omega (arith, all.0)) sized all.1
        (omega arith) (omega arith) in
    rw (there, valid_at a p in_use, rest) refl

free_in_lem :
    (a n at : ℕ) (front behind : List Segment)
    → block_header ≤ n
    → AllSized front
    → at ≡ a + total front
    → a + (total front + (n + total behind)) < 2 ^ 32
    → free_in (blocks_from a (front ++ (used_segment n ∷ behind))) at
      ≡ ok (blocks_from a (released front n behind))
unfolding free_in free_block heap_is_allocated set_free is_valid_block blocks_from released total
free_in_lem a n at [] behind sized all e small =
    let here : (a == at) ≡ true = ground arith in
    rw (here, join_next_lem a n behind (omega arith) (omega arith)) refl
free_in_lem a n at (q ∷ front) behind sized all e small =
    let there : ((block_at a q.used q.bytes).address == at) ≡ false =
      rw (address_at a q.bytes q.used) (ground (arith, all.0)) in
    let rest =
      free_from_lem a q.bytes n at q.used front behind (omega (arith, all.0)) sized all.1
        (omega arith) (omega arith) in
    rw (there, rest) refl

find_block_lem :
    (a n at : ℕ) (in_use : Bool) (front behind : List Segment)
    → AllSized front
    → at ≡ a + total front
    → find_block (blocks_from a (front ++ (record { used = in_use; bytes = n } ∷ behind))) at
      ≡ ok (block_at at in_use n)
unfolding find_block blocks_from total
find_block_lem a n at in_use [] behind all e =
    let same : a ≡ at = omega arith in
    let here : ((block_at a in_use n).address == at) ≡ true =
      rw (address_at a n in_use) (ground arith) in
    rw here (ap (λ (k : ℕ). ok (block_at k in_use n)) same)
find_block_lem a n at in_use (q ∷ front) behind all e =
    let there : ((block_at a q.used q.bytes).address == at) ≡ false =
      rw (address_at a q.bytes q.used) (ground (arith, all.0)) in
    rw (there, find_block_lem (a + q.bytes) n at in_use front behind all.1 (omega arith)) refl

-- `heap_free_block` of the block of a segment in use, on an unlocked heap whose blocks are those of
-- segments within the 32-bit addresses. If the canary is whole, the segment is given back and joined
-- with the free segments beside it, no byte is lost, and nothing else changes; if it is not, the call
-- panics. It panics as well if the segment is free already.
pub heap_free_block_lem :
    (s : Heap) (a n : ℕ) (front behind : List Segment)
    → 0 < a
    → s.lock ≡ 0
    → block_header ≤ n
    → AllSized front
    → a + (total front + (n + total behind)) < 2 ^ 32
    → let at = a + total front in
      let heap_of = λ (segments : List Segment). record s { blocks = blocks_from a segments } in
      (s.words (canary_address (block_at at true n)) ≡ canary
        → (heap_free_block (heap_of (front ++ (used_segment n ∷ behind))) at
            ≡ ok (heap_of (released front n behind)))
          × (total (released front n behind) ≡ total front + (n + total behind)))
      × (s.words (canary_address (block_at at true n)) ≢ canary
          → heap_free_block (heap_of (front ++ (used_segment n ∷ behind))) at ≡ fail aborted)
      × (heap_free_block (heap_of (front ++ (free_segment n ∷ behind))) at ≡ fail aborted)
unfolding heap_free_block check_magic check_canary heap_lock heap_unlock
heap_free_block_lem s a n front behind pos unlocked sized all small =
    let at = a + total front in
    let some_address : (at == 0) ≡ false = ground arith in
    let found = find_block_lem a n at true front behind all refl in
    let found_free = find_block_lem a n at false front behind all refl in
    let freed = free_in_lem a n at front behind sized all refl small in
    (
      λ whole.
          let checked : (s.words (canary_address (block_at at true n)) == canary) ≡ true =
            ground arith in
          (rw (some_address, found, checked, unlocked, freed) refl, total-released front n behind),
      λ broken.
          let checked : (s.words (canary_address (block_at at true n)) == canary) ≡ false =
            ground arith in
          rw (some_address, found, checked) refl,
      rw (some_address, found_free) refl,
    )
