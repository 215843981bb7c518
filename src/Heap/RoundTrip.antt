-- ===== src/Heap/RoundTrip.antt =====
-- `heap_free` after `heap_alloc`: the heap is what it was.
-- No free segment lies behind a free one.
use mathlib.Core.Path.{subst}
use rastapopoulos.Base.{
  Bool, Bool-cases, List, [], ap, append_assoc, arith, false, if◌then◌else◌, inl, inr, ok, refl,
  suc, sym, true, zero, ℕ, ◌++◌, ◌+◌, ◌<◌, ◌==◌, ◌^◌, ◌∙◌, ◌∷◌, ◌≡◌, ◌≤◌, ◌⊎◌,
}
use rastapopoulos.Base.Words.{sub32}
use rastapopoulos.Heap.{
  Block, Heap, block_header, canary, canary_address, heap_free, heap_free_block, with_canary,
}
use rastapopoulos.Heap.Allocate.{heap_alloc}
use rastapopoulos.Heap.Chain.{
  AllSized, Segment, block_at, blocks_from, free_segment, joined_behind, released, total,
  total-append, used_segment,
}
use rastapopoulos.Heap.Fitting.{optional, parts_of}
use rastapopoulos.Heap.Release.{heap_free_block_lem}
use rastapopoulos.Heap.Walk.{AllShort, heap_alloc_lem}
use rastapopoulos.Pmm.{free}
use rastapopoulos.Vmm.{Memory}

abbrev pub AllJoined : List Segment → Type 0
AllJoined [] = Unit
AllJoined (s ∷ []) = Unit
AllJoined (s ∷ t ∷ segments) = (s.used ≡ false → t.used ≡ true) × AllJoined (t ∷ segments)

-- A free segment is followed by none, or by one in use.
joined_used :
    (n m : ℕ) (behind : List Segment)
    → AllJoined (free_segment m ∷ behind)
    → joined_behind n behind ≡ free_segment n ∷ behind
unfolding joined_behind
joined_used n m [] h = refl
joined_used n m (s ∷ behind) h = let in_use : s.used ≡ true = h.0 refl in joined_step s in_use
  where
    joined_step :
        (s : Segment) → s.used ≡ true → joined_behind n (s ∷ behind) ≡ free_segment n ∷ s ∷ behind
    joined_step s e =
        ap
          (λ (b : Bool).
            if b then free_segment n ∷ s ∷ behind else free_segment (n + s.bytes) ∷ behind)
          e

joined_optional :
    (n after m : ℕ) (behind : List Segment)
    → AllJoined (free_segment m ∷ behind)
    → joined_behind n (optional after behind) ≡ free_segment (n + after) ∷ behind
unfolding joined_behind
joined_optional n zero m behind h =
    joined_used n m behind h ∙ ap (λ (k : ℕ). free_segment k ∷ behind) (omega arith)
joined_optional n (suc after) m behind h =
    let some_left : (suc after == 0) ≡ false = ground arith in rw some_left refl

front_some :
    (before given after m : ℕ) (behind : List Segment)
    → AllJoined (free_segment m ∷ behind)
    → before + given + after ≡ m
    → released (free_segment before ∷ []) given (optional after behind) ≡ free_segment m ∷ behind
unfolding released
front_some before given after m behind h e =
    joined_optional (before + given) after m behind h ∙ ap (λ (k : ℕ). free_segment k ∷ behind) e

used_front :
    (p : Segment) (given after m : ℕ) (behind : List Segment)
    → p.used ≡ true
    → AllJoined (free_segment m ∷ behind)
    → given + after ≡ m
    → released (p ∷ []) given (optional after behind) ≡ p ∷ free_segment m ∷ behind
unfolding released
used_front p given after m behind in_use h e =
    ap
      (λ (b : Bool).
        if b
        then p ∷ joined_behind given (optional after behind)
        else joined_behind (p.bytes + given) (optional after behind))
      in_use
    ∙ ap (λ (l : List Segment). p ∷ l)
        (joined_optional given after m behind h ∙ ap (λ (k : ℕ). free_segment k ∷ behind) e)

restored_front :
    (before given after m : ℕ) (behind : List Segment)
    → AllJoined (free_segment m ∷ behind)
    → before + given + after ≡ m
    → released (optional before []) given (optional after behind) ≡ free_segment m ∷ behind
unfolding released
restored_front zero given after m behind h e =
    joined_optional given after m behind h ∙ ap (λ (k : ℕ). free_segment k ∷ behind) (omega arith)
restored_front (suc before) given after m behind h e =
    let some_front : (suc before == 0) ≡ false = ground arith in
    rw some_front (front_some (suc before) given after m behind h e)

restored :
    (front : List Segment) (before given after m : ℕ) (behind : List Segment)
    → AllJoined (front ++ (free_segment m ∷ behind))
    → before + given + after ≡ m
    → released (front ++ optional before []) given (optional after behind)
      ≡ front ++ (free_segment m ∷ behind)
unfolding released
restored [] before given after m behind h e = restored_front before given after m behind h e
restored (p ∷ []) zero given after m behind h e = elim (Bool-cases p.used) [
  | inl in_use ↦ used_front p given after m behind in_use h.1 (omega arith)
  | inr is_free ↦ let wrong : false ≡ true = h.0 is_free in cc
]
restored (p ∷ []) (suc before) given after m behind h e =
    let some_front : (suc before == 0) ≡ false = ground arith in
    rw some_front
      (ap (λ (l : List Segment). p ∷ l) (front_some (suc before) given after m behind h.1 e))
restored (p ∷ q ∷ front) before given after m behind h e =
    ap (λ (l : List Segment). p ∷ l) (restored (q ∷ front) before given after m behind h.1 e)

AllSized-front :
    (front : List Segment) (before m : ℕ) (behind : List Segment)
    → AllSized (front ++ (free_segment m ∷ behind))
    → (before ≡ 0) ⊎ (block_header ≤ before)
    → AllSized (front ++ optional before [])
AllSized-front [] zero m behind all room = tt
AllSized-front [] (suc before) m behind all (inl none_left) = absurd (omega arith)
AllSized-front [] (suc before) m behind all (inr sized) =
    let some_front : (suc before == 0) ≡ false = ground arith in rw some_front (sized, tt)
AllSized-front (p ∷ front) before m behind all room =
    (all.0, AllSized-front front before m behind all.1 room)

total-optional :
    (n : ℕ) (segments : List Segment) → total (optional n segments) ≡ n + total segments
unfolding total
total-optional n segments = ground arith

inner :
    (before given after : ℕ) (behind : List Segment)
    → parts_of before given after ++ behind
      ≡ optional before [] ++ (used_segment given ∷ optional after behind)
unfolding parts_of
inner zero given zero behind = refl
inner zero given (suc after) behind =
    let some_left : (suc after == 0) ≡ false = ground arith in rw some_left refl
inner (suc before) given zero behind =
    let some_front : (suc before == 0) ≡ false = ground arith in rw some_front refl
inner (suc before) given (suc after) behind =
    let some_front : (suc before == 0) ≡ false = ground arith in
    let some_left : (suc after == 0) ≡ false = ground arith in rw (some_front, some_left) refl

-- What `heap_alloc` leaves, with the segment that it gave out between two lists.
around :
    (front behind : List Segment) (before given after : ℕ)
    → front ++ (parts_of before given after ++ behind)
      ≡ (front ++ optional before []) ++ (used_segment given ∷ optional after behind)
around front behind before given after =
    ap (λ (l : List Segment). front ++ l) (inner before given after behind)
    ∙ sym (append_assoc front (optional before []) (used_segment given ∷ optional after behind))

written : (words : ℕ → ℕ) (b : Block) → with_canary words b (canary_address b) ≡ canary
written words b =
    let same : (canary_address b == canary_address b) ≡ true = ground arith in rw same refl

-- On an unlocked heap of segments in which no two free ones are neighbours: if a free segment has more
-- than size + 40 bytes, and size is 6 or more, what `heap_alloc` returns can be given to `heap_free`,
-- and the blocks are then what they were before.
pub heap_alloc-heap_free :
    (rounds : ℕ) (s : Heap) (a size : ℕ) (segments : List Segment) (m : Memory)
    → 0 < a
    → s.lock ≡ 0
    → s.blocks ≡ blocks_from a segments
    → AllSized segments
    → AllJoined segments
    → a + total segments + 48 < 2 ^ 32
    → 6 ≤ size
    → size + 8 < 2 ^ 32
    → ¬ AllShort (size + 8) segments
    → (ptr : ℕ) × (after final : Heap) × (heap_alloc (suc rounds) s size m ≡ ok (ptr, after, m))
      × (heap_free after ptr ≡ ok final)
      × (final.blocks ≡ s.blocks)
unfolding heap_free total
heap_alloc-heap_free rounds s a size segments m pos unlocked blocks all joined small enough fits
      some_long =
    let (
      front, behind, free, before, given, after, was, whole, room, canary_room, before_room,
      aligned, e,
    ) =
      heap_alloc_lem rounds s a size segments m unlocked blocks all small enough fits some_long in
    let F = front ++ optional before [] in
    let B = optional after behind in
    let front_bytes =
      total-append front (optional before [])
      ∙ ap (λ (k : ℕ). total front + k) (total-optional before []) in
    let behind_bytes = total-optional after behind in
    let bytes = ap total was ∙ total-append front (free_segment free ∷ behind) in
    let address : a + total F ≡ a + total front + before = omega (arith, front_bytes) in
    let words = with_canary s.words (block_at (a + total front + before) true given) in
    let left : Heap = record s {
      blocks = blocks_from a (front ++ (parts_of before given after ++ behind));
      words = words;
    } in
    let intact : words (canary_address (block_at (a + total F) true given)) ≡ canary =
      ap (λ (k : ℕ). words (canary_address (block_at k true given))) address
      ∙ written s.words (block_at (a + total front + before) true given) in
    let freed =
      ((heap_free_block_lem left a given F B pos unlocked (omega arith)
          (AllSized-front front before free behind (subst AllSized was all) before_room)
          (omega (arith, bytes, whole, front_bytes, behind_bytes))).0
        intact).0 in
    let header : sub32 (a + total front + before + block_header) block_header ≡ a + total F =
      omega (arith, bytes, whole, front_bytes) in
    (
      _,
      _,
      _,
      e,
      ap
            (λ (l : List Segment).
              heap_free_block (record left { blocks = blocks_from a l })
                (sub32 (a + total front + before + block_header) block_header))
            (around front behind before given after)
          ∙ ap
              (heap_free_block
                (record left { blocks = blocks_from a (F ++ (used_segment given ∷ B)) }))
              header
          ∙ freed,
      ap (blocks_from a) (
            restored front before given after free behind (subst AllJoined was joined) whole
            ∙ sym was)
          ∙ sym blocks,
    )
