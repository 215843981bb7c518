-- ===== src/Heap/AllocEnds.antt =====
-- The loop of `heap_alloc_block_aligned` that grows the heap until a block fits comes to an end.
use mathlib.Core.Path.{subst}
use rastapopoulos.Base.{
  List, Option, Outcome, aborted, arith, assert, fail, none, ok, refl, some, suc, sym, undefined,
  zero, ℕ, ◌*◌, ◌+◌, ◌==◌, ◌>>=◌, ◌>>◌, ◌^◌, ◌≡◌, ◌≤◌,
}
use rastapopoulos.Base.Ends.{
  Ends, Ends-Post, Ends-bind, Ends-ok, Ends-undefined, Post, Post-if, ends_rules, post_fail,
  post_ok,
}
use rastapopoulos.Base.Words.{u32}
use rastapopoulos.Heap.{
  Block, Heap, block_header, heap_lock, heap_unlock, magic_allocated, write_canary,
}
use rastapopoulos.Heap.Allocate.{
  alloc_loop, heap_alloc, heap_alloc_aligned, heap_alloc_block_aligned, heap_grow, walk,
}
use rastapopoulos.Heap.Ends.{AllSmall, heap_grow-Ends, walk-Ends}
use rastapopoulos.Heap.Growth.{IsLarger, Larger, heap_grow-Larger}
use rastapopoulos.Pmm.{page_size}
use rastapopoulos.Vmm.{Memory}

write_canary-Ends : (words : ℕ → ℕ) (b : Block) → Ends (write_canary words b)
unfolding write_canary
write_canary-Ends words b = search (ends_rules)

alloc_round-Ends :
    (rounds : ℕ) (s : Heap) (size : ℕ) (m : Memory)
    → AllSmall s.blocks
    → s.max_size + page_size ≤ 2 ^ 32
    → ((s' : Heap) (m' : Memory) → Larger s s' → Ends (alloc_loop rounds s' size 8 m'))
    → Ends (alloc_loop (suc rounds) s size 8 m)
unfolding alloc_loop
alloc_round-Ends rounds s size m small fits next =
    Ends-bind (walk s.blocks size 8) _ (walk-Ends s.blocks size small) (
      walked (
        Ends-Post (heap_grow s size m) _ (heap_grow-Ends s size m)
          (heap_grow-Larger s size m small fits) grown))
  where
    grown :
        (result : Option Heap × Memory)
        → IsLarger s result
        → Ends {A = Option Block × Heap × Memory} (elim result.0 [
          | none ↦ ok (none, s, result.1)
          | some s' ↦ alloc_loop rounds s' size 8 result.1
        ])
    grown (none, m') larger = Ends-ok (none, s, m')
    grown (some s', m') larger = next s' m' larger

    walked :
        {others : Outcome (Option Block × Heap × Memory)}
        → Ends others
        → (found : Option (List Block × Block))
        → Ends {A = Option Block × Heap × Memory} (elim found [
          | some (blocks, given) ↦ write_canary s.words given >>= λ words.
              ok (some given, record s { blocks = blocks; words = words }, m)
          | none ↦ others
        ])
    walked rest none = rest
    walked rest (some (blocks, given)) =
        Ends-bind (write_canary s.words given) _ (write_canary-Ends s.words given)
          λ words. Ends-ok _

alloc_loop-Ends :
    (rounds : ℕ) (s : Heap) (size : ℕ) (m : Memory)
    → AllSmall s.blocks
    → s.max_size + page_size ≤ 2 ^ 32
    → s.max_size ≤ s.heap_size + rounds * page_size
    → Ends (alloc_loop (suc rounds) s size 8 m)
alloc_loop-Ends zero s size m small fits enough =
    alloc_round-Ends zero s size m small fits λ s' m' w. absurd (omega (arith, w.was_less))
alloc_loop-Ends (suc rounds) s size m small fits enough =
    alloc_round-Ends (suc rounds) s size m small fits λ s' m' w.
      alloc_loop-Ends rounds s' size m' w.still_small (omega (arith, w.same_max))
        (omega (arith, w.same_max, w.larger))

abbrev SameSizes : Heap → Heap → Type 0
SameSizes s locked =
    (locked.blocks ≡ s.blocks) × (locked.max_size ≡ s.max_size) × (locked.heap_size ≡ s.heap_size)

heap_lock-SameSizes : (s : Heap) → Post (SameSizes s) (heap_lock s)
unfolding heap_lock
heap_lock-SameSizes s =
    Post-if (s.lock == 0) (λ e. post_ok _ (refl, refl, refl)) (λ e. post_fail aborted)

heap_lock-Ends : (s : Heap) → Ends (heap_lock s)
unfolding heap_lock
heap_lock-Ends s = search (ends_rules)

heap_unlock-Ends : (s : Heap) → Ends (heap_unlock s)
unfolding heap_unlock
heap_unlock-Ends s = search (ends_rules)

-- `heap_alloc` comes to an end, whatever the blocks hold, the tables map and the allocator has left:
-- in a heap whose blocks are below 2^32, and whose greatest size is so by a page at least, the loop
-- that grows it takes no more rounds than there are pages from its size to the greatest, and one.
pub heap_alloc-Ends :
    (rounds : ℕ) (s : Heap) (size : ℕ) (m : Memory)
    → AllSmall s.blocks
    → s.max_size + page_size ≤ 2 ^ 32
    → s.max_size ≤ s.heap_size + rounds * page_size
    → Ends (heap_alloc (suc rounds) s size m)
unfolding heap_alloc heap_alloc_aligned heap_alloc_block_aligned
heap_alloc-Ends rounds s size m small fits enough =
    Ends-bind (heap_alloc_block_aligned (suc rounds) s size 8 m) _
      (Ends-Post (heap_lock s) _ (heap_lock-Ends s) (heap_lock-SameSizes s) λ locked same.
        Ends-bind (alloc_loop (suc rounds) locked (u32 (size + 8)) 8 m) _
          (alloc_loop-Ends rounds locked (u32 (size + 8)) m (subst AllSmall (sym same.0) small)
            (omega (arith, same.1)) (omega (arith, same.1, same.2)))
          λ result. Ends-bind (heap_unlock result.1) _ (heap_unlock-Ends result.1) λ u. Ends-ok _)
      checked
  where
    checked :
        (result : Option Block × Heap × Memory)
        → Ends {A = ℕ × Heap × Memory} (elim result.0 [
          | none ↦ fail undefined
          | some h ↦
              assert (h.magic == magic_allocated)
              >> ok (u32 (h.address + block_header), result.1, result.2)
        ])
    checked (none, after, m') = Ends-undefined
    checked (some h, after, m') = search (ends_rules)
