-- ===== src/Heap/Tests.antt =====
-- Runs of kernel/heap.c on small heaps, and its theorems at them.
use rastapopoulos.Base.{
  List, [], aborted, arith, fail, false, ok, refl, some, true, undefined, ℕ, ◌+◌, ◌>>=◌, ◌∷◌, ◌≡◌,
  ◌≢◌, ◌≤◌,
}
use rastapopoulos.Base.Ends.{Ends}
use rastapopoulos.Base.Words.{align}
use rastapopoulos.Heap.{
  Heap, canary, check_canary, check_magic, create_block, find_block, free_block, free_bytes,
  free_in, heap_check, heap_free, heap_free_block, heap_init, heap_is_allocated, heap_is_free,
  heap_lock, heap_unlock, is_valid_block, join_next, magic_free, merge_blocks, set_allocated,
  set_free, write_canary,
}
use rastapopoulos.Heap.AllocEnds.{heap_alloc-Ends}
use rastapopoulos.Heap.Allocate.{
  alloc_loop, back_page, cut_rest, end_of_heap, extend, fit, fit_at_start, fit_behind, grow_pages,
  heap_alloc, heap_alloc_aligned, heap_alloc_block_aligned, heap_grow, pages_between, push_data,
  walk,
}
use rastapopoulos.Heap.Chain.{
  Segment, block_at, blocks_from, free_segment, joined_behind, released, total, used_segment,
}
use rastapopoulos.Heap.Kmalloc.{
  KernelHeap, kernel_heap_info, kfree, kmalloc, kmalloc_a, kmalloc_init,
}
use rastapopoulos.Heap.Release.{heap_free_block_lem}
use rastapopoulos.Heap.RoundTrip.{heap_alloc-heap_free}
use rastapopoulos.Vmm.{Memory}

abbrev some_heap : List Segment → Heap
some_heap segments = record {
  blocks = blocks_from 0x1010 segments;
  heap_size = 0x1000;
  max_size = 0x2000;
  lock = 0;
  words = λ a. canary;
}

abbrev no_memory : Memory
no_memory = record {
  regions = [];
  is_paging = false;
  is_pmm_initialized = false;
  cr3 = 0;
  frames = λ f i. 0;
  pagedir_va = 0;
}

-- A block that lies at no multiple of 8 and is just long enough: the one that is given out for 24 bytes
-- and its header has 34.
short_runs :
    walk (blocks_from 1 (free_segment 57 ∷ [])) 24 8
    ≡ ok (some (blocks_from 1 (free_segment 23 ∷ used_segment 34 ∷ []), block_at 24 true 34))
unfolding walk fit push_data fit_behind cut_rest align heap_is_free is_valid_block create_block
    set_free set_allocated blocks_from
short_runs = refl

-- For one byte a block of 19 bytes is given out: its canary would stand on its own header.
overlap_runs :
    heap_alloc 1
      (record (some_heap []) { blocks = blocks_from 0x1011 (free_segment 42 ∷ []) })
      1
      no_memory
    ≡ fail undefined
unfolding heap_alloc heap_alloc_aligned heap_alloc_block_aligned alloc_loop walk fit push_data
    fit_behind cut_rest align heap_is_free is_valid_block create_block set_free set_allocated
    write_canary heap_lock blocks_from
overlap_runs = refl

-- The heap grows by a page when nothing fits, and the page is joined with the free block at the end.
grow_runs :
    heap_grow (some_heap (free_segment 0xFF0 ∷ [])) 0x1000 no_memory
    ≡ ok (some (record (some_heap (free_segment 0x1FF0 ∷ [])) { heap_size = 0x2000 }), no_memory)
unfolding heap_grow grow_pages back_page pages_between end_of_heap extend merge_blocks align
    heap_is_free is_valid_block create_block blocks_from
grow_runs = refl

init_runs : heap_init (λ a. canary) 0x1000 0x1000 0x2000 ≡ ok (some_heap (free_segment 0xFF0 ∷ []))
unfolding heap_init create_block blocks_from
init_runs = refl

check_runs :
    (heap_check (blocks_from 16 (free_segment 32 ∷ used_segment 40 ∷ [])) ≡ ok tt)
    × (free_bytes 0 (blocks_from 16 (free_segment 32 ∷ used_segment 40 ∷ [])) ≡ ok 16)
    × (heap_check (record (block_at 16 true 32) { magic = magic_free } ∷ []) ≡ fail aborted)
unfolding heap_check free_bytes heap_is_free is_valid_block blocks_from
check_runs = (refl, refl, refl)

heap_free_block_lem_example :
    (canary ≡ canary
      → (heap_free_block
            (some_heap (free_segment 32 ∷ used_segment 40 ∷ free_segment 64 ∷ []))
            0x1030
          ≡ ok (some_heap (free_segment 136 ∷ [])))
        × (total (free_segment 136 ∷ []) ≡ 32 + (40 + 64)))
    × (canary ≢ canary
        → heap_free_block
            (some_heap (free_segment 32 ∷ used_segment 40 ∷ free_segment 64 ∷ []))
            0x1030
          ≡ fail aborted)
    × (heap_free_block (some_heap (free_segment 32 ∷ free_segment 40 ∷ free_segment 64 ∷ [])) 0x1030
        ≡ fail aborted)
unfolding total released joined_behind
heap_free_block_lem_example =
    heap_free_block_lem (some_heap []) 0x1010 40 (free_segment 32 ∷ []) (free_segment 64 ∷ [])
      (omega arith) refl (omega arith) (omega arith, tt) (omega arith)

abbrev fresh : KernelHeap
fresh = record { heap_start = 0x1000; kernel_heap = some_heap (free_segment 0xFF0 ∷ []) }

-- A block of 40 bytes is taken, and given back.
kmalloc_runs :
    (after : KernelHeap) × (kmalloc 1 fresh 16 no_memory ≡ ok (0x1020, after, no_memory))
    × (after.kernel_heap.blocks ≡ blocks_from 0x1010 (used_segment 40 ∷ free_segment 0xFC8 ∷ []))
    × ((kfree after 0x1020 >>= λ s'. ok s'.kernel_heap.blocks)
        ≡ ok (blocks_from 0x1010 (free_segment 0xFF0 ∷ [])))
    × (kernel_heap_info after ≡ (0x1000, 0x1000))
unfolding kmalloc kmalloc_a heap_alloc_aligned heap_alloc_block_aligned alloc_loop walk fit
    fit_at_start align heap_is_free is_valid_block create_block set_free set_allocated write_canary
    heap_lock heap_unlock blocks_from kfree heap_free heap_free_block find_block check_magic
    check_canary free_in free_block heap_is_allocated join_next merge_blocks kernel_heap_info
kmalloc_runs = (_, refl, refl, refl, refl)

-- The heap begins at the next page.
kmalloc_init_runs :
    (kmalloc_init (λ a. 0) 0xC0100001 >>= λ s. ok (kernel_heap_info s)) ≡ ok (0xC0101000, 0x40000)
unfolding kmalloc_init heap_init align kernel_heap_info
kmalloc_init_runs = refl

heap_alloc-heap_free_example :
    (ptr : ℕ) × (after final : Heap) × (heap_alloc 1
        (some_heap (used_segment 29 ∷ free_segment 200 ∷ []))
        16
        no_memory
      ≡ ok (ptr, after, no_memory))
    × (heap_free after ptr ≡ ok final)
    × (final.blocks ≡ blocks_from 0x1010 (used_segment 29 ∷ free_segment 200 ∷ []))
unfolding total
heap_alloc-heap_free_example =
    heap_alloc-heap_free 0 (some_heap (used_segment 29 ∷ free_segment 200 ∷ [])) 0x1010 16
      (used_segment 29 ∷ free_segment 200 ∷ []) no_memory (omega arith) refl refl
      (omega arith, (omega arith, tt)) ((λ e. cc), tt) (omega arith) (omega arith) (omega arith)
      (λ h. absurd (too_long (h.1.0 refl)))
  where
    too_long : ¬ 200 ≤ 16 + 8 + 32
    too_long e = omega arith

heap_alloc-Ends_example : Ends (heap_alloc 2 (some_heap (used_segment 29 ∷ [])) 16 no_memory)
unfolding blocks_from
heap_alloc-Ends_example =
    heap_alloc-Ends 1 (some_heap (used_segment 29 ∷ [])) 16 no_memory (omega arith, tt)
      (omega arith) (omega arith)
