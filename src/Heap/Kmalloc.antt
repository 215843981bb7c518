-- ===== src/Heap/Kmalloc.antt =====
-- kernel/kmalloc.c: the heap of the kernel itself. Its calls run with interrupts off, and a trace
-- that may be on only prints.
use rastapopoulos.Base.{
  Outcome, aborted, assert, fail, if◌then◌else◌, none, not, ok, some, undefined, ℕ, ◌*◌, ◌==◌,
  ◌>>=◌, ◌>>◌,
}
use rastapopoulos.Base.Words.{align, sub32}
use rastapopoulos.Heap.{Block, Heap, check_canary, heap_free, heap_init}
use rastapopoulos.Heap.Allocate.{heap_alloc_aligned, heap_alloc_block_aligned}
use rastapopoulos.Pmm.{page_size}
use rastapopoulos.Vmm.{Memory}

pub record KernelHeap : Type 0 where
  pub heap_start : ℕ
  pub kernel_heap : Heap

-- `size` is above 0 where the code asserts it; the heap has 64 pages, up to 0xC0400000.
unfoldable pub kmalloc_init : (ℕ → ℕ) → ℕ → Outcome KernelHeap
kmalloc_init words start =
    let address = align start page_size in
    heap_init words address (page_size * 64) (sub32 0xC0400000 address) >>= λ s.
    ok (record { heap_start = address; kernel_heap = s })

unfoldable pub kmalloc_a : ℕ → KernelHeap → ℕ → ℕ → Memory → Outcome (ℕ × KernelHeap × Memory)
kmalloc_a rounds s size alignment m = do
  assert (not (size == 0))
  (result, heap, m') ← heap_alloc_aligned rounds s.kernel_heap size alignment m
  (if result == 0 then fail aborted else ok (result, record s { kernel_heap = heap }, m'))

unfoldable pub kmalloc : ℕ → KernelHeap → ℕ → Memory → Outcome (ℕ × KernelHeap × Memory)
kmalloc rounds s size m = assert (not (size == 0)) >> kmalloc_a rounds s size 8 m

-- A block, which is read for its canary even if there is none.
unfoldable pub heap_alloc_block : ℕ → Heap → ℕ → Memory → Outcome (Block × Heap × Memory)
heap_alloc_block rounds s size m = do
  (given, after, m') ← heap_alloc_block_aligned rounds s size 8 m
  elim given [ none ↦ fail undefined | some b ↦ check_canary after.words b >> ok (b, after, m') ]

unfoldable pub kfree : KernelHeap → ℕ → Outcome KernelHeap
kfree s address =
    let freed = heap_free s.kernel_heap address >>= λ heap. ok (record s { kernel_heap = heap }) in
    if address == 0 then ok s else freed

-- The start and the size of the heap.
unfoldable pub kernel_heap_info : KernelHeap → ℕ × ℕ
kernel_heap_info s = (s.heap_start, s.kernel_heap.heap_size)
