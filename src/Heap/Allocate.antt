-- ===== src/Heap/Allocate.antt =====
-- kernel/heap.c: growing the heap, and the search for a block to give out.
-- The heap grows by pages that `vmm_map` maps to frames of the page allocator.
use rastapopoulos.Base.{
  List, Option, Outcome, [], assert, assertion_failed, bit_or, endless, fail, if◌then◌else◌, leb,
  ltb, none, ok, some, suc, undefined, zero, ℕ, ◌&&◌, ◌*◌, ◌++◌, ◌+◌, ◌/◌, ◌==◌, ◌>>=◌, ◌>>◌, ◌^◌,
  ◌∷◌,
}
use rastapopoulos.Base.Words.{align, is_aligned, sub32, u32}
use rastapopoulos.Heap.{
  Block, Heap, block_header, create_block, heap_is_free, heap_lock, heap_unlock, is_valid_block,
  magic_allocated, merge_blocks, set_allocated, set_free, write_canary,
}
use rastapopoulos.Pmm.{alloc, invalid_frame, page_size, reserve}
use rastapopoulos.Vmm.{Memory, page_present, page_writable, vmm_map}
use rastapopoulos.Vmm.Found.{found}

abbrev pub kernel_base_addr : ℕ
kernel_base_addr = 0xC0000000

-- `heap_grow` at the last block: a new block behind it, joined with it if it is free. `last_block`
-- asserts each block that it passes.
unfoldable pub extend : List Block → ℕ → Outcome (List Block)
extend [] allocated_bytes = fail assertion_failed
extend (last ∷ []) allocated_bytes = do
  last_free ← heap_is_free last
  let new_header = create_block (u32 (last.address + last.size)) allocated_bytes
  (if last_free
      then (merge_blocks last new_header >>= λ joined. ok (joined ∷ []))
      else ok (last ∷ new_header ∷ []))
extend (h ∷ next ∷ blocks) allocated_bytes =
    assert (is_valid_block h)
    >> (extend (next ∷ blocks) allocated_bytes >>= λ grown. ok (h ∷ grown))

unfoldable pub end_of_heap : List Block → Outcome ℕ
end_of_heap [] = fail assertion_failed
end_of_heap (last ∷ []) = ok (u32 (last.address + last.size))
end_of_heap (h ∷ next ∷ blocks) = assert (is_valid_block h) >> end_of_heap (next ∷ blocks)

-- What the loop does for one page: none if there is no frame for it.
unfoldable pub back_page : ℕ → Memory → Outcome (Option Memory)
back_page page m =
    if m.is_paging
    then (do
      (frame, regions) ← alloc m.regions
      (if frame == invalid_frame
          then ok none
          else (vmm_map page frame (bit_or page_present page_writable)
                (record m { regions = regions })
              >>= λ m'. ok (some m'))))
    else if m.is_pmm_initialized
    then (reserve m.regions (sub32 page kernel_base_addr) >>= λ regions.
        ok (some (record m { regions = regions })))
    else ok (some m)

-- The rounds of the loop that are left, the page, and the size of the heap; the results are the
-- bytes by which it grew and the memory.
unfoldable pub grow_pages : ℕ → ℕ → ℕ → ℕ → Memory → Outcome (ℕ × Memory)
grow_pages zero page size max_size m = ok (0, m)
grow_pages (suc left) page size max_size m =
    let grown = back_page page m >>= λ backed. elim backed [
      | none ↦ ok (0, m)
      | some m' ↦
          grow_pages left (page + page_size) (u32 (size + page_size)) max_size m'
          >>= λ (allocated_bytes, last). ok (page_size + allocated_bytes, last)
    ] in
    if leb max_size size then ok (0, m) else grown

-- The rounds of `for(page = end_of_heap; page < end_of_heap + size; page += PAGE_SIZE)`.
unfoldable pub pages_between : ℕ → ℕ → Outcome ℕ
pages_between end size = if ltb (2 ^ 32) (end + size) then fail undefined else ok (size / page_size)

-- `heap_grow`: none if not one page could be had.
unfoldable pub heap_grow : Heap → ℕ → Memory → Outcome (Option Heap × Memory)
heap_grow s bytes m = do
  let size = align bytes page_size
  page ← end_of_heap s.blocks
  assert (is_aligned page page_size)
  rounds ← pages_between page size
  (allocated_bytes, m') ← grow_pages rounds page s.heap_size s.max_size m
  (if allocated_bytes == 0
      then ok (none, m')
      else (extend s.blocks allocated_bytes >>= λ blocks. ok (
        some (record s { blocks = blocks; heap_size = u32 (s.heap_size + allocated_bytes) }),
        m',
      )))

-- A block whose data begin aligned: its front is given out, and the rest if it is too small to be a
-- block. The result has the blocks that take the place of `h`, and the one that is given out.
unfoldable pub fit_at_start : Block → ℕ → Outcome (Option (List Block × Block))
fit_at_start h size =
    let remaining = sub32 (sub32 h.size block_header) size in
    let split = (do
      let new_block = create_block (u32 (h.address + size + block_header)) remaining
      given ← set_allocated (record h { size = u32 (block_header + size) })
      assert (u32 (new_block.size + given.size) == h.size)
      ok (some (given ∷ new_block ∷ [], given))) in
    let whole = set_allocated h >>= λ given. ok (some (given ∷ [], given)) in
    if ltb h.size (u32 (block_header + size))
    then ok none
    else if ltb block_header remaining
    then split
    else whole

-- `while(data1 - header0 < sizeof(struct heap_block_header) * 2) data1 += alignment`
unfoldable pub push_data : ℕ → ℕ → ℕ → ℕ → Outcome ℕ
push_data zero header0 alignment data1 = fail endless
push_data (suc rounds) header0 alignment data1 =
    let next = push_data rounds header0 alignment (u32 (data1 + alignment)) in
    if ltb (sub32 data1 header0) (block_header * 2) then next else ok data1

-- The rest of a block that is given out behind a free front: `h2`, and a block `h3` if it is too long.
unfoldable pub cut_rest : Block → Block → ℕ → ℕ → Outcome (Option (List Block × Block))
cut_rest h h2 size total_size =
    let cut = (do
      let size3 = sub32 (sub32 h2.size size) block_header
      h3 ← set_free (create_block (u32 (h2.address + size + block_header)) size3)
      given ← set_allocated (record h2 { size = u32 (size + block_header) })
      assert (u32 (h.size + given.size + h3.size) == total_size)
      ok (some (h ∷ given ∷ h3 ∷ [], given))) in
    let whole = set_allocated h2 >>= λ given. ok (some (h ∷ given ∷ [], given)) in
    if ltb (u32 (size + block_header * 2)) h2.size then cut else whole

unfoldable pub fit_behind : Block → ℕ → ℕ → Outcome (Option (List Block × Block))
fit_behind h size header1 =
    let fits = (do
      front ← set_free (record h { size = sub32 header1 h.address })
      let h2 = create_block header1 (sub32 h.size front.size)
      assert (u32 (front.size + h2.size) == h.size)
      cut_rest front h2 size h.size) in
    if ltb (u32 (block_header * 2 + size)) h.size then fits else ok none

-- An alignment of one byte or more needs 31 rounds at most.
unfoldable pub fit : Block → ℕ → ℕ → Outcome (Option (List Block × Block))
fit h size alignment =
    let data1 = align (u32 (h.address + block_header)) alignment in
    let behind = (do
      pushed ← push_data 32 h.address alignment data1
      fit_behind h size (sub32 pushed block_header)) in
    if data1 == u32 (h.address + block_header) then fit_at_start h size else behind

abbrev pub walked_past : Block → Option (List Block × Block) → Option (List Block × Block)
walked_past h none = none
walked_past h (some (parts, given)) = some (h ∷ parts, given)

-- The walk over the list of blocks, for the first that fits.
unfoldable pub walk : List Block → ℕ → ℕ → Outcome (Option (List Block × Block))
walk [] size alignment = ok none
walk (h ∷ blocks) size alignment = do
  h_free ← heap_is_free h
  found ← (if h_free && leb size (sub32 h.size block_header) then fit h size alignment else ok none)
  elim found [
    | some (parts, given) ↦ ok (some (parts ++ blocks, given))
    | none ↦ walk blocks size alignment >>= λ later. ok (walked_past h later)
  ]

-- The loop around the walk, with the number of rounds left: each but the last adds a page.
unfoldable pub alloc_loop : ℕ → Heap → ℕ → ℕ → Memory → Outcome (Option Block × Heap × Memory)
alloc_loop zero s size alignment m = fail endless
alloc_loop (suc rounds) s size alignment m = do
  found ← walk s.blocks size alignment
  elim found [
    | some (blocks, given) ↦ write_canary s.words given >>= λ words.
        ok (some given, record s { blocks = blocks; words = words }, m)
    | none ↦ heap_grow s size m >>= λ (grown, m'). elim grown [
      | none ↦ ok (none, s, m')
      | some s' ↦ alloc_loop rounds s' size alignment m'
    ]
  ]

unfoldable pub heap_alloc_block_aligned :
    ℕ → Heap → ℕ → ℕ → Memory → Outcome (Option Block × Heap × Memory)
heap_alloc_block_aligned rounds s size alignment m = do
  locked ← heap_lock s
  (given, after, m') ← alloc_loop rounds locked (u32 (size + 8)) alignment m
  unlocked ← heap_unlock after
  ok (given, unlocked, m')

-- `hdr->magic` is read when there is no block, too.
unfoldable pub heap_alloc_aligned : ℕ → Heap → ℕ → ℕ → Memory → Outcome (ℕ × Heap × Memory)
heap_alloc_aligned rounds s size alignment m = do
  (hdr, after, m') ← heap_alloc_block_aligned rounds s size alignment m
  elim hdr [
    | none ↦ fail undefined
    | some h ↦ assert (h.magic == magic_allocated) >> ok (u32 (h.address + block_header), after, m')
  ]

unfoldable pub heap_alloc : ℕ → Heap → ℕ → Memory → Outcome (ℕ × Heap × Memory)
heap_alloc rounds s size m = heap_alloc_aligned rounds s size 8 m
