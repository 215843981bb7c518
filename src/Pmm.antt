-- ===== src/Pmm.antt =====
-- kernel/pmm.c: the allocator of physical page frames.
-- The regions are the list `memregions`, the newest first; `initialized` is not modelled, nor the
-- traces. The critical sections stop interrupts only, so a call runs to its end.
pub mod Spec
pub mod Invariant
pub mod Change
pub mod Alloc
pub mod AddRegion
mod Tests
use rastapopoulos.Bitset
use rastapopoulos.Base.{
  Bool, List, Outcome, [], aborted, assert, fail, false, if◌then◌else◌, leb, ltb, ok, true, ℕ, ◌&&◌,
  ◌*◌, ◌+◌, ◌-◌, ◌/◌, ◌==◌, ◌>>=◌, ◌>>◌, ◌^◌, ◌∷◌,
}
use rastapopoulos.Base.Words.{align, is_aligned, sub32, truncate, u32}
use rastapopoulos.Bitset.{Bitset, alloc_size, invalid_index}

-- PAGE_SIZE
abbrev pub page_size : ℕ
page_size = 4096

-- INVALID_FRAME
abbrev pub invalid_frame : ℕ
invalid_frame = 0xFFFFFFFF

-- `struct memregion`; `next` is the list that it stands in
pub record Region : Type 0 where
  pub addr : ℕ
  pub len : ℕ
  pub bitmap : Bitset

-- `storage` is what stands in the words of the block that `kmalloc` gave for the bitmap.
pub add_region : List ℕ → ℕ → ℕ → List Region → Outcome (List Region)
add_region storage addr len regions = do
  let aligned_start = align addr page_size
  let aligned_len = truncate (sub32 len (sub32 aligned_start addr)) page_size
  assert (is_aligned aligned_start page_size)
  assert (is_aligned aligned_len page_size)
  bytes ← alloc_size (aligned_len / page_size)
  b ← Bitset.init storage (aligned_len / page_size)
  ok (record { addr = aligned_start; len = aligned_len; bitmap = b } ∷ regions)

-- `struct multiboot_mmap_entry`; `addr` and `len` are `uint64_t`
pub record MmapEntry : Type 0 where
  pub addr : ℕ
  pub len : ℕ
  pub kind : ℕ

-- MULTIBOOT_MEMORY_AVAILABLE
abbrev pub memory_available : ℕ
memory_available = 1

-- The loop of `pmm_init` over the memory map, each entry with the storage of its bitmap.
pub init_from : List (MmapEntry × List ℕ) → List Region → Outcome (List Region)
init_from [] regions = ok regions
init_from ((entry, storage) ∷ entries) regions =
    (if (entry.addr / 2 ^ 32 == 0) && (entry.kind == memory_available)
      then add_region storage (u32 entry.addr) (u32 entry.len) regions
      else ok regions)
    >>= init_from entries

pub init : List (MmapEntry × List ℕ) → Outcome (List Region)
init entries = init_from entries []

-- `page >= region->addr && page < region->addr + region->len`
abbrev pub in_region : Region → ℕ → Bool
in_region r page = leb r.addr page && ltb page (u32 (r.addr + r.len))

-- The bit of a page that lies in the region.
abbrev pub index_of : Region → ℕ → ℕ
index_of r page = (page - r.addr) / page_size

-- The loops over the regions follow; each function below it checks the page's alignment first.
pub exists_in : List Region → ℕ → Bool
exists_in [] page = false
exists_in (r ∷ rs) page = if in_region r page then true else exists_in rs page

pub exists : List Region → ℕ → Outcome Bool
exists rs page = do assert (is_aligned page page_size); ok (exists_in rs page)

-- `abort` on a page that is reserved already, and on one that no region holds
unfoldable pub reserve_in : List Region → ℕ → Outcome (List Region)
reserve_in [] page = fail aborted
reserve_in (r ∷ rs) page =
    let here = (do
      taken ← Bitset.test r.bitmap (index_of r page)
      let done = do b ← Bitset.insert r.bitmap (index_of r page); ok (record r { bitmap = b } ∷ rs)
      if taken then fail aborted else done) in
    let later = (do rs' ← reserve_in rs page; ok (r ∷ rs')) in
    if in_region r page then here else later

unfoldable pub reserve : List Region → ℕ → Outcome (List Region)
reserve rs page = do assert (is_aligned page page_size); reserve_in rs page

-- `abort` on a page that is free already, and on one that no region holds
pub free_in : List Region → ℕ → Outcome (List Region)
free_in [] page = fail aborted
free_in (r ∷ rs) page =
    let here = (do
      taken ← Bitset.test r.bitmap (index_of r page)
      let done = do b ← Bitset.clear r.bitmap (index_of r page); ok (record r { bitmap = b } ∷ rs)
      if taken then done else fail aborted) in
    let later = (do rs' ← free_in rs page; ok (r ∷ rs')) in if in_region r page then here else later

pub free : List Region → ℕ → Outcome (List Region)
free rs page = do assert (is_aligned page page_size); free_in rs page

-- A page that no region holds counts as reserved.
pub reserved_in : List Region → ℕ → Outcome Bool
reserved_in [] page = ok true
reserved_in (r ∷ rs) page =
    let here = Bitset.test r.bitmap (index_of r page) in
    let later = reserved_in rs page in if in_region r page then here else later

pub reserved : List Region → ℕ → Outcome Bool
reserved rs page = do assert (is_aligned page page_size); reserved_in rs page

-- The frame is INVALID_FRAME when no region has a free page.
unfoldable pub alloc : List Region → Outcome (ℕ × List Region)
alloc [] = ok (invalid_frame, [])
alloc (r ∷ rs) = do
  index ← Bitset.find r.bitmap 0
  let later = alloc rs >>= λ (frame, rs'). ok (frame, r ∷ rs')
  let here = do
    b ← Bitset.insert r.bitmap index
    ok (u32 (r.addr + index * page_size), record r { bitmap = b } ∷ rs)
  if index == invalid_index then later else here
