-- ===== src/Vmm.antt =====
-- kernel/vmm.c: the page tables of the processor, mapping, unmapping and looking up a page.
-- Physical memory is a function from the address of a frame and the number of a 32-bit word in it to
-- the word. The kernel reaches its tables as pages, through the processor's translation of their
-- addresses, `translate`; an address that is not mapped is a page fault. The translation is always
-- that of the tables in memory, so flushing the buffers of the processor changes nothing. The
-- supervisor write-protect bit is set, so a write needs the writable bit of both entries.
pub mod Tables
pub mod Window
pub mod Mapping
pub mod Found
pub mod Calls
pub mod NewTable
pub mod Map
pub mod Ends
mod Tests
use rastapopoulos.Base.{
  Bool, List, Option, Outcome, aborted, assert, bit_or, fail, if◌then◌else◌, none, not, ok,
  page_fault, some, ℕ, ◌%◌, ◌&&◌, ◌*◌, ◌+◌, ◌-◌, ◌/◌, ◌==◌, ◌>>=◌, ◌>>◌, ◌^◌,
}
use rastapopoulos.Base.Words.{is_aligned}
use rastapopoulos.Pmm.{Region, alloc, invalid_frame, page_size}

pub record Memory : Type 0 where
  pub regions : List Region
  pub is_paging : Bool
  pub is_pmm_initialized : Bool
  pub cr3 : ℕ
  pub frames : ℕ → ℕ → ℕ
  pub pagedir_va : ℕ

-- VMM_PAGE_PRESENT, VMM_PAGE_WRITABLE and VMM_PAGE_USER.
abbrev pub page_present : ℕ
page_present = 1

abbrev pub page_writable : ℕ
page_writable = 2

abbrev pub page_user : ℕ
page_user = 4

abbrev pub is_present : ℕ → Bool
is_present entry = entry % 2 == 1

-- `entry & PTE_FRAME` and `entry & PTE_FLAGS`
abbrev pub frame_bits : ℕ → ℕ
frame_bits entry = entry / 4096 * 4096

abbrev pub flag_bits : ℕ → ℕ
flag_bits entry = entry % 4096

-- `va_info`
abbrev pub dir_index : ℕ → ℕ
dir_index va = va / 2 ^ 22 % 1024

abbrev pub table_index : ℕ → ℕ
table_index va = va / 2 ^ 12 % 1024

abbrev pub is_writable : ℕ → Bool
is_writable entry = entry / 2 % 2 == 1

-- The frame to which the processor translates an address, for reading.
unfoldable pub translate : Memory → ℕ → Option ℕ
translate m va =
    let pde = m.frames m.cr3 (dir_index va) in
    let pte = m.frames (frame_bits pde) (table_index va) in
    if is_present pde && is_present pte then some (frame_bits pte) else none

-- The same for writing.
unfoldable pub translate_write : Memory → ℕ → Option ℕ
translate_write m va =
    let pde = m.frames m.cr3 (dir_index va) in
    let pte = m.frames (frame_bits pde) (table_index va) in
    if is_writable pde && is_writable pte then translate m va else none

unfoldable pub read_word : Memory → ℕ → ℕ → Outcome ℕ
read_word m va i = elim (translate m va) [ none ↦ fail page_fault | some f ↦ ok (m.frames f i) ]

unfoldable pub put_word : (ℕ → ℕ → ℕ) → ℕ → ℕ → ℕ → ℕ → ℕ → ℕ
put_word frames f i v g j = if g == f && j == i then v else frames g j

unfoldable pub write_word : Memory → ℕ → ℕ → ℕ → Outcome Memory
write_word m va i v = elim (translate_write m va) [
  | none ↦ fail page_fault
  | some f ↦ ok (record m { frames = put_word m.frames f i v })
]

-- `bzero` of a whole page
unfoldable pub clear_page : Memory → ℕ → Outcome Memory
clear_page m va = elim (translate_write m va) [
  | none ↦ fail page_fault
  | some f ↦ ok (record m { frames = λ g j. if g == f then 0 else m.frames g j })
]

-- The last entry of the directory is that of the directory itself, so it is the last page, and the
-- tables are the pages in front of it.
abbrev pub current_pagedir : ℕ
current_pagedir = 0xFFFFF000

abbrev pub get_pagetable : ℕ → ℕ
get_pagetable d = 0xFFC00000 + d * page_size

-- A page of a directory entry that is there; `abort` if it is mapped.
unfoldable pub map_in_table : ℕ → ℕ → ℕ → Memory → Outcome Memory
map_in_table va pa flags m = do
  let table = get_pagetable (dir_index va)
  pte ← read_word m table (table_index va)
  (if is_present pte
      then fail aborted
      else write_word m table (table_index va) (bit_or (frame_bits pa) flags))

-- A page of a directory entry that is not: a frame for its table first.
unfoldable pub map_new_table : ℕ → ℕ → ℕ → Memory → Outcome Memory
map_new_table va pa flags m = do
  (table_pa, regions) ← alloc m.regions
  assert (not (table_pa == invalid_frame))
  stashed ←
      write_word (record m { regions = regions }) current_pagedir (dir_index va) (bit_or table_pa 7)
  pde ← read_word stashed current_pagedir (dir_index va)
  assert (is_present pde)
  cleared ← clear_page stashed (get_pagetable (dir_index va))
  write_word cleared (get_pagetable (dir_index va)) (table_index va) (bit_or (frame_bits pa) flags)

unfoldable pub vmm_map : ℕ → ℕ → ℕ → Memory → Outcome Memory
vmm_map va pa flags m = do
  assert m.is_paging
  assert (is_present flags)
  assert (is_aligned va page_size)
  assert (is_aligned pa page_size)
  pde ← read_word m current_pagedir (dir_index va)
  (if is_present pde then map_in_table va pa flags m else map_new_table va pa flags m)

-- The entry of a page that is mapped.
unfoldable pub mapped_entry : ℕ → Memory → Outcome ℕ
mapped_entry va m = do
  pde ← read_word m current_pagedir (dir_index va)
  assert (is_present pde)
  pte ← read_word m (get_pagetable (dir_index va)) (table_index va)
  assert (is_present pte)
  ok pte

unfoldable pub vmm_remap : ℕ → ℕ → Memory → Outcome Memory
vmm_remap va flags m = do
  assert m.is_paging
  assert (is_aligned va page_size)
  assert (is_present flags)
  pte ← mapped_entry va m
  write_word m (get_pagetable (dir_index va)) (table_index va) (bit_or (frame_bits pte) flags)

unfoldable pub vmm_unmap : ℕ → Memory → Outcome Memory
vmm_unmap va m = do
  assert m.is_paging
  assert (is_aligned va page_size)
  pte ← mapped_entry va m
  write_word m (get_pagetable (dir_index va)) (table_index va) (pte - pte % 2)

-- `va_info_ex`: the frame and the flags of a page, both 0 if it is not mapped.
unfoldable pub va_info_ex : ℕ → Memory → Outcome (ℕ × ℕ)
va_info_ex va m = do
  assert m.is_paging
  pde ← read_word m current_pagedir (dir_index va)
  let in_table =
      (read_word m (get_pagetable (dir_index va)) (table_index va) >>= λ pte.
      ok (if is_present pte then (frame_bits pte, flag_bits pte) else (0, 0)))
  (if is_present pde then in_table else ok (0, 0))

unfoldable pub vmm_get_physical : ℕ → Memory → Outcome ℕ
vmm_get_physical va m =
    assert (is_aligned va page_size) >> (va_info_ex va m >>= λ (frame, flags). ok frame)

unfoldable pub vmm_get_flags : ℕ → Memory → Outcome ℕ
vmm_get_flags va m =
    assert (is_aligned va page_size) >> (va_info_ex va m >>= λ (frame, flags). ok flags)
