-- ===== src/Vmm/Tests.antt =====
-- Runs of kernel/vmm.c on a directory with one table, and its theorems at it.
-- 40 free pages from 1 MB on, and 40 reserved ones from 2 MB on, the first two of them the directory
-- and its first table; the table maps the page at 0x5000.
use rastapopoulos.Pmm.Invariant as Regions
use rastapopoulos.Bitset
use rastapopoulos.Base.{
  [], aborted, arith, assertion_failed, fail, if◌then◌else◌, inl, inr, none, ok, refl, some, true,
  ℕ, ◌%◌, ◌&&◌, ◌==◌, ◌>>=◌, ◌∷◌, ◌≡◌, ◌⊎◌,
}
use rastapopoulos.Bitset.{Bitset}
use rastapopoulos.Bitset.Samples.{
  all_in, all_in-IsValid, all_in_padding, none_in, none_in-IsValid, none_in_padding,
}
use rastapopoulos.Pmm.{Region, alloc}
use rastapopoulos.Vmm.{
  Memory, clear_page, map_in_table, map_new_table, mapped_entry, put_word, read_word, translate,
  translate_write, va_info_ex, vmm_get_flags, vmm_get_physical, vmm_map, vmm_remap, vmm_unmap,
  write_word,
}
use rastapopoulos.Vmm.Calls.{MappedTo, lookup, page_calls-MappedTo}
use rastapopoulos.Vmm.Map.{Maps, vmm_map-Maps}
use rastapopoulos.Vmm.Tables.{IsValid}

abbrev first : Region
first = record { addr = 0x100000; len = 0x28000; bitmap = none_in }

abbrev second : Region
second = record { addr = 0x200000; len = 0x28000; bitmap = all_in }

abbrev one_table : ℕ → ℕ → ℕ
one_table f i =
    if f == 0x200000
    then (if i == 0 then 0x201007 else if i == 1023 then 0x200003 else 0)
    else if f == 0x201000 && i == 5
    then 0x300007
    else 0

abbrev sample : Memory
sample = record {
  regions = first ∷ second ∷ [];
  is_paging = true;
  is_pmm_initialized = true;
  cr3 = 0x200000;
  frames = one_table;
  pagedir_va = 0;
}

first-IsValid : Regions.RegionIsValid first
first-IsValid = record {
  aligned = refl;
  whole = refl;
  below = omega arith;
  bitmap_valid = none_in-IsValid;
  padding = none_in_padding;
}

second-IsValid : Regions.RegionIsValid second
second-IsValid = record {
  aligned = refl;
  whole = refl;
  below = omega arith;
  bitmap_valid = all_in-IsValid;
  padding = all_in_padding;
}

only_two : (d : ℕ) → one_table 0x200000 d % 2 ≡ 1 → (d ≡ 0) ⊎ (d ≡ 1023)
only_two d odd = ground arith

sample-IsValid : IsValid sample
sample-IsValid = record {
  paging = refl;
  cr3_aligned = refl;
  self_present = refl;
  self_writable = refl;
  self_frame = refl;
  word_range = λ f i. ground arith;
  regions_valid = (first-IsValid, (inl (omega arith), tt), (second-IsValid, tt, tt));
  open_tables = λ d less odd. ground (arith, only_two d odd);
  reserved = λ d less odd. elim (only_two d odd) [ inl e ↦ rw e refl | inr e ↦ rw e refl ];
  apart = λ d e p q odd_d odd_e same. ground (arith, only_two d odd_d, only_two e odd_e);
}

vmm_runs :
    (vmm_get_physical 0x5000 sample ≡ ok 0x300000)
    × (vmm_get_flags 0x5000 sample ≡ ok 7)
    × (vmm_get_physical 0x6000 sample ≡ ok 0)
    × (vmm_map 0x5000 0x310000 3 sample ≡ fail aborted)
    × (vmm_unmap 0x6000 sample ≡ fail assertion_failed)
    × (vmm_map 0x5001 0x310000 3 sample ≡ fail assertion_failed)
unfolding vmm_get_physical vmm_get_flags vmm_map vmm_unmap va_info_ex mapped_entry read_word
    translate map_in_table
vmm_runs = (refl, refl, refl, refl, refl, refl)

-- A page of the second table: a frame is taken for it, and the page can be looked up.
new_table_runs : (vmm_map 0x400000 0x310000 3 sample >>= vmm_get_physical 0x400000) ≡ ok 0x310000
unfolding vmm_get_physical vmm_get_flags vmm_map vmm_unmap va_info_ex mapped_entry read_word
    translate translate_write map_in_table map_new_table write_word clear_page put_word alloc
    Bitset.find Bitset.find_word Bitset.find_bit Bitset.test Bitset.insert
new_table_runs = refl

page_calls-MappedTo_example :
    (lookup sample 0x5000 ≡ none
      → (vmm_unmap 0x5000 sample ≡ fail assertion_failed)
        × (vmm_remap 0x5000 3 sample ≡ fail assertion_failed)
        × (vmm_get_physical 0x5000 sample ≡ ok 0)
        × (vmm_get_flags 0x5000 sample ≡ ok 0))
    × ((frame bits : ℕ)
        → lookup sample 0x5000 ≡ some (frame, bits)
        → MappedTo sample 0x5000 none (vmm_unmap 0x5000 sample)
          × MappedTo sample 0x5000 (some (frame, 3)) (vmm_remap 0x5000 3 sample)
          × (vmm_get_physical 0x5000 sample ≡ ok frame)
          × (vmm_get_flags 0x5000 sample ≡ ok bits))
page_calls-MappedTo_example =
    page_calls-MappedTo sample 0x5000 3 sample-IsValid refl (omega arith) (omega arith) refl

vmm_map-Maps_example : Maps sample 0x400000 0x310000 3 (vmm_map 0x400000 0x310000 3 sample)
vmm_map-Maps_example =
    vmm_map-Maps sample 0x400000 0x310000 3 sample-IsValid refl (omega arith) refl (omega arith)
      (omega arith) refl
