-- ===== src/Pmm/Tests.antt =====
-- Runs of kernel/pmm.c on two small regions, and its theorems at them.
use rastapopoulos.Bitset
use rastapopoulos.Base.{
  List, [], aborted, arith, assertion_failed, fail, false, inl, ok, refl, true, ◌-◌, ◌<◌, ◌^◌, ◌∷◌,
  ◌≡◌,
}
use rastapopoulos.Bitset.{Bitset}
use rastapopoulos.Bitset.Init.{words_for}
use rastapopoulos.Bitset.Samples.{
  all_in, all_in-IsValid, all_in_full, all_in_padding, none_in, none_in-IsValid, none_in_padding,
}
use rastapopoulos.Pmm.{
  Region, add_region, alloc, exists, free, free_in, invalid_frame, reserve, reserve_in, reserved,
}
use rastapopoulos.Pmm.AddRegion.{Fits, Made, add_region_lem, first_page, pages_in}
use rastapopoulos.Pmm.Alloc.{Allocates, alloc-Allocates, alloc_trapped}
use rastapopoulos.Pmm.Change.{Flips, page_calls_lem}
use rastapopoulos.Pmm.Invariant.{IsValid, RegionIsValid}

-- 40 free pages from 1 MB on
abbrev free_region : Region
free_region = record { addr = 0x100000; len = 0x28000; bitmap = none_in }

-- 40 reserved pages from 2 MB on
abbrev full_region : Region
full_region = record { addr = 0x200000; len = 0x28000; bitmap = all_in }

abbrev regions : List Region
regions = free_region ∷ full_region ∷ []

free_region-IsValid : RegionIsValid free_region
free_region-IsValid = record {
  aligned = refl;
  whole = refl;
  below = omega arith;
  bitmap_valid = none_in-IsValid;
  padding = none_in_padding;
}

full_region-IsValid : RegionIsValid full_region
full_region-IsValid = record {
  aligned = refl;
  whole = refl;
  below = omega arith;
  bitmap_valid = all_in-IsValid;
  padding = all_in_padding;
}

regions-IsValid : IsValid regions
regions-IsValid = (free_region-IsValid, (inl (omega arith), tt), (full_region-IsValid, tt, tt))

abbrev first_taken : List Region
first_taken =
    record free_region { bitmap = record none_in { words = 1 ∷ 0 ∷ [] } } ∷ full_region ∷ []

-- With the full region in front the search for a free page stops at an assertion.
alloc_runs :
    (alloc regions ≡ ok (0x100000, first_taken))
    × (alloc (full_region ∷ free_region ∷ []) ≡ fail assertion_failed)
    × (alloc [] ≡ ok (invalid_frame, []))
unfolding alloc Bitset.find Bitset.find_word Bitset.find_bit Bitset.test Bitset.insert
alloc_runs = (refl, refl, refl)

reserve_runs :
    (reserve regions 0x100000 ≡ ok first_taken)
    × (reserve regions 0x200000 ≡ fail aborted)
    × (reserve regions 0x300000 ≡ fail aborted)
    × (reserve regions 0x100001 ≡ fail assertion_failed)
    × (free first_taken 0x100000 ≡ ok regions)
unfolding reserve reserve_in free free_in Bitset.test Bitset.insert Bitset.clear
reserve_runs = (refl, refl, refl, refl, refl)

alloc-Allocates_example : Allocates regions (alloc regions)
alloc-Allocates_example = alloc-Allocates regions regions-IsValid

alloc_trapped_example : alloc (full_region ∷ free_region ∷ []) ≡ fail assertion_failed
alloc_trapped_example =
    alloc_trapped full_region (free_region ∷ []) full_region-IsValid (all_in_full, λ e. omega arith)

-- 0x9FC01 to 0xA4000: four pages from 0xA0000 on
add_region_lem_example :
    (Fits 0x9FC01 0x43FF
      → 1 ≡ words_for (pages_in 0x9FC01 0x43FF)
      → Made 0x9FC01 0x43FF [] (add_region (5 ∷ []) 0x9FC01 0x43FF []))
    × (0xA4000 < first_page 0x9FC01
        → first_page 0x9FC01 < 2 ^ 32
        → 1 ≡ words_for (2 ^ 20 - 1)
        → (r : Region) × (add_region (5 ∷ []) 0x9FC01 0x43FF [] ≡ ok (r ∷ []))
          × (r.len ≡ 2 ^ 32 - 4096))
add_region_lem_example = add_region_lem (5 ∷ []) 0x9FC01 0x43FF []

page_calls_lem_example :
    Flips regions 0x101000 false (reserve regions 0x101000)
    × Flips regions 0x101000 true (free regions 0x101000)
    × (exists regions 0x101000 ≡ ok true)
    × (reserved regions 0x101000 ≡ ok false)
page_calls_lem_example = page_calls_lem regions 0x101000 regions-IsValid refl
