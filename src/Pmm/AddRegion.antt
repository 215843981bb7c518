-- ===== src/Pmm/AddRegion.antt =====
-- `add_region` and `pmm_init`: when the regions of the memory map are usable.
use rastapopoulos.Bitset
use rastapopoulos.Base.{
  List, Outcome, arith, leb, length, ok, refl, true, ℕ, ◌*◌, ◌+◌, ◌-◌, ◌/◌, ◌<◌, ◌^◌, ◌∷◌, ◌≡◌, ◌≤◌,
}
use rastapopoulos.Base.Words.{align, align_page, sub32, truncate}
use rastapopoulos.Bitset.{Bitset}
use rastapopoulos.Bitset.Init.{alloc_size_lem, init_lem, words_for}
use rastapopoulos.Bitset.Invariant.{bit_at}
use rastapopoulos.Pmm.{Region, add_region, page_size}
use rastapopoulos.Pmm.Invariant.{RegionIsValid}

-- The range from the first page boundary on, in whole pages.
abbrev pub first_page : ℕ → ℕ
first_page addr = (addr + 4095) / 4096 * 4096

-- The range reaches its first page boundary and ends below 4 GB.
abbrev pub Fits : ℕ → ℕ → Type 0
Fits addr len = (first_page addr ≤ addr + len) × (addr + len < 2 ^ 32)

-- the number of whole pages in the range
abbrev pub pages_in : ℕ → ℕ → ℕ
pages_in addr len = (addr + len - first_page addr) / page_size

start_lem : (addr : ℕ) → first_page addr < 2 ^ 32 → align addr page_size ≡ first_page addr
start_lem addr h = omega (arith, align_page addr)

-- With the start and the length worked out, the region of `pages` pages is made.
add_region_made :
    (storage : List ℕ) (addr len pages : ℕ) (rs : List Region) {b : Bitset}
    → first_page addr < 2 ^ 32
    → pages < 2 ^ 20
    → truncate (sub32 len (sub32 (first_page addr) addr)) page_size ≡ pages * page_size
    → Bitset.init storage pages ≡ ok b
    → add_region storage addr len rs
      ≡ ok (record { addr = first_page addr; len = pages * page_size; bitmap = b } ∷ rs)
unfolding add_region
add_region_made storage addr len pages rs start few e made =
    rw (start_lem addr start, e, pages_back, alloc_size_lem pages (omega arith), size_fits, made)
      (ground arith)
  where
    pages_back : pages * page_size / page_size ≡ pages
    pages_back = omega arith

    size_fits : leb pages (2 ^ 32 - 32) ≡ true
    size_fits = ground arith

pub record Made (addr len : ℕ) (rs : List Region) (result : Outcome (List Region)) : Type 0 where
  region : Region
  returns : result ≡ ok (region ∷ rs)
  valid : RegionIsValid region
  starts : region.addr ≡ first_page addr
  has_pages : region.len ≡ pages_in addr len * page_size
  all_free : (j : ℕ) → bit_at region.bitmap j ≡ 0

add_region-Made :
    (storage : List ℕ) (addr len : ℕ) (rs : List Region)
    → Fits addr len
    → length storage ≡ words_for (pages_in addr len)
    → Made addr len rs (add_region storage addr len rs)
add_region-Made storage addr len rs fits e =
    let (b, made, sized, valid, all_clear) = init_lem storage (pages_in addr len) (omega arith) e in
    record {
      region = record { addr = first_page addr; len = pages_in addr len * page_size; bitmap = b };
      returns =
          add_region_made storage addr len (pages_in addr len) rs (omega arith) (omega arith)
            (omega arith) made;
      valid = record {
        aligned = omega arith;
        whole = omega (arith, sized);
        below = omega arith;
        bitmap_valid = valid;
        padding = λ j p. all_clear j;
      };
      starts = refl;
      has_pages = refl;
      all_free = all_clear;
    }

add_region_wraps :
    (storage : List ℕ) (addr len : ℕ) (rs : List Region)
    → addr + len < first_page addr
    → first_page addr < 2 ^ 32
    → length storage ≡ words_for (2 ^ 20 - 1)
    → (r : Region) × (add_region storage addr len rs ≡ ok (r ∷ rs)) × (r.len ≡ 2 ^ 32 - 4096)
add_region_wraps storage addr len rs short fits e =
    let (b, made, sized, valid, all_clear) = init_lem storage (2 ^ 20 - 1) (omega arith) e in
    (
      record { addr = first_page addr; len = (2 ^ 20 - 1) * page_size; bitmap = b },
      add_region_made storage addr len (2 ^ 20 - 1) rs fits (omega arith) (omega arith) made,
      refl,
    )

-- `add_region` over a bitmap block of the size that it asked for. For a range that fits it puts a
-- valid region with the whole pages of the range, all free, in front. For one that ends before its
-- first page boundary `len` wraps below zero: the region is 4096 bytes short of 4 GB long.
pub add_region_lem :
    (storage : List ℕ) (addr len : ℕ) (rs : List Region)
    → (Fits addr len
        → length storage ≡ words_for (pages_in addr len)
        → Made addr len rs (add_region storage addr len rs))
      × (addr + len < first_page addr
          → first_page addr < 2 ^ 32
          → length storage ≡ words_for (2 ^ 20 - 1)
          → (r : Region) × (add_region storage addr len rs ≡ ok (r ∷ rs)) × (r.len ≡ 2 ^ 32 - 4096))
add_region_lem storage addr len rs =
    (add_region-Made storage addr len rs, add_region_wraps storage addr len rs)
