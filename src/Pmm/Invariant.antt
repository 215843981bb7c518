-- ===== src/Pmm/Invariant.antt =====
-- The invariant of `memregions`, and what changing one page's bit does to it.
use rastapopoulos.Bitset.Invariant as Bits
use rastapopoulos.Base.{
  Bool, Bool-cases, List, Outcome, [], arith, false, inl, inr, refl, true, ℕ, ◌%◌, ◌*◌, ◌+◌, ◌<◌,
  ◌==◌, ◌^◌, ◌∷◌, ◌≡◌, ◌≤◌, ◌⊎◌,
}
use rastapopoulos.Bitset.{Bitset}
use rastapopoulos.Bitset.Find.{PaddingClear}
use rastapopoulos.Bitset.Invariant.{Updated}
use rastapopoulos.Pmm.{Region, in_region, index_of, page_size}
use rastapopoulos.Pmm.Spec.{status, update}

-- The region is a run of whole pages below 4 GB, with a bit for each.
pub record RegionIsValid (r : Region) : Type 0 where
  pub aligned : r.addr % page_size ≡ 0
  pub whole : r.len ≡ r.bitmap.size * page_size
  pub below : r.addr + r.len < 2 ^ 32
  pub bitmap_valid : Bits.IsValid r.bitmap
  pub padding : PaddingClear r.bitmap

abbrev pub Apart : Region → Region → Type 0
Apart r s = (r.addr + r.len ≤ s.addr) ⊎ (s.addr + s.len ≤ r.addr)

abbrev pub AllApart : Region → List Region → Type 0
AllApart r [] = Unit
AllApart r (s ∷ rs) = Apart r s × AllApart r rs

-- Every region is valid, and no two overlap.
abbrev pub IsValid : List Region → Type 0
IsValid [] = Unit
IsValid (r ∷ rs) = RegionIsValid r × AllApart r rs × IsValid rs

-- The frames of `after` are those of `before` with `page` set to `value`; the regions keep their
-- places.
pub record Changed (before : List Region) (page : ℕ) (value : Bool) (after : List Region)
    : Type 0 where
  pub valid : IsValid after
  pub frames : (q : ℕ) → q % page_size ≡ 0 → status after q ≡ update (status before) page value q
  pub apart : (r : Region) → AllApart r before → AllApart r after

abbrev pub flag : Bool → ℕ
flag true = 1
flag false = 0

pub index_in_size :
    (r : Region) (page : ℕ)
    → RegionIsValid r
    → page % page_size ≡ 0
    → in_region r page ≡ true
    → index_of r page < r.bitmap.size
index_in_size r page v a h = ground arith

-- With the bit of `page` changed in its bitmap, a region keeps its shape.
pub region-IsValid :
    (r : Region) (page : ℕ) (value : Bool) {result : Outcome Bitset}
    → RegionIsValid r
    → page % page_size ≡ 0
    → in_region r page ≡ true
    → (u : Updated r.bitmap (index_of r page) (flag value) result)
    → RegionIsValid (record r { bitmap = u.after })
region-IsValid r page value v a h u = record {
  aligned = v.aligned;
  whole = omega (arith, v.whole, u.same_size);
  below = v.below;
  bitmap_valid = u.valid;
  padding = λ j p. ground (arith, u.bits j, u.same_size, v.padding j, index_in_size r page v a h);
}

flag_is_one : (value : Bool) → (flag value == 1) ≡ value
flag_is_one true = refl
flag_is_one false = refl

same_index :
    (r : Region) (page q : ℕ)
    → RegionIsValid r
    → page % page_size ≡ 0
    → q % page_size ≡ 0
    → in_region r page ≡ true
    → in_region r q ≡ true
    → (index_of r q == index_of r page) ≡ (q == page)
same_index r page q v a b h k = ground arith

pub Changed-head :
    (r : Region) (rs : List Region) (page : ℕ) (value : Bool) {result : Outcome Bitset}
    → IsValid (r ∷ rs)
    → page % page_size ≡ 0
    → in_region r page ≡ true
    → (u : Updated r.bitmap (index_of r page) (flag value) result)
    → Changed (r ∷ rs) page value (record r { bitmap = u.after } ∷ rs)
Changed-head r rs page value v a h u = record {
  valid = (region-IsValid r page value v.0 a h u, v.1, v.2);
  frames = λ q b. frames_at q b;
  apart = λ s p. p;
}
  where
    frames_at :
        (q : ℕ)
        → q % page_size ≡ 0
        → status (record r { bitmap = u.after } ∷ rs) q ≡ update (status (r ∷ rs)) page value q
    frames_at q b = elim (Bool-cases (in_region r q)) [
      | inl k ↦
          ground (arith, u.bits (index_of r q), same_index r page q v.0 a b h k, flag_is_one value)
      | inr k ↦ ground arith
    ]

pub Changed-tail :
    (r : Region) {rs rs' : List Region} (page : ℕ) (value : Bool)
    → IsValid (r ∷ rs)
    → in_region r page ≡ false
    → Changed rs page value rs'
    → Changed (r ∷ rs) page value (r ∷ rs')
Changed-tail r page value v h c = record {
  valid = (v.0, c.apart r v.1, c.valid);
  frames = λ q b. ground (arith, c.frames q b);
  apart = λ s p. (p.0, c.apart s p.1);
}
