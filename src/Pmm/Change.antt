-- ===== src/Pmm/Change.antt =====
-- `pmm_reserve`, `pmm_free`, `pmm_reserved` and `pmm_exists` against the map of page frames.
use rastapopoulos.Bitset
use rastapopoulos.Bitset.Invariant as Bits
use mathlib.Core.Option.{get_or}
use rastapopoulos.Base.{
  Bool, Bool-cases, List, Option, Outcome, [], aborted, ap, arith, fail, false, if◌then◌else◌, inl,
  inr, none, not, ok, refl, some, true, ℕ, ◌%◌, ◌==◌, ◌>>=◌, ◌∷◌, ◌≡◌, ◌≢◌,
}
use rastapopoulos.Bitset.{Bitset, matching}
use rastapopoulos.Bitset.Invariant.{Updated, clear-Updated, insert-Updated, test_lem}
use rastapopoulos.Pmm.{
  Region, exists, exists_in, free, free_in, in_region, index_of, page_size, reserve, reserve_in,
  reserved, reserved_in,
}
use rastapopoulos.Pmm.Invariant.{
  Changed, Changed-head, Changed-tail, IsValid, RegionIsValid, flag, index_in_size,
}
use rastapopoulos.Pmm.Spec.{status}

-- A call that may change the flag of `page` from `old` to the other value: it does so if the page
-- has the flag `old`, and aborts if the page has the other flag or is not memory.
pub data Flips (rs : List Region) (page : ℕ) (old : Bool) (result : Outcome (List Region))
    : Type 0 where
  flipped :
      (after : List Region)
      → status rs page ≡ some old
      → result ≡ ok after
      → Changed rs page (not old) after
      → Flips rs page old result
  refused : status rs page ≢ some old → result ≡ fail aborted → Flips rs page old result

abbrev pub is_some : Option Bool → Bool
is_some none = false
is_some (some x) = true

matching_eq : (old t : Bool) → matching old t ≡ true → t ≡ old
matching_eq true t h = h
matching_eq false t h = ground arith

matching_ne : (old t : Bool) → matching old t ≡ false → some t ≢ some old
matching_ne true t h = λ e. ground arith
matching_ne false t h = λ e. ground arith

test_page :
    (r : Region) (page : ℕ)
    → RegionIsValid r
    → page % page_size ≡ 0
    → in_region r page ≡ true
    → Bitset.test r.bitmap (index_of r page) ≡ ok (Bits.bit_at r.bitmap (index_of r page) == 1)
test_page r page v a h = test_lem (index_of r page) v.bitmap_valid (index_in_size r page v a h)

Flips-tail :
    (r : Region) (rs : List Region) (page : ℕ) (old : Bool) {result : Outcome (List Region)}
    → IsValid (r ∷ rs)
    → in_region r page ≡ false
    → Flips rs page old result
    → Flips (r ∷ rs) page old (do rs' ← result; ok (r ∷ rs'))
Flips-tail r rs page old v h (flipped after e res c) =
    flipped (r ∷ after) (rw h e) (rw res) (Changed-tail r page (not old) v h c)
Flips-tail r rs page old v h (refused e res) = refused (rw h e) (rw res)

-- In the region of the page, the bit is tested and then changed.
Flips-head :
    (r : Region) (rs : List Region) (page : ℕ) (old : Bool) {changed : Outcome Bitset}
    {result : Outcome (List Region)}
    → IsValid (r ∷ rs)
    → page % page_size ≡ 0
    → in_region r page ≡ true
    → Updated r.bitmap (index_of r page) (flag (not old)) changed
    → result ≡ (
        if matching old (Bits.bit_at r.bitmap (index_of r page) == 1)
        then (do b ← changed; ok (record r { bitmap = b } ∷ rs))
        else fail aborted)
    → Flips (r ∷ rs) page old result
Flips-head r rs page old v a h u e =
    elim (Bool-cases (matching old (Bits.bit_at r.bitmap (index_of r page) == 1))) [
      | inl hit ↦
          flipped (record r { bitmap = u.after } ∷ rs) (rw h (ap some (matching_eq old _ hit)))
            (rw (e, hit, u.returns)) (Changed-head r rs page (not old) v a h u)
      | inr miss ↦ refused (rw h (matching_ne old _ miss)) (rw (e, miss))
    ]

reserve_in-Flips :
    (rs : List Region) (page : ℕ)
    → IsValid rs
    → page % page_size ≡ 0
    → Flips rs page false (reserve_in rs page)
unfolding reserve_in
reserve_in-Flips [] page v a = refused (λ e. cc e) refl
reserve_in-Flips (r ∷ rs) page v a = elim (Bool-cases (in_region r page)) [
  | inr out ↦ rw out (Flips-tail r rs page false v out (reserve_in-Flips rs page v.2 a))
  | inl inside ↦
      Flips-head r rs page false v a inside
        (insert-Updated (index_of r page) v.0.bitmap_valid (index_in_size r page v.0 a inside))
        (rw (inside, test_page r page v.0 a inside) (ground arith))
]

free_in-Flips :
    (rs : List Region) (page : ℕ)
    → IsValid rs
    → page % page_size ≡ 0
    → Flips rs page true (free_in rs page)
unfolding free_in
free_in-Flips [] page v a = refused (λ e. cc e) refl
free_in-Flips (r ∷ rs) page v a = elim (Bool-cases (in_region r page)) [
  | inr out ↦ rw out (Flips-tail r rs page true v out (free_in-Flips rs page v.2 a))
  | inl inside ↦
      Flips-head r rs page true v a inside
        (clear-Updated (index_of r page) v.0.bitmap_valid (index_in_size r page v.0 a inside))
        (rw (inside, test_page r page v.0 a inside) (ground arith))
]

-- `pmm_reserve` of an aligned page, over valid regions, reserves that page and no other if it is
-- free memory, and aborts if it is reserved already or no region holds it. The regions stay
-- valid.
pub reserve-Flips :
    (rs : List Region) (page : ℕ)
    → IsValid rs
    → page % page_size ≡ 0
    → Flips rs page false (reserve rs page)
unfolding reserve
reserve-Flips rs page v a = rw a (reserve_in-Flips rs page v a)

-- `pmm_free` of an aligned page, over valid regions, frees that page and no other if it is
-- reserved, and aborts if it is free already or no region holds it. The regions stay valid.
pub free-Flips :
    (rs : List Region) (page : ℕ)
    → IsValid rs
    → page % page_size ≡ 0
    → Flips rs page true (free rs page)
unfolding free
free-Flips rs page v a = rw a (free_in-Flips rs page v a)

reserved_in_lem :
    (rs : List Region) (page : ℕ)
    → IsValid rs
    → page % page_size ≡ 0
    → reserved_in rs page ≡ ok (get_or (status rs page) true)
unfolding reserved_in
reserved_in_lem [] page v a = refl
reserved_in_lem (r ∷ rs) page v a = elim (Bool-cases (in_region r page)) [
  | inr out ↦ rw out (reserved_in_lem rs page v.2 a)
  | inl inside ↦ rw inside (test_page r page v.0 a inside)
]

exists_in_lem : (rs : List Region) (page : ℕ) → exists_in rs page ≡ is_some (status rs page)
unfolding exists_in
exists_in_lem [] page = refl
exists_in_lem (r ∷ rs) page = ground (arith, exists_in_lem rs page)

-- For valid regions and an aligned page, `pmm_exists` tells whether it is memory, and
-- `pmm_reserved` whether it is reserved, a page that is not memory counting as reserved.
pub queries_lem :
    (rs : List Region) (page : ℕ)
    → IsValid rs
    → page % page_size ≡ 0
    → (exists rs page ≡ ok (is_some (status rs page)))
      × (reserved rs page ≡ ok (get_or (status rs page) true))
unfolding exists reserved
queries_lem rs page v a = (rw (a, exists_in_lem), rw a (reserved_in_lem rs page v a))

-- Over valid regions and for an aligned page: `pmm_reserve` reserves that page and no other if it is
-- free memory, `pmm_free` frees it if it is reserved memory, and each aborts otherwise; the regions
-- stay valid. `pmm_exists` tells whether the page is memory, and `pmm_reserved` whether it is
-- reserved, a page that is not memory counting as reserved.
pub page_calls_lem :
    (rs : List Region) (page : ℕ)
    → IsValid rs
    → page % page_size ≡ 0
    → Flips rs page false (reserve rs page)
      × Flips rs page true (free rs page)
      × (exists rs page ≡ ok (is_some (status rs page)))
      × (reserved rs page ≡ ok (get_or (status rs page) true))
page_calls_lem rs page v a =
    let (known, marked) = queries_lem rs page v a in
    (reserve-Flips rs page v a, free-Flips rs page v a, known, marked)
