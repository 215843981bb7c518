-- ===== src/Pmm/Alloc.antt =====
-- `pmm_alloc` against the map of page frames.
use mathlib.Core.Path.{subst}
use rastapopoulos.Base.{
  Bool, Bool-cases, List, Outcome, [], arith, assertion_failed, fail, false, inl, inr, ok, refl,
  some, true, ℕ, ◌%◌, ◌*◌, ◌+◌, ◌<◌, ◌>>=◌, ◌∙◌, ◌∷◌, ◌≡◌, ◌≢◌, ◌≤◌, ◌⊎◌,
}
use rastapopoulos.Base.Words.{u32}
use rastapopoulos.Bitset.{Bitset, bit_per_element, find, insert, invalid_index}
use rastapopoulos.Bitset.Find.{
  Finds, IsFirst, NoneHas, find-Finds, find_clear_full, first, missing, stray,
}
use rastapopoulos.Bitset.Invariant.{Updated, bit_at, insert-Updated}
use rastapopoulos.Pmm.{Region, alloc, in_region, index_of, invalid_frame, page_size}
use rastapopoulos.Pmm.Invariant.{
  AllApart, Changed, Changed-head, Changed-tail, IsValid, RegionIsValid, index_in_size,
}
use rastapopoulos.Pmm.Spec.{status}

-- A region without a free page whose number of pages is no multiple of 32: the search for a free
-- page in it fails an assertion of `bitset_find`.
abbrev pub IsTrap : Region → Type 0
IsTrap r = ((j : ℕ) → j < r.bitmap.size → bit_at r.bitmap j ≡ 1) × (r.bitmap.size % 32 ≢ 0)

abbrev pub HasTrap : List Region → Type 0
HasTrap [] = ⊥
HasTrap (r ∷ rs) = IsTrap r ⊎ HasTrap rs

-- The ends of `pmm_alloc`: a page that was free is now reserved; nothing is free; or the search
-- stopped the machine.
pub data Allocates (rs : List Region) (result : Outcome (ℕ × List Region)) : Type 0 where
  allocated :
      (page : ℕ) (after : List Region)
      → result ≡ ok (page, after)
      → page % page_size ≡ 0
      → status rs page ≡ some false
      → Changed rs page true after
      → Allocates rs result
  exhausted :
      result ≡ ok (invalid_frame, rs)
      → ((page : ℕ) → page % page_size ≡ 0 → status rs page ≢ some false)
      → Allocates rs result
  stopped : result ≡ fail assertion_failed → HasTrap rs → Allocates rs result

-- A page of some region lies in none that is apart from all of them.
outside_apart :
    (r : Region) (rs : List Region) (page : ℕ) {taken : Bool}
    → AllApart r rs
    → RegionIsValid r
    → IsValid rs
    → status rs page ≡ some taken
    → in_region r page ≡ false
outside_apart r [] page a v w e = cc
outside_apart r (s ∷ rs) page a v w e = elim (Bool-cases (in_region s page)) [
  | inl inside ↦ ground (arith, a.0, v.below, w.0.below)
  | inr out ↦ outside_apart r rs page a.1 v w.2 (rw out at e)
]

Allocates-tail :
    (r : Region) (rs : List Region) {result : Outcome (ℕ × List Region)}
    → IsValid (r ∷ rs)
    → ((page : ℕ)
        → page % page_size ≡ 0
        → in_region r page ≡ true
        → status (r ∷ rs) page ≢ some false)
    → Allocates rs result
    → Allocates (r ∷ rs) (result >>= λ (frame, rs'). ok (frame, r ∷ rs'))
Allocates-tail r rs v full (allocated page after e a s c) =
    let out : in_region r page ≡ false = outside_apart r rs page v.1 v.0 v.2 s in
    allocated page (r ∷ after) (rw e) a (rw out s) (Changed-tail r page true v out c)
Allocates-tail r rs v full (exhausted e none_free) = exhausted (rw e) λ page a.
    elim (Bool-cases (in_region r page)) [
      | inl inside ↦ full page a inside
      | inr out ↦ rw out (none_free page a)
    ]
Allocates-tail r rs v full (stopped e trap) = stopped (rw e) (inr trap)

-- The frame of the bit that `bitset_find` chose.
module _ (r : Region) (v : RegionIsValid r) (j : ℕ) (lt : j < r.bitmap.size) where
  abbrev frame_at : ℕ
  frame_at = r.addr + j * page_size

  frame_facts : (u32 frame_at ≡ frame_at) × (frame_at % page_size ≡ 0) × (index_of r frame_at ≡ j)
  frame_facts = omega (arith, v.below, v.whole, v.aligned)

  frame_inside : in_region r frame_at ≡ true
  frame_inside = ground (arith, v.below, v.whole)

alloc_found :
    (r : Region) (rs : List Region) (j : ℕ) {b : Bitset}
    → find r.bitmap 0 ≡ ok j
    → j ≢ invalid_index
    → insert r.bitmap j ≡ ok b
    → alloc (r ∷ rs) ≡ ok (u32 (r.addr + j * page_size), record r { bitmap = b } ∷ rs)
unfolding alloc
alloc_found r rs j e ne i = rw (e, i) (ground arith)

alloc_passed :
    (r : Region) (rs : List Region)
    → find r.bitmap 0 ≡ ok invalid_index
    → alloc (r ∷ rs) ≡ (alloc rs >>= λ (frame, rs'). ok (frame, r ∷ rs'))
unfolding alloc
alloc_passed r rs e = rw e refl

alloc_stopped :
    (r : Region) (rs : List Region)
    → find r.bitmap 0 ≡ fail assertion_failed
    → alloc (r ∷ rs) ≡ fail assertion_failed
unfolding alloc
alloc_stopped r rs e = rw e refl

Allocates-here :
    (r : Region) (rs : List Region) (j : ℕ)
    → IsValid (r ∷ rs)
    → find r.bitmap 0 ≡ ok j
    → IsFirst r.bitmap 0 j
    → Allocates (r ∷ rs) (alloc (r ∷ rs))
Allocates-here r rs j v e f =
    allocated page (record r { bitmap = u.after } ∷ rs)
      (alloc_found r rs j e (omega (arith, f.in_size, v.0.bitmap_valid.small))
          (subst (λ k. insert r.bitmap k ≡ ok u.after) facts.2 u.returns)
        ∙ rw facts.0)
      facts.1 (rw inside (ground (arith, facts, f.hit)))
      (Changed-head r rs page true v facts.1 inside u)
  where
    page : ℕ
    page = frame_at r v.0 j f.in_size

    facts : (u32 page ≡ page) × (page % page_size ≡ 0) × (index_of r page ≡ j)
    facts = frame_facts r v.0 j f.in_size

    inside : in_region r page ≡ true
    inside = frame_inside r v.0 j f.in_size

    u : Updated r.bitmap (index_of r page) 1 (insert r.bitmap (index_of r page))
    u = insert-Updated (index_of r page) v.0.bitmap_valid (index_in_size r page v.0 facts.1 inside)

stray-IsTrap :
    (r : Region)
    → RegionIsValid r
    → NoneHas r.bitmap 0
    → ¬ (
        (j : ℕ)
        → r.bitmap.size ≤ j
        → j < r.bitmap.element_count * bit_per_element
        → bit_at r.bitmap j + 0 ≡ 1)
    → IsTrap r
stray-IsTrap r v others p = (
  λ j lt. omega (arith, others j lt),
  λ e. p (λ j q t. absurd (omega (arith, v.bitmap_valid.enough, v.bitmap_valid.tight))),
)

Allocates-step :
    (r : Region) (rs : List Region)
    → IsValid (r ∷ rs)
    → Finds r.bitmap false (find r.bitmap 0)
    → Allocates rs (alloc rs)
    → Allocates (r ∷ rs) (alloc (r ∷ rs))
Allocates-step r rs v (first j e f) later = Allocates-here r rs j v e f
Allocates-step r rs v (missing e others) later =
    rw (alloc_passed r rs e) (Allocates-tail r rs v full later)
  where
    full :
        (page : ℕ)
        → page % page_size ≡ 0
        → in_region r page ≡ true
        → status (r ∷ rs) page ≢ some false
    full page a inside = rw inside (
        ground (
          arith,
          others (index_of r page),
          index_in_size r page v.0 a inside,
          v.0.bitmap_valid.enough,
        ))
Allocates-step r rs v (stray e others p) later =
    stopped (alloc_stopped r rs e) (inl (stray-IsTrap r v.0 others p))

-- `pmm_alloc` on valid regions either reserves an aligned page that was free, changing no other
-- page; or returns INVALID_FRAME, when no page is free, and changes nothing; or stops at a failed
-- assertion, which needs a region that has no free page and a number of pages that is no multiple
-- of 32.
pub alloc-Allocates : (rs : List Region) → IsValid rs → Allocates rs (alloc rs)
alloc-Allocates [] v = exhausted (unfold alloc in refl) (λ page a e. cc e)
alloc-Allocates (r ∷ rs) v =
    Allocates-step r rs v (find-Finds r.bitmap 0 v.0.bitmap_valid) (alloc-Allocates rs v.2)

-- If the first region is valid, has no free page and has a number of pages that is no multiple
-- of 32, `pmm_alloc` stops the machine, whatever is free in the regions behind it.
pub alloc_trapped :
    (r : Region) (rs : List Region)
    → RegionIsValid r
    → IsTrap r
    → alloc (r ∷ rs) ≡ fail assertion_failed
alloc_trapped r rs v t =
    alloc_stopped r rs (find_clear_full r.bitmap v.bitmap_valid v.padding t.0 ∙ ground (arith, t.1))
