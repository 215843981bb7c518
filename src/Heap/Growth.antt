-- ===== src/Heap/Growth.antt =====
-- What `heap_grow` makes of a heap.
-- A heap that has grown.
use rastapopoulos.Base.{
  List, Option, [], arith, assert, assertion_failed, inl, inr, leb, ltb, none, ok, refl, some, suc,
  zero, ℕ, ◌+◌, ◌<◌, ◌==◌, ◌>>=◌, ◌^◌, ◌∷◌, ◌≡◌, ◌≢◌, ◌≤◌, ◌⊎◌,
}
use rastapopoulos.Base.Ends.{Post, Post-after, Post-bind, Post-if, post_fail, post_ok}
use rastapopoulos.Base.Words.{align, is_aligned, u32}
use rastapopoulos.Heap.{Block, Heap, create_block, heap_is_free, is_valid_block, merge_blocks}
use rastapopoulos.Heap.Allocate.{
  back_page, end_of_heap, extend, grow_pages, heap_grow, pages_between,
}
use rastapopoulos.Heap.Ends.{AllSmall}
use rastapopoulos.Pmm.{page_size}
use rastapopoulos.Vmm.{Memory}

pub record Larger (s s' : Heap) : Type 0 where
  pub was_less : s.heap_size < s.max_size
  pub same_max : s'.max_size ≡ s.max_size
  pub larger : s.heap_size + page_size ≤ s'.heap_size
  pub still_small : AllSmall s'.blocks

abbrev Grown : ℕ → ℕ → ℕ × Memory → Type 0
Grown size max_size (bytes, m) =
    (bytes ≡ 0) ⊎ ((page_size ≤ bytes) × (size + bytes < max_size + page_size))

grow_pages-Grown :
    (left page size max_size : ℕ) (m : Memory)
    → max_size + page_size ≤ 2 ^ 32
    → Post (Grown size max_size) (grow_pages left page size max_size m)
unfolding grow_pages
grow_pages-Grown zero page size max_size m fits = post_ok (0, m) (inl refl)
grow_pages-Grown (suc left) page size max_size m fits =
    Post-if (leb max_size size) (λ full. post_ok (0, m) (inl refl))
      λ more. Post-after (back_page page m) _ (
        backed-Grown (ground arith)
          (grow_pages-Grown left (page + page_size) (u32 (size + page_size)) max_size))
  where
    farther :
        size < max_size
        → (more : ℕ × Memory) → Grown (u32 (size + page_size)) max_size more
        → size + (page_size + more.0) < max_size + page_size
    farther less (bytes, m') (inl none_more) = omega arith
    farther less (bytes, m') (inr (some_more, below)) = omega arith

    backed-Grown :
        size < max_size
        → ((m' : Memory)
            → max_size + page_size ≤ 2 ^ 32
            → Post
                (Grown (u32 (size + page_size)) max_size)
                (grow_pages left (page + page_size) (u32 (size + page_size)) max_size m'))
        → (backed : Option Memory)
        → Post (Grown size max_size) (elim backed [
          | none ↦ ok (0, m)
          | some m' ↦
              grow_pages left (page + page_size) (u32 (size + page_size)) max_size m'
              >>= λ (allocated_bytes, last). ok (page_size + allocated_bytes, last)
        ])
    backed-Grown less rest none = post_ok (0, m) (inl refl)
    backed-Grown less rest (some m') =
        Post-bind (grow_pages left (page + page_size) (u32 (size + page_size)) max_size m') _
          (rest m' fits)
          λ more grown.
            post_ok (page_size + more.0, more.1) (inr (omega arith, farther less more grown))

merged_address :
    (dest source : Block)
    → Post (λ (joined : Block). joined.address ≡ dest.address) (merge_blocks dest source)
unfolding merge_blocks
merged_address dest source =
    Post-after (assert (ltb dest.address source.address)) _
      λ u. Post-after (assert (dest.magic == source.magic)) _ λ v. post_ok _ refl

extend-AllSmall : (blocks : List Block) (n : ℕ) → AllSmall blocks → Post AllSmall (extend blocks n)
unfolding extend create_block
extend-AllSmall [] n small = post_fail assertion_failed
extend-AllSmall (last ∷ []) n (here, small) =
    let new_header = create_block (u32 (last.address + last.size)) n in
    Post-after (heap_is_free last) _ λ last_free.
      Post-if last_free
        (λ e.
          Post-bind (merge_blocks last new_header) _ (merged_address last new_header)
            λ joined same. post_ok (joined ∷ []) (omega (arith, same), tt))
        (λ e. post_ok (last ∷ new_header ∷ []) (here, (omega arith, tt)))
extend-AllSmall (h ∷ next ∷ blocks) n (here, small) = Post-after (assert (is_valid_block h)) _ λ u.
    Post-bind (extend (next ∷ blocks) n) _ (extend-AllSmall (next ∷ blocks) n small)
      λ grown all. post_ok (h ∷ grown) (here, all)

abbrev pub IsLarger : Heap → Option Heap × Memory → Type 0
IsLarger s (none, m) = Unit
IsLarger s (some s', m) = Larger s s'

grown_Larger :
    (s : Heap) (n : ℕ) (blocks : List Block)
    → s.max_size + page_size ≤ 2 ^ 32
    → n ≢ 0
    → (n ≡ 0) ⊎ ((page_size ≤ n) × (s.heap_size + n < s.max_size + page_size))
    → AllSmall blocks
    → Larger s (record s { blocks = blocks; heap_size = u32 (s.heap_size + n) })
grown_Larger s n blocks fits some_bytes (inl none_there) all = absurd (some_bytes none_there)
grown_Larger s n blocks fits some_bytes (inr (least, most)) all = record {
  was_less = omega arith;
  same_max = refl;
  larger = omega arith;
  still_small = all;
}

pub heap_grow-Larger :
    (s : Heap) (bytes : ℕ) (m : Memory)
    → AllSmall s.blocks
    → s.max_size + page_size ≤ 2 ^ 32
    → Post (IsLarger s) (heap_grow s bytes m)
unfolding heap_grow
heap_grow-Larger s bytes m small fits = Post-after (end_of_heap s.blocks) _ λ page.
    Post-after (assert (is_aligned page page_size)) _ λ u.
      Post-after (pages_between page (align bytes page_size)) _ λ rounds.
        Post-bind (grow_pages rounds page s.heap_size s.max_size m) _
          (grow_pages-Grown rounds page s.heap_size s.max_size m fits)
          λ (allocated_bytes, m') grown.
            Post-if (allocated_bytes == 0) (λ e. post_ok (none, m') tt)
              λ e.
                Post-bind (extend s.blocks allocated_bytes) _
                  (extend-AllSmall s.blocks allocated_bytes small)
                  λ blocks all.
                    post_ok _ (grown_Larger s allocated_bytes blocks fits (ground arith) grown all)
