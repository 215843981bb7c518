-- ===== src/Heap/Ends.antt =====
-- The loops of the heap end: the rounds that they are given are enough.
use rastapopoulos.Base.{
  Bool, List, Option, [], arith, false, if◌then◌else◌, leb, ltb, none, ok, some, suc, zero, ℕ, ◌&&◌,
  ◌*◌, ◌++◌, ◌+◌, ◌<◌, ◌>>=◌, ◌^◌, ◌∷◌, ◌≡◌, ◌≤◌,
}
use rastapopoulos.Base.Ends.{Ends, Ends-bind, Ends-if, Ends-ok, ends_rules}
use rastapopoulos.Base.Words.{align, align_eight, sub32, u32}
use rastapopoulos.Heap.{
  Block, Heap, block_header, heap_is_free, merge_blocks, set_allocated, set_free,
}
use rastapopoulos.Heap.Allocate.{
  back_page, cut_rest, end_of_heap, extend, fit, fit_at_start, fit_behind, grow_pages, heap_grow,
  pages_between, push_data, walk, walked_past,
}
use rastapopoulos.Pmm.{page_size}
use rastapopoulos.Vmm.{Memory}
use rastapopoulos.Vmm.Ends.{alloc-Ends, reserve-Ends, vmm_map-Ends}

merge_blocks-Ends : (dest source : Block) → Ends (merge_blocks dest source)
unfolding merge_blocks
merge_blocks-Ends dest source = search (ends_rules)

heap_is_free-Ends : (b : Block) → Ends (heap_is_free b)
unfolding heap_is_free
heap_is_free-Ends b = search (ends_rules)

set_free-Ends : (b : Block) → Ends (set_free b)
unfolding set_free
set_free-Ends b = search (ends_rules)

set_allocated-Ends : (b : Block) → Ends (set_allocated b)
unfolding set_allocated
set_allocated-Ends b = search (ends_rules)

extend-Ends : (blocks : List Block) (n : ℕ) → Ends (extend blocks n)
unfolding extend
extend-Ends [] n = search (ends_rules)
extend-Ends (last ∷ []) n = search (ends_rules, heap_is_free-Ends, merge_blocks-Ends) depth 12
extend-Ends (h ∷ next ∷ blocks) n = search (ends_rules, extend-Ends (next ∷ blocks))

end_of_heap-Ends : (blocks : List Block) → Ends (end_of_heap blocks)
unfolding end_of_heap
end_of_heap-Ends [] = search (ends_rules)
end_of_heap-Ends (last ∷ []) = search (ends_rules)
end_of_heap-Ends (h ∷ next ∷ blocks) = search (ends_rules, end_of_heap-Ends (next ∷ blocks))

back_page-Ends : (page : ℕ) (m : Memory) → Ends (back_page page m)
unfolding back_page
back_page-Ends page m = search (ends_rules, alloc-Ends, reserve-Ends, vmm_map-Ends) depth 12

pages_between-Ends : (end size : ℕ) → Ends (pages_between end size)
unfolding pages_between
pages_between-Ends end size = search (ends_rules)

fit_at_start-Ends : (h : Block) (size : ℕ) → Ends (fit_at_start h size)
unfolding fit_at_start
fit_at_start-Ends h size = search (ends_rules, set_allocated-Ends) depth 12

cut_rest-Ends : (h h2 : Block) (size total_size : ℕ) → Ends (cut_rest h h2 size total_size)
unfolding cut_rest
cut_rest-Ends h h2 size total_size = search (ends_rules, set_allocated-Ends, set_free-Ends) depth 12

fit_behind-Ends : (h : Block) (size header1 : ℕ) → Ends (fit_behind h size header1)
unfolding fit_behind
fit_behind-Ends h size header1 = search (ends_rules, set_free-Ends, cut_rest-Ends) depth 12

push_data-Ends :
    (rounds header0 data1 : ℕ)
    → Ends (push_data rounds header0 8 (u32 (data1 + 8)))
    → Ends (push_data (suc rounds) header0 8 data1)
unfolding push_data
push_data-Ends rounds header0 data1 next = Ends-if _ next (Ends-ok data1)

pushed_far :
    (rounds header0 data1 : ℕ)
    → 32 ≤ sub32 data1 header0
    → Ends (push_data (suc rounds) header0 8 data1)
unfolding push_data
pushed_far rounds header0 data1 far =
    let test : ltb (sub32 data1 header0) (block_header * 2) ≡ false = ground arith in
    rw test (Ends-ok data1)

-- The data of a block are 16 to 23 bytes behind its header first.
pushed_to_end :
    (header0 data1 : ℕ)
    → header0 < 2 ^ 32
    → data1 < 2 ^ 32
    → 16 ≤ sub32 data1 header0
    → sub32 data1 header0 < 24
    → Ends (push_data 32 header0 8 data1)
pushed_to_end header0 data1 h d low high = push_data-Ends 31 header0 data1 (
    push_data-Ends 30 header0 (u32 (data1 + 8))
      (pushed_far 29 header0 (u32 (u32 (data1 + 8) + 8)) (omega arith)))

fit-Ends : (h : Block) (size : ℕ) → h.address < 2 ^ 32 → Ends (fit h size 8)
unfolding fit
fit-Ends h size small =
    let near = align_eight (u32 (h.address + block_header)) in
    let pushed =
      pushed_to_end h.address (align (u32 (h.address + block_header)) 8) small (omega (arith, near))
        (omega (arith, near)) (omega (arith, near)) in
    search (ends_rules, pushed, fit_at_start-Ends, fit_behind-Ends) depth 12

-- Addresses are of 32 bits.
abbrev pub AllSmall : List Block → Type 0
AllSmall [] = Unit
AllSmall (h ∷ blocks) = (h.address < 2 ^ 32) × AllSmall blocks

pub walk-Ends : (blocks : List Block) (size : ℕ) → AllSmall blocks → Ends (walk blocks size 8)
unfolding walk
walk-Ends [] size small = search (ends_rules)
walk-Ends (h ∷ blocks) size (here, small) =
    let rest = walk-Ends blocks size small in
    let fits = fit-Ends h size here in
    let test : (h_free : Bool)
        → Ends (if h_free && leb size (sub32 h.size block_header) then fit h size 8 else ok none) =
      λ h_free. Ends-if (h_free && leb size (sub32 h.size block_header)) fits (Ends-ok none) in
    Ends-bind (heap_is_free h) _ (heap_is_free-Ends h)
      λ h_free. Ends-bind _ _ (test h_free) λ found. passed rest found
  where
    passed :
        Ends (walk blocks size 8)
        → (found : Option (List Block × Block))
        → Ends (elim found [
          | some (parts, given) ↦ ok (some (parts ++ blocks, given))
          | none ↦ walk blocks size 8 >>= λ later. ok (walked_past h later)
        ])
    passed rest none = Ends-bind (walk blocks size 8) _ rest λ later. Ends-ok _
    passed rest (some (parts, given)) = Ends-ok _

grow_pages-Ends :
    (left page size max_size : ℕ) (m : Memory) → Ends (grow_pages left page size max_size m)
unfolding grow_pages
grow_pages-Ends zero page size max_size m = search (ends_rules)
grow_pages-Ends (suc left) page size max_size m = Ends-if (leb max_size size) (Ends-ok (0, m)) (
    Ends-bind (back_page page m) _ (back_page-Ends page m)
      (backed-Ends (grow_pages-Ends left (page + page_size) (u32 (size + page_size)) max_size)))
  where
    backed-Ends :
        ((m' : Memory)
          → Ends (grow_pages left (page + page_size) (u32 (size + page_size)) max_size m'))
        → (backed : Option Memory)
        → Ends {A = ℕ × Memory} (elim backed [
          | none ↦ ok (0, m)
          | some m' ↦
              grow_pages left (page + page_size) (u32 (size + page_size)) max_size m'
              >>= λ (allocated_bytes, last). ok (page_size + allocated_bytes, last)
        ])
    backed-Ends rest none = Ends-ok (0, m)
    backed-Ends rest (some m') =
        Ends-bind (grow_pages left (page + page_size) (u32 (size + page_size)) max_size m') _
          (rest m') λ more. Ends-ok _

pub heap_grow-Ends : (s : Heap) (bytes : ℕ) (m : Memory) → Ends (heap_grow s bytes m)
unfolding heap_grow
heap_grow-Ends s bytes m =
    search (ends_rules, end_of_heap-Ends, pages_between-Ends, grow_pages-Ends, extend-Ends) depth 12
