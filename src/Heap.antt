-- ===== src/Heap.antt =====
-- kernel/heap.c: the blocks of the heap, in the order of their `next` pointers.
-- A header is a record with its address; the words behind the data, where canaries stand, are a
-- function of the address. Callers may write anything into the data of a block, so a canary that is
-- read is whatever that function holds. A header and the words behind the data lie apart, except in a
-- block that is too short for both a header and a canary: writing its canary has no result, since the
-- code then overwrites the `size` and `next` of its own header.
pub mod Chain
pub mod Release
pub mod Allocate
pub mod Fitting
pub mod Walk
pub mod Kmalloc
pub mod RoundTrip
pub mod Ends
pub mod Growth
pub mod AllocEnds
mod Tests
use rastapopoulos.Base.{
  Bool, List, Outcome, [], aborted, assert, assertion_failed, fail, if◌then◌else◌, ltb, ok,
  undefined, ℕ, ◌%◌, ◌+◌, ◌-◌, ◌==◌, ◌>>=◌, ◌>>◌, ◌∷◌,
}
use rastapopoulos.Base.Words.{is_aligned, sub32, u32}
use rastapopoulos.Pmm.{free, page_size}

abbrev pub magic_allocated : ℕ
magic_allocated = 0xABCDEF01

abbrev pub magic_free : ℕ
magic_free = 0x12345678

abbrev pub canary : ℕ
canary = 0x7778798081828384

-- The size of a header, and of `struct heap`.
abbrev pub block_header : ℕ
block_header = 16

pub record Block : Type 0 where
  pub address : ℕ
  pub magic : ℕ
  pub flags : ℕ
  pub size : ℕ

pub record Heap : Type 0 where
  pub blocks : List Block
  pub heap_size : ℕ
  pub max_size : ℕ
  pub lock : ℕ
  pub words : ℕ → ℕ

pub is_valid_block : Block → Bool
is_valid_block b = if b.flags % 2 == 1 then b.magic == magic_allocated else b.magic == magic_free

pub heap_is_free : Block → Outcome Bool
heap_is_free b = if is_valid_block b then ok (b.flags % 2 == 0) else fail aborted

pub heap_is_allocated : Block → Outcome Bool
heap_is_allocated b = assert (is_valid_block b) >> ok (b.flags % 2 == 1)

pub set_allocated : Block → Outcome Block
set_allocated b =
    assert (is_valid_block b)
    >> ok (record b { flags = b.flags - b.flags % 2 + 1; magic = magic_allocated })

pub set_free : Block → Outcome Block
set_free b =
    assert (is_valid_block b) >> ok (record b { flags = b.flags - b.flags % 2; magic = magic_free })

abbrev pub canary_address : Block → ℕ
canary_address b = sub32 (u32 (b.address + b.size)) 8

abbrev pub with_canary : (ℕ → ℕ) → Block → ℕ → ℕ
with_canary words b a = if a == canary_address b then canary else words a

pub write_canary : (ℕ → ℕ) → Block → Outcome (ℕ → ℕ)
write_canary words b =
    if ltb b.size (block_header + 8) then fail undefined else ok (with_canary words b)

pub check_canary : (ℕ → ℕ) → Block → Outcome (Unit {0})
check_canary words b = if words (canary_address b) == canary then ok tt else fail aborted

pub create_block : ℕ → ℕ → Block
create_block addr size = record { address = addr; magic = magic_free; flags = 0; size = size }

pub merge_blocks : Block → Block → Outcome Block
merge_blocks dest source = do
  assert (ltb dest.address source.address)
  assert (dest.magic == source.magic)
  ok (record dest { size = u32 (dest.size + source.size) })

-- `cmpxchg` with interrupts off: the lock is taken if it was 0, given back if it was 1.
pub heap_lock : Heap → Outcome Heap
heap_lock s = if s.lock == 0 then ok (record s { lock = 1 }) else fail aborted

pub heap_unlock : Heap → Outcome Heap
heap_unlock s = if s.lock == 1 then ok (record s { lock = 0 }) else fail assertion_failed

pub heap_init : (ℕ → ℕ) → ℕ → ℕ → ℕ → Outcome Heap
heap_init words address size max_size = do
  assert (is_aligned address page_size)
  assert (is_aligned size page_size)
  ok (record {
    blocks = create_block (u32 (address + block_header)) (sub32 size block_header) ∷ [];
    heap_size = size;
    max_size = max_size;
    lock = 0;
    words = words;
  })

-- The bytes that are free, of `heap_info`.
pub free_bytes : ℕ → List Block → Outcome ℕ
free_bytes free [] = ok free
free_bytes free (h ∷ blocks) = heap_is_free h >>= λ is_free.
    free_bytes (if is_free then u32 (free + sub32 h.size block_header) else free) blocks

pub heap_check : List Block → Outcome (Unit {0})
heap_check [] = ok tt
heap_check (h ∷ blocks) =
    let rest = heap_check blocks in if is_valid_block h then rest else fail aborted

-- `heap_free_block`: a block is joined with the one behind it, if that is free.
pub join_next : Block → List Block → Outcome (List Block)
join_next b [] = ok (b ∷ [])
join_next b (next ∷ rest) = do
  next_free ← heap_is_free next
  (if next_free
      then (merge_blocks b next >>= λ joined. ok (joined ∷ rest))
      else ok (b ∷ next ∷ rest))

pub free_block : Block → Outcome Block
free_block b = do is_allocated ← heap_is_allocated b; assert is_allocated; set_free b

-- The block behind `prev`: it is joined with `prev`, if that is free.
pub free_behind : Block → Block → List Block → Outcome (List Block)
free_behind prev b rest = do
  freed ← free_block b
  prev_free ← heap_is_free prev
  (if prev_free
      then (merge_blocks prev freed >>= λ joined. join_next joined rest)
      else (join_next freed rest >>= λ blocks. ok (prev ∷ blocks)))

-- The search for the block before the one at the address, `prev_block`, asserts each block it passes.
pub free_from : Block → List Block → ℕ → Outcome (List Block)
free_from prev [] address = fail undefined
free_from prev (b ∷ rest) address =
    let further =
      assert (is_valid_block prev) >> (free_from b rest address >>= λ blocks. ok (prev ∷ blocks)) in
    if b.address == address then free_behind prev b rest else further

pub free_in : List Block → ℕ → Outcome (List Block)
free_in [] address = fail undefined
free_in (b ∷ rest) address =
    if b.address == address
    then (free_block b >>= λ freed. join_next freed rest)
    else free_from b rest address

pub find_block : List Block → ℕ → Outcome Block
find_block [] address = fail undefined
find_block (b ∷ blocks) address =
    let rest = find_block blocks address in if b.address == address then ok b else rest

pub check_magic : Block → Outcome (Unit {0})
check_magic b =
    if b.magic == magic_free
    then fail aborted
    else if b.magic == magic_allocated
    then ok tt
    else fail aborted

-- An address at which no header stands is read as one by the code; the model has no result then.
pub heap_free_block : Heap → ℕ → Outcome Heap
heap_free_block s address = if address == 0 then ok s else do
  b ← find_block s.blocks address
  check_magic b
  check_canary s.words b
  locked ← heap_lock s
  blocks ← free_in locked.blocks address
  heap_unlock (record locked { blocks = blocks })

-- `ptr` is the address of the data.
pub heap_free : Heap → ℕ → Outcome Heap
heap_free s ptr = heap_free_block s (sub32 ptr block_header)
