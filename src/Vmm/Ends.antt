-- ===== src/Vmm/Ends.antt =====
-- The calls of the page allocator and of the page tables go by no number of rounds.
use rastapopoulos.Bitset
use rastapopoulos.Base.{Bool, List, [], if◌then◌else◌, suc, zero, ℕ, ◌==◌, ◌∷◌}
use rastapopoulos.Base.Ends.{Ends, Ends-ok, Ends-option, Ends-page_fault, ends_rules}
use rastapopoulos.Bitset.{Bitset}
use rastapopoulos.Pmm.{Region, alloc, reserve, reserve_in}
use rastapopoulos.Vmm.{
  Memory, clear_page, map_in_table, map_new_table, put_word, read_word, translate, translate_write,
  vmm_map, write_word,
}

test-Ends : (b : Bitset) (i : ℕ) → Ends (Bitset.test b i)
unfolding Bitset.test
test-Ends b i = search (ends_rules)

insert-Ends : (b : Bitset) (i : ℕ) → Ends (Bitset.insert b i)
unfolding Bitset.insert
insert-Ends b i = search (ends_rules)

find_word-Ends : (b : Bitset) (value : Bool) (left i : ℕ) → Ends (Bitset.find_word b value left i)
unfolding Bitset.find_word
find_word-Ends b value zero i = search (ends_rules)
find_word-Ends b value (suc left) i = search (ends_rules, find_word-Ends b value left)

find_bit-Ends : (b : Bitset) (value : Bool) (left i : ℕ) → Ends (Bitset.find_bit b value left i)
unfolding Bitset.find_bit
find_bit-Ends b value zero i = search (ends_rules)
find_bit-Ends b value (suc left) i = search (ends_rules, test-Ends, find_bit-Ends b value left)

find-Ends : (b : Bitset) (value : ℕ) → Ends (Bitset.find b value)
unfolding Bitset.find
find-Ends b value = search (ends_rules, find_word-Ends, find_bit-Ends)

pub alloc-Ends : (rs : List Region) → Ends (alloc rs)
unfolding alloc
alloc-Ends [] = search (ends_rules)
alloc-Ends (r ∷ rs) = search (ends_rules, find-Ends, insert-Ends, alloc-Ends rs)

reserve_in-Ends : (rs : List Region) (page : ℕ) → Ends (reserve_in rs page)
unfolding reserve_in
reserve_in-Ends [] page = search (ends_rules)
reserve_in-Ends (r ∷ rs) page = search (ends_rules, test-Ends, insert-Ends, reserve_in-Ends rs)

pub reserve-Ends : (rs : List Region) (page : ℕ) → Ends (reserve rs page)
unfolding reserve
reserve-Ends rs page = search (ends_rules, reserve_in-Ends)

read_word-Ends : (m : Memory) (va i : ℕ) → Ends (read_word m va i)
unfolding read_word
read_word-Ends m va i = Ends-option (translate m va) Ends-page_fault (λ f. Ends-ok (m.frames f i))

write_word-Ends : (m : Memory) (va i v : ℕ) → Ends (write_word m va i v)
unfolding write_word
write_word-Ends m va i v =
    Ends-option (translate_write m va) Ends-page_fault
      (λ f. Ends-ok (record m { frames = put_word m.frames f i v }))

clear_page-Ends : (m : Memory) (va : ℕ) → Ends (clear_page m va)
unfolding clear_page
clear_page-Ends m va =
    Ends-option (translate_write m va) Ends-page_fault
      (λ f. Ends-ok (record m { frames = λ g j. if g == f then 0 else m.frames g j }))

map_in_table-Ends : (va pa flags : ℕ) (m : Memory) → Ends (map_in_table va pa flags m)
unfolding map_in_table
map_in_table-Ends va pa flags m = search (ends_rules, read_word-Ends, write_word-Ends)

map_new_table-Ends : (va pa flags : ℕ) (m : Memory) → Ends (map_new_table va pa flags m)
unfolding map_new_table
map_new_table-Ends va pa flags m =
    search (ends_rules, alloc-Ends, read_word-Ends, write_word-Ends, clear_page-Ends) depth 12

pub vmm_map-Ends : (va pa flags : ℕ) (m : Memory) → Ends (vmm_map va pa flags m)
unfolding vmm_map
vmm_map-Ends va pa flags m =
    search (ends_rules, read_word-Ends, map_in_table-Ends, map_new_table-Ends) depth 12
