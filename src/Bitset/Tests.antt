-- ===== src/Bitset/Tests.antt =====
-- Runs of kernel/bitset.c on small sets, and its theorems at them.
use rastapopoulos.Base.{
  [], arith, assertion_failed, fail, ok, refl, true, ℕ, ◌-◌, ◌<◌, ◌^◌, ◌∷◌, ◌≡◌, ◌≤◌, ◌⊎◌,
}
use rastapopoulos.Base.Words.{align}
use rastapopoulos.Bitset.{
  Bitset, alloc_size, clear, clear_all, fill, find, find_bit, find_word, full_word, init, insert,
  invalid_index, test,
}
use rastapopoulos.Bitset.Find.{IsFirst, PaddingClear, find_clear_full, find_lem}
use rastapopoulos.Bitset.Init.{alloc_size-init}
use rastapopoulos.Bitset.Invariant.{IsValid, Updated, bit_at, updates-Updated}
use rastapopoulos.Bitset.Samples.{
  all_in, all_in-IsValid, all_in_full, all_in_padding, half_full, half_full-IsValid,
}

find_runs :
    (find half_full 0 ≡ ok 32)
    × (find half_full 1 ≡ ok 0)
    × (find all_in 0 ≡ fail assertion_failed)
    × (find (record all_in { words = 0 ∷ 0 ∷ [] }) 1 ≡ ok invalid_index)
unfolding find find_word find_bit test
find_runs = (refl, refl, refl, refl)

insert_runs :
    (insert half_full 35 ≡ ok (record half_full { words = full_word ∷ 8 ∷ [] }))
    × (insert half_full 40 ≡ fail assertion_failed)
    × (clear all_in 4 ≡ ok (record all_in { words = 0xFFFFFFEF ∷ 0xFF ∷ [] }))
    × (test all_in 39 ≡ ok true)
unfolding insert clear test
insert_runs = (refl, refl, refl, refl)

init_runs : init (7 ∷ 9 ∷ []) 40 ≡ ok (record half_full { words = 0 ∷ 0 ∷ [] })
unfolding init clear_all fill align
init_runs = refl

updates_runs :
    Updated half_full 35 1 (insert half_full 35) × Updated half_full 35 0 (clear half_full 35)
updates_runs = updates-Updated half_full 35 half_full-IsValid (omega arith)

alloc_size_runs :
    (alloc_size 40 ≡ ok 16)
    × (40 ≤ 2 ^ 32 - 32
        → (b : Bitset) × (init (7 ∷ 9 ∷ []) 40 ≡ ok b)
          × (b.size ≡ 40)
          × IsValid b
          × ((j : ℕ) → bit_at b j ≡ 0))
alloc_size_runs = alloc_size-init (7 ∷ 9 ∷ []) 40 (omega arith) refl

-- The two premises of the second part hold of `all_in`.
find_full_runs : find all_in 0 ≡ fail assertion_failed
find_full_runs = find_clear_full all_in all_in-IsValid all_in_padding all_in_full

find_lem_example :
    ((j : ℕ) → j < 40 → bit_at all_in j ≡ 0 → (k : ℕ) × (find all_in 0 ≡ ok k) × IsFirst all_in 0 k)
    × (PaddingClear all_in
        → ((j : ℕ) → j < 40 → bit_at all_in j ≡ 1)
        → find all_in 0 ≡ fail assertion_failed)
    × (PaddingClear all_in
        → ((k : ℕ) × (find all_in 1 ≡ ok k) × IsFirst all_in 1 k)
          ⊎ ((find all_in 1 ≡ ok invalid_index) × ((m : ℕ) → m < 40 → bit_at all_in m ≡ 0)))
find_lem_example = find_lem all_in all_in-IsValid
