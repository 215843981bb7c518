-- ===== src/Strings/Tests.antt =====
-- Runs of the string functions, and their theorems at small strings.
use rastapopoulos.Base.{
  IsBytes, List, [], arith, fail, ok, out_of_range, refl, ℕ, ◌++◌, ◌-◌, ◌<◌, ◌^◌, ◌↔◌, ◌∷◌, ◌≡◌,
  ◌≤◌,
}
use rastapopoulos.Strings.{
  append_at, basename, copy_down, copy_up, last_slash, memcmp, memcpy, skip_slash, strcmp, strlcat,
  strlcpy, strreverse, whole_string, xtoa, xtoa_loop,
}
use rastapopoulos.Strings.Bounded.{bounded_copies}
use rastapopoulos.Strings.Compare.{NoNul, comparisons_iff}
use rastapopoulos.Strings.Copy.{Copied, memcpy-Copied}
use rastapopoulos.Strings.Reverse.{strreverse_lem}

memcpy_runs :
    (memcpy (1 ∷ 2 ∷ 3 ∷ 4 ∷ 5 ∷ []) 1 0 3 ≡ ok (1 ∷ 1 ∷ 2 ∷ 3 ∷ 5 ∷ []))
    × (memcpy (1 ∷ 2 ∷ 3 ∷ 4 ∷ 5 ∷ []) 0 1 3 ≡ ok (2 ∷ 3 ∷ 4 ∷ 4 ∷ 5 ∷ []))
    × (memcpy (1 ∷ 2 ∷ 3 ∷ []) 0 1 3 ≡ fail out_of_range)
unfolding memcpy copy_up copy_down
memcpy_runs = (refl, refl, refl)

-- The signs are those of the second string less the first.
compare_runs :
    (strcmp (b'a' ∷ 0 ∷ []) (b'b' ∷ 0 ∷ []) ≡ ok 1)
    × (strcmp (b'a' ∷ b'b' ∷ 0 ∷ []) (b'a' ∷ 0 ∷ []) ≡ ok (2 ^ 32 - 98))
    × (memcmp 2 (1 ∷ 2 ∷ []) (1 ∷ 9 ∷ []) ≡ ok 7)
unfolding strcmp memcmp
compare_runs = (refl, refl, refl)

-- With a size of 0, `strlcpy` writes one byte; and `strlcat` writes behind a destination of which the
-- first `siz` characters have no end.
copy_runs :
    (strlcpy (7 ∷ 7 ∷ 7 ∷ []) (b'a' ∷ b'b' ∷ b'c' ∷ 0 ∷ []) 3 ≡ ok (b'a' ∷ b'b' ∷ 0 ∷ []))
    × (strlcpy (7 ∷ 7 ∷ []) (b'a' ∷ 0 ∷ []) 0 ≡ ok (0 ∷ 7 ∷ []))
    × (strlcat (b'x' ∷ 0 ∷ 7 ∷ 7 ∷ []) (b'a' ∷ b'b' ∷ 0 ∷ []) 3 ≡ ok (b'x' ∷ b'a' ∷ 0 ∷ 7 ∷ []))
    × (strlcat (7 ∷ 7 ∷ []) (b'a' ∷ 0 ∷ []) 2 ≡ fail out_of_range)
unfolding strlcpy strlcat append_at
copy_runs = (refl, refl, refl, refl)

-- A name in the root, a name in a directory, and a directory's name.
name_runs :
    (basename (b'/' ∷ b'a' ∷ 0 ∷ []) ≡ ok (b'a' ∷ 0 ∷ []))
    × (basename (b'a' ∷ b'/' ∷ b'b' ∷ 0 ∷ []) ≡ ok (b'b' ∷ 0 ∷ []))
    × (basename (b'a' ∷ b'/' ∷ 0 ∷ []) ≡ ok (0 ∷ []))
unfolding basename last_slash skip_slash
name_runs = (refl, refl, refl)

hex_runs :
    (xtoa (b'1' ∷ b'f' ∷ b'F' ∷ 0 ∷ []) ≡ ok 0x1FF) × (xtoa (b'2' ∷ b'g' ∷ b'2' ∷ 0 ∷ []) ≡ ok 2)
unfolding xtoa xtoa_loop
hex_runs = (refl, refl)

memcpy-Copied_example :
    Copied (1 ∷ 2 ∷ 3 ∷ 4 ∷ 5 ∷ []) 1 0 3 (memcpy (1 ∷ 2 ∷ 3 ∷ 4 ∷ 5 ∷ []) 1 0 3)
memcpy-Copied_example = memcpy-Copied (1 ∷ 2 ∷ 3 ∷ 4 ∷ 5 ∷ []) 1 0 3 (omega arith) (omega arith)

abbrev ab : List ℕ
ab = b'a' ∷ b'b' ∷ []

abbrev ac : List ℕ
ac = b'a' ∷ b'c' ∷ []

ab-NoNul : NoNul ab
ab-NoNul = (omega arith, omega arith, (omega arith, omega arith, tt))

ac-NoNul : NoNul ac
ac-NoNul = (omega arith, omega arith, (omega arith, omega arith, tt))

ab-IsBytes : IsBytes ab
ab-IsBytes = (omega arith, (omega arith, tt))

ac-IsBytes : IsBytes ac
ac-IsBytes = (omega arith, (omega arith, tt))

bounded_copies_example :
    (2 < 6
      → strlcpy (7 ∷ 7 ∷ 7 ∷ 7 ∷ 7 ∷ 7 ∷ []) (ab ++ (0 ∷ [])) 4
        ≡ ok (b'a' ∷ b'b' ∷ 0 ∷ 7 ∷ 7 ∷ 7 ∷ []))
    × (1 ≤ 6
        → strlcat (ac ++ (0 ∷ 7 ∷ 7 ∷ 7 ∷ 7 ∷ 7 ∷ 7 ∷ [])) (ab ++ (0 ∷ [])) 4
          ≡ ok (b'a' ∷ b'c' ∷ b'a' ∷ 0 ∷ 7 ∷ 7 ∷ 7 ∷ 7 ∷ 7 ∷ []))
bounded_copies_example =
    bounded_copies ab ac (7 ∷ 7 ∷ 7 ∷ 7 ∷ 7 ∷ 7 ∷ []) [] 4 ab-NoNul ac-NoNul (omega arith)

comparisons_iff_example :
    ((strcmp (ab ++ (0 ∷ [])) (ac ++ (0 ∷ 5 ∷ [])) ≡ ok 0) ↔ (ab ≡ ac))
    × ((memcmp 2 (ab ++ []) (ac ++ (5 ∷ [])) ≡ ok 0) ↔ (ab ≡ ac))
comparisons_iff_example =
    comparisons_iff ab ac ab ac [] (5 ∷ []) ab-NoNul ac-NoNul ab-IsBytes ac-IsBytes refl

reverse_runs : strreverse (ab ++ (0 ∷ 9 ∷ [])) whole_string ≡ ok (b'b' ∷ b'a' ∷ 0 ∷ 9 ∷ [])
reverse_runs = strreverse_lem ab (9 ∷ []) ab-NoNul (omega arith)
