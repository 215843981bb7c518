-- ===== src/Strings/Reverse.antt =====
-- `strreverse`, and `strlen` which it uses.
use mathlib.Core.List.{reverse}
use rastapopoulos.Base.{
  Bool-cases, List, Outcome, [], ap, arith, false, get_or, get_or-set, if◌then◌else◌, inl, inr, leb,
  length, length-append, length-set, ltb, ok, refl, set, suc, sym, true, zero, ℕ, ◌&&◌, ◌++◌, ◌+◌,
  ◌-◌, ◌<◌, ◌==◌, ◌^◌, ◌||◌, ◌∙◌, ◌∷◌, ◌≡◌, ◌≤◌,
}
use rastapopoulos.Base.Sequences.{
  get_or-append_left, get_or-append_right, get_or-reverse, length-reverse, list_ext, read_lem,
  store_lem,
}
use rastapopoulos.Strings.{reverse_between, reverse_first, strlen, strreverse, whole_string}
use rastapopoulos.Strings.Compare.{NoNul}

pub strlen_lem : (s behind : List ℕ) → NoNul s → strlen (s ++ (0 ∷ behind)) ≡ ok (length s)
unfolding strlen
strlen_lem [] behind h = refl
strlen_lem (c ∷ s) behind h =
    rw (strlen_lem s behind h.2)
      (let add : length s + 1 ≡ suc (length s) = omega arith in ground (arith, h.0))

-- Where the character at `j` stood before the characters from `start` to `end` were reversed, and
-- before two were exchanged.
abbrev mirror : ℕ → ℕ → ℕ → ℕ
mirror start end j = if leb start j && leb j end then start + end - j else j

abbrev exchange : ℕ → ℕ → ℕ → ℕ
exchange start end j = if end == j then start else if start == j then end else j

record Mirrored (memory : List ℕ) (start end : ℕ) (result : Outcome (List ℕ)) : Type 0 where
  after : List ℕ
  returns : result ≡ ok after
  same_length : length after ≡ length memory
  elements : (j : ℕ) → get_or after j 0 ≡ get_or memory (mirror start end j) 0

swapped : List ℕ → ℕ → ℕ → List ℕ
swapped memory start end = set (set memory start (get_or memory end 0)) end (get_or memory start 0)

get_or-swapped :
    (memory : List ℕ) (start end j : ℕ)
    → start < length memory
    → end < length memory
    → get_or (swapped memory start end) j 0 ≡ get_or memory (exchange start end j) 0
unfolding swapped
get_or-swapped memory start end j p q =
    let inner = get_or-set memory start j (get_or memory end 0) 0 p in
    let outer =
      get_or-set (set memory start (get_or memory end 0)) end j (get_or memory start 0) 0
        (omega (arith, length-set memory start (get_or memory end 0))) in
    ground (arith, inner, outer)

length-swapped :
    (memory : List ℕ) (start end : ℕ) → length (swapped memory start end) ≡ length memory
unfolding swapped
length-swapped memory start end =
    length-set (set memory start (get_or memory end 0)) end (get_or memory start 0)
    ∙ length-set memory start (get_or memory end 0)

mirror_step :
    (start end j : ℕ)
    → start < end
    → exchange start end (mirror (start + 1) (end - 1) j) ≡ mirror start end j
mirror_step start end j h = ground arith

mirror_done : (start end j : ℕ) → end ≤ start → mirror start end j ≡ j
mirror_done start end j h = ground arith

-- One round of the loop.
swap_round :
    (rounds : ℕ) (memory : List ℕ) (start end : ℕ)
    → start < end
    → end < length memory
    → reverse_between (suc rounds) memory start end
      ≡ reverse_between rounds (swapped memory start end) (start + 1) (end - 1)
unfolding reverse_between swapped
swap_round rounds memory start end h inside =
    let test : ltb start end ≡ true = ground arith in
    rw
      (
        test,
        read_lem memory start (omega arith),
        read_lem memory end inside,
        store_lem memory start (get_or memory end 0) (omega arith),
        store_lem (set memory start (get_or memory end 0)) end (get_or memory start 0)
            (omega (arith, length-set memory start (get_or memory end 0))),
      )
      refl

at : (memory : List ℕ) {i j : ℕ} → i ≡ j → get_or memory i 0 ≡ get_or memory j 0
at memory e = ap (λ i. get_or memory i 0) e

reverse_between-Mirrored :
    (rounds : ℕ) (memory : List ℕ) (start end : ℕ)
    → end < length memory
    → end < start + rounds
    → Mirrored memory start end (reverse_between rounds memory start end)
reverse_between-Mirrored zero memory start end inside enough = record {
  after = memory;
  returns = unfold reverse_between in refl;
  same_length = refl;
  elements = λ j. at memory (sym (mirror_done start end j (omega arith)));
}
reverse_between-Mirrored (suc rounds) memory start end inside enough =
    elim (Bool-cases (ltb start end)) [
      | inr met ↦ record {
        after = memory;
        returns = unfold reverse_between in rw met refl;
        same_length = refl;
        elements = λ j. at memory (sym (mirror_done start end j (ground arith)));
      }
      | inl apart ↦
          let h : start < end = ground arith in
          let len = length-swapped memory start end in
          let w =
            reverse_between-Mirrored rounds (swapped memory start end) (start + 1) (end - 1)
              (omega arith) (omega arith) in
          record {
            after = w.after;
            returns = swap_round rounds memory start end h inside ∙ w.returns;
            same_length = w.same_length ∙ len;
            elements = λ j.
                w.elements j
                ∙ get_or-swapped memory start end (mirror (start + 1) (end - 1) j) (omega arith)
                    inside
                ∙ at memory (mirror_step start end j h);
          }
    ]

-- The characters of a list in front of others.
mirrored_left :
    (s behind : List ℕ) (n j : ℕ)
    → length s ≡ suc n
    → j < length s
    → get_or (s ++ behind) (mirror 0 n j) 0 ≡ get_or (reverse s ++ behind) j 0
mirrored_left s behind n j len p =
    let from : mirror 0 n j ≡ n - j = ground arith in
    let back : n - j ≡ length s - 1 - j = omega arith in
    at (s ++ behind) from
    ∙ get_or-append_left s behind (n - j) (omega arith)
    ∙ at s back
    ∙ sym (get_or-reverse s j p)
    ∙ sym (get_or-append_left (reverse s) behind j (omega (arith, length-reverse s)))

mirrored_right :
    (s behind : List ℕ) (n j : ℕ)
    → length s ≡ suc n
    → length s ≤ j
    → get_or (s ++ behind) (mirror 0 n j) 0 ≡ get_or (reverse s ++ behind) j 0
mirrored_right s behind n j len p =
    let k = j - length s in
    let stays : mirror 0 n j ≡ length s + k = ground arith in
    let same : j ≡ length (reverse s) + k = omega (arith, length-reverse s) in
    at (s ++ behind) stays
    ∙ get_or-append_right s behind k
    ∙ sym (get_or-append_right (reverse s) behind k)
    ∙ sym (at (reverse s ++ behind) same)

Mirrored-reverse :
    (s behind : List ℕ) (n : ℕ) {result : Outcome (List ℕ)}
    → length s ≡ suc n
    → Mirrored (s ++ behind) 0 n result
    → result ≡ ok (reverse s ++ behind)
Mirrored-reverse s behind n len w =
    w.returns
    ∙ ap ok (
        list_ext w.after (reverse s ++ behind)
          (w.same_length
            ∙ omega
                (arith, length-append s behind, length-append (reverse s) behind, length-reverse s))
          (λ j p. w.elements j ∙ elim (Bool-cases (ltb j (length s))) [
            | inl before ↦ mirrored_left s behind n j len (ground arith)
            | inr other ↦ mirrored_right s behind n j len (ground arith)
          ]))

-- `strreverse` of a string in memory with -1 as the size reverses the string and changes nothing else.
pub strreverse_lem :
    (s behind : List ℕ)
    → NoNul s
    → length s < 2 ^ 31
    → strreverse (s ++ (0 ∷ behind)) whole_string ≡ ok (reverse s ++ (0 ∷ behind))
unfolding strreverse reverse_first
strreverse_lem [] behind h small = rw (strlen_lem [] behind h) refl
strreverse_lem (c ∷ s) behind h small =
    let n = length s in
    let test : (suc n == 0) || ltb (2 ^ 31) (suc n) ≡ false = ground arith in
    let last : suc n - 1 ≡ n = omega arith in
    rw (strlen_lem (c ∷ s) behind h, test, last)
      (Mirrored-reverse (c ∷ s) (0 ∷ behind) n refl (
        reverse_between-Mirrored (suc n) _ 0 n (omega (arith, length-append (c ∷ s) (0 ∷ behind)))
          (omega arith)))
