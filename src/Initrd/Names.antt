-- ===== src/Initrd/Names.antt =====
-- `initrd_get_file` finds a file by its name.
use rastapopoulos.Base.{
  Bool-cases, List, [], ap, append_assoc, arith, drop, false, inl, inr, length, length-append, map,
  none, ok, overwrite, refl, replicate, some, ℕ, ◌++◌, ◌==◌, ◌∙◌, ◌∷◌, ◌≡◌, ◌≢◌, ◌≤◌,
}
use rastapopoulos.Initrd.{get_file_in, initrd_get_file}
use rastapopoulos.Initrd.Archive.{AllValid, Entry, EntryIsValid, file_of}
use rastapopoulos.Strings.{char_difference, strcmp}
use rastapopoulos.Strings.Compare.{NoNul, strcmp_iff}

strcmp_returns :
    (s t behind_s behind_t : List ℕ)
    → NoNul s
    → NoNul t
    → (d : ℕ) × (strcmp (s ++ (0 ∷ behind_s)) (t ++ (0 ∷ behind_t)) ≡ ok d)
unfolding strcmp
strcmp_returns [] [] behind_s behind_t h k = (_, refl)
strcmp_returns [] (b ∷ t) behind_s behind_t h k = (_, refl)
strcmp_returns (a ∷ s) [] behind_s behind_t h k =
    let test : (a == 0) ≡ false = ground (arith, h.0) in (char_difference a 0, rw test refl)
strcmp_returns (a ∷ s) (b ∷ t) behind_s behind_t h k =
    let test : (a == 0) ≡ false = ground (arith, h.0) in
    let (d, rest) = strcmp_returns s t behind_s behind_t h.2 k.2 in
    elim (Bool-cases (a == b)) [
      | inl same ↦ (d, rw (test, same) rest)
      | inr other ↦ (char_difference a b, rw (test, other) refl)
    ]

overwrite_lem :
    (xs ys : List ℕ) → length xs ≤ length ys → overwrite xs ys ≡ xs ++ drop (length xs) ys
overwrite_lem [] ys h = refl
overwrite_lem (x ∷ xs) [] h = absurd (omega arith)
overwrite_lem (x ∷ xs) (y ∷ ys) h = ap (λ (l : List ℕ). x ∷ l) (overwrite_lem xs ys (omega arith))

not_zero : (d : ℕ) → d ≢ 0 → (d == 0) ≡ false
not_zero d h = ground arith

abbrev pub name_of : Entry → List ℕ
name_of e = e.initial ∷ e.name

name_lem :
    (e : Entry) → EntryIsValid e → (fill : List ℕ) × ((file_of e).name ≡ name_of e ++ (0 ∷ fill))
name_lem e v =
    let fill : List ℕ = drop (length (e.initial ∷ (e.name ++ (0 ∷ [])))) (replicate 100 0) in
    let size = length-append e.name (0 ∷ []) in
    (
      fill,
      overwrite_lem (e.initial ∷ (e.name ++ (0 ∷ []))) (replicate 100 0)
            (omega (arith, size, v.name_room))
          ∙ append_assoc (e.initial ∷ e.name) (0 ∷ []) fill,
    )

abbrev pub OtherName : List ℕ → List Entry → Type 0
OtherName name [] = Unit
OtherName name (e ∷ entries) = (name_of e ≢ name) × OtherName name entries

-- Among the files of an archive `initrd_get_file` finds the first that has the name asked for, and
-- none if there is no such file.
pub get_file-file_of :
    (front behind : List Entry) (e : Entry) (name unread : List ℕ) (size : ℕ) (bytes : List ℕ)
    → AllValid front
    → EntryIsValid e
    → NoNul name
    → OtherName name front
    → (initrd_get_file
          (record { initrd_size = size; initrd_data = bytes; files = map file_of front })
          (name ++ (0 ∷ unread))
        ≡ ok none)
      × (name_of e ≡ name
          → initrd_get_file
              (record {
                initrd_size = size;
                initrd_data = bytes;
                files = map file_of (front ++ (e ∷ behind));
              })
              (name ++ (0 ∷ unread))
            ≡ ok (some (file_of e)))
unfolding initrd_get_file get_file_in
get_file-file_of [] behind e name unread size bytes all v h other = (
  refl,
  λ same.
      let (fill, named) = name_lem e v in
      let found : strcmp (name_of e ++ (0 ∷ fill)) (name ++ (0 ∷ unread)) ≡ ok 0 =
        (strcmp_iff (name_of e) name fill unread v.no_nul h).1 same in
      rw (named, found) refl,
)
get_file-file_of (f ∷ front) behind e name unread size bytes (vf, all) v h (apart, other) =
    let (fill, named) = name_lem f vf in
    let (d, returns) = strcmp_returns (name_of f) name fill unread vf.no_nul h in
    let later = get_file-file_of front behind e name unread size bytes all v h other in
    let differs =
      not_zero d (λ z.
        apart ((strcmp_iff (name_of f) name fill unread vf.no_nul h).0 (returns ∙ ap ok z))) in
    (rw (named, returns, differs) later.0, λ same. rw (named, returns, differs) (later.1 same))
