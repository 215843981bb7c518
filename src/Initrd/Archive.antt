-- ===== src/Initrd/Archive.antt =====
-- A tar archive, and that `initrd_init` finds its files.
-- The octal digits of a number, `k` of them.
use native.Mathlib.Decide.{ℕ_discrete}
use native.Mathlib.Nat.{add-mul, mul-le-mul_right, mul_assoc, mul_comm, pow-suc}
use rastapopoulos.Base.{
  List, [], ap, append_assoc, arith, drop, length, length-append, ok, overwrite, read, refl,
  replicate, suc, sym, take, zero, ℕ, ◌%◌, ◌*◌, ◌++◌, ◌+◌, ◌-◌, ◌/◌, ◌<◌, ◌^◌, ◌∙◌, ◌∷◌, ◌≡◌, ◌≢◌,
  ◌≤◌,
}
use rastapopoulos.Base.Sequences.{read_at}
use rastapopoulos.Base.Words.{align, sub32, u32}
use rastapopoulos.Initrd.{InitrdFile, first_bytes, getsize, getsize_loop}
use rastapopoulos.Strings.{signed_char}
use rastapopoulos.Strings.Compare.{NoNul}

unfoldable pub octal : ℕ → ℕ → List ℕ
octal zero n = []
octal (suc k) n = octal k (n / 8) ++ ((b'0' + n % 8) ∷ [])

-- An entry: its name is not empty and ends with a 0; `fields` stand between the name and the size,
-- `other` between the size and the contents.
pub record Entry : Type 0 where
  pub initial : ℕ
  pub name : List ℕ
  pub fill : List ℕ
  pub fields : List ℕ
  pub other : List ℕ
  pub contents : List ℕ
  pub padding : List ℕ

pub record EntryIsValid (e : Entry) : Type 0 where
  pub no_nul : NoNul (e.initial ∷ e.name)
  pub name_room : length e.name + length e.fill ≡ 98
  pub fields_room : length e.fields ≡ 24
  pub other_room : length e.other ≡ 377
  pub some_contents : length e.contents ≢ 0
  pub contents_small : length e.contents < 2 ^ 32 - 1024
  pub padded : length e.contents + length e.padding ≡ align (length e.contents) 512

abbrev pub AllValid : List Entry → Type 0
AllValid [] = Unit
AllValid (e ∷ entries) = EntryIsValid e × AllValid entries

-- What the archive holds behind the size of an entry, and behind its name.
unfoldable pub archive : List Entry → List ℕ → List ℕ
archive [] rest = 0 ∷ rest
archive (e ∷ entries) rest =
    e.initial ∷ e.name
    ++ (0 ∷ e.fill
        ++ (e.fields
            ++ (octal 11 (length e.contents)
                ++ (e.other ++ (e.contents ++ (e.padding ++ archive entries rest))))))

-- The file that an entry becomes.
abbrev pub file_of : Entry → InitrdFile
file_of e = record {
  name = overwrite (e.initial ∷ (e.name ++ (0 ∷ []))) (replicate 100 0);
  contents = e.contents;
  size = length e.contents;
}

pub drop_append : (xs ys : List ℕ) (n k : ℕ) → n ≡ length xs + k → drop n (xs ++ ys) ≡ drop k ys
drop_append [] ys n k e = let plain : n ≡ k = omega arith in ap (λ (i : ℕ). drop i ys) plain
drop_append (x ∷ xs) ys n k e =
    let later : n ≡ suc (length xs + k) = omega arith in
    ap (λ (i : ℕ). drop i (x ∷ (xs ++ ys))) later ∙ drop_append xs ys (length xs + k) k refl

pub take_whole : (xs : List ℕ) (n : ℕ) → length xs ≤ n → take n xs ≡ xs
take_whole [] zero h = refl
take_whole [] (suc n) h = refl
take_whole (x ∷ xs) zero h = absurd (omega arith)
take_whole (x ∷ xs) (suc n) h = ap (λ (l : List ℕ). x ∷ l) (take_whole xs n (omega arith))

pub first_bytes_all : (xs ys : List ℕ) → first_bytes (length xs) (xs ++ ys) ≡ ok xs
unfolding first_bytes
first_bytes_all [] ys = refl
first_bytes_all (x ∷ xs) ys = rw (first_bytes_all xs ys) refl

pub length-octal : (k n : ℕ) → length (octal k n) ≡ k
unfolding octal
length-octal zero n = refl
length-octal (suc k) n =
    omega (arith, length-append (octal k (n / 8)) ((b'0' + n % 8) ∷ []), length-octal k (n / 8))

-- One digit more is a factor of 8 less.
digit_sum : (n count : ℕ) → n * count ≡ n % 8 * count + n / 8 * (count * 8)
digit_sum n count =
    let parts : n ≡ n % 8 + n / 8 * 8 = omega arith in
    let moved : n / 8 * 8 * count ≡ n / 8 * (count * 8) =
      mul_assoc (n / 8) 8 count ∙ ap (λ (x : ℕ). n / 8 * x) (mul_comm 8 count) in
    ap (λ (x : ℕ). x * count) parts
    ∙ add-mul (n % 8) (n / 8 * 8) count
    ∙ ap (λ (x : ℕ). n % 8 * count + x) moved

-- A digit that is not 0 counts no more than 2^32.
digit_term :
    (d count size : ℕ) → size + d * count < 2 ^ 32 → u32 (size + d * u32 count) ≡ size + d * count
digit_term d count size fits = elim (ℕ_discrete d 0) [
  | yes none_there ↦
      let plain : size + 0 * u32 count ≡ size + 0 * count = omega arith in
      let sum : size + d * u32 count ≡ size + d * count =
        ap (λ (x : ℕ). size + x * u32 count) none_there
        ∙ plain
        ∙ sym (ap (λ (x : ℕ). size + x * count) none_there) in
      omega (arith, sum)
  | no some_there ↦
      let least : 1 ≤ d = omega arith in
      let less = mul-le-mul_right count least in
      let whole : u32 count ≡ count = omega (arith, less) in
      let sum : size + d * u32 count ≡ size + d * count = ap (λ (x : ℕ). size + d * x) whole in
      omega (arith, sum)
]

getsize_loop_lem :
    (k n count size : ℕ) (rest : List ℕ)
    → n < 8 ^ k
    → size + n * count < 2 ^ 32
    → getsize_loop k (octal k n ++ rest) size (u32 count) ≡ ok (size + n * count)
unfolding getsize_loop octal
getsize_loop_lem zero n count size rest small fits =
    let nothing : n ≡ 0 = omega (arith, small) in
    ap ok (omega arith ∙ sym (ap (λ (x : ℕ). size + x * count) nothing))
getsize_loop_lem (suc k) n count size rest small fits =
    let sum = digit_sum n count in
    let assoc = append_assoc (octal k (n / 8)) ((b'0' + n % 8) ∷ []) rest in
    let digit : read (octal k (n / 8) ++ ((b'0' + n % 8) ∷ rest)) k ≡ ok (b'0' + n % 8) =
      ap (λ (i : ℕ). read (octal k (n / 8) ++ ((b'0' + n % 8) ∷ rest)) i)
        (sym (length-octal k (n / 8)))
      ∙ read_at (octal k (n / 8)) rest (b'0' + n % 8) in
    let value : sub32 (signed_char (b'0' + n % 8)) b'0' ≡ n % 8 = ground arith in
    let term = digit_term (n % 8) count size (omega (arith, sum)) in
    let next_count : u32 (u32 count * 8) ≡ u32 (count * 8) = omega arith in
    let power = pow-suc 8 k in
    let later =
      getsize_loop_lem k (n / 8) (count * 8) (size + n % 8 * count) ((b'0' + n % 8) ∷ rest)
        (omega (arith, power, small)) (omega (arith, sum)) in
    rw (assoc, digit, value, term, next_count) (later ∙ ap ok (omega (arith, sum)))

pub getsize_lem : (n : ℕ) (rest : List ℕ) → n < 2 ^ 32 → getsize (octal 11 n ++ rest) ≡ ok n
unfolding getsize
getsize_lem n rest small =
    let plain : 0 + n * 1 ≡ n = omega arith in
    getsize_loop_lem 11 n 1 0 rest (omega arith) (omega arith) ∙ ap ok plain
