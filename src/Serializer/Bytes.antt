-- ===== src/Serializer/Bytes.antt =====
-- The bytes of a number: written into a buffer and read back.
use native.Mathlib.Nat.{pow-suc}
use rastapopoulos.Base.{
  List, [], ap, arith, get_elem?-eq-get_or, get_or, get_or-set_ne, get_or-set_self, length,
  length-set, ltb, ok, read, refl, set, suc, true, zero, ℕ, ◌%◌, ◌+◌, ◌/◌, ◌<◌, ◌^◌, ◌∙◌, ◌∷◌, ◌≡◌,
  ◌≤◌,
}
use rastapopoulos.Serializer.{little, read_little, write_bytes}

pub length-little : (k n : ℕ) → length (little k n) ≡ k
unfolding little
length-little zero n = refl
length-little (suc k) n = ap suc (length-little k (n / 256))

-- A write that fits returns a buffer of the same length, in which the bytes stand, and the bytes
-- before and behind are as they were.
pub record Written (buffer : List ℕ) (i : ℕ) (bytes : List ℕ) : Type 0 where
  pub after : List ℕ
  pub returns : write_bytes buffer i bytes ≡ ok after
  pub same_length : length after ≡ length buffer
  pub inside : (j : ℕ) → j < length bytes → get_or after (i + j) 0 ≡ get_or bytes j 0
  pub before : (j : ℕ) → j < i → get_or after j 0 ≡ get_or buffer j 0
  pub behind : (j : ℕ) → i + length bytes ≤ j → get_or after j 0 ≡ get_or buffer j 0

pub write_bytes-Written :
    (buffer : List ℕ) (i : ℕ) (bytes : List ℕ)
    → i + length bytes ≤ length buffer
    → Written buffer i bytes
unfolding write_bytes
write_bytes-Written buffer i [] h = record {
  after = buffer;
  returns = refl;
  same_length = refl;
  inside = λ j p. absurd (omega arith);
  before = λ j p. refl;
  behind = λ j p. refl;
}
write_bytes-Written buffer i (b ∷ bytes) h =
    let w =
      write_bytes-Written (set buffer i b) (i + 1) bytes (omega (arith, length-set buffer i b)) in
    let room : ltb i (length buffer) ≡ true = ground arith in
    record {
      after = w.after;
      returns = rw room w.returns;
      same_length = w.same_length ∙ length-set buffer i b;
      inside = λ j p. inside_step buffer i b bytes w j p h;
      before = λ j p. w.before j (omega arith) ∙ get_or-set_ne buffer i j b 0 (λ e. omega arith);
      behind = λ j p. w.behind j (omega arith) ∙ get_or-set_ne buffer i j b 0 (λ e. omega arith);
    }
  where
    inside_step :
        (buffer : List ℕ) (i b : ℕ) (bytes : List ℕ) (w : Written (set buffer i b) (i + 1) bytes)
        (j : ℕ)
        → j < suc (length bytes)
        → i + suc (length bytes) ≤ length buffer
        → get_or w.after (i + j) 0 ≡ get_or (b ∷ bytes) j 0
    inside_step buffer i b bytes w zero p h =
        let here : i + 0 ≡ i = omega arith in
        rw here (w.before i (omega arith) ∙ get_or-set_self buffer i b 0 (omega arith))
    inside_step buffer i b bytes w (suc j) p h =
        let shift : i + suc j ≡ i + 1 + j = omega arith in rw shift (w.inside j (omega arith))

-- Where the bytes of a number stand, it is read.
pub read_little-little :
    (k n : ℕ) (buffer : List ℕ) (i : ℕ)
    → n < 256 ^ k
    → i + k ≤ length buffer
    → ((j : ℕ) → j < k → get_or buffer (i + j) 0 ≡ get_or (little k n) j 0)
    → read_little k buffer i ≡ ok n
unfolding read_little little
read_little-little zero n buffer i small room stands = ap ok (omega arith)
read_little-little (suc k) n buffer i small room stands =
    let here : i + 0 ≡ i = omega arith in
    let byte : read buffer i ≡ ok (n % 256) =
      rw (read, get_elem?-eq-get_or buffer i 0 (omega arith))
        (ap ok (rw⁻¹ here (stands 0 (omega arith)))) in
    let rest : read_little k buffer (i + 1) ≡ ok (n / 256) =
      read_little-little k (n / 256) buffer (i + 1) (omega (arith, pow-suc 256 k)) (omega arith)
        (λ j p.
          let shift : i + 1 + j ≡ i + suc j = omega arith in
          rw shift (stands (suc j) (omega arith))) in
    rw (byte, rest) (ap ok (omega arith))
