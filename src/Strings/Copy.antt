-- ===== src/Strings/Copy.antt =====
-- `memcpy`: what it leaves in memory, for blocks that overlap too.
use native.Mathlib.Decide.{ℕ_discrete}
use rastapopoulos.Base.{
  Bool-cases, List, Outcome, ap, arith, get_or, get_or-set_ne, get_or-set_self, inl, inr, length,
  length-set, ltb, ok, refl, set, suc, zero, ℕ, ◌&&◌, ◌+◌, ◌<◌, ◌∙◌, ◌≡◌, ◌≤◌,
}
use rastapopoulos.Base.Sequences.{read_lem, store_lem}
use rastapopoulos.Strings.{copy_down, copy_up, memcpy}

-- The block at `d` holds what the block at `s` held, and the rest of memory is as it was.
pub record Copied (memory : List ℕ) (d s n : ℕ) (result : Outcome (List ℕ)) : Type 0 where
  pub after : List ℕ
  pub returns : result ≡ ok after
  pub same_length : length after ≡ length memory
  pub block : (j : ℕ) → j < n → get_or after (d + j) 0 ≡ get_or memory (s + j) 0
  pub outside : (j : ℕ) → ¬ ((d ≤ j) × (j < d + n)) → get_or after j 0 ≡ get_or memory j 0

copy_nothing : (memory : List ℕ) (d s : ℕ) → Copied memory d s 0 (ok memory)
copy_nothing memory d s = record {
  after = memory;
  returns = refl;
  same_length = refl;
  block = λ j h. absurd (omega arith);
  outside = λ j h. refl;
}

index : (memory : List ℕ) {i j : ℕ} → i ≡ j → get_or memory i 0 ≡ get_or memory j 0
index memory e = ap (λ i. get_or memory i 0) e

-- The rest of the block was copied after its first byte.
up_block :
    (memory : List ℕ) (d s n : ℕ) {result : Outcome (List ℕ)}
    → d + suc n ≤ length memory
    → ¬ ((s < d) × (d < s + suc n))
    → (w : Copied (set memory d (get_or memory s 0)) (d + 1) (s + 1) n result) → (j : ℕ) → j < suc n
    → get_or w.after (d + j) 0 ≡ get_or memory (s + j) 0
up_block memory d s n dn apart w zero h =
    index w.after (omega arith)
    ∙ w.outside d (λ (p, q). omega arith)
    ∙ get_or-set_self memory d (get_or memory s 0) 0 (omega arith)
    ∙ index memory (omega arith)
up_block memory d s n dn apart w (suc j) h =
    index w.after (omega arith)
    ∙ w.block j (omega arith)
    ∙ get_or-set_ne memory d (s + 1 + j) (get_or memory s 0) 0 (λ e. apart (omega arith))
    ∙ index memory (omega arith)

-- The rest of the block was copied after its last byte.
down_block :
    (memory : List ℕ) (d s n : ℕ) {result : Outcome (List ℕ)}
    → d + suc n ≤ length memory
    → s < d
    → (w : Copied (set memory (d + n) (get_or memory (s + n) 0)) d s n result) → (j : ℕ) → j < suc n
    → get_or w.after (d + j) 0 ≡ get_or memory (s + j) 0
down_block memory d s n dn behind w j h = elim (ℕ_discrete j n) [
  | yes last ↦
      index w.after (omega arith)
      ∙ w.outside (d + n) (λ (p, q). omega arith)
      ∙ get_or-set_self memory (d + n) (get_or memory (s + n) 0) 0 (omega arith)
      ∙ index memory (omega arith)
  | no before ↦
      w.block j (omega arith)
      ∙ get_or-set_ne memory (d + n) (s + j) (get_or memory (s + n) 0) 0 (λ e. omega arith)
]

copy_up-Copied :
    (n : ℕ) (memory : List ℕ) (d s : ℕ)
    → d + n ≤ length memory
    → s + n ≤ length memory
    → ¬ ((s < d) × (d < s + n))
    → Copied memory d s n (copy_up n memory d s)
unfolding copy_up
copy_up-Copied zero memory d s dn sn apart = copy_nothing memory d s
copy_up-Copied (suc n) memory d s dn sn apart =
    let b = get_or memory s 0 in
    let memory' = set memory d b in
    let size : length memory' ≡ length memory = length-set memory d b in
    let w =
      copy_up-Copied n memory' (d + 1) (s + 1) (omega arith) (omega arith)
        (λ (p, q). apart (omega arith)) in
    record {
      after = w.after;
      returns = rw (read_lem memory s (omega arith), store_lem memory d b (omega arith)) w.returns;
      same_length = w.same_length ∙ size;
      block = up_block memory d s n dn apart w;
      outside = λ j h.
          w.outside j (λ (p, q). h (omega arith))
          ∙ get_or-set_ne memory d j b 0 (λ e. h (omega arith));
    }

copy_down-Copied :
    (n : ℕ) (memory : List ℕ) (d s : ℕ)
    → d + n ≤ length memory
    → s + n ≤ length memory
    → s < d
    → Copied memory d s n (copy_down n memory d s)
unfolding copy_down
copy_down-Copied zero memory d s dn sn behind = copy_nothing memory d s
copy_down-Copied (suc n) memory d s dn sn behind =
    let b = get_or memory (s + n) 0 in
    let memory' = set memory (d + n) b in
    let size : length memory' ≡ length memory = length-set memory (d + n) b in
    let w = copy_down-Copied n memory' d s (omega arith) (omega arith) behind in
    record {
      after = w.after;
      returns =
          rw (read_lem memory (s + n) (omega arith), store_lem memory (d + n) b (omega arith))
            w.returns;
      same_length = w.same_length ∙ size;
      block = down_block memory d s n dn behind w;
      outside = λ j h.
          w.outside j (λ (p, q). h (omega arith))
          ∙ get_or-set_ne memory (d + n) j b 0 (λ e. h (omega arith));
    }

-- `memcpy` between two blocks within memory, which may overlap either way, leaves in the destination
-- what the source held before the call, and changes nothing else.
pub memcpy-Copied :
    (memory : List ℕ) (d s size : ℕ)
    → d + size ≤ length memory
    → s + size ≤ length memory
    → Copied memory d s size (memcpy memory d s size)
unfolding memcpy
memcpy-Copied memory d s size dn sn = elim (Bool-cases (ltb s d && ltb d (s + size))) [
  | inl overlaps ↦ rw overlaps (copy_down-Copied size memory d s dn sn (ground arith))
  | inr free ↦ rw free (copy_up-Copied size memory d s dn sn (λ (p, q). ground arith))
]
