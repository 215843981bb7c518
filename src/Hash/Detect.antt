-- ===== src/Hash/Detect.antt =====
-- What the hash tells apart.
use rastapopoulos.Base.{
  IsBytes, List, [], ap, arith, refl, sym, ℕ, ◌%◌, ◌*◌, ◌++◌, ◌+◌, ◌-◌, ◌<◌, ◌^◌, ◌∙◌, ◌∷◌, ◌≡◌,
  ◌≢◌,
}
use rastapopoulos.Hash.{hash2, hash_step}

pub hash_step-lt : (h byte : ℕ) → hash_step h byte < 2 ^ 32
unfolding hash_step
hash_step-lt h byte = omega arith

hash_step_mod : (h byte : ℕ) → h < 2 ^ 32 → hash_step h byte ≡ (byte + h * 65599) % 2 ^ 32
unfolding hash_step
hash_step_mod h byte lt = omega arith

pub hash2-lt : (bytes : List ℕ) (h : ℕ) → h < 2 ^ 32 → hash2 bytes h < 2 ^ 32
unfolding hash2
hash2-lt [] h lt = lt
hash2-lt (b ∷ bytes) h lt = hash2-lt bytes (hash_step h b) (hash_step-lt h b)

-- From the same hash, different bytes lead to different hashes.
step_byte_inj : (h a b : ℕ) → h < 2 ^ 32 → a < 256 → b < 256 → hash_step h a ≡ hash_step h b → a ≡ b
step_byte_inj h a b lt p q e = omega (arith, hash_step_mod h a lt, hash_step_mod h b lt)

-- A round can be undone: 65599 * 2390421439 is 1 modulo 2 ^ 32.
unstep : ℕ → ℕ → ℕ
unstep byte x = (x + 2 ^ 32 - byte) % 2 ^ 32 * 2390421439 % 2 ^ 32

unstep-hash_step : (h byte : ℕ) → h < 2 ^ 32 → byte < 256 → unstep byte (hash_step h byte) ≡ h
unfolding unstep
unstep-hash_step h byte lt p = omega (arith, hash_step_mod h byte lt)

step_hash_inj :
    (g h b : ℕ) → g < 2 ^ 32 → h < 2 ^ 32 → b < 256 → hash_step g b ≡ hash_step h b → g ≡ h
step_hash_inj g h b p q lt e =
    sym (unstep-hash_step g b p lt) ∙ ap (unstep b) e ∙ unstep-hash_step h b q lt

-- Different hashes stay different over the same bytes.
hash2_inj :
    (bytes : List ℕ) (g h : ℕ)
    → IsBytes bytes
    → g < 2 ^ 32
    → h < 2 ^ 32
    → hash2 bytes g ≡ hash2 bytes h
    → g ≡ h
unfolding hash2
hash2_inj [] g h v p q e = e
hash2_inj (b ∷ bytes) g h v p q e =
    step_hash_inj g h b p q v.0
      (hash2_inj bytes (hash_step g b) (hash_step h b) v.1 (hash_step-lt g b) (hash_step-lt h b) e)

-- `hash2` goes over two buffers in a row as over the two joined.
pub hash2-append : (xs ys : List ℕ) (h : ℕ) → hash2 (xs ++ ys) h ≡ hash2 ys (hash2 xs h)
unfolding hash2
hash2-append [] ys h = refl
hash2-append (x ∷ xs) ys h = hash2-append xs ys (hash_step h x)

-- Two byte strings of one length that differ in exactly one byte have different hashes, from any
-- start below 2 ^ 32.
pub hash2_one_byte :
    (before after : List ℕ) (a b h : ℕ)
    → IsBytes after
    → a < 256
    → b < 256
    → h < 2 ^ 32
    → a ≢ b
    → hash2 (before ++ (a ∷ after)) h ≢ hash2 (before ++ (b ∷ after)) h
hash2_one_byte before after a b h v p q lt ne e = ne (
    step_byte_inj g a b g-lt p q (
      hash2_inj after (hash_step g a) (hash_step g b) v (hash_step-lt g a) (hash_step-lt g b)
        (sym (at a) ∙ e ∙ at b)))
  where
    g : ℕ
    g = hash2 before h

    g-lt : g < 2 ^ 32
    g-lt = hash2-lt before h lt

    at : (x : ℕ) → hash2 (before ++ (x ∷ after)) h ≡ hash2 after (hash_step g x)
    at x = unfold hash2 in hash2-append before (x ∷ after) h
