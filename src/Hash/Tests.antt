-- ===== src/Hash/Tests.antt =====
-- Runs of `hash2`, and its theorem at one.
use rastapopoulos.Base.{[], arith, refl, ◌∷◌, ◌≡◌, ◌≢◌}
use rastapopoulos.Hash.{hash, hash2, hash_step}
use rastapopoulos.Hash.Detect.{hash2_one_byte}

hash_runs : (hash [] ≡ 0) × (hash (1 ∷ 2 ∷ []) ≡ 65601) × (hash2 (2 ∷ []) (hash (1 ∷ [])) ≡ 65601)
unfolding hash hash2 hash_step
hash_runs = (refl, refl, refl)

hash2_one_byte_example : hash2 (7 ∷ 1 ∷ 9 ∷ []) 0 ≢ hash2 (7 ∷ 2 ∷ 9 ∷ []) 0
hash2_one_byte_example =
    hash2_one_byte (7 ∷ []) (9 ∷ []) 1 2 0 (omega arith) (omega arith) (omega arith) (omega arith)
      (λ e. omega arith)
