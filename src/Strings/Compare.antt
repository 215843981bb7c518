-- ===== src/Strings/Compare.antt =====
-- `strcmp` and `memcmp`: when they find no difference.
use rastapopoulos.Base.{
  IsBytes, List, [], arith, length, ok, refl, ℕ, ◌++◌, ◌<◌, ◌↔◌, ◌∷◌, ◌≡◌, ◌≢◌,
}
use rastapopoulos.Strings.{char_difference, memcmp, strcmp}

-- A string in memory: characters without a 0, then the 0, then whatever lies behind.
abbrev pub NoNul : List ℕ → Type 0
NoNul [] = Unit
NoNul (c ∷ s) = (0 < c) × (c < 256) × NoNul s

differ : (a b : ℕ) → a < 256 → b < 256 → a ≢ b → char_difference a b ≢ 0
differ a b p q ne e = ne (ground arith)

same : (a : ℕ) → a < 256 → char_difference a a ≡ 0
same a p = ground arith

-- `strcmp` of two strings in memory returns 0 exactly when they have the same characters.
pub strcmp_iff :
    (s t behind_s behind_t : List ℕ)
    → NoNul s
    → NoNul t
    → (strcmp (s ++ (0 ∷ behind_s)) (t ++ (0 ∷ behind_t)) ≡ ok 0) ↔ (s ≡ t)
unfolding strcmp
strcmp_iff [] [] behind_s behind_t h k = (λ e. refl, λ e. refl)
strcmp_iff [] (b ∷ t) behind_s behind_t h k = (λ e. absurd (ground arith), λ e. cc)
strcmp_iff (a ∷ s) [] behind_s behind_t h k = (λ e. absurd (ground arith), λ e. cc)
strcmp_iff (a ∷ s) (b ∷ t) behind_s behind_t h k =
    let rest = strcmp_iff s t behind_s behind_t h.2 k.2 in
    (λ e. ground (arith, rest.0), λ e. ground (arith, rest.1))

-- `memcmp` of two blocks of `size` bytes returns 0 exactly when they hold the same bytes.
pub memcmp_iff :
    (p q behind_p behind_q : List ℕ)
    → IsBytes p
    → IsBytes q
    → length p ≡ length q
    → (memcmp (length p) (p ++ behind_p) (q ++ behind_q) ≡ ok 0) ↔ (p ≡ q)
unfolding memcmp
memcmp_iff [] [] behind_p behind_q h k e = (λ f. refl, λ f. refl)
memcmp_iff [] (b ∷ q) behind_p behind_q h k e = absurd (omega arith)
memcmp_iff (a ∷ p) [] behind_p behind_q h k e = absurd (omega arith)
memcmp_iff (a ∷ p) (b ∷ q) behind_p behind_q h k e =
    let rest = memcmp_iff p q behind_p behind_q h.1 k.1 (omega arith) in
    (λ f. ground (arith, rest.0), λ f. ground (arith, rest.1))

-- `strcmp` of two strings in memory returns 0 exactly when they have the same characters, and
-- `memcmp` of two blocks of one size exactly when they have the same bytes, whatever lies behind.
pub comparisons_iff :
    (s t p q behind0 behind1 : List ℕ)
    → NoNul s
    → NoNul t
    → IsBytes p
    → IsBytes q
    → length p ≡ length q
    → ((strcmp (s ++ (0 ∷ behind0)) (t ++ (0 ∷ behind1)) ≡ ok 0) ↔ (s ≡ t))
      × ((memcmp (length p) (p ++ behind0) (q ++ behind1) ≡ ok 0) ↔ (p ≡ q))
comparisons_iff s t p q behind0 behind1 hs ht hp hq e =
    (strcmp_iff s t behind0 behind1 hs ht, memcmp_iff p q behind0 behind1 hp hq e)
