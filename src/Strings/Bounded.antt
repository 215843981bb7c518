-- ===== src/Strings/Bounded.antt =====
-- `strlcpy` and `strlcat`: what they write, and how far.
use rastapopoulos.Base.{
  List, [], ap, arith, inl, inr, length, ok, overwrite, refl, suc, take, zero, ℕ, ◌++◌, ◌+◌, ◌-◌,
  ◌<◌, ◌>>=◌, ◌∙◌, ◌∷◌, ◌≡◌, ◌≤◌, ◌⊎◌,
}
use rastapopoulos.Strings.{append_at, strlcat, strlcpy}
use rastapopoulos.Strings.Compare.{NoNul}

-- One round of the loop of `strlcpy`.
strlcpy_more :
    (d c k : ℕ) (dst src : List ℕ)
    → 0 < c
    → strlcpy (d ∷ dst) (c ∷ src) (suc (suc k))
      ≡ (strlcpy dst src (suc k) >>= λ copied. ok (c ∷ copied))
unfolding strlcpy
strlcpy_more d c k dst src h =
    let less : suc (suc k) - 1 ≡ suc k = omega arith in rw less (ground arith)

strlcpy_stops :
    (d c siz : ℕ) (dst src : List ℕ)
    → (siz ≤ 1) ⊎ (c ≡ 0)
    → strlcpy (d ∷ dst) (c ∷ src) siz ≡ ok (0 ∷ dst)
unfolding strlcpy
strlcpy_stops d c siz dst src h = ground arith

strlcpy_room :
    (s dst behind : List ℕ) (k : ℕ)
    → NoNul s
    → length (take k s) < length dst
    → strlcpy dst (s ++ (0 ∷ behind)) (suc k) ≡ ok (overwrite (take k s ++ (0 ∷ [])) dst)
strlcpy_room [] [] behind zero h room = absurd (omega arith)
strlcpy_room [] [] behind (suc k) h room = absurd (omega arith)
strlcpy_room [] (d ∷ dst) behind zero h room = strlcpy_stops d 0 1 dst behind (inr refl)
strlcpy_room [] (d ∷ dst) behind (suc k) h room =
    strlcpy_stops d 0 (suc (suc k)) dst behind (inr refl)
strlcpy_room (c ∷ s) [] behind k h room = absurd (omega arith)
strlcpy_room (c ∷ s) (d ∷ dst) behind zero h room =
    strlcpy_stops d c 1 dst (s ++ (0 ∷ behind)) (inl (omega arith))
strlcpy_room (c ∷ s) (d ∷ dst) behind (suc k) h room =
    strlcpy_more d c k dst (s ++ (0 ∷ behind)) h.0
    ∙ rw (strlcpy_room s dst behind k h.2 (omega arith)) refl

append_more :
    (d c k : ℕ) (dst src : List ℕ)
    → 0 < c
    → append_at (d ∷ dst) (c ∷ src) (suc (suc k))
      ≡ (append_at dst src (suc k) >>= λ copied. ok (c ∷ copied))
unfolding append_at
append_more d c k dst src h =
    let less : suc (suc k) - 1 ≡ suc k = omega arith in rw less (ground arith)

append_stops :
    (d c siz : ℕ) (dst src : List ℕ)
    → (siz ≤ 1) ⊎ (c ≡ 0)
    → append_at (d ∷ dst) (c ∷ src) siz ≡ ok (0 ∷ dst)
unfolding append_at
append_stops d c siz dst src h = ground arith

append_room :
    (s dst behind : List ℕ) (k : ℕ)
    → NoNul s
    → length (take k s) < length dst
    → append_at dst (s ++ (0 ∷ behind)) (suc k) ≡ ok (overwrite (take k s ++ (0 ∷ [])) dst)
append_room [] [] behind zero h room = absurd (omega arith)
append_room [] [] behind (suc k) h room = absurd (omega arith)
append_room [] (d ∷ dst) behind zero h room = append_stops d 0 1 dst behind (inr refl)
append_room [] (d ∷ dst) behind (suc k) h room =
    append_stops d 0 (suc (suc k)) dst behind (inr refl)
append_room (c ∷ s) [] behind k h room = absurd (omega arith)
append_room (c ∷ s) (d ∷ dst) behind zero h room =
    append_stops d c 1 dst (s ++ (0 ∷ behind)) (inl (omega arith))
append_room (c ∷ s) (d ∷ dst) behind (suc k) h room =
    append_more d c k dst (s ++ (0 ∷ behind)) h.0
    ∙ rw (append_room s dst behind k h.2 (omega arith)) refl

skip_more :
    (d k : ℕ) (dst src : List ℕ)
    → 0 < d
    → strlcat (d ∷ dst) src (suc k) ≡ (strlcat dst src k >>= λ joined. ok (d ∷ joined))
unfolding strlcat
skip_more d k dst src h = let less : suc k - 1 ≡ k = omega arith in rw less (ground arith)

skip_stops : (dst src : List ℕ) (siz : ℕ) → strlcat (0 ∷ dst) src siz ≡ append_at (0 ∷ dst) src siz
unfolding strlcat
skip_stops dst src siz = ground arith

strlcat_room :
    (t s dst behind : List ℕ) (k : ℕ)
    → NoNul t
    → NoNul s
    → length (take k s) ≤ length dst
    → strlcat (t ++ (0 ∷ dst)) (s ++ (0 ∷ behind)) (length t + suc k)
      ≡ ok (t ++ overwrite (take k s ++ (0 ∷ [])) (0 ∷ dst))
strlcat_room [] s dst behind k ht hs room =
    let plain : 0 + suc k ≡ suc k = omega arith in
    rw plain (skip_stops dst _ (suc k) ∙ append_room s (0 ∷ dst) behind k hs (omega arith))
strlcat_room (d ∷ t) s dst behind k ht hs room =
    let one : suc (length t) + suc k ≡ suc (length t + suc k) = omega arith in
    rw one (
      skip_more d (length t + suc k) (t ++ (0 ∷ dst)) _ ht.0
      ∙ rw (strlcat_room t s dst behind k ht.2 hs room) refl)

-- For a `siz` above 0, `strlcpy` copies the first `siz - 1` characters of a string, or all if there
-- are fewer, ends them with a 0, and changes nothing behind, if the destination has room for them;
-- and `strlcat` does the same behind a string of fewer than `siz` characters, whose length counts.
pub bounded_copies :
    (s t dst behind : List ℕ) (siz : ℕ)
    → NoNul s
    → NoNul t
    → length t < siz
    → (length (take (siz - 1) s) < length dst
        → strlcpy dst (s ++ (0 ∷ behind)) siz ≡ ok (overwrite (take (siz - 1) s ++ (0 ∷ [])) dst))
      × (length (take (siz - 1 - length t) s) ≤ length dst
          → strlcat (t ++ (0 ∷ dst)) (s ++ (0 ∷ behind)) siz
            ≡ ok (t ++ overwrite (take (siz - 1 - length t) s ++ (0 ∷ [])) (0 ∷ dst)))
bounded_copies s t dst behind siz hs ht h = (
  λ room.
      let size : siz ≡ suc (siz - 1) = omega arith in
      ap (λ (k : ℕ). strlcpy dst (s ++ (0 ∷ behind)) k) size
      ∙ strlcpy_room s dst behind (siz - 1) hs room,
  λ room.
      let size : siz ≡ length t + suc (siz - 1 - length t) = omega arith in
      ap (λ (k : ℕ). strlcat (t ++ (0 ∷ dst)) (s ++ (0 ∷ behind)) k) size
      ∙ strlcat_room t s dst behind (siz - 1 - length t) ht hs room,
)
