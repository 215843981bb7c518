-- ===== src/Format/Printing.antt =====
-- `format_int`: the text that it leaves in the buffer, and what it returns.
use native.Mathlib.Decide.{dec_lt}
use native.Mathlib.Nat.{pow-suc}
use rastapopoulos.Base.{
  Bool, Bool-cases, List, [], ap, append-nil, append_assoc, arith, drop, false, inl, inr, length,
  length-append, length-set, not, ok, refl, set, store, suc, sym, take, true, zero, ℕ, ◌%◌, ◌++◌,
  ◌+◌, ◌-◌, ◌/◌, ◌<◌, ◌==◌, ◌^◌, ◌||◌, ◌∙◌, ◌∷◌, ◌≡◌, ◌≤◌,
}
use rastapopoulos.Base.Sequences.{set_append, store_lem}
use rastapopoulos.Format.{Digits, digit_char, digits_loop, put_digit}
use rastapopoulos.Format.Numerals.{half_bound, low_digits, low_digits_more, low_digits_stop}

pub store_append :
    (front behind : List ℕ) (t c : ℕ)
    → store (front ++ (t ∷ behind)) (length front) c ≡ ok (front ++ (c ∷ behind))
store_append front behind t c =
    store_lem (front ++ (t ∷ behind)) (length front) c
      (omega (arith, length-append front (t ∷ behind)))
    ∙ ap ok (set_append front behind t c)

-- The loop's state, with what it has written in front.
abbrev pub printing : List ℕ → List ℕ → ℕ → ℕ → Digits
printing front behind room ret = record {
  buffer = front ++ behind;
  out = length front;
  room = room;
  ret = ret;
}

abbrev pub is_started : ℕ → Bool
is_started ret = not (ret == 0)

loop_ends :
    (rounds base : ℕ) (s : Digits) (n : ℕ)
    → (s.ret == 0) || not (n == 0) ≡ false
    → digits_loop (suc rounds) s n base ≡ ok s
unfolding digits_loop
loop_ends rounds base s n h = rw (digits_loop, h) refl

printed :
    (front behind : List ℕ) (t room ret d : ℕ)
    → 0 < room
    → put_digit (printing front (t ∷ behind) room ret) d
      ≡ ok (printing (front ++ (digit_char d ∷ [])) behind (room - 1) (ret + 1))
unfolding put_digit
printed front behind t room ret d h =
    let some_room : (room == 0) ≡ false = ground arith in
    let next : length front + 1 ≡ length (front ++ (digit_char d ∷ [])) =
      omega (arith, length-append front (digit_char d ∷ [])) in
    rw (some_room, store_append front behind t (digit_char d), next, append_assoc) refl

counted : (s : Digits) (d : ℕ) → s.room ≡ 0 → put_digit s d ≡ ok (record s { ret = s.ret + 1 })
unfolding put_digit
counted s d h = let no_room : (s.room == 0) ≡ true = ground arith in rw no_room refl

put_digit_counts :
    (s : Digits) (d : ℕ)
    → s.out + s.room ≤ length s.buffer
    → (s' : Digits) × (put_digit s d ≡ ok s')
      × (s'.ret ≡ s.ret + 1)
      × (s'.room ≡ s.room - 1)
      × (s'.out + s'.room ≤ length s'.buffer)
unfolding put_digit
put_digit_counts s d held = elim (dec_lt 0 s.room) [
  | no none_left ↦ (_, counted s d (omega arith), refl, omega arith, held)
  | yes h ↦
      let some_room : (s.room == 0) ≡ false = ground arith in
      (
        record {
          buffer = set s.buffer s.out (digit_char d);
          out = s.out + 1;
          room = s.room - 1;
          ret = s.ret + 1;
        },
        rw (put_digit, some_room, store_lem s.buffer s.out (digit_char d) (omega arith)) refl,
        refl,
        refl,
        omega (arith, length-set s.buffer s.out (digit_char d)),
      )
]

loop_goes :
    (rounds base : ℕ) (s s' : Digits) (n : ℕ)
    → (s.ret == 0) || not (n == 0) ≡ true
    → put_digit s (n % base) ≡ ok s'
    → digits_loop (suc rounds) s n base ≡ digits_loop rounds s' (n / base) base
unfolding digits_loop
loop_goes rounds base s s' n go e = rw (digits_loop, go, e) refl

-- Enough rounds for a number below 2 ^ k: one for each digit and one to stop.
abbrev pub Enough : ℕ → ℕ → ℕ → Type 0
Enough k ret n = (n < 2 ^ k) × (0 < ret + k)

Enough-next : (k base ret n : ℕ) → 2 ≤ base → n < 2 ^ suc k → Enough k (ret + 1) (n / base)
Enough-next k base ret n two small =
    (half_bound n base (2 ^ k) two (omega (arith, pow-suc 2 k)), omega arith)

-- The digits that the rest of the loop prints.
abbrev pub rest_digits : ℕ → ℕ → ℕ → ℕ → List ℕ
rest_digits k ret n base = low_digits (suc k) (is_started ret) n base

low_digits_nil :
    (k ret n base : ℕ) → rest_digits k ret n base ≡ [] → (ret == 0) || not (n == 0) ≡ false
low_digits_nil k ret n base e = elim (Bool-cases ((ret == 0) || not (n == 0))) [
  | inr end ↦ end
  | inl go ↦ let more = low_digits_more k (is_started ret) n base (ground arith) in absurd (cc)
]

low_digits_cons :
    (k ret n base d : ℕ) (ds : List ℕ)
    → rest_digits k ret n base ≡ d ∷ ds
    → ((ret == 0) || not (n == 0) ≡ true)
      × (d ≡ digit_char (n % base))
      × (low_digits k true (n / base) base ≡ ds)
low_digits_cons k ret n base d ds e = elim (Bool-cases ((ret == 0) || not (n == 0))) [
  | inr end ↦ let stop = low_digits_stop k (is_started ret) n base (ground arith) in absurd (cc)
  | inl go ↦ let more = low_digits_more k (is_started ret) n base (ground arith) in (go, cc, cc)
]

module _ (base : ℕ) (two : 2 ≤ base) where
  pub digits_loop_fits :
      (ds used rest front : List ℕ) (k left ret n : ℕ)
      → rest_digits k ret n base ≡ ds
      → Enough k ret n
      → length used ≡ length ds
      → digits_loop (suc k) (printing front (used ++ rest) (length ds + left) ret) n base
        ≡ ok (printing (front ++ ds) rest left (ret + length ds))
  digits_loop_fits [] [] rest front k left ret n e enough len =
      let zero_left : 0 + left ≡ left = omega arith in
      let same_ret : ret + 0 ≡ ret = omega arith in
      rw (append-nil, zero_left, same_ret)
        (loop_ends k base (printing front rest left ret) n (low_digits_nil k ret n base e))
  digits_loop_fits [] (t ∷ used) rest front k left ret n e enough len = absurd (omega arith)
  digits_loop_fits (d ∷ ds) [] rest front k left ret n e enough len = absurd (omega arith)
  digits_loop_fits (d ∷ ds) (t ∷ used) rest front zero left ret n e enough len =
      let (go, first, more) = low_digits_cons zero ret n base d ds e in
      absurd (ground (arith, enough.0, enough.1))
  digits_loop_fits (d ∷ ds) (t ∷ used) rest front (suc k) left ret n e enough len =
      let (go, first, more) = low_digits_cons (suc k) ret n base d ds e in
      let started : is_started (ret + 1) ≡ true = ground arith in
      let room : suc (length ds) + left - 1 ≡ length ds + left = omega arith in
      let counted : ret + suc (length ds) ≡ ret + 1 + length ds = omega arith in
      let ih =
        digits_loop_fits ds used rest (front ++ (d ∷ [])) k left (ret + 1) (n / base)
          (rw started more) (Enough-next k base ret n two enough.0) (omega arith) in
      loop_goes (suc k) base _ _ n go
        (printed front (used ++ rest) t (suc (length ds) + left) ret (n % base) (omega arith))
      ∙ rw (room, sym first) (ih ∙ rw (append_assoc front (d ∷ []) ds, counted) refl)

  -- What the loop counts, whether the digits fit or not.
  pub digits_loop_counts :
      (ds : List ℕ) (s : Digits) (k n : ℕ)
      → rest_digits k s.ret n base ≡ ds
      → Enough k s.ret n
      → s.out + s.room ≤ length s.buffer
      → (s' : Digits) × (digits_loop (suc k) s n base ≡ ok s')
        × (s'.ret ≡ s.ret + length ds)
        × (s'.room ≡ s.room - length ds)
        × (s'.out + s'.room ≤ length s'.buffer)
  digits_loop_counts [] s k n e enough held =
      (s, loop_ends k base s n (low_digits_nil k s.ret n base e), omega arith, omega arith, held)
  digits_loop_counts (d ∷ ds) s zero n e enough held =
      let (go, first, more) = low_digits_cons zero s.ret n base d ds e in
      absurd (ground (arith, enough.0, enough.1))
  digits_loop_counts (d ∷ ds) s (suc k) n e enough held =
      let (go, first, more) = low_digits_cons (suc k) s.ret n base d ds e in
      let started : is_started (s.ret + 1) ≡ true = ground arith in
      let (s1, put, ret1, room1, held1) = put_digit_counts s (n % base) held in
      let (s2, rest, ret2, room2, held2) =
        digits_loop_counts ds s1 k (n / base) (rw (ret1, started) more)
          (rw ret1 (Enough-next k base s.ret n two enough.0)) held1 in
      (s2, loop_goes (suc k) base s s1 n go put ∙ rest, omega arith, omega arith, held2)

pub split_at :
    (n : ℕ) (xs : List ℕ) → n ≤ length xs → (xs ≡ take n xs ++ drop n xs) × (length (take n xs) ≡ n)
split_at zero xs h = (refl, refl)
split_at (suc n) [] h = absurd (omega arith)
split_at (suc n) (x ∷ xs) h =
    let (e, len) = split_at n xs (omega arith) in (ap (λ (l : List ℕ). x ∷ l) e, ap suc len)
