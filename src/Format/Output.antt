-- ===== src/Format/Output.antt =====
-- `vsnprintf`: what it leaves in the buffer, and when it writes behind it.
use native.Mathlib.Decide.{dec_lt}
use rastapopoulos.Base.{
  List, [], ap, append_assoc, arith, drop, fail, false, length, length-append, length-set, ltb, ok,
  out_of_range, overwrite, refl, set, sym, take, true, ℕ, ◌++◌, ◌+◌, ◌-◌, ◌<◌, ◌==◌, ◌^◌, ◌∙◌, ◌∷◌,
  ◌≡◌, ◌≤◌,
}
use rastapopoulos.Base.Sequences.{store_lem}
use rastapopoulos.Base.Words.{sub32}
use rastapopoulos.Format.{Arg, formatv, put_text, vsnprintf}
use rastapopoulos.Format.Numbers.{overwrite-append}
use rastapopoulos.Format.Printing.{split_at, store_append}

put_text_fits :
    (chars front used behind : List ℕ) (siz : ℕ)
    → length used ≡ length chars
    → length chars ≤ siz
    → siz < 2 ^ 32
    → put_text (front ++ (used ++ behind)) (length front) siz chars
      ≡ ok (front ++ (chars ++ behind))
unfolding put_text
put_text_fits [] front [] behind siz e h small = refl
put_text_fits [] front (u ∷ used) behind siz e h small = absurd (omega arith)
put_text_fits (c ∷ chars) front [] behind siz e h small = absurd (omega arith)
put_text_fits (c ∷ chars) front (u ∷ used) behind siz e h small =
    let some_room : (siz == 0) ≡ false = ground arith in
    let next : length front + 1 ≡ length (front ++ (c ∷ [])) =
      omega (arith, length-append front (c ∷ [])) in
    let less : sub32 siz 1 ≡ siz - 1 = omega arith in
    let rest =
      put_text_fits chars (front ++ (c ∷ [])) used behind (siz - 1) (omega arith) (omega arith)
        (omega arith) in
    rw
      (
        some_room,
        store_append front (used ++ behind) u c,
        less,
        next,
        sym (append_assoc front (c ∷ []) (used ++ behind)),
        rest,
        append_assoc front (c ∷ []) (chars ++ behind),
      )
      refl

put_text-length :
    (chars buffer : List ℕ) (at siz : ℕ)
    → at + siz ≤ length buffer
    → siz < 2 ^ 32
    → (after : List ℕ) × (put_text buffer at siz chars ≡ ok after) × (length after ≡ length buffer)
unfolding put_text
put_text-length [] buffer at siz h small = (buffer, refl, refl)
put_text-length (c ∷ chars) buffer at siz h small = elim (dec_lt 0 siz) [
  | yes room ↦
      let some_room : (siz == 0) ≡ false = ground arith in
      let kept = length-set buffer at c in
      let (after, e, len) =
        put_text-length chars (set buffer at c) (at + 1) (sub32 siz 1) (omega arith)
          (omega arith) in
      (after, rw (some_room, store_lem buffer at c (omega arith)) e, len ∙ kept)
  | no full ↦
      let no_room : (siz == 0) ≡ true = ground arith in
      let (after, e, len) = put_text-length chars buffer at siz h small in
      (after, rw no_room e, len)
]

vsnprintf_parts :
    (num_buffer used tail fmt output : List ℕ) (z size : ℕ) (args : List Arg)
    → length used ≡ length output
    → length output < size
    → size < 2 ^ 32
    → formatv num_buffer fmt args ≡ ok output
    → vsnprintf num_buffer (used ++ (z ∷ tail)) size fmt args
      ≡ ok (length output + 1, overwrite (output ++ (0 ∷ [])) (used ++ (z ∷ tail)))
unfolding vsnprintf
vsnprintf_parts num_buffer used tail fmt output z size args same fits small printed =
    let filled =
      put_text_fits output [] used (z ∷ tail) (sub32 size 1) same (omega arith) (omega arith) in
    rw (printed, filled, store_append output tail z 0, overwrite-append output used tail z same)
      refl

vsnprintf_split :
    (num_buffer used behind fmt output : List ℕ) (size : ℕ) (args : List Arg)
    → length used ≡ length output
    → 0 < length behind
    → length output < size
    → size < 2 ^ 32
    → formatv num_buffer fmt args ≡ ok output
    → vsnprintf num_buffer (used ++ behind) size fmt args
      ≡ ok (length output + 1, overwrite (output ++ (0 ∷ [])) (used ++ behind))
vsnprintf_split num_buffer used [] fmt output size args same more fits small printed =
    absurd (omega arith)
vsnprintf_split num_buffer used (z ∷ tail) fmt output size args same more fits small printed =
    vsnprintf_parts num_buffer used tail fmt output z size args same fits small printed

-- Into a buffer of `size` bytes, 0 < `size` < 2 ^ 32, `vsnprintf` writes an output of `formatv` that
-- is shorter than `size` in front, with a 0 behind it, and returns one more than its length; for a
-- longer output it writes the 0 behind the buffer.
pub vsnprintf_lem :
    (num_buffer buffer fmt output : List ℕ) (size : ℕ) (args : List Arg)
    → length buffer ≡ size
    → 0 < size
    → size < 2 ^ 32
    → formatv num_buffer fmt args ≡ ok output
    → (length output < size
        → vsnprintf num_buffer buffer size fmt args
          ≡ ok (length output + 1, overwrite (output ++ (0 ∷ [])) buffer))
      × (size ≤ length output → vsnprintf num_buffer buffer size fmt args ≡ fail out_of_range)
unfolding vsnprintf
vsnprintf_lem num_buffer buffer fmt output size args len pos small printed = (
  λ fits.
      let (whole, used) = split_at (length output) buffer (omega arith) in
      let rest : 0 < length (drop (length output) buffer) = omega (
        arith,
        ap length whole,
        length-append (take (length output) buffer) (drop (length output) buffer),
      ) in
      ap (λ (b : List ℕ). vsnprintf num_buffer b size fmt args) whole
      ∙ vsnprintf_split num_buffer _ _ fmt output size args used rest fits small printed
      ∙ rw (sym whole) refl,
  λ long.
      let less : sub32 size 1 ≡ size - 1 = omega arith in
      let (after, e, same) =
        put_text-length output buffer 0 (size - 1) (omega arith) (omega arith) in
      let behind : ltb (length output) (length after) ≡ false = ground arith in
      rw (printed, less, e, behind) refl,
)
