-- ===== src/Initrd/Reading.antt =====
-- What `initrd_read` and the copy handler give of the ramdisk, and `initrd_get_file` of its files.
use rastapopoulos.Base.{
  Bool-cases, List, [], ap, arith, drop, false, if◌then◌else◌, inl, inr, length, ltb, min, ok, refl,
  suc, take, true, zero, ℕ, ◌-◌, ◌<◌, ◌==◌, ◌∙◌, ◌∷◌, ◌≡◌, ◌≤◌,
}
use rastapopoulos.Initrd.{Initrd, first_bytes, initrd_read, minus_one, syscall_initrd_copy_handler}
use rastapopoulos.Initrd.Archive.{take_whole}

first_bytes_lem :
    (n : ℕ) (block : List ℕ) → n ≤ length block → first_bytes n block ≡ ok (take n block)
unfolding first_bytes
first_bytes_lem zero block h = refl
first_bytes_lem (suc n) [] h = absurd (omega arith)
first_bytes_lem (suc n) (b ∷ block) h = rw (first_bytes_lem n block (omega arith)) refl

length-drop : (n : ℕ) (xs : List ℕ) → length (drop n xs) ≡ length xs - n
length-drop zero xs = omega arith
length-drop (suc n) [] = omega arith
length-drop (suc n) (x ∷ xs) = omega (arith, length-drop n xs)

-- On a ramdisk that was loaded: `initrd_read` returns -1 for an offset behind its end, and otherwise
-- as many bytes from there as are asked for and there are; no read runs over its end. The copy
-- handler copies the whole ramdisk if the buffer has room for it, and nothing otherwise.
pub reads_lem :
    (s : Initrd) (size offset : ℕ)
    → s.initrd_size ≡ length s.initrd_data
    → (s.initrd_size < offset → initrd_read s size offset ≡ ok (minus_one, []))
      × (offset ≤ s.initrd_size
          → initrd_read s size offset
            ≡ ok (
              min size (s.initrd_size - offset),
              take (min size (s.initrd_size - offset)) (drop offset s.initrd_data),
            ))
      × (syscall_initrd_copy_handler s size
          ≡ ok (if ltb size s.initrd_size then (minus_one, []) else (s.initrd_size, s.initrd_data)))
unfolding initrd_read syscall_initrd_copy_handler
reads_lem s size offset whole = (
  λ outside. let test : ltb s.initrd_size offset ≡ true = ground arith in rw test refl,
  λ inside.
      let outside : ltb s.initrd_size offset ≡ false = ground arith in
      elim (Bool-cases (s.initrd_size - offset == 0)) [
        | inl at_end ↦
            let nothing : min size (s.initrd_size - offset) ≡ 0 = ground arith in
            rw (outside, at_end, nothing) refl
        | inr more ↦
            let count : (if ltb (s.initrd_size - offset) size then s.initrd_size - offset else size)
                ≡ min size (s.initrd_size - offset) =
              ground arith in
            let copied =
              first_bytes_lem (min size (s.initrd_size - offset)) (drop offset s.initrd_data)
                (omega (arith, length-drop offset s.initrd_data)) in
            rw (outside, more, count, copied) refl
      ],
  let copied =
        first_bytes_lem s.initrd_size s.initrd_data (omega arith)
        ∙ ap ok (take_whole s.initrd_data s.initrd_size (omega arith)) in
      elim (Bool-cases (ltb size s.initrd_size)) [
        | inl small ↦ rw small refl
        | inr large ↦ rw (large, copied) refl
      ],
)
