-- ===== src/Vmm/Mapping.antt =====
-- What a write to a table does to the mapping of pages.
use native.Mathlib.Decide.{ℕ_discrete}
use rastapopoulos.Base.{
  Bool-cases, Option, ap, arith, if◌then◌else◌, inl, inr, none, refl, some, sym, true, ℕ, ◌%◌, ◌&&◌,
  ◌<◌, ◌==◌, ◌^◌, ◌∙◌, ◌≡◌, ◌≢◌,
}
use rastapopoulos.Vmm.{Memory, flag_bits, frame_bits, is_present, put_word}
use rastapopoulos.Vmm.Tables.{IsValid, mapping}
use rastapopoulos.Vmm.Window.{table-ne-dir}

abbrev pub entry_of : ℕ → Option (ℕ × ℕ)
entry_of w = if is_present w then some (frame_bits w, flag_bits w) else none

-- A write that leaves the directory alone keeps the tables sound.
pub same_dir-IsValid :
    (m : Memory) (f : ℕ → ℕ → ℕ)
    → IsValid m
    → ((e : ℕ) → f m.cr3 e ≡ m.frames m.cr3 e)
    → ((g i : ℕ) → f g i < 2 ^ 32)
    → IsValid (record m { frames = f })
same_dir-IsValid m f v same range = record {
  paging = v.paging;
  cr3_aligned = v.cr3_aligned;
  self_present = rw (same 1023) v.self_present;
  self_writable = rw (same 1023) v.self_writable;
  self_frame = rw (same 1023) v.self_frame;
  word_range = range;
  regions_valid = v.regions_valid;
  open_tables = λ d h. rw (same d) (v.open_tables d h);
  reserved = λ d h. rw (same d) (v.reserved d h);
  apart = λ d e h k. rw (same d, same e) (v.apart d e h k);
}

pub put_word_other : (f : ℕ → ℕ → ℕ) (g i w h j : ℕ) → h ≢ g → put_word f g i w h j ≡ f h j
unfolding put_word
put_word_other f g i w h j ne = ground arith

-- An entry of a table is written.
pub record Entered (m : Memory) (d t w : ℕ) (after : Memory) : Type 0 where
  pub valid : IsValid after
  pub same_pagedir : (e : ℕ) → after.frames after.cr3 e ≡ m.frames m.cr3 e
  pub entries :
      (e i : ℕ)
      → e < 1024
      → mapping after e i ≡ (if e == d && i == t then entry_of w else mapping m e i)

abbrev pub with_entry : Memory → ℕ → ℕ → ℕ → Memory
with_entry m d t w = record m { frames = put_word m.frames (frame_bits (m.frames m.cr3 d)) t w }

-- The same, for an entry that is not there, for the table that was written, and for another table.
pub put_word_same :
    (f : ℕ → ℕ → ℕ) (g i w j : ℕ) → put_word f g i w g j ≡ (if j == i then w else f g j)
unfolding put_word
put_word_same f g i w j = ground arith

pub mapping_by :
    (m : Memory) (e i pde pte : ℕ)
    → m.frames m.cr3 e ≡ pde
    → m.frames (frame_bits pde) i ≡ pte
    → mapping m e i ≡ (if is_present pde then entry_of pte else none)
unfolding mapping
mapping_by m e i pde pte a b = rw (a, b) (ground arith)

mapping_entry :
    (m : Memory) (d t w e i : ℕ)
    → IsValid m
    → d < 1023
    → m.frames m.cr3 d % 2 ≡ 1
    → e < 1024
    → mapping (with_entry m d t w) e i ≡ (if e == d && i == t then entry_of w else mapping m e i)
mapping_entry m d t w e i v small present less =
    let same =
      put_word_other m.frames (frame_bits (m.frames m.cr3 d)) t w m.cr3 e
        (λ q. table-ne-dir m d v small present (sym q)) in
    let f = put_word m.frames (frame_bits (m.frames m.cr3 d)) t w in
    let pde = m.frames m.cr3 e in
    let after = mapping_by (with_entry m d t w) e i pde (f (frame_bits pde) i) same refl in
    let before = mapping_by m e i pde (m.frames (frame_bits pde) i) refl refl in
    elim (ℕ_discrete e d) [
      | yes q ↦
          let hit =
            ap
              (λ (g : ℕ).
                put_word m.frames (frame_bits (m.frames m.cr3 d)) t w
                  (frame_bits (m.frames m.cr3 g)) i)
              q
            ∙ put_word_same m.frames (frame_bits (m.frames m.cr3 d)) t w i in
          let there : is_present pde ≡ true =
            ap (λ (g : ℕ). is_present (m.frames m.cr3 g)) q ∙ ground arith in
          let table : m.frames (frame_bits (m.frames m.cr3 d)) i ≡ m.frames (frame_bits pde) i =
            ap (λ (g : ℕ). m.frames (frame_bits (m.frames m.cr3 g)) i) (sym q) in
          rw (after, before, hit, table, there) (ground (arith, q))
      | no ne ↦ elim (Bool-cases (is_present pde)) [
        | inl there ↦
            let other =
              put_word_other m.frames (frame_bits (m.frames m.cr3 d)) t w (frame_bits pde) i
                (λ q. ne (v.apart e d less (omega arith) (ground arith) present q)) in
            rw (after, before, other) (ground (arith, ne))
        | inr gone ↦ rw (after, before, gone) (ground (arith, ne))
      ]
    ]

pub put_word_range :
    (f : ℕ → ℕ → ℕ) (g i w : ℕ)
    → ((h j : ℕ) → f h j < 2 ^ 32)
    → w < 2 ^ 32
    → (h j : ℕ) → put_word f g i w h j < 2 ^ 32
unfolding put_word
put_word_range f g i w range small h j = ground (arith, range h j)

pub with_entry-Entered :
    (m : Memory) (d t w : ℕ)
    → IsValid m
    → d < 1023
    → m.frames m.cr3 d % 2 ≡ 1
    → w < 2 ^ 32
    → Entered m d t w (with_entry m d t w)
with_entry-Entered m d t w v small present range =
    let same = λ (e : ℕ).
      put_word_other m.frames (frame_bits (m.frames m.cr3 d)) t w m.cr3 e
        (λ q. table-ne-dir m d v small present (sym q)) in
    record {
      valid =
          same_dir-IsValid m _ v same
            (put_word_range m.frames (frame_bits (m.frames m.cr3 d)) t w v.word_range range);
      same_pagedir = same;
      entries = λ e i less. mapping_entry m d t w e i v small present less;
    }
