-- ===== src/Vmm/Found.antt =====
-- What the two reads of `mapped_entry` and `va_info_ex` find.
use rastapopoulos.Base.{
  Bool-cases, ap, arith, assert, assertion_failed, fail, false, inl, inr, none, ok, refl, some, ℕ,
  ◌%◌, ◌≡◌,
}
use rastapopoulos.Vmm.{
  Memory, dir_index, flag_bits, frame_bits, is_present, mapped_entry, table_index, va_info_ex,
}
use rastapopoulos.Vmm.Mapping.{mapping_by}
use rastapopoulos.Vmm.Tables.{IsValid, mapping}
use rastapopoulos.Vmm.Window.{read_dir, read_table}

pub data Found (m : Memory) (d t : ℕ) : Type 0 where
  found_entry :
      (pte : ℕ)
      → m.frames m.cr3 d % 2 ≡ 1
      → m.frames (frame_bits (m.frames m.cr3 d)) t ≡ pte
      → pte % 2 ≡ 1
      → mapping m d t ≡ some (frame_bits pte, flag_bits pte)
      → Found m d t
  found_no_entry :
      (pte : ℕ)
      → m.frames m.cr3 d % 2 ≡ 1
      → m.frames (frame_bits (m.frames m.cr3 d)) t ≡ pte
      → is_present pte ≡ false
      → mapping m d t ≡ none
      → Found m d t
  found_no_table : is_present (m.frames m.cr3 d) ≡ false → mapping m d t ≡ none → Found m d t

pub found : (m : Memory) (d t : ℕ) → Found m d t
found m d t =
    let pte = m.frames (frame_bits (m.frames m.cr3 d)) t in
    let known = mapping_by m d t (m.frames m.cr3 d) pte refl refl in
    elim (Bool-cases (is_present (m.frames m.cr3 d))) [
      | inr gone ↦ found_no_table gone (rw (known, gone) refl)
      | inl there ↦ elim (Bool-cases (is_present pte)) [
        | inl mapped ↦
            found_entry pte (ground arith) refl (ground arith) (rw (known, there, mapped) refl)
        | inr gone ↦ found_no_entry pte (ground arith) refl gone (rw (known, there, gone) refl)
      ]
    ]

module _ (m : Memory) (va : ℕ) (v : IsValid m) where
  pub mapped_entry-some :
      (pte : ℕ)
      → m.frames m.cr3 (dir_index va) % 2 ≡ 1
      → m.frames (frame_bits (m.frames m.cr3 (dir_index va))) (table_index va) ≡ pte
      → pte % 2 ≡ 1
      → mapped_entry va m ≡ ok pte
  unfolding mapped_entry
  mapped_entry-some pte there e mapped =
      let dir = read_dir m (dir_index va) v in
      let table = read_table m (dir_index va) (table_index va) v (omega arith) there in
      rw (mapped_entry, dir, there, table, e, mapped) refl

  pub mapped_entry-none :
      mapping m (dir_index va) (table_index va) ≡ none → mapped_entry va m ≡ fail assertion_failed
  unfolding mapped_entry
  mapped_entry-none e =
      let dir = read_dir m (dir_index va) v in
      elim (found m (dir_index va) (table_index va)) [
        | found_entry pte there table mapped f ↦ absurd (ground (arith, e, f))
        | found_no_entry pte there table gone f ↦
            let reads = read_table m (dir_index va) (table_index va) v (omega arith) there in
            rw (mapped_entry, dir, there, reads, table, gone) refl
        | found_no_table gone f ↦ rw (mapped_entry, dir, gone) refl
      ]

  -- The lookups of an aligned address give what the page is mapped to, and 0 if it is not mapped.
  pub va_info_ex_lem :
      va_info_ex va m
      ≡ ok (elim (mapping m (dir_index va) (table_index va)) [ none ↦ (0, 0) | some e ↦ e ])
  unfolding va_info_ex
  va_info_ex_lem =
      let dir = read_dir m (dir_index va) v in
      let paging : assert m.is_paging ≡ ok tt = ap assert v.paging in
      elim (found m (dir_index va) (table_index va)) [
        | found_entry pte there table mapped f ↦
            let reads = read_table m (dir_index va) (table_index va) v (omega arith) there in
            rw (va_info_ex, f, paging, dir, there, reads, table, mapped) refl
        | found_no_entry pte there table gone f ↦
            let reads = read_table m (dir_index va) (table_index va) v (omega arith) there in
            rw (va_info_ex, f, paging, dir, there, reads, table, gone) refl
        | found_no_table gone f ↦ rw (va_info_ex, f, paging, dir, gone) refl
      ]
