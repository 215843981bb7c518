-- ===== src/Vmm/Map.antt =====
-- `vmm_map` on sound tables.
-- The ends of `vmm_map`: the page is mapped; it was mapped before; or a frame for its table was wanted
-- and could not be had.
use mathlib.Core.Path.{subst}
use rastapopoulos.Base.{
  Bool-cases, Option, Outcome, aborted, ap, arith, assert, assertion_failed, bit_or, fail, false,
  if◌then◌else◌, inl, inr, none, ok, refl, some, sym, true, ℕ, ◌%◌, ◌&&◌, ◌<◌, ◌==◌, ◌^◌, ◌∙◌, ◌≡◌,
  ◌≢◌, ◌⊎◌,
}
use rastapopoulos.Pmm.{invalid_frame, page_size}
use rastapopoulos.Pmm.Alloc.{HasTrap, alloc-Allocates, allocated, exhausted, stopped}
use rastapopoulos.Pmm.Spec.{status}
use rastapopoulos.Vmm.{
  Memory, dir_index, flag_bits, frame_bits, get_pagetable, is_present, map_in_table, map_new_table,
  table_index, vmm_map, write_word,
}
use rastapopoulos.Vmm.Calls.{MappedTo, entered-MappedTo, lookup}
use rastapopoulos.Vmm.Mapping.{entry_of, mapping_by}
use rastapopoulos.Vmm.NewTable.{
  clear_lem, frame-Given, new_table_entered, there_now, with_table, with_table-IsValid,
}
use rastapopoulos.Vmm.Tables.{IsValid, entry_lem, mapping}
use rastapopoulos.Vmm.Window.{read_dir, read_table, write_dir_with}

pub data Maps (m : Memory) (va pa flags : ℕ) (result : Outcome Memory) : Type 0 where
  now_mapped :
      lookup m va ≡ none → MappedTo m va (some (pa, flags)) result → Maps m va pa flags result
  was_mapped :
      (e : ℕ × ℕ) → lookup m va ≡ some e → result ≡ fail aborted → Maps m va pa flags result
  no_frame :
      lookup m va ≡ none
      → is_present (m.frames m.cr3 (dir_index va)) ≡ false
      → ((page : ℕ) → page % page_size ≡ 0 → status m.regions page ≢ some false) ⊎ HasTrap m.regions
      → result ≡ fail assertion_failed
      → Maps m va pa flags result

new_entry :
    (pa flags : ℕ)
    → frame_bits (bit_or pa flags) ≡ pa
    → flag_bits (bit_or pa flags) ≡ flags
    → flags % 2 ≡ 1
    → entry_of (bit_or pa flags) ≡ some (pa, flags)
new_entry pa flags frame bits odd =
    let there : is_present (bit_or pa flags) ≡ true = ground (arith, bits) in
    rw (there, frame, bits) refl

module _ (m : Memory) (va pa flags : ℕ) (v : IsValid m) (below : va < 0xFFC00000) where
  in_table-Maps :
      pa % page_size ≡ 0
      → pa < 2 ^ 32
      → flags < 4096
      → flags % 2 ≡ 1
      → m.frames m.cr3 (dir_index va) % 2 ≡ 1
      → Maps m va pa flags (map_in_table va pa flags m)
  unfolding map_in_table
  in_table-Maps aligned small low odd there =
      let pte = m.frames (frame_bits (m.frames m.cr3 (dir_index va))) (table_index va) in
      let reads = read_table m (dir_index va) (table_index va) v (omega arith) there in
      let known =
        mapping_by m (dir_index va) (table_index va) (m.frames m.cr3 (dir_index va)) pte refl
          refl in
      let (frame, bits) = entry_lem pa flags aligned small low in
      let whole : frame_bits pa ≡ pa = omega arith in
      elim (Bool-cases (is_present pte)) [
        | inl present ↦
            was_mapped (frame_bits pte, flag_bits pte) (known ∙ rw (there, present) refl)
              (rw (map_in_table, reads, present) refl)
        | inr gone ↦
            let writes : map_in_table va pa flags m
                ≡ write_word m (get_pagetable (dir_index va)) (table_index va) (bit_or pa flags) =
              rw (map_in_table, reads, gone, whole) refl in
            let new : entry_of (bit_or pa flags) ≡ some (pa, flags) =
              new_entry pa flags frame bits odd in
            now_mapped (known ∙ rw (there, gone) refl) (
              subst (MappedTo m va (some (pa, flags))) (sym writes) (
                entered-MappedTo m va (bit_or pa flags) (some (pa, flags)) v below there
                  (omega (arith, frame, bits)) new))
      ]

  new_table-Maps :
      pa % page_size ≡ 0
      → pa < 2 ^ 32
      → flags < 4096
      → flags % 2 ≡ 1
      → is_present (m.frames m.cr3 (dir_index va)) ≡ false
      → Maps m va pa flags (map_new_table va pa flags m)
  unfolding map_new_table
  new_table-Maps aligned small_pa low odd gone =
      let unmapped : lookup m va ≡ none =
        mapping_by m (dir_index va) (table_index va) (m.frames m.cr3 (dir_index va)) _ refl refl
        ∙ rw gone refl in
      elim (alloc-Allocates m.regions v.regions_valid) [
        | exhausted e none_free ↦
            no_frame unmapped gone (inl none_free) (rw (map_new_table, e) refl)
        | stopped e trap ↦ no_frame unmapped gone (inr trap) (rw (map_new_table, e) refl)
        | allocated page after e a was_free changed ↦
            let d = dir_index va in
            let small : d < 1023 = omega arith in
            let given = frame-Given m page after a was_free changed in
            let (frame, bits) = entry_lem pa flags aligned small_pa low in
            let some_frame : (page == invalid_frame) ≡ false = ground arith in
            let new_dir = with_table-IsValid m v d small page after given in
            let there = there_now m v d small page after given in
            let stash = write_dir_with m after d (bit_or page 7) v in
            let reads = read_dir (with_table m after d page) d new_dir in
            let present : is_present ((with_table m after d page).frames m.cr3 d) ≡ true =
              ground (arith, there) in
            let clears = clear_lem m v d small page after given in
            let (final, writes, valid, pages) =
              new_table_entered m v d small page after given (table_index va) (bit_or pa flags) gone
                (omega (arith, frame, bits)) in
            let whole : frame_bits pa ≡ pa = omega arith in
            now_mapped unmapped (record {
              after = final;
              returns =
                  rw (map_new_table, e, some_frame, stash, reads, present, clears, whole) writes;
              valid = valid;
              pages = λ e i less.
                  pages e i less
                  ∙ ap
                      (λ (x : Option (ℕ × ℕ)).
                        if e == d && i == table_index va then x else mapping m e i)
                      (new_entry pa flags frame bits odd);
            })
      ]

-- On sound tables, `vmm_map` of an aligned address below the window of the tables, to an aligned frame
-- below 2^32, with flags that have the bit for present. If the page was mapped it aborts. Otherwise,
-- if the directory has no table for the address, a frame is taken for one, and if no frame can be had
-- an assertion fails. Otherwise the tables stay sound, the page is mapped to the frame with these
-- flags, and no other page below the window changes.
pub vmm_map-Maps :
    (m : Memory) (va pa flags : ℕ)
    → IsValid m
    → va % page_size ≡ 0
    → va < 0xFFC00000
    → pa % page_size ≡ 0
    → pa < 2 ^ 32
    → flags < 4096
    → flags % 2 ≡ 1
    → Maps m va pa flags (vmm_map va pa flags m)
unfolding vmm_map
vmm_map-Maps m va pa flags v aligned below pa_aligned small low odd =
    let paging : assert m.is_paging ≡ ok tt = ap assert v.paging in
    let va_page : (va % page_size == 0) ≡ true = ground arith in
    let pa_page : (pa % page_size == 0) ≡ true = ground arith in
    let reads = read_dir m (dir_index va) v in
    elim (Bool-cases (is_present (m.frames m.cr3 (dir_index va)))) [
      | inl there ↦
          let in_table =
            in_table-Maps m va pa flags v below pa_aligned small low odd (ground (arith, there)) in
          subst (Maps m va pa flags)
            (sym (rw (vmm_map, paging, odd, va_page, pa_page, reads, there) refl)) in_table
      | inr gone ↦
          let new_table = new_table-Maps m va pa flags v below pa_aligned small low odd gone in
          subst (Maps m va pa flags)
            (sym (rw (vmm_map, paging, odd, va_page, pa_page, reads, gone) refl)) new_table
    ]
