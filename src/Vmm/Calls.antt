-- ===== src/Vmm/Calls.antt =====
-- The calls on a page that may be mapped: `vmm_unmap`, `vmm_remap`, and the lookups.
-- An entry that is mapped keeps its frame under new flags; one whose lowest bit is cleared is not
-- mapped.
use mathlib.Core.Path.{subst}
use rastapopoulos.Base.{
  Option, Outcome, ap, arith, assert, assertion_failed, bit_or, fail, false, if◌then◌else◌, none,
  ok, refl, some, sym, true, ℕ, ◌%◌, ◌&&◌, ◌-◌, ◌<◌, ◌==◌, ◌^◌, ◌∙◌, ◌≡◌,
}
use rastapopoulos.Pmm.{page_size}
use rastapopoulos.Vmm.{
  Memory, dir_index, frame_bits, get_pagetable, is_present, mapped_entry, table_index, va_info_ex,
  vmm_get_flags, vmm_get_physical, vmm_remap, vmm_unmap, write_word,
}
use rastapopoulos.Vmm.Found.{
  found, found_entry, found_no_entry, found_no_table, mapped_entry-none, mapped_entry-some,
  va_info_ex_lem,
}
use rastapopoulos.Vmm.Mapping.{entry_of, with_entry, with_entry-Entered}
use rastapopoulos.Vmm.Tables.{IsValid, entry_lem, mapping}
use rastapopoulos.Vmm.Window.{write_table}

remapped_entry :
    (pte flags : ℕ)
    → pte < 2 ^ 32
    → flags < 4096
    → flags % 2 ≡ 1
    → entry_of (bit_or (frame_bits pte) flags) ≡ some (frame_bits pte, flags)
remapped_entry pte flags small low odd =
    let (frame, bits) = entry_lem (frame_bits pte) flags (omega arith) (omega arith) low in
    let there : is_present (bit_or (frame_bits pte) flags) ≡ true = ground (arith, bits) in
    rw (there, frame, bits) refl

unmapped_entry : (pte : ℕ) → entry_of (pte - pte % 2) ≡ none
unmapped_entry pte = let gone : is_present (pte - pte % 2) ≡ false = ground arith in rw gone refl

abbrev pub lookup : Memory → ℕ → Option (ℕ × ℕ)
lookup m va = mapping m (dir_index va) (table_index va)

-- The page at an address is mapped otherwise, and no other below the window of the tables.
pub record MappedTo (m : Memory) (va : ℕ) (new : Option (ℕ × ℕ)) (result : Outcome Memory)
    : Type 0 where
  pub after : Memory
  pub returns : result ≡ ok after
  pub valid : IsValid after
  pub pages :
      (e i : ℕ)
      → e < 1023
      → mapping after e i
        ≡ (if e == dir_index va && i == table_index va then new else mapping m e i)

pub entered-MappedTo :
    (m : Memory) (va w : ℕ) (new : Option (ℕ × ℕ))
    → IsValid m
    → va < 0xFFC00000
    → m.frames m.cr3 (dir_index va) % 2 ≡ 1
    → w < 2 ^ 32
    → entry_of w ≡ new
    → MappedTo m va new (write_word m (get_pagetable (dir_index va)) (table_index va) w)
entered-MappedTo m va w new v below there range e =
    let entered =
      with_entry-Entered m (dir_index va) (table_index va) w v (omega arith) there range in
    record {
      after = with_entry m (dir_index va) (table_index va) w;
      returns = write_table m (dir_index va) (table_index va) w v (omega arith) there;
      valid = entered.valid;
      pages = λ d i less.
          entered.entries d i (omega arith)
          ∙ ap
              (λ (x : Option (ℕ × ℕ)).
                if d == dir_index va && i == table_index va then x else mapping m d i)
              e;
    }

abbrev frame_of : Option (ℕ × ℕ) → ℕ
frame_of none = 0
frame_of (some (frame, bits)) = frame

module _ (m : Memory) (va : ℕ) (v : IsValid m) (aligned : va % page_size ≡ 0) where
  unmap_lem :
      (pte : ℕ)
      → mapped_entry va m ≡ ok pte
      → vmm_unmap va m
        ≡ write_word m (get_pagetable (dir_index va)) (table_index va) (pte - pte % 2)
  unfolding vmm_unmap
  unmap_lem pte e =
      let paging : assert m.is_paging ≡ ok tt = ap assert v.paging in
      let page : (va % page_size == 0) ≡ true = ground arith in rw (vmm_unmap, paging, page, e) refl

  remap_lem :
      (pte flags : ℕ)
      → flags % 2 ≡ 1
      → mapped_entry va m ≡ ok pte
      → vmm_remap va flags m
        ≡ write_word m
            (get_pagetable (dir_index va))
            (table_index va)
            (bit_or (frame_bits pte) flags)
  unfolding vmm_remap
  remap_lem pte flags odd e =
      let paging : assert m.is_paging ≡ ok tt = ap assert v.paging in
      let page : (va % page_size == 0) ≡ true = ground arith in
      rw (vmm_remap, paging, page, odd, e) refl

  lookups_lem :
      (frame bits : ℕ)
      → va_info_ex va m ≡ ok (frame, bits)
      → (vmm_get_physical va m ≡ ok frame) × (vmm_get_flags va m ≡ ok bits)
  unfolding vmm_get_physical vmm_get_flags
  lookups_lem frame bits e =
      let page : (va % page_size == 0) ≡ true = ground arith in
      (rw (vmm_get_physical, page, e) refl, rw (vmm_get_flags, page, e) refl)

  refused_lem :
      (flags : ℕ)
      → flags % 2 ≡ 1
      → mapped_entry va m ≡ fail assertion_failed
      → (vmm_unmap va m ≡ fail assertion_failed) × (vmm_remap va flags m ≡ fail assertion_failed)
  unfolding vmm_unmap vmm_remap
  refused_lem flags odd e =
      let paging : assert m.is_paging ≡ ok tt = ap assert v.paging in
      let page : (va % page_size == 0) ≡ true = ground arith in
      (rw (vmm_unmap, paging, page, e) refl, rw (vmm_remap, paging, page, odd, e) refl)

  changes_lem :
      (flags frame bits : ℕ)
      → va < 0xFFC00000
      → flags < 4096
      → flags % 2 ≡ 1
      → lookup m va ≡ some (frame, bits)
      → MappedTo m va none (vmm_unmap va m)
        × MappedTo m va (some (frame, flags)) (vmm_remap va flags m)
  changes_lem flags frame bits below low odd e = elim (found m (dir_index va) (table_index va)) [
    | found_no_entry pte there table gone f ↦ absurd (ground (arith, e, f))
    | found_no_table gone f ↦ absurd (ground (arith, e, f))
    | found_entry pte there table mapped f ↦
        let known = mapped_entry-some m va v pte there table mapped in
        let range = v.word_range (frame_bits (m.frames m.cr3 (dir_index va))) (table_index va) in
        let this : frame_bits pte ≡ frame = ap frame_of (sym f ∙ e) in
        let small : pte < 2 ^ 32 = omega (arith, table, range) in
        let (whole, low_bits) = entry_lem (frame_bits pte) flags (omega arith) (omega arith) low in
        (
          subst (MappedTo m va none) (sym (unmap_lem pte known)) (
              entered-MappedTo m va (pte - pte % 2) none v below there (omega arith)
                (unmapped_entry pte)),
          subst (MappedTo m va (some (frame, flags))) (sym (remap_lem pte flags odd known)) (
              entered-MappedTo m va (bit_or (frame_bits pte) flags) (some (frame, flags)) v below
                there (omega (arith, whole, low_bits))
                (remapped_entry pte flags small low odd ∙ ap (λ (x : ℕ). some (x, flags)) this)),
        )
  ]

-- On sound tables, for an aligned address below the window of the tables. The lookups return the
-- frame and the flags of the page, 0 if it is not mapped. Unmapping or remapping a page that is not
-- mapped fails an assertion. Otherwise the tables stay sound, unmapping takes the page out of the
-- mapping, and remapping gives it the new flags, which have the bit for present, and leaves it its
-- frame; no other page below the window changes.
pub page_calls-MappedTo :
    (m : Memory) (va flags : ℕ)
    → IsValid m
    → va % page_size ≡ 0
    → va < 0xFFC00000
    → flags < 4096
    → flags % 2 ≡ 1
    → (lookup m va ≡ none
        → (vmm_unmap va m ≡ fail assertion_failed)
          × (vmm_remap va flags m ≡ fail assertion_failed)
          × (vmm_get_physical va m ≡ ok 0)
          × (vmm_get_flags va m ≡ ok 0))
      × ((frame bits : ℕ)
          → lookup m va ≡ some (frame, bits)
          → MappedTo m va none (vmm_unmap va m)
            × MappedTo m va (some (frame, flags)) (vmm_remap va flags m)
            × (vmm_get_physical va m ≡ ok frame)
            × (vmm_get_flags va m ≡ ok bits))
page_calls-MappedTo m va flags v aligned below low odd = (
  λ e.
      let known = va_info_ex_lem m va v in
      let (unmap, remap) = refused_lem m va v aligned flags odd (mapped_entry-none m va v e) in
      let (frame, bits) = lookups_lem m va v aligned 0 0 (known ∙ rw e refl) in
      (unmap, remap, frame, bits),
  λ frame bits e.
      let known = va_info_ex_lem m va v in
      let (unmap, remap) = changes_lem m va v aligned flags frame bits below low odd e in
      let (physical, flags_now) = lookups_lem m va v aligned frame bits (known ∙ rw e refl) in
      (unmap, remap, physical, flags_now),
)
