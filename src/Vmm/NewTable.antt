-- ===== src/Vmm/NewTable.antt =====
-- `vmm_map` where the directory has no table for the address: a frame is taken for one.
use rastapopoulos.Pmm.Invariant as Regions
use native.Mathlib.Decide.{ℕ_discrete}
use rastapopoulos.Base.{
  Bool, Bool-cases, List, Option, [], ap, arith, bit_or, false, if◌then◌else◌, inl, inr, ok, refl,
  some, sym, true, ℕ, ◌%◌, ◌&&◌, ◌<◌, ◌==◌, ◌^◌, ◌∙◌, ◌∷◌, ◌≡◌, ◌≢◌,
}
use rastapopoulos.Pmm.{Region, in_region, page_size}
use rastapopoulos.Pmm.Invariant.{Changed}
use rastapopoulos.Pmm.Spec.{status}
use rastapopoulos.Vmm.{
  Memory, clear_page, frame_bits, get_pagetable, is_present, put_word, write_word,
}
use rastapopoulos.Vmm.Mapping.{
  entry_of, mapping_by, put_word_other, put_word_range, put_word_same, same_dir-IsValid, with_entry,
  with_entry-Entered,
}
use rastapopoulos.Vmm.Tables.{IsValid, entry_lem, mapping}
use rastapopoulos.Vmm.Window.{clear_table, table-ne-dir, write_table}

pub page_in_memory :
    (rs : List Region) (page : ℕ) (taken : Bool)
    → Regions.IsValid rs
    → status rs page ≡ some taken
    → page < 2 ^ 32
page_in_memory [] page taken v e = cc
page_in_memory (r ∷ rs) page taken v e = elim (Bool-cases (in_region r page)) [
  | inl inside ↦ let below = v.0.below in ground (arith, below, inside)
  | inr outside ↦ page_in_memory rs page taken v.2 (sym (rw outside refl) ∙ e)
]

-- The directory with a new entry.
abbrev pub with_table : Memory → List Region → ℕ → ℕ → Memory
with_table m regions d table_pa = record m {
  regions = regions;
  frames = put_word m.frames m.cr3 d (bit_or table_pa 7);
}

-- A frame that the page allocator just gave out.
pub record Given (m : Memory) (table_pa : ℕ) (after : List Region) : Type 0 where
  aligned : table_pa % page_size ≡ 0
  was_free : status m.regions table_pa ≡ some false
  changed : Changed m.regions table_pa true after

pub frame-Given :
    (m : Memory) (table_pa : ℕ) (after : List Region)
    → table_pa % page_size ≡ 0
    → status m.regions table_pa ≡ some false
    → Changed m.regions table_pa true after
    → Given m table_pa after
frame-Given m table_pa after a f c = record { aligned = a; was_free = f; changed = c }

module _ (m : Memory) (v : IsValid m) (d : ℕ) (small : d < 1023) (table_pa : ℕ)
    (after : List Region) (given : Given m table_pa after) where
  pub table_entry :
      (frame_bits (bit_or table_pa 7) ≡ table_pa)
      × (bit_or table_pa 7 % 2 ≡ 1)
      × (bit_or table_pa 7 < 2 ^ 32)
  table_entry =
      let below = page_in_memory m.regions table_pa false v.regions_valid given.was_free in
      let (frame, flags) = entry_lem table_pa 7 given.aligned below (omega arith) in
      (frame, omega (arith, flags), omega (arith, frame, flags, below, given.aligned))

  table_flags : bit_or table_pa 7 % 8 ≡ 7
  table_flags =
      let below = page_in_memory m.regions table_pa false v.regions_valid given.was_free in
      let (frame, flags) = entry_lem table_pa 7 given.aligned below (omega arith) in
      omega (arith, flags)

  dir_entry :
      (e : ℕ)
      → (with_table m after d table_pa).frames m.cr3 e
        ≡ (if e == d then bit_or table_pa 7 else m.frames m.cr3 e)
  dir_entry e = put_word_same m.frames m.cr3 d (bit_or table_pa 7) e

  pub new_at : (e : ℕ) → e ≡ d → (with_table m after d table_pa).frames m.cr3 e ≡ bit_or table_pa 7
  new_at e q = let test : (e == d) ≡ true = ground arith in dir_entry e ∙ rw test refl

  old_at : (e : ℕ) → e ≢ d → (with_table m after d table_pa).frames m.cr3 e ≡ m.frames m.cr3 e
  old_at e q = let test : (e == d) ≡ false = ground arith in dir_entry e ∙ rw test refl

  -- No table lies in the frame, since those of the tables were reserved.
  fresh_frame :
      (e : ℕ) → e < 1024 → m.frames m.cr3 e % 2 ≡ 1 → frame_bits (m.frames m.cr3 e) ≢ table_pa
  fresh_frame e less there same =
      let known = v.reserved e less there in
      let wrong : some true ≡ some false =
        sym known ∙ ap (status m.regions) same ∙ given.was_free in
      cc

  still_reserved :
      (q : ℕ) → q % page_size ≡ 0 → status m.regions q ≡ some true → status after q ≡ some true
  still_reserved q a e = let known = given.changed.frames q a in ground (arith, known, e)

  now_reserved : status after table_pa ≡ some true
  now_reserved = let known = given.changed.frames table_pa given.aligned in ground (arith, known)

  reserved_after :
      (e : ℕ)
      → e < 1024
      → (with_table m after d table_pa).frames m.cr3 e % 2 ≡ 1
      → status after (frame_bits ((with_table m after d table_pa).frames m.cr3 e)) ≡ some true
  reserved_after e less there = elim (ℕ_discrete e d) [
    | yes q ↦ rw (new_at e q, table_entry.0) now_reserved
    | no q ↦ rw (old_at e q) (
        still_reserved (frame_bits (m.frames m.cr3 e)) (omega arith)
          (v.reserved e less (omega (arith, old_at e q, there))))
  ]

  apart_after :
      (e g : ℕ)
      → e < 1024
      → g < 1024
      → (with_table m after d table_pa).frames m.cr3 e % 2 ≡ 1
      → (with_table m after d table_pa).frames m.cr3 g % 2 ≡ 1
      → frame_bits ((with_table m after d table_pa).frames m.cr3 e)
        ≡ frame_bits ((with_table m after d table_pa).frames m.cr3 g)
      → e ≡ g
  apart_after e g h k p q same = elim (ℕ_discrete e d) [
    | yes a ↦ elim (ℕ_discrete g d) [
      | yes b ↦ omega (arith, a, b)
      | no b ↦ absurd (
          fresh_frame g k (omega (arith, old_at g b, q))
            (omega (arith, same, new_at e a, old_at g b, table_entry.0)))
    ]
    | no a ↦ elim (ℕ_discrete g d) [
      | yes b ↦ absurd (
          fresh_frame e h (omega (arith, old_at e a, p))
            (omega (arith, same, new_at g b, old_at e a, table_entry.0)))
      | no b ↦
          v.apart e g h k (omega (arith, old_at e a, p)) (omega (arith, old_at g b, q))
            (omega (arith, same, old_at e a, old_at g b))
    ]
  ]

  open_after :
      (e : ℕ)
      → e < 1023
      → (with_table m after d table_pa).frames m.cr3 e % 2 ≡ 1
      → (with_table m after d table_pa).frames m.cr3 e % 8 ≡ 7
  open_after e less there = elim (ℕ_discrete e d) [
    | yes q ↦ rw (new_at e q) table_flags
    | no q ↦ rw (old_at e q) (v.open_tables e less (omega (arith, old_at e q, there)))
  ]

  pub with_table-IsValid : IsValid (with_table m after d table_pa)
  with_table-IsValid =
      let (frame, odd, range) = table_entry in
      record {
        paging = v.paging;
        cr3_aligned = v.cr3_aligned;
        self_present = rw (dir_entry 1023) (ground (arith, v.self_present));
        self_writable = rw (dir_entry 1023) (ground (arith, v.self_writable));
        self_frame = rw (dir_entry 1023) (ground (arith, v.self_frame));
        word_range = put_word_range m.frames m.cr3 d (bit_or table_pa 7) v.word_range range;
        regions_valid = given.changed.valid;
        open_tables = open_after;
        reserved = reserved_after;
        apart = apart_after;
      }

  unfoldable pub cleared : Memory
  cleared = record (with_table m after d table_pa) {
    frames = λ g j.
        if g == frame_bits ((with_table m after d table_pa).frames m.cr3 d)
        then 0
        else (with_table m after d table_pa).frames g j;
  }

  pub there_now : (with_table m after d table_pa).frames m.cr3 d % 2 ≡ 1
  there_now = rw (new_at d refl) table_entry.1

  pub clear_lem : clear_page (with_table m after d table_pa) (get_pagetable d) ≡ ok cleared
  unfolding cleared
  clear_lem = clear_table (with_table m after d table_pa) d with_table-IsValid small there_now

  dir_uncleared : (e : ℕ) → cleared.frames m.cr3 e ≡ (with_table m after d table_pa).frames m.cr3 e
  unfolding cleared
  dir_uncleared e =
      let apart =
        table-ne-dir (with_table m after d table_pa) d with_table-IsValid small there_now in
      let test : (m.cr3 == frame_bits ((with_table m after d table_pa).frames m.cr3 d)) ≡ false =
        ground (arith, apart) in
      rw test refl

  cleared-IsValid : IsValid cleared
  unfolding cleared
  cleared-IsValid =
      same_dir-IsValid (with_table m after d table_pa) _ with_table-IsValid dir_uncleared
        (λ g i. ground (arith, with_table-IsValid.word_range g i))

  cleared_table : (i : ℕ) → cleared.frames table_pa i ≡ 0
  unfolding cleared
  cleared_table i = let this = new_at d refl in rw (this, table_entry.0) (ground arith)

  other_table : (g i : ℕ) → g ≢ table_pa → g ≢ m.cr3 → cleared.frames g i ≡ m.frames g i
  unfolding cleared
  other_table g i p q =
      let this = new_at d refl in
      let test : (g == table_pa) ≡ false = ground arith in
      rw (this, table_entry.0, test) (put_word_other m.frames m.cr3 d (bit_or table_pa 7) g i q)

  -- The new table maps nothing yet.
  mapping-cleared :
      (e i : ℕ)
      → e < 1023
      → is_present (m.frames m.cr3 d) ≡ false
      → mapping cleared e i ≡ mapping m e i
  unfolding cleared
  mapping-cleared e i less gone = elim (ℕ_discrete e d) [
    | yes q ↦
        let new =
          mapping_by cleared e i (bit_or table_pa 7) 0 (dir_uncleared e ∙ new_at e q)
            (ap (λ (g : ℕ). cleared.frames g i) table_entry.0 ∙ cleared_table i) in
        let old =
          mapping_by m e i (m.frames m.cr3 e) (m.frames (frame_bits (m.frames m.cr3 e)) i) refl
            refl in
        let none_there : is_present (m.frames m.cr3 e) ≡ false =
          ap (λ (g : ℕ). is_present (m.frames m.cr3 g)) q ∙ gone in
        rw (new, old, none_there) (ground arith)
    | no q ↦
        let pde = m.frames m.cr3 e in
        let same = dir_uncleared e ∙ old_at e q in
        let old = mapping_by m e i pde (m.frames (frame_bits pde) i) refl refl in
        let new = mapping_by cleared e i pde (cleared.frames (frame_bits pde) i) same refl in
        elim (Bool-cases (is_present pde)) [
          | inr absent ↦ rw (new, old, absent) refl
          | inl there ↦
              let present : m.frames m.cr3 e % 2 ≡ 1 = ground arith in
              let table =
                other_table (frame_bits pde) i (fresh_frame e (omega arith) present)
                  (table-ne-dir m e v less present) in
              rw (new, old, table) refl
        ]
  ]

  -- The new entry is written into the new table.
  pub new_table_entered :
      (t w : ℕ)
      → is_present (m.frames m.cr3 d) ≡ false
      → w < 2 ^ 32
      → (final : Memory) × (write_word cleared (get_pagetable d) t w ≡ ok final)
        × IsValid final
        × ((e i : ℕ)
            → e < 1023
            → mapping final e i ≡ (if e == d && i == t then entry_of w else mapping m e i))
  unfolding cleared
  new_table_entered t w gone range =
      let there : cleared.frames m.cr3 d % 2 ≡ 1 = rw (dir_uncleared d) there_now in
      let entered = with_entry-Entered cleared d t w cleared-IsValid small there range in
      (
        with_entry cleared d t w,
        write_table cleared d t w cleared-IsValid (omega arith) there,
        entered.valid,
        λ e i less.
            entered.entries e i (omega arith)
            ∙ ap (λ (x : Option (ℕ × ℕ)). if e == d && i == t then entry_of w else x)
                (mapping-cleared e i less gone),
      )
