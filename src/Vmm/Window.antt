-- ===== src/Vmm/Window.antt =====
-- Through the last entry of the directory the kernel reaches the directory and its tables.
use rastapopoulos.Base.{
  List, arith, if◌then◌else◌, ok, refl, some, sym, ℕ, ◌%◌, ◌/◌, ◌<◌, ◌==◌, ◌∙◌, ◌≡◌, ◌≢◌,
}
use rastapopoulos.Pmm.{Region}
use rastapopoulos.Vmm.{
  Memory, clear_page, current_pagedir, dir_index, frame_bits, get_pagetable, put_word, read_word,
  table_index, translate, translate_write, write_word,
}
use rastapopoulos.Vmm.Tables.{IsValid}

dir_translate : (m : Memory) → IsValid m → translate m current_pagedir ≡ some m.cr3
unfolding translate
dir_translate m v = rw (v.self_frame, v.self_present, v.self_frame) refl

table_translate :
    (m : Memory) (d : ℕ)
    → IsValid m
    → d < 1024
    → m.frames m.cr3 d % 2 ≡ 1
    → translate m (get_pagetable d) ≡ some (frame_bits (m.frames m.cr3 d))
unfolding translate
table_translate m d v small present =
    let last : dir_index (get_pagetable d) ≡ 1023 = omega arith in
    let this : table_index (get_pagetable d) ≡ d = omega arith in
    rw (last, this, v.self_frame, v.self_present, present) refl

dir_translate_write : (m : Memory) → IsValid m → translate_write m current_pagedir ≡ some m.cr3
unfolding translate_write
dir_translate_write m v = rw (v.self_frame, v.self_writable) (dir_translate m v)

table_translate_write :
    (m : Memory) (d : ℕ)
    → IsValid m
    → d < 1023
    → m.frames m.cr3 d % 2 ≡ 1
    → translate_write m (get_pagetable d) ≡ some (frame_bits (m.frames m.cr3 d))
unfolding translate_write
table_translate_write m d v small present =
    let last : dir_index (get_pagetable d) ≡ 1023 = omega arith in
    let this : table_index (get_pagetable d) ≡ d = omega arith in
    let writable : m.frames m.cr3 d / 2 % 2 ≡ 1 = omega (arith, v.open_tables d small present) in
    let reads = table_translate m d v (omega arith) present in
    rw (last, this, v.self_frame, v.self_writable, writable) reads

pub read_dir :
    (m : Memory) (i : ℕ) → IsValid m → read_word m current_pagedir i ≡ ok (m.frames m.cr3 i)
unfolding read_word
read_dir m i v = rw (read_word, dir_translate m v) refl

pub read_table :
    (m : Memory) (d i : ℕ)
    → IsValid m
    → d < 1024
    → m.frames m.cr3 d % 2 ≡ 1
    → read_word m (get_pagetable d) i ≡ ok (m.frames (frame_bits (m.frames m.cr3 d)) i)
unfolding read_word
read_table m d i v small present = rw (read_word, table_translate m d v small present) refl

pub write_table :
    (m : Memory) (d i w : ℕ)
    → IsValid m
    → d < 1023
    → m.frames m.cr3 d % 2 ≡ 1
    → write_word m (get_pagetable d) i w
      ≡ ok (record m { frames = put_word m.frames (frame_bits (m.frames m.cr3 d)) i w })
unfolding write_word
write_table m d i w v small present =
    rw (write_word, table_translate_write m d v small present) refl

pub write_dir :
    (m : Memory) (i w : ℕ)
    → IsValid m
    → write_word m current_pagedir i w ≡ ok (record m { frames = put_word m.frames m.cr3 i w })
unfolding write_word
write_dir m i w v = rw (write_word, dir_translate_write m v) refl

-- The same when the regions of the page allocator have just changed.
pub write_dir_with :
    (m : Memory) (rs : List Region) (i w : ℕ)
    → IsValid m
    → write_word (record m { regions = rs }) current_pagedir i w
      ≡ ok (record m { regions = rs; frames = put_word m.frames m.cr3 i w })
unfolding write_word translate_write translate
write_dir_with m rs i w v =
    let same : translate_write (record m { regions = rs }) current_pagedir ≡ some m.cr3 =
      dir_translate_write m v in
    rw (write_word, same) refl

pub clear_table :
    (m : Memory) (d : ℕ)
    → IsValid m
    → d < 1023
    → m.frames m.cr3 d % 2 ≡ 1
    → clear_page m (get_pagetable d)
      ≡ ok (record m {
        frames = λ g j. if g == frame_bits (m.frames m.cr3 d) then 0 else m.frames g j;
      })
unfolding clear_page
clear_table m d v small present = rw (clear_page, table_translate_write m d v small present) refl

-- Table `d`, if it is there, is in another frame than the directory.
pub table-ne-dir :
    (m : Memory) (d : ℕ)
    → IsValid m
    → d < 1023
    → m.frames m.cr3 d % 2 ≡ 1
    → frame_bits (m.frames m.cr3 d) ≢ m.cr3
table-ne-dir m d v small present e =
    let same =
      v.apart d 1023 (omega arith) (omega arith) present v.self_present (e ∙ sym v.self_frame) in
    omega (arith, same)
