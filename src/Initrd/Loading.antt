-- ===== src/Initrd/Loading.antt =====
-- `initrd_init` on an archive.
use rastapopoulos.Base.{
  List, [], ap, append-nil, append_assoc, arith, drop, false, length, length-append, ltb, map, ok,
  overwrite, refl, replicate, suc, sym, take, true, zero, ℕ, ◌++◌, ◌+◌, ◌<◌, ◌==◌, ◌∙◌, ◌∷◌, ◌≡◌,
  ◌≤◌,
}
use rastapopoulos.Base.Words.{align}
use rastapopoulos.Initrd.{Initrd, InitrdFile, initrd_init, load_file, load_files}
use rastapopoulos.Initrd.Archive.{
  AllValid, Entry, EntryIsValid, archive, drop_append, file_of, first_bytes_all, getsize_lem,
  length-octal, octal, take_whole,
}
use rastapopoulos.Strings.{strlcpy}
use rastapopoulos.Strings.Bounded.{bounded_copies}

module _ (e : Entry) (entries : List Entry) (rest : List ℕ) (v : EntryIsValid e) where
  abbrev later : List ℕ
  later = archive entries rest

  abbrev size : ℕ
  size = length e.contents

  at_size :
      drop 124 (archive (e ∷ entries) rest)
      ≡ octal 11 size ++ (e.other ++ (e.contents ++ (e.padding ++ later)))
  unfolding archive
  at_size =
      drop_append (e.initial ∷ e.name) _ 124 (length e.fill + 25) (omega (arith, v.name_room))
      ∙ drop_append (0 ∷ e.fill) _ (length e.fill + 25) 24 (omega arith)
      ∙ drop_append e.fields _ 24 0 (omega (arith, v.fields_room))

  at_contents : drop 512 (archive (e ∷ entries) rest) ≡ e.contents ++ (e.padding ++ later)
  unfolding archive
  at_contents =
      drop_append (e.initial ∷ e.name) _ 512 (length e.fill + 413) (omega (arith, v.name_room))
      ∙ drop_append (0 ∷ e.fill) _ (length e.fill + 413) 412 (omega arith)
      ∙ drop_append e.fields _ 412 388 (omega (arith, v.fields_room))
      ∙ drop_append (octal 11 size) _ 388 377 (omega (arith, length-octal 11 size))
      ∙ drop_append e.other _ 377 0 (omega (arith, v.other_room))

  at_next : drop (512 + align size 512) (archive (e ∷ entries) rest) ≡ later
  unfolding archive
  at_next =
      let more = align size 512 in
      drop_append (e.initial ∷ e.name) _ (512 + more) (length e.fill + 413 + more)
        (omega (arith, v.name_room))
      ∙ drop_append (0 ∷ e.fill) _ (length e.fill + 413 + more) (412 + more) (omega arith)
      ∙ drop_append e.fields _ (412 + more) (388 + more) (omega (arith, v.fields_room))
      ∙ drop_append (octal 11 size) _ (388 + more) (377 + more)
          (omega (arith, length-octal 11 size))
      ∙ drop_append e.other _ (377 + more) more (omega (arith, v.other_room))
      ∙ drop_append e.contents _ more (length e.padding) (omega (arith, v.padded))
      ∙ drop_append e.padding _ (length e.padding) 0 (omega arith)

  name_copied :
      strlcpy (replicate 100 0) (archive (e ∷ entries) rest) 100
      ≡ ok (overwrite (e.initial ∷ (e.name ++ (0 ∷ []))) (replicate 100 0))
  unfolding archive
  name_copied =
      let whole : take 99 (e.initial ∷ e.name) ≡ e.initial ∷ e.name =
        take_whole (e.initial ∷ e.name) 99 (omega (arith, v.name_room)) in
      let room : length (take 99 (e.initial ∷ e.name)) < 100 =
        omega (arith, ap length whole, v.name_room) in
      (bounded_copies (e.initial ∷ e.name) [] (replicate 100 0)
          (e.fill
            ++ (e.fields ++ (octal 11 size ++ (e.other ++ (e.contents ++ (e.padding ++ later))))))
          100 v.no_nul tt (omega arith)).0
        room
      ∙ ap (λ (l : List ℕ). ok (overwrite (l ++ (0 ∷ [])) (replicate 100 0))) whole

  load_file_lem : load_file (archive (e ∷ entries) rest) ≡ ok (file_of e)
  unfolding load_file
  load_file_lem =
      let size_read =
        getsize_lem size (e.other ++ (e.contents ++ (e.padding ++ later)))
          (omega (arith, v.contents_small)) in
      let some_bytes : (size == 0) ≡ false = ground (arith, v.some_contents) in
      let copied = first_bytes_all e.contents (e.padding ++ later) in
      rw (load_file, at_size, size_read, name_copied, some_bytes, at_contents, copied) refl

load_files_lem :
    (rounds : ℕ) (entries : List Entry) (rest : List ℕ) (files : List InitrdFile)
    → AllValid entries
    → length entries ≤ rounds
    → load_files (suc rounds) (archive entries rest) files ≡ ok (files ++ map file_of entries)
unfolding load_files archive
load_files_lem rounds [] rest files all enough = ap ok (sym (append-nil files))
load_files_lem zero (e ∷ entries) rest files all enough = absurd (omega arith)
load_files_lem (suc rounds) (e ∷ entries) rest files (v, all) enough =
    let some_name : (e.initial == 0) ≡ false = ground (arith, v.no_nul.0) in
    let loaded = load_file_lem e entries rest v in
    let next = at_next e entries rest v in
    let more = load_files_lem rounds entries rest (files ++ (file_of e ∷ [])) all (omega arith) in
    rw (some_name, loaded, next, more)
      (ap ok (append_assoc files (file_of e ∷ []) (map file_of entries)))

length-archive :
    (entries : List Entry) (rest : List ℕ) → length entries < length (archive entries rest)
unfolding archive
length-archive [] rest = omega arith
length-archive (e ∷ entries) rest =
    let later = length-archive entries rest in
    omega (
      arith,
      later,
      length-append e.name (
          0 ∷ e.fill
          ++ (e.fields
              ++ (octal 11 (length e.contents)
                  ++ (e.other ++ (e.contents ++ (e.padding ++ archive entries rest)))))),
      length-append e.fill (
          e.fields
          ++ (octal 11 (length e.contents)
              ++ (e.other ++ (e.contents ++ (e.padding ++ archive entries rest))))),
      length-append e.fields (
          octal 11 (length e.contents)
          ++ (e.other ++ (e.contents ++ (e.padding ++ archive entries rest)))),
      length-append (octal 11 (length e.contents))
          (e.other ++ (e.contents ++ (e.padding ++ archive entries rest))),
      length-append e.other (e.contents ++ (e.padding ++ archive entries rest)),
      length-append e.contents (e.padding ++ archive entries rest),
      length-append e.padding (archive entries rest),
    )

-- The boot loader's first module is a tar archive of files with names of at most 99 characters, none
-- of them empty, with at least one byte and fewer than 2^32 - 1024 each, whose size stands in the
-- header as 11 octal digits; a 0 stands behind the last, where the next name would begin. Then
-- `initrd_init` ends without a fault, keeps the module and its size, and its list of files has each
-- file of the archive with its name, its size and its contents, in order.
pub archive-initrd_init :
    (entries : List Entry) (rest : List ℕ) (mods_count : ℕ) (s : Initrd)
    → AllValid entries
    → 0 < mods_count
    → s.files ≡ []
    → initrd_init true mods_count (archive entries rest) s
      ≡ ok (record {
        initrd_size = length (archive entries rest);
        initrd_data = archive entries rest;
        files = map file_of entries;
      })
unfolding initrd_init
archive-initrd_init entries rest mods_count s all some_module nothing =
    let len = length-archive entries rest in
    let some_bytes : (length (archive entries rest) == 0) ≡ false = ground (arith, len) in
    let module_there : ltb 0 mods_count ≡ true = ground arith in
    let loaded =
      load_files_lem (length (archive entries rest)) entries rest [] all (omega (arith, len)) in
    rw (module_there, some_bytes, nothing, loaded) refl
