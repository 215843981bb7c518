-- ===== src/Initrd/Tests.antt =====
-- Runs of kernel/initrd.c on an archive of one file, and its theorems at it.
use rastapopoulos.Base.{
  [], arith, assertion_failed, fail, false, length, none, ok, refl, replicate, some, true, ◌<◌, ◌∷◌,
  ◌≡◌, ◌≤◌,
}
use rastapopoulos.Base.Words.{align}
use rastapopoulos.Initrd.{
  Initrd, first_bytes, getsize, getsize_loop, initrd_get_file, initrd_init, initrd_read, load_file,
  load_files, minus_one, syscall_initrd_copy_handler,
}
use rastapopoulos.Initrd.Archive.{Entry, EntryIsValid, archive, file_of, octal}
use rastapopoulos.Initrd.Loading.{archive-initrd_init}
use rastapopoulos.Initrd.Names.{get_file-file_of, name_of}
use rastapopoulos.Initrd.Reading.{reads_lem}
use rastapopoulos.Strings.{strlcpy}

abbrev hello : Entry
hello = record {
  initial = b'h';
  name = b'i' ∷ [];
  fill = replicate 97 0;
  fields = replicate 24 b'0';
  other = replicate 377 0;
  contents = 1 ∷ 2 ∷ 3 ∷ [];
  padding = replicate 509 0;
}

hello-IsValid : EntryIsValid hello
unfolding align
hello-IsValid = record {
  no_nul = (omega arith, omega arith, (omega arith, omega arith, tt));
  name_room = refl;
  fields_room = refl;
  other_room = refl;
  some_contents = omega arith;
  contents_small = omega arith;
  padded = refl;
}

abbrev empty : Initrd
empty = record { initrd_size = 0; initrd_data = []; files = [] }

initrd_runs :
    (getsize (octal 11 0x123456) ≡ ok 0x123456)
    × (initrd_init false 1 [] empty ≡ ok empty)
    × (initrd_init true 1 (archive (record hello { contents = []; padding = [] } ∷ []) []) empty
        ≡ fail assertion_failed)
unfolding getsize getsize_loop octal initrd_init load_files archive load_file strlcpy first_bytes
    align
initrd_runs = (refl, refl, refl)

archive-initrd_init_example :
    initrd_init true 1 (archive (hello ∷ []) []) empty
    ≡ ok (record {
      initrd_size = length (archive (hello ∷ []) []);
      initrd_data = archive (hello ∷ []) [];
      files = file_of hello ∷ [];
    })
archive-initrd_init_example =
    archive-initrd_init (hello ∷ []) [] 1 empty (hello-IsValid, tt) (omega arith) refl

get_file-file_of_example :
    (initrd_get_file
        (record { initrd_size = 0; initrd_data = []; files = [] })
        (b'h' ∷ b'i' ∷ 0 ∷ [])
      ≡ ok none)
    × (name_of hello ≡ b'h' ∷ b'i' ∷ []
        → initrd_get_file
            (record { initrd_size = 0; initrd_data = []; files = file_of hello ∷ [] })
            (b'h' ∷ b'i' ∷ 0 ∷ [])
          ≡ ok (some (file_of hello)))
get_file-file_of_example =
    get_file-file_of [] [] hello (b'h' ∷ b'i' ∷ []) [] 0 [] tt hello-IsValid
      (omega arith, omega arith, (omega arith, omega arith, tt)) tt

abbrev four_bytes : Initrd
four_bytes = record { initrd_size = 4; initrd_data = 1 ∷ 2 ∷ 3 ∷ 4 ∷ []; files = [] }

reads_lem_example :
    (4 < 3 → initrd_read four_bytes 5 3 ≡ ok (minus_one, []))
    × (3 ≤ 4 → initrd_read four_bytes 5 3 ≡ ok (1, 4 ∷ []))
    × (syscall_initrd_copy_handler four_bytes 5 ≡ ok (4, 1 ∷ 2 ∷ 3 ∷ 4 ∷ []))
reads_lem_example = reads_lem four_bytes 5 3 refl
