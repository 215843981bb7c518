-- ===== src/Initrd.antt =====
-- kernel/initrd.c: the initial ramdisk, a tar archive that the boot loader leaves in memory.
-- Blocks of memory are lists of bytes; a read behind the end of one is out of range. The contents of
-- the memory that kmalloc gives out are what is copied there, and kmalloc asserts that it is asked
-- for a byte at least.
pub mod Archive
pub mod Loading
pub mod Reading
pub mod Names
mod Tests
use rastapopoulos.Base.{
  Bool, List, Option, Outcome, [], assert, drop, endless, fail, if◌then◌else◌, length, ltb, none,
  not, ok, out_of_range, read, replicate, some, suc, zero, ℕ, ◌*◌, ◌++◌, ◌+◌, ◌-◌, ◌==◌, ◌>>=◌,
  ◌>>◌, ◌∷◌,
}
use rastapopoulos.Base.Words.{align, sub32, u32}
use rastapopoulos.Strings.{signed_char, strcmp, strlcpy}

pub record InitrdFile : Type 0 where
  pub name : List ℕ
  pub contents : List ℕ
  pub size : ℕ

pub record Initrd : Type 0 where
  pub initrd_size : ℕ
  pub initrd_data : List ℕ
  pub files : List InitrdFile

-- `memcpy` of the first bytes of a block
unfoldable pub first_bytes : ℕ → List ℕ → Outcome (List ℕ)
first_bytes zero block = ok []
first_bytes (suc n) [] = fail out_of_range
first_bytes (suc n) (b ∷ block) = first_bytes n block >>= λ copied. ok (b ∷ copied)

-- The loop of `getsize`, from the last of `j` digits to the first.
unfoldable pub getsize_loop : ℕ → List ℕ → ℕ → ℕ → Outcome ℕ
getsize_loop zero digits size count = ok size
getsize_loop (suc j) digits size count = do
  c ← read digits j
  getsize_loop j digits (u32 (size + sub32 (signed_char c) b'0' * count)) (u32 (count * 8))

unfoldable pub getsize : List ℕ → Outcome ℕ
getsize digits = getsize_loop 11 digits 0 1

-- The size stands 124 bytes behind the start of a header; `bzero` cleared the name.
unfoldable pub load_file : List ℕ → Outcome InitrdFile
load_file hdr = do
  size ← getsize (drop 124 hdr)
  name ← strlcpy (replicate 100 0) hdr 100
  assert (not (size == 0))
  contents ← first_bytes size (drop 512 hdr)
  ok (record { name = name; contents = contents; size = size })

-- The loop over the headers, with the number of rounds left.
unfoldable pub load_files : ℕ → List ℕ → List InitrdFile → Outcome (List InitrdFile)
load_files zero hdr files = fail endless
load_files (suc rounds) hdr files = do
  c ← read hdr 0
  let more = load_file hdr >>= λ file.
      load_files rounds (drop (512 + align file.size 512) hdr) (files ++ (file ∷ []))
  (if c == 0 then ok files else more)

-- Each round goes on by a header at least. `has_modules` is the flag of the boot information.
unfoldable pub initrd_init : Bool → ℕ → List ℕ → Initrd → Outcome Initrd
initrd_init has_modules mods_count module_bytes s =
    let loaded = (do
      assert (not (length module_bytes == 0))
      files ← load_files (suc (length module_bytes)) module_bytes s.files
      ok (record {
        initrd_size = length module_bytes;
        initrd_data = module_bytes;
        files = files;
      })) in
    if has_modules then (if ltb 0 mods_count then loaded else ok s) else ok s

unfoldable pub get_file_in : List InitrdFile → List ℕ → Outcome (Option InitrdFile)
get_file_in [] name = ok none
get_file_in (file ∷ files) name = do
  difference ← strcmp file.name name
  let later = get_file_in files name
  (if difference == 0 then ok (some file) else later)

unfoldable pub initrd_get_file : Initrd → List ℕ → Outcome (Option InitrdFile)
initrd_get_file s name = get_file_in s.files name

abbrev pub minus_one : ℕ
minus_one = 0xFFFFFFFF

-- What is returned, and the bytes that are put into the buffer.
unfoldable pub initrd_read : Initrd → ℕ → ℕ → Outcome (ℕ × List ℕ)
initrd_read s size offset =
    let rem = s.initrd_size - offset in
    let count = if ltb rem size then rem else size in
    let copied = first_bytes count (drop offset s.initrd_data) >>= λ bytes. ok (count, bytes) in
    if ltb s.initrd_size offset then ok (minus_one, []) else if rem == 0 then ok (0, []) else copied

abbrev pub initrd_get_size : Initrd → ℕ
initrd_get_size s = s.initrd_size

unfoldable pub syscall_initrd_copy_handler : Initrd → ℕ → Outcome (ℕ × List ℕ)
syscall_initrd_copy_handler s size =
    let copied = first_bytes s.initrd_size s.initrd_data >>= λ bytes. ok (s.initrd_size, bytes) in
    if ltb size s.initrd_size then ok (minus_one, []) else copied
