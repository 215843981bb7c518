-- ===== src/Scheduler/Iomap.antt =====
-- The I/O permission bitmap of a task.
use rastapopoulos.Base.{
  Bool, Bool-cases, List, arith, bit_and, bit_or, false, get_elem?-eq-get_or, get_or, get_or-set-lt,
  get_or-set_ne, get_or-set_self, if◌then◌else◌, inl, inr, length, length-set, not, ok, read, refl,
  set, true, ℕ, ◌%◌, ◌-◌, ◌/◌, ◌<◌, ◌==◌, ◌^◌, ◌∙◌, ◌≡◌,
}
use rastapopoulos.Base.Bits.{
  bit, bit-bit_and, bit-bit_or, bit-complement, bit-lt-two, bit-pow, bit_and-le, bit_and-pow,
  bit_or-lt, two_pow_lt, two_pow_pos,
}
use rastapopoulos.Scheduler.{task_iomap_set, task_iomap_test}
use rastapopoulos.Scheduler.Queues.{one_if}

-- 8192 bytes, a bit for each of the 65536 ports
pub record IsIomap (iomap : List ℕ) : Type 0 where
  pub full_length : length iomap ≡ 8192
  pub bytes : (i : ℕ) → get_or iomap i 0 < 256

-- the bit of a port: 1 denies the access
abbrev pub denied : List ℕ → ℕ → ℕ
denied iomap port = bit (get_or iomap (port / 8) 0) (port % 8)

read_byte :
    (iomap : List ℕ) (port : ℕ)
    → IsIomap iomap
    → port < 65536
    → read iomap (port / 8) ≡ ok (get_or iomap (port / 8) 0)
read_byte iomap port v h =
    rw (get_elem?-eq-get_or iomap (port / 8) 0 (omega (arith, v.full_length)), read)

pub test_denied :
    (iomap : List ℕ) (port : ℕ)
    → IsIomap iomap
    → port < 65536
    → task_iomap_test iomap port ≡ ok (denied iomap port == 1)
unfolding task_iomap_test
test_denied iomap port v h = ground (
  arith,
  read_byte iomap port v h,
  bit_and-pow (get_or iomap (port / 8) 0) (port % 8),
  bit-lt-two (get_or iomap (port / 8) 0) (port % 8),
  two_pow_pos (port % 8),
)

-- the byte that `task_iomap_set` stores
abbrev new_byte : Bool → ℕ → ℕ → ℕ
new_byte true byte i = bit_and byte (255 - 2 ^ i)
new_byte false byte i = bit_or byte (2 ^ i)

new_byte-lt : (allow : Bool) (byte i : ℕ) → byte < 256 → i < 8 → new_byte allow byte i < 256
new_byte-lt true byte i h lt = omega (arith, bit_and-le byte byte (255 - 2 ^ i) (omega arith))
new_byte-lt false byte i h lt = bit_or-lt 8 byte (2 ^ i) h (two_pow_lt i 8 lt)

new_byte-bit :
    (allow : Bool) (byte i j : ℕ)
    → i < 8
    → j < 8
    → bit (new_byte allow byte i) j ≡ (if i == j then one_if (not allow) else bit byte j)
new_byte-bit true byte i j lt lj = ground (
  arith,
  bit-bit_and byte (255 - 2 ^ i) j,
  bit-complement 8 (2 ^ i) j (two_pow_lt i 8 lt) lj,
  bit-pow i j,
  bit-lt-two byte j,
)
new_byte-bit false byte i j lt lj =
    ground (arith, bit-bit_or byte (2 ^ i) j, bit-pow i j, bit-lt-two byte j)

by_flag :
    (allow here : Bool) (d : ℕ)
    → ok ((if here then one_if (not allow) else d) == 1)
      ≡ (if here then ok (not allow) else ok (d == 1))
by_flag true true d = refl
by_flag false true d = refl
by_flag true false d = refl
by_flag false false d = refl

-- `task_iomap_set` allows or denies one port below 65536 and leaves the others as they are, as
-- `task_iomap_test` reads them.
pub task_iomap_set_lem :
    (iomap : List ℕ) (port : ℕ) (allow : Bool)
    → IsIomap iomap
    → port < 65536
    → (after : List ℕ) × (task_iomap_set iomap port allow ≡ ok after)
      × IsIomap after
      × ((p : ℕ)
          → p < 65536
          → task_iomap_test after p
            ≡ (if port == p then ok (not allow) else task_iomap_test iomap p))
task_iomap_set_lem iomap port allow v h = (after, returns, after-IsIomap, tests)
  where
    byte : ℕ
    byte = get_or iomap (port / 8) 0

    after : List ℕ
    after = set iomap (port / 8) (new_byte allow byte (port % 8))

    returns : task_iomap_set iomap port allow ≡ ok after
    returns = unfold task_iomap_set in ground (arith, read_byte iomap port v h)

    after-IsIomap : IsIomap after
    after-IsIomap = record {
      full_length = length-set iomap (port / 8) (new_byte allow byte (port % 8)) ∙ v.full_length;
      bytes = λ i.
          get_or-set-lt iomap (port / 8) i (new_byte allow byte (port % 8)) v.bytes
            (new_byte-lt allow byte (port % 8) (v.bytes (port / 8)) (omega arith));
    }

    same :
        (p : ℕ)
        → p < 65536
        → denied after p ≡ (if port == p then one_if (not allow) else denied iomap p)
    same p lp = elim (Bool-cases (port / 8 == p / 8)) [
      | inl e ↦ ground (
        arith,
        new_byte-bit allow byte (port % 8) (p % 8),
        get_or-set_self iomap (port / 8) (new_byte allow byte (port % 8)) 0
            (omega (arith, v.full_length)),
      )
      | inr e ↦
          ground (arith, get_or-set_ne iomap (port / 8) (p / 8) (new_byte allow byte (port % 8)) 0)
    ]

    tests :
        (p : ℕ)
        → p < 65536
        → task_iomap_test after p ≡ (if port == p then ok (not allow) else task_iomap_test iomap p)
    tests p lp =
        rw (test_denied after p after-IsIomap lp, test_denied iomap p v lp, same p lp)
          (by_flag allow (port == p) (denied iomap p))
