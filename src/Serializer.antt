-- ===== src/Serializer.antt =====
-- common/serializer.c: values one behind the other in a buffer.
-- A buffer is the list of its bytes, a pointer into it the index of a byte; an access behind its end
-- is `out_of_range`. An `int` or `long long` is its pattern of 32 or 64 bits, least byte first.
pub mod Bytes
pub mod Values
pub mod RoundTrip
mod Tests
use rastapopoulos.Base.{
  Bool, List, Outcome, [], assert, fail, false, if◌then◌else◌, leb, length, ltb, not, ok,
  out_of_range, read, set, suc, true, zero, ℕ, ◌%◌, ◌*◌, ◌+◌, ◌/◌, ◌>>=◌, ◌>>◌, ◌∷◌,
}
use rastapopoulos.Base.Words.{sub32, u32}

pub record Serializer : Type 0 where
  pub buffer : List ℕ
  pub size : ℕ
  pub pos : ℕ
  pub locked : Bool

pub record Deserializer : Type 0 where
  pub buffer : List ℕ
  pub size : ℕ
  pub pos : ℕ

pub serializer_init : List ℕ → ℕ → Serializer
serializer_init buffer size = record { buffer = buffer; size = size; pos = 0; locked = false }

-- The remaining size that goes through `max_size`; the pointer returned is `pos`.
pub serialize_buffer : Serializer → Outcome (ℕ × Serializer)
serialize_buffer s = do
  assert (not s.locked)
  assert (ltb 0 (sub32 s.size s.pos))
  ok (sub32 s.size s.pos, record s { locked = true })

pub serialize_buffer_finish : Serializer → ℕ → Outcome Serializer
serialize_buffer_finish s n = do
  assert s.locked
  assert (leb n (sub32 s.size s.pos))
  ok (record s { pos = u32 (s.pos + n); locked = false })

-- The bytes of a number, as it stands in memory.
pub little : ℕ → ℕ → List ℕ
little zero n = []
little (suc k) n = n % 256 ∷ little k (n / 256)

-- A write through a pointer into the buffer.
pub write_bytes : List ℕ → ℕ → List ℕ → Outcome (List ℕ)
write_bytes buffer i [] = ok buffer
write_bytes buffer i (b ∷ bytes) =
    let rest = write_bytes (set buffer i b) (i + 1) bytes in
    if ltb i (length buffer) then rest else fail out_of_range

-- `SERIALIZE`, for a type of `k` bytes
pub serialize : ℕ → Serializer → ℕ → Outcome Serializer
serialize k s value = do
  assert (not s.locked)
  (max_size, taken) ← serialize_buffer s
  assert (leb k max_size)
  done ← serialize_buffer_finish taken k
  buffer ← write_bytes done.buffer s.pos (little k value)
  ok (record done { buffer = buffer })

pub serialize_int : Serializer → ℕ → Outcome Serializer
serialize_int s value = serialize 4 s value

pub serialize_size_t : Serializer → ℕ → Outcome Serializer
serialize_size_t s value = serialize 4 s value

pub serialize_int64 : Serializer → ℕ → Outcome Serializer
serialize_int64 s value = serialize 8 s value

pub serializer_finish : Serializer → ℕ
serializer_finish s = s.pos

pub deserializer_init : List ℕ → ℕ → Deserializer
deserializer_init buffer size = record { buffer = buffer; size = size; pos = 0 }

pub deserialize_buffer : Deserializer → ℕ → Outcome (ℕ × Deserializer)
deserialize_buffer d n = do
  assert (leb n (sub32 d.size d.pos))
  ok (d.pos, record d { pos = u32 (d.pos + n) })

-- A read through a pointer to a number of `k` bytes.
pub read_little : ℕ → List ℕ → ℕ → Outcome ℕ
read_little zero buffer i = ok 0
read_little (suc k) buffer i = do
  b ← read buffer i
  rest ← read_little k buffer (i + 1)
  ok (b + 256 * rest)

pub deserialize : ℕ → Deserializer → Outcome (ℕ × Deserializer)
deserialize k d =
    deserialize_buffer d k >>= λ (at, d'). (read_little k d'.buffer at >>= λ value. ok (value, d'))

pub deserialize_int : Deserializer → Outcome (ℕ × Deserializer)
deserialize_int d = deserialize 4 d

pub deserialize_size_t : Deserializer → Outcome (ℕ × Deserializer)
deserialize_size_t d = deserialize 4 d

pub deserialize_int64 : Deserializer → Outcome (ℕ × Deserializer)
deserialize_int64 d = deserialize 8 d
