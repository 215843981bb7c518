-- ===== src/Serializer/Values.antt =====
-- One value: what serializing and deserializing it do, with room and without.
use rastapopoulos.Base.{
  Bool-cases, List, Outcome, arith, assertion_failed, fail, false, get_or, inl, inr, leb, length,
  ltb, ok, refl, true, ℕ, ◌+◌, ◌-◌, ◌<◌, ◌^◌, ◌∙◌, ◌≡◌, ◌≤◌,
}
use rastapopoulos.Base.Words.{sub32, u32}
use rastapopoulos.Serializer.{
  Deserializer, Serializer, deserialize, deserialize_buffer, little, serialize, serialize_buffer,
  serialize_buffer_finish, write_bytes,
}
use rastapopoulos.Serializer.Bytes.{length-little, read_little-little, write_bytes-Written}

-- Between two calls: the buffer is as large as it was said to be, and no call holds it.
pub record Ready (s : Serializer) : Type 0 where
  pub full : length s.buffer ≡ s.size
  pub inside : s.pos ≤ s.size
  pub small : s.size < 2 ^ 32
  pub free : s.locked ≡ false

-- The `k` bytes of a value stand at an index of a buffer.
abbrev pub Stands : ℕ → ℕ → List ℕ → ℕ → Type 0
Stands k value buffer i = (j : ℕ) → j < k → get_or buffer (i + j) 0 ≡ get_or (little k value) j 0

-- A value was put behind the others, which stayed as they were.
pub record Put (k : ℕ) (s : Serializer) (value : ℕ) (result : Outcome Serializer) : Type 0 where
  pub after : Serializer
  pub returns : result ≡ ok after
  pub ready : Ready after
  pub same_size : after.size ≡ s.size
  pub advanced : after.pos ≡ s.pos + k
  pub stands : Stands k value after.buffer s.pos
  pub before : (j : ℕ) → j < s.pos → get_or after.buffer j 0 ≡ get_or s.buffer j 0

serialize_room :
    (k : ℕ) (s : Serializer) (value : ℕ) {buffer : List ℕ}
    → Ready s
    → 0 < k
    → s.pos + k ≤ s.size
    → write_bytes s.buffer s.pos (little k value) ≡ ok buffer
    → serialize k s value ≡ ok (record s { buffer = buffer; pos = s.pos + k; locked = false })
unfolding serialize serialize_buffer serialize_buffer_finish
serialize_room k s value h p room e =
    let remaining : sub32 s.size s.pos ≡ s.size - s.pos = omega (arith, h.small, h.inside) in
    let some_left : ltb 0 (s.size - s.pos) ≡ true = ground arith in
    let enough : leb k (s.size - s.pos) ≡ true = ground arith in
    let next : u32 (s.pos + k) ≡ s.pos + k = omega (arith, h.small) in
    rw (h.free, remaining, some_left, enough, remaining, enough, next, e) refl

pub serialize-Put :
    (k : ℕ) (s : Serializer) (value : ℕ)
    → Ready s
    → 0 < k
    → s.pos + k ≤ s.size
    → Put k s value (serialize k s value)
serialize-Put k s value h p room =
    let long = length-little k value in
    let w = write_bytes-Written s.buffer s.pos (little k value) (omega (arith, long, h.full)) in
    record {
      after = record s { buffer = w.after; pos = s.pos + k; locked = false };
      returns = serialize_room k s value h p room w.returns;
      ready = record { full = w.same_length ∙ h.full; inside = room; small = h.small; free = refl };
      same_size = refl;
      advanced = refl;
      stands = λ j q. w.inside j (omega (arith, long));
      before = w.before;
    }

pub deserialize_lem :
    (k : ℕ) (d : Deserializer) (value : ℕ)
    → length d.buffer ≡ d.size
    → d.size < 2 ^ 32
    → d.pos + k ≤ d.size
    → value < 256 ^ k
    → Stands k value d.buffer d.pos
    → deserialize k d ≡ ok (value, record d { pos = d.pos + k })
unfolding deserialize deserialize_buffer
deserialize_lem k d value full small room fits stands =
    let remaining : sub32 d.size d.pos ≡ d.size - d.pos = omega arith in
    let enough : leb k (d.size - d.pos) ≡ true = ground arith in
    let next : u32 (d.pos + k) ≡ d.pos + k = omega arith in
    let value_read = read_little-little k value d.buffer d.pos fits (omega arith) stands in
    rw (remaining, enough, next, value_read) refl

serialize_no_room :
    (k : ℕ) (s : Serializer) (value : ℕ)
    → Ready s
    → s.size < s.pos + k
    → serialize k s value ≡ fail assertion_failed
unfolding serialize serialize_buffer
serialize_no_room k s value h full =
    let remaining : sub32 s.size s.pos ≡ s.size - s.pos = omega (arith, h.small, h.inside) in
    let short : leb k (s.size - s.pos) ≡ false = ground (arith, h.inside) in
    elim (Bool-cases (ltb 0 (s.size - s.pos))) [
      | inl some_left ↦ rw (h.free, remaining, some_left, short) refl
      | inr none_left ↦ rw (h.free, remaining, none_left) refl
    ]

deserialize_no_room :
    (k : ℕ) (d : Deserializer)
    → d.pos ≤ d.size
    → d.size < 2 ^ 32
    → d.size < d.pos + k
    → deserialize k d ≡ fail assertion_failed
unfolding deserialize deserialize_buffer
deserialize_no_room k d inside small short =
    let remaining : sub32 d.size d.pos ≡ d.size - d.pos = omega arith in
    let refused : leb k (d.size - d.pos) ≡ false = ground arith in rw (remaining, refused) refl

-- If less than the bytes of a value are left in the buffer of a serializer between two calls,
-- serializing it fails an assertion; and if less are left to a deserializer whose position is
-- within its size, a `size_t`, reading it does.
pub no_room :
    (k : ℕ) (s : Serializer) (d : Deserializer) (value : ℕ)
    → Ready s
    → s.size < s.pos + k
    → d.pos ≤ d.size
    → d.size < 2 ^ 32
    → d.size < d.pos + k
    → (serialize k s value ≡ fail assertion_failed) × (deserialize k d ≡ fail assertion_failed)
no_room k s d value h full inside small short =
    (serialize_no_room k s value h full, deserialize_no_room k d inside small short)
