-- ===== src/Serializer/Tests.antt =====
-- Runs of common/serializer.c, and its theorems at them.
use rastapopoulos.Base.{
  List, [], arith, assertion_failed, fail, false, ok, refl, replicate, ℕ, ◌+◌, ◌^◌, ◌∷◌, ◌≡◌,
}
use rastapopoulos.Serializer.{
  Serializer, deserialize, deserializer_init, little, serialize, serialize_buffer,
  serialize_buffer_finish, serialize_int, serializer_finish, serializer_init, write_bytes,
}
use rastapopoulos.Serializer.RoundTrip.{
  AllFit, Kind, get_all, int64_kind, int_kind, put_all, put_all-get_all, size_t_kind,
}
use rastapopoulos.Serializer.Values.{Ready, no_room}

abbrev blank : List ℕ
blank = replicate 20 0xCC

-- an `int` of -2, a `size_t` and a `long long`
abbrev mixed : List (Kind × ℕ)
mixed = (int_kind, 0xFFFFFFFE) ∷ (size_t_kind, 300) ∷ (int64_kind, 2 ^ 40 + 5) ∷ []

serialize_runs :
    serialize_int (serializer_init blank 6) 0x1234
    ≡ ok (record {
      buffer = 0x34 ∷ 0x12 ∷ 0 ∷ 0 ∷ replicate 16 0xCC;
      size = 6;
      pos = 4;
      locked = false;
    })
unfolding serializer_init serialize_int serialize serialize_buffer serialize_buffer_finish
    write_bytes little
serialize_runs = refl

mixed_fits : AllFit mixed
unfolding AllFit
mixed_fits = (omega arith, (omega arith, (omega arith, tt)))

put_all-get_all_example :
    (after : Serializer) × (put_all (serializer_init blank 20) mixed ≡ ok after)
    × (serializer_finish after ≡ 16)
    × (get_all (deserializer_init after.buffer 20) (int_kind ∷ size_t_kind ∷ int64_kind ∷ [])
        ≡ ok (
          0xFFFFFFFE ∷ 300 ∷ (2 ^ 40 + 5) ∷ [],
          record { buffer = after.buffer; size = 20; pos = 16 },
        ))
put_all-get_all_example = put_all-get_all blank mixed (omega arith) mixed_fits (omega arith)

abbrev nearly_full : Serializer
nearly_full = record { buffer = blank; size = 20; pos = 18; locked = false }

nearly_full-Ready : Ready nearly_full
nearly_full-Ready = record { full = refl; inside = omega arith; small = omega arith; free = refl }

refused_runs :
    (serialize 4 nearly_full 7 ≡ fail assertion_failed)
    × (deserialize 4 (record { buffer = blank; size = 20; pos = 17 }) ≡ fail assertion_failed)
refused_runs =
    no_room 4 nearly_full (record { buffer = blank; size = 20; pos = 17 }) 7 nearly_full-Ready
      (omega arith) (omega arith) (omega arith) (omega arith)
