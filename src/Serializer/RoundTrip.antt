-- ===== src/Serializer/RoundTrip.antt =====
-- What was serialized is deserialized: a sequence of values of mixed types.
use rastapopoulos.Base.{
  List, Outcome, [], arith, get_or, length, map, ok, refl, sym, ℕ, ◌+◌, ◌<◌, ◌>>=◌, ◌^◌, ◌∙◌, ◌∷◌,
  ◌≡◌, ◌≤◌,
}
use rastapopoulos.Serializer.{
  Deserializer, Serializer, deserialize, deserialize_int, deserialize_int64, deserialize_size_t,
  deserializer_init, serialize, serialize_int, serialize_int64, serialize_size_t, serializer_finish,
  serializer_init,
}
use rastapopoulos.Serializer.Values.{Put, Ready, deserialize_lem, serialize-Put}

-- The types of the values, each with its two functions.
pub data Kind : Type 0 where
  int_kind size_t_kind int64_kind : Kind

abbrev pub width : Kind → ℕ
width int_kind = 4
width size_t_kind = 4
width int64_kind = 8

pub put : Kind → Serializer → ℕ → Outcome Serializer
put int_kind s value = serialize_int s value
put size_t_kind s value = serialize_size_t s value
put int64_kind s value = serialize_int64 s value

pub get : Kind → Deserializer → Outcome (ℕ × Deserializer)
get int_kind d = deserialize_int d
get size_t_kind d = deserialize_size_t d
get int64_kind d = deserialize_int64 d

-- The values of a message, serialized one after the other, and read with their types.
pub put_all : Serializer → List (Kind × ℕ) → Outcome Serializer
put_all s [] = ok s
put_all s ((kind, value) ∷ items) = put kind s value >>= λ s'. put_all s' items

pub get_all : Deserializer → List Kind → Outcome (List ℕ × Deserializer)
get_all d [] = ok ([], d)
get_all d (kind ∷ kinds) =
    get kind d >>= λ (value, d'). (get_all d' kinds >>= λ (values, d''). ok (value ∷ values, d''))

put-serialize :
    (kind : Kind) (s : Serializer) (value : ℕ) → put kind s value ≡ serialize (width kind) s value
unfolding put serialize_int serialize_size_t serialize_int64
put-serialize int_kind s value = refl
put-serialize size_t_kind s value = refl
put-serialize int64_kind s value = refl

get-deserialize : (kind : Kind) (d : Deserializer) → get kind d ≡ deserialize (width kind) d
unfolding get deserialize_int deserialize_size_t deserialize_int64
get-deserialize int_kind d = refl
get-deserialize size_t_kind d = refl
get-deserialize int64_kind d = refl

-- How many bytes the values need, and that each is in the range of its type.
abbrev pub total_width : List (Kind × ℕ) → ℕ
total_width [] = 0
total_width ((kind, value) ∷ items) = width kind + total_width items

unfoldable pub AllFit : List (Kind × ℕ) → Type 0
AllFit [] = Unit
AllFit ((kind, value) ∷ items) = (value < 256 ^ width kind) × AllFit items

-- The outcome of a sequence: the reader of the bytes gets the values back, and what was in the buffer
-- before them is as it was.
record ReadsBack (s : Serializer) (items : List (Kind × ℕ)) : Type 0 where
  after : Serializer
  returns : put_all s items ≡ ok after
  ready : Ready after
  same_size : after.size ≡ s.size
  advanced : after.pos ≡ s.pos + total_width items
  before : (j : ℕ) → j < s.pos → get_or after.buffer j 0 ≡ get_or s.buffer j 0
  read_back :
      get_all
        (record { buffer = after.buffer; size = s.size; pos = s.pos })
        (map (λ (kind, value). kind) items)
      ≡ ok (
        map (λ (kind, value). value) items,
        record { buffer = after.buffer; size = s.size; pos = after.pos },
      )

width_pos : (kind : Kind) → 0 < width kind
width_pos int_kind = omega arith
width_pos size_t_kind = omega arith
width_pos int64_kind = omega arith

put_all-ReadsBack :
    (s : Serializer) (items : List (Kind × ℕ))
    → Ready s
    → AllFit items
    → s.pos + total_width items ≤ s.size
    → ReadsBack s items
unfolding put_all get_all AllFit
put_all-ReadsBack s [] h fit room = record {
  after = s;
  returns = refl;
  ready = h;
  same_size = refl;
  advanced = omega arith;
  before = λ j p. refl;
  read_back = refl;
}
put_all-ReadsBack s ((kind, value) ∷ items) h (fits, fit) room =
    let one = serialize-Put (width kind) s value h (width_pos kind) (omega arith) in
    let rest =
      put_all-ReadsBack one.after items one.ready fit
        (omega (arith, one.advanced, one.same_size)) in
    record {
      after = rest.after;
      returns = rw (put-serialize kind s value, one.returns) rest.returns;
      ready = rest.ready;
      same_size = rest.same_size ∙ one.same_size;
      advanced = omega (arith, rest.advanced, one.advanced);
      before = λ j p. rest.before j (omega (arith, one.advanced)) ∙ one.before j p;
      read_back =
          rw (first kind value items s h room one fits rest, next kind items s one rest) refl;
    }
  where
    first :
        (kind : Kind) (value : ℕ) (items : List (Kind × ℕ)) (s : Serializer)
        → Ready s
        → s.pos + (width kind + total_width items) ≤ s.size
        → (one : Put (width kind) s value (serialize (width kind) s value))
        → value < 256 ^ width kind
        → (rest : ReadsBack one.after items)
        → get kind (record { buffer = rest.after.buffer; size = s.size; pos = s.pos })
          ≡ ok (
            value,
            record { buffer = rest.after.buffer; size = s.size; pos = s.pos + width kind },
          )
    first kind value items s h room one fits rest =
        get-deserialize kind _
        ∙ deserialize_lem (width kind) _ value (rest.ready.full ∙ rest.same_size ∙ one.same_size)
            h.small (omega arith) fits
            (λ j p. rest.before (s.pos + j) (omega (arith, one.advanced)) ∙ one.stands j p)

    next :
        (kind : Kind) {value : ℕ} (items : List (Kind × ℕ)) (s : Serializer)
        → (one : Put (width kind) s value (serialize (width kind) s value))
        → (rest : ReadsBack one.after items)
        → get_all
            (record { buffer = rest.after.buffer; size = s.size; pos = s.pos + width kind })
            (map (λ (kind, value). kind) items)
          ≡ ok (
            map (λ (kind, value). value) items,
            record { buffer = rest.after.buffer; size = s.size; pos = rest.after.pos },
          )
    next kind items s one rest = rw (sym one.advanced, sym one.same_size) rest.read_back

-- Values of the three types, serialized one after the other into a buffer of less than 2 ^ 32
-- bytes with room for all, are deserialized in the same order and with the same types to the
-- same values, if each is in the range of its type. No assertion fails, and both ends come to
-- the position behind the last value.
pub put_all-get_all :
    (buffer : List ℕ) (items : List (Kind × ℕ))
    → length buffer < 2 ^ 32
    → AllFit items
    → total_width items ≤ length buffer
    → (after : Serializer) × (put_all (serializer_init buffer (length buffer)) items ≡ ok after)
      × (serializer_finish after ≡ total_width items)
      × (get_all
            (deserializer_init after.buffer (length buffer))
            (map (λ (kind, value). kind) items)
          ≡ ok (
            map (λ (kind, value). value) items,
            record { buffer = after.buffer; size = length buffer; pos = total_width items },
          ))
unfolding serializer_init deserializer_init serializer_finish
put_all-get_all buffer items small fit room =
    let start = serializer_init buffer (length buffer) in
    let ready : Ready start = record {
      full = refl;
      inside = omega arith;
      small = small;
      free = refl;
    } in
    let w = put_all-ReadsBack start items ready fit (omega arith) in
    let end : w.after.pos ≡ total_width items = omega (arith, w.advanced) in
    (w.after, w.returns, end, w.read_back ∙ rw end refl)
