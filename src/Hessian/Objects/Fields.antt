-- ===== src/Hessian/Objects/Fields.antt =====
-- The fields of `decInstance` (decode.go), each by the kind of its Go type, and `decMapByValue`.
use dubbogo.Base.{
  ℕ, zero, suc, ◌%◌, ◌^◌, Bool, true, false, ◌||◌, Option, none, some, List, [], ◌∷◌, ◌==◌,
  if◌then◌else◌, length, go_return, Outcome, ReaderLib, eof, short_read, wrong_tag, not_supported,
  ok, err, panic, stuck, text_beq,
}
use dubbogo.Hessian.Text.{Text}
use dubbogo.Hessian.Ints.{dec_int32, widen, dec_int64}
use dubbogo.Hessian.Values.{
  Value, Items, Entries, FloatLib, null, bool, int16, int32, int64, double, text, list, typed_map,
  enum, struct_value, no_items, item, no_entries, entry,
}
use dubbogo.Hessian.Doubles.{dec_double, dec_date}
use dubbogo.Hessian.Strings.{dec_string}
use dubbogo.Hessian.Classes.{GoType, Pojo}
use dubbogo.Hessian.Encoder.{one_further}
use dubbogo.Hessian.Decoder.{
  Decoding, then_decode, on_bytes, traced, dropped, dec_list, decode, Decoder,
}

-- The kind of a field, and of an integer whether its type implements `POJOEnum`. An `int` has the
-- kind of an int64.
pub data Kind : Type 0 where
  string_kind : Kind
  int16_kind : Bool → Kind
  int32_kind : Bool → Kind
  int64_kind : Bool → Kind
  uint64_kind : Bool → Kind
  bool_kind : Kind
  float32_kind : Kind
  float64_kind : Kind
  map_kind : Kind
  slice_kind : Kind
  array_kind : Kind
  time_kind : Kind
  struct_kind : Kind
  other_kind : Kind

-- What `reflect` tells of the application's types: the kinds and the zero values of the fields of a
-- struct, whether a field can be set and what it takes, and the enums with their values, where
-- `none` is a type without the method; the rounding to a float32; what `UnreadByte` of `bufio`
-- leaves of the input before and behind the last read, which at the end of the input is its last
-- byte; and what `Decode` returns beside an error, by the input, which only `decMapByValue` looks
-- at.
pub record GoTypes : Type 0 where
  pub kind_of : GoType → ℕ → Kind
  pub zero_values : GoType → Items
  pub can_set : GoType → ℕ → Bool
  pub takes_items : GoType → ℕ → Items → Bool
  pub takes_entry : GoType → ℕ → Value → Value → Bool
  pub takes_struct : GoType → ℕ → GoType → Bool
  pub is_enum : GoType → Bool
  pub enum_value : Pojo → Text → Option ℕ
  pub to_float32 : ℕ → ℕ
  pub unread_byte : List ℕ → List ℕ → List ℕ
  pub beside_error : List ℕ → Value

-- `findField`: by the name, or by the name in lower case.
unfoldable pub find_field : (Text → Text) → Text → List Text → Option ℕ
find_field to_lower name [] = none
find_field to_lower name (f ∷ fs) =
    let later = one_further (find_field to_lower name fs) in
    if text_beq f name || text_beq name (to_lower f) then some 0 else later

unfoldable pub set_item : ℕ → Value → Items → Items
set_item i v no_items = no_items
set_item zero v (item w xs) = item v xs
set_item (suc i) v (item w xs) = item w (set_item i v xs)

-- What reading a field comes to: the field stays, it is set, or `decInstance` returns.
pub data FieldRead : Type 0 where
  stays : FieldRead
  set : Value → FieldRead
  returns : Outcome Value → FieldRead

abbrev pub with_field {ℓ} : {A : Type ℓ} → Option ℕ → A → (ℕ → A) → A
with_field none a k = a
with_field (some i) a k = k i

abbrev pub set_field :
    Items → ℕ → FieldRead × Decoder → (Items → Decoding Value) → Outcome Value × Decoder
set_field held i (stays, d) k = k held d
set_field held i (set v, d) k = k (set_item i v held) d
set_field held i (returns o, d) k = (o, d)

abbrev pub field_of : {A : Type 0} → (A → FieldRead) → Outcome A × Decoder → FieldRead × Decoder
field_of f (ok a, d) = (f a, d)
field_of f (err e, d) = (returns (err e), d)
field_of f (panic, d) = (returns panic, d)
field_of f (stuck, d) = (returns stuck, d)

-- `b.(bool)`
unfoldable pub set_bool : Value → FieldRead
set_bool (bool b) = set (bool b)
set_bool _ = returns panic

-- `num.(float64)`
unfoldable pub set_float : (ℕ → ℕ) → Value → FieldRead
set_float round (double v) = set (double (round v))
set_float round _ = returns panic

-- `enumValue, _ := s.(JavaEnum)`
unfoldable pub enum_number : (ℕ → ℕ) → Value → Decoding ℕ
enum_number wide (enum n) d = (ok (wide n), d)
enum_number wide _ d = (ok 0, d)

-- An integer field: where its type is an enum's, an error gives the byte back and decodes a value.
unfoldable pub int_or_enum :
    (List ℕ → List ℕ → List ℕ)
    → Decoding Value
    → (ℕ → ℕ)
    → Bool
    → List ℕ
    → Outcome ℕ × Decoder
    → Outcome ℕ × Decoder
int_or_enum unread decode wide true before (err e, d) =
    then_decode (traced (decode (record d { bytes = unread before d.bytes }))) (enum_number wide)
int_or_enum unread decode wide enums before o = traced o

-- A map field: an error leaves the field as it is, and is dropped.
unfoldable pub map_field : Outcome Entries × Decoder → FieldRead × Decoder
map_field (ok es, d) = (set (typed_map es), d)
map_field (err e, d) = (stays, d)
map_field (panic, d) = (returns panic, d)
map_field (stuck, d) = (returns stuck, d)

-- `sl.Index(j).Set(...)` panics on an element of another type, `MakeSlice` on the type of an array.
unfoldable pub set_list : (Items → Bool) → Value → FieldRead
set_list takes (list no_items) = stays
set_list takes (list (item v xs)) =
    if takes (item v xs) then set (list (item v xs)) else returns panic
set_list takes _ = returns panic

-- The error of a list: `decInstance` returns nil and the trace of another error, which is nil.
unfoldable pub list_field :
    ReaderLib → (Items → Bool) → Outcome Value × Decoder → FieldRead × Decoder
list_field lib takes (err e, d) = (returns (go_return null lib.trace_nil), d)
list_field lib takes o = field_of (set_list takes) o

-- `fldValue.Set(reflect.Indirect(s.(reflect.Value)))`
unfoldable pub set_struct : (GoType → Bool) → Value → FieldRead
set_struct takes null = stays
set_struct takes (struct_value t fs) = if takes t then set (struct_value t fs) else returns panic
set_struct takes _ = returns panic

-- `m.SetMapIndex` for the key, and the rounds behind; it panics on another type.
unfoldable pub put_entry :
    (Value → Value → Bool) → Decoding Entries → Value → Value → Decoding Entries
put_entry takes rounds k v d =
    if takes k v then then_decode (rounds d) (λ es d'. (ok (entry k v es), d')) else (panic, d)

-- The value of a key; its error is dropped, and `beside` is what stands beside it.
unfoldable pub value_of_key :
    (Value → Decoding Entries) → Value → Outcome Value × Decoder → Outcome Entries × Decoder
value_of_key put beside (ok v, d) = put v d
value_of_key put beside (err e, d) = put beside d
value_of_key put beside (panic, d) = (panic, d)
value_of_key put beside (stuck, d) = (stuck, d)

-- A round behind its key: a nil key ends the map, and so does the end of the input.
unfoldable pub after_key :
    (Value → Decoding Entries) → Outcome Value × Decoder → Outcome Entries × Decoder
after_key go (ok null, d) = (ok no_entries, d)
after_key go (ok k, d) = go k d
after_key go (err eof, d) = (ok no_entries, d)
after_key go (err e, d) = (err e, d)
after_key go (panic, d) = (panic, d)
after_key go (stuck, d) = (stuck, d)

module _ (lib : ReaderLib) (fl : FloatLib) (types : GoTypes) (decode : Decoding Value) where
  -- The loop of `decMapByValue`; each round takes a byte at least.
  unfoldable pub value_rounds : (Value → Value → Bool) → ℕ → Decoding Entries
  value_rounds takes zero d = (stuck, d)
  value_rounds takes (suc fuel) d =
      after_key
        (λ k d'.
          value_of_key (put_entry takes (value_rounds takes fuel) k) (types.beside_error d'.bytes)
            (decode d'))
        (decode d)

  unfoldable pub untagged_rounds : (Value → Value → Bool) → Decoding Entries
  untagged_rounds takes d = value_rounds takes (suc (length d.bytes)) d

  unfoldable pub map_by_tag : (Value → Value → Bool) → List ℕ → Decoding Entries
  map_by_tag takes [] d = (err wrong_tag, d)
  map_by_tag takes (tag ∷ s) d =
      let d' = record d { bytes = s } in
      if tag == b'M'
      then then_decode (dropped (on_bytes (dec_string lib fl none) d')) (λ u. untagged_rounds takes)
      else if tag == b'H'
      then untagged_rounds takes d'
      else (err wrong_tag, d')

  unfoldable pub dec_map_by_value : (Value → Value → Bool) → Decoding Entries
  dec_map_by_value takes d = map_by_tag takes d.bytes d

  -- `decList(TAG_READ)`
  unfoldable pub read_list : List ℕ → Decoding Value
  read_list [] d = (err short_read, d)
  read_list (tag ∷ s) d = dec_list lib fl decode tag (record d { bytes = s })

  unfoldable pub read_kind : Decoding Value → GoType → ℕ → Kind → Decoder → FieldRead × Decoder
  read_kind object t i string_kind d =
      field_of (λ s. set (text s)) (traced (on_bytes (dec_string lib fl none) d))
  read_kind object t i (int16_kind enums) d =
      field_of (λ n. set (int16 (n % 2 ^ 16)))
        (int_or_enum types.unread_byte decode (λ n. n) enums d.bytes (on_bytes (dec_int32 none) d))
  read_kind object t i (int32_kind enums) d =
      field_of (λ n. set (int32 n))
        (int_or_enum types.unread_byte decode (λ n. n) enums d.bytes (on_bytes (dec_int32 none) d))
  read_kind object t i (int64_kind enums) d =
      field_of (λ n. set (int64 n))
        (int_or_enum types.unread_byte decode widen enums d.bytes (on_bytes (dec_int64 none) d))
  read_kind object t i (uint64_kind enums) d =
      field_of (λ n. returns panic)
        (int_or_enum types.unread_byte decode widen enums d.bytes (on_bytes (dec_int64 none) d))
  read_kind object t i bool_kind d = field_of set_bool (traced (decode d))
  read_kind object t i float32_kind d =
      field_of (set_float types.to_float32) (traced (on_bytes (dec_double fl none) d))
  read_kind object t i float64_kind d =
      field_of (set_float (λ v. v)) (traced (on_bytes (dec_double fl none) d))
  read_kind object t i map_kind d = map_field (dec_map_by_value (types.takes_entry t i) d)
  read_kind object t i slice_kind d = list_field lib (types.takes_items t i) (read_list d.bytes d)
  read_kind object t i array_kind d = list_field lib (λ xs. false) (read_list d.bytes d)
  read_kind object t i time_kind d = field_of set (traced (on_bytes (dec_date lib none) d))
  read_kind object t i struct_kind d =
      field_of (set_struct (types.takes_struct t i)) (traced (object d))
  read_kind object t i other_kind d = (returns (err not_supported), d)

  -- One field, which can be set or not.
  unfoldable pub read_field : Decoding Value → GoType → ℕ → Decoder → FieldRead × Decoder
  read_field object t i d =
      if types.can_set t i
      then read_kind object t i (types.kind_of t i) d
      else (returns (err not_supported), d)
