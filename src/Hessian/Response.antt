-- ===== src/Hessian/Response.antt =====
-- The body of a response: `unpackResponseBody` of response.go, with `ReflectResponse`, `cpSlice` and
-- `cpMap`. What `reflect` tells of the value that is to take the answer is an argument.
pub mod Answers
mod Runs
use dubbogo.Base.{
  ℕ, suc, Bool, not, Option, none, some, List, [], ◌∷◌, ◌==◌, if◌then◌else◌, length, Outcome,
  ReaderLib, wrong_tag, ok, err, panic, stuck, codes,
}
use dubbogo.Hessian.Values.{
  Value, Items, Entries, FloatLib, null, bool, int16, int32, int64, date, double, text, binary,
  list, go_map, typed_map, ref, enum, pojo, struct_value, no_items, item, no_entries, entry,
}
use dubbogo.Hessian.Decoder.{Decoding, traced_error, traced, decode, Decoder, ObjectReader}
use dubbogo.Hessian.Decoder.Leaves.{decoder}

-- The value behind `out`: whether `out` is nil or a pointer, what its target takes, whether the value
-- behind all pointers is a slice or a map, and for these whether the elements, keys and values are
-- structs and which are taken. `in_is_nil` tells of an answer of no bytes whether it is the nil slice
-- that decBinary returns for a chunk that is too long; lists and maps are never nil.
pub record Target : Type 0 where
  pub is_nil : Bool
  pub is_pointer : Bool
  pub takes : Value → Bool
  pub in_is_nil : List ℕ → Bool
  pub is_slice : Bool
  pub is_map : Bool
  pub elem_is_struct : Bool
  pub takes_elem : Value → Bool
  pub key_is_struct : Bool
  pub takes_key : Value → Bool
  pub value_is_struct : Bool
  pub takes_value : Value → Bool

-- `reflect.ValueOf(inSliceValue)` of what is a `reflect.Value` already.
unfoldable pub value_of_value : Value → Value
value_of_value v =
    struct_value (record { name = codes "reflect.Value"; struct_fields = none }) (item v no_items)

-- `x.(reflect.Value)`
unfoldable pub as_struct : Value → Outcome Value
as_struct (struct_value t fs) = ok (struct_value t fs)
as_struct _ = panic

-- `AssignableTo`, behind which the value is set.
unfoldable pub assignable : (Value → Bool) → Outcome Value → Outcome Value
assignable takes (ok v) = if takes v then ok v else err wrong_tag
assignable takes o = o

abbrev pub and_then : {A B : Type 0} → Outcome A → (A → Outcome B) → Outcome B
and_then (ok a) k = k a
and_then (err e) k = err e
and_then panic k = panic
and_then stuck k = stuck

-- An element of a slice for the slice `out`.
unfoldable pub copy_elem : Target → Value → Outcome Value
copy_elem t v =
    if t.elem_is_struct
    then assignable t.takes_elem (as_struct v)
    else assignable t.takes_elem (ok (value_of_value v))

unfoldable pub copy_items : Target → Items → Outcome Items
copy_items t no_items = ok no_items
copy_items t (item v vs) =
    and_then (copy_elem t v) (λ w. and_then (copy_items t vs) (λ ws. ok (item w ws)))

-- The bytes of a slice of bytes as its elements.
unfoldable pub byte_items : List ℕ → Items
byte_items [] = no_items
byte_items (b ∷ bs) = item (binary (b ∷ [])) (byte_items bs)

-- `MakeSlice` panics on a type that is no slice.
unfoldable pub cp_slice : Target → Items → Outcome (Option Value)
cp_slice t vs =
    if not t.is_slice then panic else and_then (copy_items t vs) (λ ws. ok (some (list ws)))

-- A key or a value of a map: `reflect.ValueOf(nil)` has no type, and `Type` panics.
unfoldable pub reflected : Value → Outcome Value
reflected null = panic
reflected v = ok v

unfoldable pub copy_part : Bool → (Value → Bool) → Value → Outcome Value
copy_part is_struct takes v =
    if is_struct then assignable takes (as_struct v) else assignable takes (reflected v)

-- The entries of a map with no key twice, in the order of the loop.
unfoldable pub copy_entries : Target → Entries → Outcome Entries
copy_entries t no_entries = ok no_entries
copy_entries t (entry k v es) = and_then (copy_part t.key_is_struct t.takes_key k) (λ k'.
    and_then (copy_part t.value_is_struct t.takes_value v)
      (λ v'. and_then (copy_entries t es) (λ es'. ok (entry k' v' es'))))

-- `MakeMap` panics on a type that is no map.
unfoldable pub cp_map : Target → Entries → Outcome (Option Value)
cp_map t es =
    if not t.is_map then panic else and_then (copy_entries t es) (λ es'. ok (some (typed_map es')))

-- `reflect.ValueOf(out).Elem().Set(...)` panics on another type.
unfoldable pub set_target : Target → Value → Outcome (Option Value)
set_target t v = if t.takes v then ok (some v) else panic

-- By the kind of the type of the answer. A date and an enum have the kinds of a struct and of an
-- int32 and are neither a `reflect.Value` nor an `int32`; a pointer is no `reflect.Value`.
unfoldable pub reflect_kind : Target → Value → Outcome (Option Value)
reflect_kind t null = err wrong_tag
reflect_kind t (bool b) = set_target t (bool b)
reflect_kind t (int16 n) = set_target t (int16 n)
reflect_kind t (int32 n) = set_target t (int32 n)
reflect_kind t (int64 n) = set_target t (int64 n)
reflect_kind t (date d) = panic
reflect_kind t (double n) = set_target t (double n)
reflect_kind t (text s) = set_target t (text s)
reflect_kind t (binary bs) = if t.in_is_nil bs then err wrong_tag else cp_slice t (byte_items bs)
reflect_kind t (list vs) = cp_slice t vs
reflect_kind t (go_map es) = cp_map t es
reflect_kind t (typed_map es) = panic
reflect_kind t (ref i) = panic
reflect_kind t (enum n) = panic
reflect_kind t (pojo o fs) = panic
reflect_kind t (struct_value g fs) = set_target t (struct_value g fs)

-- `ReflectResponse`: the new value of the target, where it gets one.
unfoldable pub reflect_response : Target → Value → Outcome (Option Value)
reflect_response t null = err wrong_tag
reflect_response t v =
    if t.is_nil then err wrong_tag else if not t.is_pointer then err wrong_tag else reflect_kind t v

-- What a body comes to: an exception and a null answer are errors in Go, and a body of another type
-- is taken without an error.
pub data BodyResult : Type 0 where
  exception : Value → BodyResult
  answered : Option Value → BodyResult
  null_answer : BodyResult
  other_type : BodyResult

module _ (lib : ReaderLib) (fl : FloatLib) (objects : ObjectReader) where
  -- The values nest no deeper than there are bytes.
  abbrev decode_next : Decoding Value
  decode_next d = decode lib fl objects (suc (length d.bytes)) d

  -- Behind the type of the body.
  unfoldable pub body_of_kind : Target → ℕ → Decoder → Outcome BodyResult
  body_of_kind t kind d =
      if kind == 0
      then and_then (traced (decode_next d)).0 (λ v. ok (exception v))
      else if kind == 1
      then and_then (traced (decode_next d)).0
          (λ v. and_then (reflect_response t v) (λ o. ok (answered o)))
      else if kind == 2
      then ok null_answer
      else ok other_type

  unfoldable pub body_of_type : Target → Value → Decoder → Outcome BodyResult
  body_of_type t (int32 kind) d = body_of_kind t kind d
  body_of_type t _ d = ok other_type

  unfoldable pub typed_body : Target → Outcome Value × Decoder → Outcome BodyResult
  typed_body t (ok v, d) = body_of_type t v d
  typed_body t (err e, d) = err (traced_error e)
  typed_body t (panic, d) = panic
  typed_body t (stuck, d) = stuck

  unfoldable pub unpack_response_body : Target → List ℕ → Outcome BodyResult
  unpack_response_body t buf = typed_body t (decode_next (decoder buf 0 []))
