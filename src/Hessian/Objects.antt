-- ===== src/Hessian/Objects.antt =====
-- What decode.go makes of registered Go types: class definitions (`decClassDef`), instances
-- (`decObject`, `decInstance`, `decEnum`) and typed maps (`decMap`, `decMapByValue`), over the
-- registry of pojo.go. What `reflect` tells of the application's types is an argument.
pub mod Fields
pub mod Leaves
pub mod ClassDef
pub mod Instance
pub mod RoundTrip
mod Runs
use dubbogo.Base.{
  ℕ, zero, suc, ◌-◌, Bool, true, false, Option, none, some, List, [], ◌∷◌, ◌++◌, ◌==◌,
  if◌then◌else◌, within, length, get_elem?, ReaderLib, short_read, wrong_tag, not_supported,
  no_such_class, ok, err, panic, stuck,
}
use dubbogo.Hessian.Text.{Text}
use dubbogo.Hessian.Ints.{dec_int32}
use dubbogo.Hessian.Values.{
  Value, Items, Entries, FloatLib, null, go_map, enum, struct_value, no_entries,
}
use dubbogo.Hessian.Strings.{is_text_tag, dec_string}
use dubbogo.Hessian.Classes.{
  check_pojo_registry, get_struct_info, found_def, GoType, ClassInfo, StructInfo, PojoRegistry,
  next,
}
use dubbogo.Hessian.Decoder.{
  Decoding, then_decode, on_bytes, traced, append_refs, is_negative, skip_byte, read_entry, decode,
  Decoder, ObjectReader,
}
use dubbogo.Hessian.Objects.Fields.{find_field, with_field, set_field, read_field, GoTypes}

-- `d.getStructDefByIndex(idx)`, an int32 given by its bits: the class as it was read, and the Go type
-- that the registry has for its name.
unfoldable pub typed_class : Option ClassInfo → PojoRegistry → Option (GoType × ClassInfo)
typed_class none r = none
typed_class (some c) r = found_def c (get_struct_info c.java_name r)

unfoldable pub dec_struct_def_by_index :
    ℕ → List ClassInfo → PojoRegistry → Option (GoType × ClassInfo)
dec_struct_def_by_index idx classes r =
    if is_negative idx then none else typed_class (get_elem? classes idx) r

-- `d.appendClsDef(cd)`
abbrev pub append_cls_def : ClassInfo → Decoder → Decoder
append_cls_def c d = record d { class_info_list = d.class_info_list ++ (c ∷ []) }

module _ (lib : ReaderLib) (fl : FloatLib) where
  -- The names of the fields of a class definition.
  unfoldable pub read_names : ℕ → Decoding (List Text)
  read_names zero d = (ok [], d)
  read_names (suc n) d =
      then_decode (traced (on_bytes (dec_string lib fl none) d))
        (λ name d'. then_decode (read_names n d') (λ names d''. (ok (name ∷ names), d'')))

  -- `make([]string, fieldNum)` panics on a negative number.
  unfoldable pub class_fields : Text → ℕ → Decoding ClassInfo
  class_fields java n d =
      if is_negative n
      then (panic, d)
      else then_decode (read_names n d)
          (λ names d'. (ok (record { java_name = java; field_name_list = names; buffer = [] }), d'))

  unfoldable pub dec_class_def : Decoding ClassInfo
  dec_class_def d =
      then_decode (traced (on_bytes (dec_string lib fl none) d))
        (λ java d'. then_decode (traced (on_bytes (dec_int32 none) d')) (class_fields java))

  module _ (types : GoTypes) (to_lower : Text → Text) (r : PojoRegistry) where
    -- The fields of `cls` one after the other; a name that the type does not have is passed over,
    -- with its value left to the next field.
    unfoldable pub read_fields :
        Decoding Value → Decoding Value → GoType → List Text → List Text → Items → Decoding Value
    read_fields decode object t fs [] held d = (ok (struct_value t held), d)
    read_fields decode object t fs (name ∷ names) held d =
        with_field (find_field to_lower name fs) (read_fields decode object t fs names held d) (λ i.
          set_field held i (read_field lib fl types decode object t i d)
            (read_fields decode object t fs names))

    -- A type that is no struct is refused.
    unfoldable pub dec_instance :
        Decoding Value → Decoding Value → GoType → Option (List Text) → ClassInfo → Decoding Value
    dec_instance decode object t none cls d = (err not_supported, d)
    dec_instance decode object t (some fs) cls d =
        read_fields decode object t fs cls.field_name_list (types.zero_values t) (append_refs d)

    -- `info.inst.(POJOEnum).EnumValue(enumName)`
    unfoldable pub enum_named : Option ℕ → Decoding Value
    enum_named none d = (panic, d)
    enum_named (some n) d = (ok (enum n), append_refs d)

    unfoldable pub enum_of : Option StructInfo → Text → Decoding Value
    enum_of none name d = (err no_such_class, d)
    enum_of (some info) name d = enum_named (types.enum_value info.inst name) d

    unfoldable pub dec_enum : Text → Decoding Value
    dec_enum java d =
        then_decode (traced (on_bytes (dec_string lib fl none) d))
          (enum_of (get_struct_info java r))

    unfoldable pub dec_object_of :
        Decoding Value → Decoding Value → Option (GoType × ClassInfo) → Decoding Value
    dec_object_of decode object none d = (err no_such_class, d)
    dec_object_of decode object (some (t, cls)) d =
        if types.is_enum t
        then dec_enum cls.java_name d
        else dec_instance decode object t t.struct_fields cls d

    abbrev dec_object_at : Decoding Value → Decoding Value → ℕ → Decoding Value
    dec_object_at decode object idx d =
        dec_object_of decode object (dec_struct_def_by_index idx d.class_info_list r) d

    -- `decObject` behind its tag. `object` is the `decObject` of a field that is a struct.
    unfoldable pub dec_object_tagged : Decoding Value → Decoding Value → ℕ → Decoding Value
    dec_object_tagged decode object tag d =
        if tag == b'C'
        then then_decode (traced (dec_class_def d)) (λ c d'. decode (append_cls_def c d'))
        else if tag == b'O'
        then then_decode (on_bytes (dec_int32 none) d) (dec_object_at decode object)
        else if within 0x60 0x6f tag
        then dec_object_at decode object (tag - 0x60) d
        else (err wrong_tag, d)

    -- `decObject` with its tag read first.
    unfoldable pub tag_first : (ℕ → Decoding Value) → List ℕ → Decoding Value
    tag_first k [] d = k 0 d
    tag_first k (tag ∷ s) d = k tag (record d { bytes = s })

    -- Each struct in a struct takes the byte of its tag.
    unfoldable pub dec_object : ℕ → Decoding Value → ℕ → Decoding Value
    dec_object zero decode tag d = (stuck, d)
    dec_object (suc fuel) decode tag d =
        dec_object_tagged decode (λ d'. tag_first (dec_object fuel decode) d'.bytes d') tag d

    -- `decType`: a name, or that of the type of a class.
    unfoldable pub name_of_def : Option (GoType × ClassInfo) → Decoding Text
    name_of_def none d = (err no_such_class, d)
    name_of_def (some (t, cls)) d = (ok t.name, d)

    unfoldable pub dec_type : List ℕ → Decoding Text
    dec_type [] d = (err short_read, d)
    dec_type (tag ∷ s) d =
        let d' = record d { bytes = s } in
        if is_text_tag lib fl tag
        then on_bytes (dec_string lib fl (some tag)) d'
        else then_decode (traced (on_bytes (dec_int32 none) d'))
            (λ idx d''. name_of_def (dec_struct_def_by_index idx d''.class_info_list r) d'')

    -- The rounds of a map of a registered type, to a byte 'z'.
    unfoldable pub typed_round : Decoding Value → Decoding Entries → List ℕ → Decoding Entries
    typed_round decode rounds [] d = (panic, d)
    typed_round decode rounds (b ∷ s) d =
        let next = read_entry decode rounds (decode d) in
        if b == b'z' then (ok no_entries, skip_byte d) else next

    unfoldable pub typed_rounds : Decoding Value → ℕ → Decoding Entries
    typed_rounds decode zero d = (stuck, d)
    typed_rounds decode (suc fuel) d = typed_round decode (typed_rounds decode fuel) d.bytes d

    -- The rounds over a nil instance: a value that is not null is set by a method, which a nil
    -- interface does not have, and `reflect` panics.
    unfoldable pub set_nothing : Decoding Value → Value → Decoding Value
    set_nothing rounds null d = rounds d
    set_nothing rounds _ d = (panic, d)

    unfoldable pub nil_round : Decoding Value → Decoding Value → List ℕ → Decoding Value
    nil_round decode rounds [] d = (panic, d)
    nil_round decode rounds (b ∷ s) d =
        let next = then_decode (then_decode (decode d) (λ k. decode)) (set_nothing rounds) in
        if b == b'z' then (ok null, d) else next

    unfoldable pub nil_rounds : Decoding Value → ℕ → Decoding Value
    nil_rounds decode zero d = (stuck, d)
    nil_rounds decode (suc fuel) d = nil_round decode (nil_rounds decode fuel) d.bytes d

    unfoldable pub typed_map_of : Decoding Value → ℕ × Bool → Decoding Value
    typed_map_of decode (i, true) d =
        then_decode (typed_rounds decode (suc (length d.bytes)) (append_refs d))
          (λ es d'. (ok (go_map es), d'))
    typed_map_of decode (i, false) d = nil_rounds decode (suc (length d.bytes)) (append_refs d)

    unfoldable pub dec_typed_map : Decoding Value → Decoding Value
    dec_typed_map decode d =
        then_decode (dec_type d.bytes d) (λ t. typed_map_of decode (check_pojo_registry t r))

    -- The reader of objects that `Decode` calls.
    unfoldable pub object_reader : ObjectReader
    object_reader = record {
      dec_object = λ decode tag d. dec_object (suc (length d.bytes)) decode tag d;
      dec_typed_map = dec_typed_map;
    }
