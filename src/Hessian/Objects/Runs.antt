-- ===== src/Hessian/Objects/Runs.antt =====
-- Objects of a concrete class, written and read.
use dubbogo.Base.{
  length, ℕ, ◌+◌, ◌≡◌, refl, inl, true, false, none, some, List, [], ◌∷◌, ◌++◌, map, arith, ◌==◌,
  if◌then◌else◌, within, ReaderLib, ok, string_key, nat_key, text_beq, text_key, lookup, insert,
}
use dubbogo.Hessian.Text.{Text, utf8, utf8_all, text_head, enc_text, enc_string}
use dubbogo.Hessian.Ints.{enc_int32}
use dubbogo.Hessian.Values.{
  Items, FloatLib, null, bool, int32, text, pojo, struct_value, no_items, item,
}
use dubbogo.Hessian.Classes.{
  type_of, enc_fields, class_def, set_j2g, class_of, add_class, add_fields, register_new,
  register_unless, lowered, register_pojo, index_of, check_pojo_registry, struct_named,
  get_struct_info, empty_registry, GoType, Pojo, PojoRegistry, struct,
}
use dubbogo.Hessian.Encoder.{
  count, find_class, class_def_at, type_name, define, instance_head, registered_index, class_index,
  enc_struct_head, enc_head, enc_value, Encoder,
}
use dubbogo.Hessian.Encoder.Plain.{IsPlain, adding}
use dubbogo.Hessian.Decoder.{decode}
use dubbogo.Hessian.Decoder.Leaves.{decoder}
use dubbogo.Hessian.Objects.{object_reader}
use dubbogo.Hessian.Objects.Fields.{find_field, Kind, GoTypes, string_kind, int32_kind, bool_kind}
use dubbogo.Hessian.Objects.Instance.{FieldsFit}
use dubbogo.Hessian.Encoder.Struct.{with_class}
use dubbogo.Hessian.Objects.ClassDef.{class_read}
use dubbogo.Hessian.Objects.RoundTrip.{decode-enc_value_known, decode-enc_value_new}

abbrev nil_lib : ReaderLib
nil_lib = record { trace_nil = none; annotatef_nil = none; available = λ s. length s }

-- Doubles that are whole, as their own bits, and no others.
abbrev whole_lib : FloatLib
whole_lib = record { from_int = λ n. n; to_int = λ n. n; same = λ a b. a == b; format = λ n. [] }

-- `strings.ToLower` on ASCII letters.
abbrev ascii_lower : Text → Text
ascii_lower = map (λ c. if within b'A' b'Z' c then c + 32 else c)

abbrev user_fields : List Text
user_fields = (b'I' ∷ b'd' ∷ []) ∷ (b'N' ∷ []) ∷ (b'O' ∷ b'k' ∷ []) ∷ []

abbrev user_names : List Text
user_names = (b'i' ∷ b'd' ∷ []) ∷ (b'n' ∷ []) ∷ (b'o' ∷ b'k' ∷ []) ∷ []

abbrev user_type : GoType
user_type = record { name = b'm' ∷ b'U' ∷ []; struct_fields = some user_fields }

abbrev user : Pojo
user = record { java_class_name = b'c' ∷ b'U' ∷ []; shape = struct user_type }

abbrev user_values : Items
user_values = item (int32 7) (item (text (b'x' ∷ [])) (item (bool true) no_items))

abbrev kind_at : ℕ → Kind
kind_at i = if i == 0 then int32_kind false else if i == 1 then string_kind else bool_kind

-- An application whose one type is the user's.
abbrev app_types : GoTypes
app_types = record {
  kind_of = λ t i. kind_at i;
  zero_values = λ t. item (int32 0) (item (text []) (item (bool false) no_items));
  can_set = λ t i. true;
  takes_items = λ t i xs. true;
  takes_entry = λ t i k v. true;
  takes_struct = λ t i u. true;
  is_enum = λ t. false;
  enum_value = λ o name. none;
  to_float32 = λ v. v;
  unread_byte = λ before after. after;
  beside_error = λ s. null;
}

abbrev user_registry : PojoRegistry
user_registry = (register_pojo ascii_lower user empty_registry).1

-- An encoder at its start, and behind an object of the class.
abbrev fresh : Encoder
fresh = record { buffer = []; class_info_list = []; pojo_registry = user_registry }

abbrev behind : Encoder
behind = with_class fresh (1 ∷ []) (class_of user user_names)

user_bytes :
    (enc_value whole_lib ascii_lower (pojo user user_values) fresh).1.buffer
    ≡ b'C' ∷ 2 ∷ b'c' ∷ b'U' ∷ 0x93 ∷ 2 ∷ b'i' ∷ b'd' ∷ 1 ∷ b'n' ∷ 2 ∷ b'o' ∷ b'k' ∷ 0x60 ∷ 0x97 ∷ 1
      ∷ b'x' ∷ b'T' ∷ []
unfolding enc_value enc_head enc_struct_head class_index find_class registered_index
    check_pojo_registry index_of type_name define class_def_at instance_head register_pojo
    register_unless register_new add_fields add_class set_j2g lowered type_of lookup insert text_beq
    class_def enc_fields enc_string enc_text text_head utf8 utf8_all enc_int32
user_bytes = refl

user_fit : FieldsFit whole_lib app_types ascii_lower user_type user_fields 0 user_names user_values
unfolding find_field text_beq IsPlain
user_fit = (
  refl,
  refl,
  refl,
  omega arith,
  (refl, refl, refl, (inl (omega arith), tt), (refl, refl, refl, tt, tt)),
)

decode-enc_value_new_example :
    (added : List ℕ) × (enc_value whole_lib ascii_lower (pojo user user_values) fresh
      ≡ (ok tt, with_class fresh added (class_of user user_names)))
    × (decode nil_lib whole_lib
          (object_reader nil_lib whole_lib app_types ascii_lower user_registry)
          3
          (decoder (added ++ (5 ∷ [])) 0 [])
        ≡ (
          ok (struct_value user_type user_values),
          decoder (5 ∷ []) 1 (class_read (b'c' ∷ b'U' ∷ []) user_names ∷ []),
        ))
unfolding register_pojo register_unless register_new add_fields add_class set_j2g lowered type_of
    lookup insert text_beq find_class count
decode-enc_value_new_example =
    decode-enc_value_new nil_lib whole_lib app_types ascii_lower user user_type user_fields
      user_values fresh empty_registry 0 [] 0 0 (5 ∷ []) (λ s. refl) refl refl refl refl refl
      (omega arith) (inl (omega arith), (inl (omega arith), tt))
      (
        (inl (omega arith), (inl (omega arith), tt)),
        ((inl (omega arith), tt), ((inl (omega arith), (inl (omega arith), tt)), tt)),
      )
      (omega arith) refl refl user_fit

decode-enc_value_known_example :
    (added : List ℕ) × (enc_value whole_lib ascii_lower (pojo user user_values) behind
      ≡ (ok tt, adding added behind))
    × (decode nil_lib whole_lib
          (object_reader nil_lib whole_lib app_types ascii_lower user_registry)
          2
          (decoder (added ++ (5 ∷ [])) 1 (class_read (b'c' ∷ b'U' ∷ []) user_names ∷ []))
        ≡ (
          ok (struct_value user_type user_values),
          decoder (5 ∷ []) 2 (class_read (b'c' ∷ b'U' ∷ []) user_names ∷ []),
        ))
unfolding register_pojo register_unless register_new add_fields add_class set_j2g lowered type_of
    lookup insert text_beq find_class get_struct_info struct_named count
decode-enc_value_known_example =
    decode-enc_value_known nil_lib whole_lib app_types ascii_lower user user_type user_fields
      user_names user_values behind (class_read (b'c' ∷ b'U' ∷ []) user_names ∷ []) 0 0 1 (5 ∷ [])
      (λ s. refl) refl refl (omega arith) refl ((_, refl, refl), refl, refl, refl, user_fit)
