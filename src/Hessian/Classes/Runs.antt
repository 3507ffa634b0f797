-- ===== src/Hessian/Classes/Runs.antt =====
-- Runs of the class registry at concrete classes.
use dubbogo.Base.{
  ◌+◌, ◌≡◌, refl, none, some, [], ◌∷◌, map, if◌then◌else◌, within, string_key, nat_key, text_beq,
  text_key, lookup, insert,
}
use dubbogo.Hessian.Text.{Text, utf8, utf8_all, text_head, enc_text, enc_string}
use dubbogo.Hessian.Ints.{enc_int32}
use dubbogo.Hessian.Classes.{
  type_of, enc_fields, class_def, set_j2g, add_class, add_fields, register_new, register_unless,
  lowered, register_pojo, enum_fields, register_java_enum, register, empty_registry, GoType, Pojo,
  PojoRegistry, Registered, ptr, other, of_pojo, of_enum, start, next,
}

-- `strings.ToLower` on ASCII letters.
abbrev ascii_lower : Text → Text
ascii_lower = map (λ c. if within b'A' b'Z' c then c + 32 else c)

abbrev user_type : GoType
user_type = record {
  name = b'm' ∷ b'.' ∷ b'U' ∷ [];
  struct_fields = some ((b'I' ∷ b'd' ∷ []) ∷ []);
}

abbrev user : Pojo
user = record { java_class_name = b'c' ∷ b'.' ∷ b'U' ∷ []; shape = ptr (some user_type) }

abbrev gender_type : GoType
gender_type = record { name = b'm' ∷ b'.' ∷ b'G' ∷ []; struct_fields = none }

abbrev gender : Pojo
gender = record { java_class_name = b'c' ∷ b'.' ∷ b'G' ∷ []; shape = other gender_type }

abbrev one_class : PojoRegistry
one_class = (register ascii_lower (of_pojo user) empty_registry).1

abbrev two_classes : PojoRegistry
two_classes = (register ascii_lower (of_enum gender) one_class).1

user_buffer :
    class_def user.java_class_name ((b'i' ∷ b'd' ∷ []) ∷ [])
    ≡ b'C' ∷ 3 ∷ b'c' ∷ b'.' ∷ b'U' ∷ 0x91 ∷ 2 ∷ b'i' ∷ b'd' ∷ []
unfolding class_def enc_fields enc_string enc_text text_head utf8 utf8_all enc_int32
user_buffer = refl

calls : Registered ascii_lower two_classes
unfolding register register_pojo register_java_enum register_unless register_new add_fields
    add_class set_j2g lowered enum_fields type_of lookup insert text_beq
calls = next (of_enum gender) (next (of_pojo user) start refl) refl
