-- ===== src/Hessian/Classes.antt =====
-- The class registry of codec/hessian/pojo.go: which Go types stand for which Java classes.
-- One registry with its three tables; the lock makes each call a single step.
pub mod Consistency
pub mod Found
mod Runs
use dubbogo.Base.{
  ℕ, ◌%◌, ◌^◌, ◌≡◌, Bool, true, false, Option, none, some, List, [], ◌∷◌, ◌++◌, map, length,
  get_elem?, Outcome, ok, panic, string_key, nat_key, text_key, Dict, lookup, insert,
}
use dubbogo.Hessian.Ints.{enc_byte, enc_int32}
use dubbogo.Hessian.Text.{Text, enc_string}

-- A Go type: its name, and the names of its fields if it is a struct.
pub record GoType : Type 0 where
  pub name : Text
  pub struct_fields : Option (List Text)

-- What `reflect` sees of a value: a struct, a pointer (nil or not), or anything else.
pub data Shape : Type 0 where
  struct : GoType → Shape
  ptr : Option GoType → Shape
  other : GoType → Shape

pub record Pojo : Type 0 where
  pub java_class_name : Text
  pub shape : Shape

pub record ClassInfo : Type 0 where
  pub java_name : Text
  pub field_name_list : List Text
  pub buffer : List ℕ

pub record StructInfo : Type 0 where
  pub typ : GoType
  pub go_name : Text
  pub java_name : Text
  pub index : ℕ
  pub inst : Pojo

pub record PojoRegistry : Type 0 where
  pub class_info_list : List ClassInfo
  pub j2g : Dict Text Text
  pub registry : Dict Text StructInfo

-- `t.typ`; a nil pointer has no element, and `reflect` panics.
unfoldable pub type_of : Shape → Option GoType
type_of (struct t) = some t
type_of (ptr o) = o
type_of (other t) = some t

unfoldable pub enc_fields : List Text → List ℕ → List ℕ
enc_fields [] b = b
enc_fields (f ∷ fs) b = enc_fields fs (enc_string f b)

-- The encoded definition of a class: 'C', its name, the number of its fields, and their names.
unfoldable pub class_def : Text → List Text → List ℕ
class_def java fs =
    enc_fields fs (enc_int32 (length fs % 2 ^ 32) (enc_string java (enc_byte [] (b'C' ∷ []))))

-- `pojoRegistry.j2g[t.javaName] = t.goName`
unfoldable pub set_j2g : Text → Text → PojoRegistry → PojoRegistry
set_j2g java go r = record {
  class_info_list = r.class_info_list;
  j2g = insert java go r.j2g;
  registry = r.registry;
}

abbrev pub class_of : Pojo → List Text → ClassInfo
class_of o fs = record {
  java_name = o.java_class_name;
  field_name_list = fs;
  buffer = class_def o.java_class_name fs;
}

abbrev pub struct_of : Pojo → GoType → PojoRegistry → StructInfo
struct_of o t r = record {
  typ = t;
  go_name = t.name;
  java_name = o.java_class_name;
  index = length r.class_info_list;
  inst = o;
}

-- The class joins the list, and its struct the registry under its Go name.
unfoldable pub add_class :
    Pojo → GoType → List Text → PojoRegistry → Outcome (Option ℕ) × PojoRegistry
add_class o t fs r = (
  ok (some (length r.class_info_list)),
  record {
    class_info_list = r.class_info_list ++ (class_of o fs ∷ []);
    j2g = r.j2g;
    registry = insert t.name (struct_of o t r) r.registry;
  },
)

-- `NumField` panics on a type that is no struct.
unfoldable pub add_fields :
    Pojo → GoType → Option (List Text) → PojoRegistry → Outcome (Option ℕ) × PojoRegistry
add_fields o t none r = (panic, r)
add_fields o t (some fs) r = add_class o t fs r

-- The branch of a class that is not there yet; `fields` picks the fields of its type.
unfoldable pub register_new :
    (GoType → Option (List Text))
    → Pojo
    → Option GoType
    → PojoRegistry
    → Outcome (Option ℕ) × PojoRegistry
register_new fields o none r = (panic, r)
register_new fields o (some t) r = add_fields o t (fields t) (set_j2g o.java_class_name t.name r)

-- The test in front: `none` among the results is the -1 of a class that was found.
unfoldable pub register_unless :
    Option StructInfo
    → (GoType → Option (List Text))
    → Pojo
    → PojoRegistry
    → Outcome (Option ℕ) × PojoRegistry
register_unless none fields o r = register_new fields o (type_of o.shape) r
register_unless (some s) fields o r = (ok none, r)

module _ (to_lower : Text → Text) where
  unfoldable pub lowered : Option (List Text) → Option (List Text)
  lowered none = none
  lowered (some fs) = some (map to_lower fs)

  -- The fields of a struct, in lower case (`strings.ToLower`).
  abbrev pub pojo_fields : GoType → Option (List Text)
  pojo_fields t = lowered t.struct_fields

  unfoldable pub register_pojo : Pojo → PojoRegistry → Outcome (Option ℕ) × PojoRegistry
  register_pojo o r = register_unless (lookup o.java_class_name r.registry) pojo_fields o r

  -- An enum has the one field "name".
  unfoldable pub enum_fields : GoType → Option (List Text)
  enum_fields t = some (to_lower (b'n' ∷ b'a' ∷ b'm' ∷ b'e' ∷ []) ∷ [])

  unfoldable pub register_java_enum : Pojo → PojoRegistry → Outcome (Option ℕ) × PojoRegistry
  register_java_enum o r = register_unless (lookup o.java_class_name r.registry) enum_fields o r

-- The index of an entry that may be missing, 0 there, and whether it is found.
unfoldable pub index_of : Option StructInfo → ℕ × Bool
index_of none = (0, false)
index_of (some s) = (s.index, true)

unfoldable pub check_pojo_registry : Text → PojoRegistry → ℕ × Bool
check_pojo_registry go r = index_of (lookup go r.registry)

unfoldable pub struct_named : Option Text → PojoRegistry → Option StructInfo
struct_named none r = none
struct_named (some go) r = lookup go r.registry

unfoldable pub get_struct_info : Text → PojoRegistry → Option StructInfo
get_struct_info java r = struct_named (lookup java r.j2g) r

-- `j2g[...]` on a missing key is the empty name.
unfoldable pub go_name_of : Option Text → Text
go_name_of none = []
go_name_of (some go) = go

unfoldable pub found_def : ClassInfo → Option StructInfo → Option (GoType × ClassInfo)
found_def c none = none
found_def c (some s) = some (s.typ, c)

unfoldable pub def_of : Option ClassInfo → PojoRegistry → Option (GoType × ClassInfo)
def_of none r = none
def_of (some c) r = found_def c (lookup (go_name_of (lookup c.java_name r.j2g)) r.registry)

-- `none` is an error: an illegal index, or a Go type that the registry does not have.
unfoldable pub get_struct_def_by_index : ℕ → PojoRegistry → Option (GoType × ClassInfo)
get_struct_def_by_index i r = def_of (get_elem? r.class_info_list i) r

-- `createInstance`: the type of the new instance, if the name is registered.
unfoldable pub create_instance : Text → PojoRegistry → Option GoType
create_instance go r = elim (lookup go r.registry) [ none ↦ none | some s ↦ some s.typ ]

-- A call of one of the two registrations.
pub data Registration : Type 0 where
  of_pojo : Pojo → Registration
  of_enum : Pojo → Registration

abbrev pub pojo_of : Registration → Pojo
pojo_of (of_pojo o) = o
pojo_of (of_enum o) = o

abbrev pub fields_of : (Text → Text) → Registration → GoType → Option (List Text)
fields_of to_lower (of_pojo o) = pojo_fields to_lower
fields_of to_lower (of_enum o) = enum_fields to_lower

unfoldable pub register :
    (Text → Text) → Registration → PojoRegistry → Outcome (Option ℕ) × PojoRegistry
register to_lower (of_pojo o) r = register_pojo to_lower o r
register to_lower (of_enum o) r = register_java_enum to_lower o r

abbrev pub empty_registry : PojoRegistry
empty_registry = record { class_info_list = []; j2g = []; registry = [] }

-- The registries that calls make out of the empty one, where none of them panics.
pub data Registered (to_lower : Text → Text) : PojoRegistry → Type 0 where
  start : Registered to_lower empty_registry
  next :
      {r r' : PojoRegistry} {i : Option ℕ} (call : Registration)
      → Registered to_lower r
      → register to_lower call r ≡ (ok i, r')
      → Registered to_lower r'
