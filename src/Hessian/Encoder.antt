-- ===== src/Hessian/Encoder.antt =====
-- `Encode` of encode.go, over the encodings of the single values, with `encStruct` and `encMap`.
pub mod Plain
pub mod Struct
pub mod Appends
mod Runs
use dubbogo.Base.{
  ℕ, suc, ◌+◌, ◌%◌, ◌^◌, Bool, true, false, Option, none, some, List, [], ◌∷◌, ◌++◌, leb,
  if◌then◌else◌, length, get_elem?, Outcome, not_supported, ok, err, panic, stuck, text_beq,
}
use dubbogo.Hessian.Words.{byte}
use dubbogo.Hessian.Ints.{enc_byte, enc_int32, enc_int64}
use dubbogo.Hessian.Blob.{enc_binary}
use dubbogo.Hessian.Text.{Text, enc_string}
use dubbogo.Hessian.Classes.{
  register_pojo, check_pojo_registry, Shape, Pojo, ClassInfo, PojoRegistry, struct, ptr, other,
}
use dubbogo.Hessian.Values.{
  Value, Items, Entries, FloatLib, null, bool, int16, int32, int64, date, double, text, binary,
  list, go_map, typed_map, ref, enum, pojo, struct_value, no_items, item, no_entries, entry,
}
use dubbogo.Hessian.Doubles.{enc_float, enc_date_in_ms}

unfoldable pub count : Items → ℕ
count no_items = 0
count (item v xs) = suc (count xs)

unfoldable pub count_entries : Entries → ℕ
count_entries no_entries = 0
count_entries (entry k v es) = suc (count_entries es)

unfoldable pub is_empty : Entries → Bool
is_empty no_entries = true
is_empty (entry k v es) = false

-- The buffer, the classes whose definitions stand in it, and the registry of the process.
pub record Encoder : Type 0 where
  pub buffer : List ℕ
  pub class_info_list : List ClassInfo
  pub pojo_registry : PojoRegistry

-- What a call of `Encode` returns, and the encoder behind it: an error leaves what was written.
abbrev pub Encoded : Type 0
Encoded = Outcome (Unit {0}) × Encoder

abbrev pub then_encode : {A : Type 0} → Outcome A × Encoder → (A → Encoder → Encoded) → Encoded
then_encode (ok a, e) k = k a e
then_encode (err x, e) k = (err x, e)
then_encode (panic, e) k = (panic, e)
then_encode (stuck, e) k = (stuck, e)

abbrev pub with_buffer : Encoder → List ℕ → Encoder
with_buffer e b = record e { buffer = b }

abbrev pub wrote : (List ℕ → List ℕ) → Encoder → Encoded
wrote f e = (ok tt, with_buffer e (f e.buffer))

abbrev pub enc_bool : Bool → List ℕ → List ℕ
enc_bool v b = b ++ ((if v then b'T' else b'F') ∷ [])

abbrev pub one_further : Option ℕ → Option ℕ
one_further none = none
one_further (some i) = some (suc i)

-- The place of a class in the list of the encoder.
unfoldable pub find_class : Text → List ClassInfo → Option ℕ
find_class java [] = none
find_class java (c ∷ cs) =
    let later = one_further (find_class java cs) in
    if text_beq java c.java_name then some 0 else later

abbrev no_class : ClassInfo
no_class = record { java_name = []; field_name_list = []; buffer = [] }

abbrev class_or_none : Option ClassInfo → ClassInfo
class_or_none none = no_class
class_or_none (some c) = c

-- `_, clsDef, _ = getStructDefByIndex(idx)`: the definition, with the error dropped. `none` is the -1
-- of `RegisterPOJO`.
unfoldable pub class_def_at : Option ℕ → PojoRegistry → ClassInfo
class_def_at none r = no_class
class_def_at (some i) r = class_or_none (get_elem? r.class_info_list i)

-- `typeof(v)`
unfoldable pub type_name : Shape → Text
type_name (struct t) = t.name
type_name (ptr none) = []
type_name (ptr (some t)) = b'*' ∷ t.name
type_name (other t) = t.name

-- A class that the list does not have: its definition is written and joins the list.
abbrev pub add_def : ClassInfo → Encoder → Outcome ℕ × Encoder
add_def c e = (
  ok (length e.class_info_list),
  record {
    buffer = e.buffer ++ c.buffer;
    class_info_list = e.class_info_list ++ (c ∷ []);
    pojo_registry = e.pojo_registry;
  },
)

unfoldable pub define : Outcome (Option ℕ) × PojoRegistry → Encoder → Outcome ℕ × Encoder
define (ok i, r) e = add_def (class_def_at i r) (record e { pojo_registry = r })
define (err x, r) e = (err x, record e { pojo_registry = r })
define (panic, r) e = (panic, record e { pojo_registry = r })
define (stuck, r) e = (stuck, record e { pojo_registry = r })

-- The head of an object: `byte(idx)` is at most 15, or the long form is taken.
unfoldable pub instance_head : ℕ → List ℕ → List ℕ
instance_head idx b =
    if leb (byte idx) 0x0f
    then enc_byte b (byte (byte idx + 0x60) ∷ [])
    else enc_int32 (idx % 2 ^ 32) (enc_byte b (b'O' ∷ []))

-- What a pointer's struct comes to: `NumField` of a pointer panics.
unfoldable pub no_fields : Encoded → Encoded
no_fields (ok u, e) = (panic, e)
no_fields (err x, e) = (err x, e)
no_fields (panic, e) = (panic, e)
no_fields (stuck, e) = (stuck, e)

module _ (to_lower : Text → Text) where
  -- The index of the class in the registry, which takes a type it does not have.
  unfoldable pub registered_index :
      Pojo → PojoRegistry → ℕ × Bool → Outcome (Option ℕ) × PojoRegistry
  registered_index o r (i, true) = (ok (some i), r)
  registered_index o r (i, false) = register_pojo to_lower o r

  unfoldable pub class_index : Pojo → Option ℕ → Encoder → Outcome ℕ × Encoder
  class_index o (some i) e = (ok i, e)
  class_index o none e =
      let r = e.pojo_registry in
      define (registered_index o r (check_pojo_registry (type_name o.shape) r)) e

  -- `encStruct` before the fields.
  unfoldable pub enc_struct_head : Pojo → Encoder → Encoded
  enc_struct_head o e =
      then_encode (class_index o (find_class o.java_class_name e.class_info_list) e)
        (λ idx. wrote (instance_head idx))

  -- By the kind of the type: a pointer counts as a struct, of type `reflect.Value`.
  unfoldable pub enc_head : Shape → Pojo → Encoder → Encoded
  enc_head (struct t) o e = enc_struct_head o e
  enc_head (ptr none) o e = (panic, e)
  enc_head (ptr (some t)) o e = no_fields (enc_struct_head o e)
  enc_head (other t) o e = (err not_supported, e)

-- `getMapKey` by the kind of the key, and `Encode` of what it returns: that of an int16 panics.
unfoldable pub enc_key : FloatLib → Value → Encoder → Encoded
enc_key fl (bool v) e = wrote (enc_bool v) e
enc_key fl (int16 v) e = (panic, e)
enc_key fl (int32 v) e = wrote (enc_int32 v) e
enc_key fl (enum v) e = wrote (enc_int32 v) e
enc_key fl (int64 v) e = wrote (enc_int64 v) e
enc_key fl (double v) e = wrote (enc_float fl v) e
enc_key fl (text v) e = wrote (enc_string v) e
enc_key fl _ e = (err not_supported, e)

module _ (fl : FloatLib) (to_lower : Text → Text) where
  unfoldable mutual
    -- `e.Encode(v)`. A map with no entry writes nothing.
    pub enc_value : Value → Encoder → Encoded
    enc_value null e = wrote (λ b. b ++ (b'N' ∷ [])) e
    enc_value (bool v) e = wrote (enc_bool v) e
    enc_value (int16 v) e = (panic, e)
    enc_value (int32 v) e = wrote (enc_int32 v) e
    enc_value (int64 v) e = wrote (enc_int64 v) e
    enc_value (date t) e = wrote (enc_date_in_ms t) e
    enc_value (double v) e = wrote (enc_float fl v) e
    enc_value (text v) e = wrote (enc_string v) e
    enc_value (binary v) e = wrote (enc_binary v) e
    enc_value (list xs) e =
        then_encode (wrote (λ b. enc_int32 (count xs % 2 ^ 32) (enc_byte b (0x58 ∷ []))) e)
          (λ u. enc_items xs)
    enc_value (go_map es) e =
        let written =
          then_encode (then_encode (wrote (λ b. enc_byte b (b'H' ∷ [])) e) (λ u. enc_entries es))
            (λ u. wrote (λ b. enc_byte b (b'Z' ∷ []))) in
        if is_empty es then (ok tt, e) else written
    enc_value (typed_map es) e =
        let written =
          then_encode (then_encode (wrote (λ b. enc_byte b (b'H' ∷ [])) e) (λ u. enc_keyed es))
            (λ u. wrote (λ b. enc_byte b (b'Z' ∷ []))) in
        if is_empty es then (ok tt, e) else written
    enc_value (ref i) e = (err not_supported, e)
    enc_value (enum n) e = (err not_supported, e)
    enc_value (pojo o fs) e = then_encode (enc_head to_lower o.shape o e) (λ u. enc_items fs)
    enc_value (struct_value t fs) e = (err not_supported, e)

    -- The elements of a list, or the fields of a struct.
    pub enc_items : Items → Encoder → Encoded
    enc_items no_items e = (ok tt, e)
    enc_items (item v xs) e = then_encode (enc_value v e) (λ u. enc_items xs)

    pub enc_entries : Entries → Encoder → Encoded
    enc_entries no_entries e = (ok tt, e)
    enc_entries (entry k v es) e =
        then_encode (then_encode (enc_value k e) (λ u. enc_value v)) (λ u. enc_entries es)

    pub enc_keyed : Entries → Encoder → Encoded
    enc_keyed no_entries e = (ok tt, e)
    enc_keyed (entry k v es) e =
        then_encode (then_encode (enc_key fl k e) (λ u. enc_value v)) (λ u. enc_keyed es)
