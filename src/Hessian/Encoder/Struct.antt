-- ===== src/Hessian/Encoder/Struct.antt =====
-- What `encStruct` writes for a struct whose class is registered.
use mathlib.Core.List.{append_assoc}
use dubbogo.Base.{
  ℕ, ◌%◌, ◌^◌, ◌≡◌, refl, sym, ap, ◌∙◌, Option, none, some, List, [], ◌∷◌, ◌++◌, arith, length,
  get_elem?, ok,
}
use dubbogo.Hessian.Text.{Text}
use dubbogo.Hessian.Ints.{enc_int32}
use dubbogo.Hessian.Values.{Items, FloatLib, pojo}
use dubbogo.Hessian.Classes.{
  type_of, class_def, class_of, found_def, def_of, get_struct_def_by_index, GoType, Pojo, ClassInfo,
  StructInfo, PojoRegistry, struct,
}
use dubbogo.Hessian.Classes.Found.{IsFound}
use dubbogo.Hessian.Encoder.{
  then_encode, with_buffer, wrote, find_class, class_def_at, type_name, add_def, define,
  instance_head, registered_index, class_index, enc_struct_head, enc_head, enc_value, enc_items,
  Encoder,
}
use dubbogo.Hessian.Encoder.Plain.{
  ArePlain, bytes_of_items, enc_int32-append, adding, enc_items-plain,
}

-- An encoder whose list has one class more.
abbrev pub with_class : Encoder → List ℕ → ClassInfo → Encoder
with_class e b c = record {
  buffer = b;
  class_info_list = e.class_info_list ++ (c ∷ []);
  pojo_registry = e.pojo_registry;
}

pub instance_head-append : (idx : ℕ) (b : List ℕ) → instance_head idx b ≡ b ++ instance_head idx []
unfolding instance_head
instance_head-append idx b =
    let long : enc_int32 (idx % 2 ^ 32) (b ++ (b'O' ∷ []))
        ≡ b ++ enc_int32 (idx % 2 ^ 32) (b'O' ∷ []) =
      enc_int32-append (idx % 2 ^ 32) (b ++ (b'O' ∷ []))
      ∙ append_assoc b (b'O' ∷ []) (enc_int32 (idx % 2 ^ 32) [])
      ∙ ap (λ l. b ++ l) (sym (enc_int32-append (idx % 2 ^ 32) (b'O' ∷ []))) in
    ground (arith, long)

found_def-same :
    (c d : ClassInfo) (t : GoType) (s : Option StructInfo) → found_def c s ≡ some (t, d) → c ≡ d
unfolding found_def
found_def-same c d t none h = absurd (grind arith)
found_def-same c d t (some s) h = grind arith

abbrev name_of_type : Text → Option GoType → Text
name_of_type n none = n
name_of_type n (some t) = t.name

-- The class that the list of the registry has at an index that it finds.
def_of-listed :
    (c : Option ClassInfo) (r : PojoRegistry) (t : GoType) (d : ClassInfo)
    → def_of c r ≡ some (t, d)
    → c ≡ some d
unfolding def_of
def_of-listed none r t d h = absurd (grind arith)
def_of-listed (some c) r t d h = ap some (found_def-same c d t _ h)

-- The index of a class that is registered, in the encoder's list behind the call.
new_class_index :
    (to_lower : Text → Text) (o : Pojo) (fields : GoType → Option (List Text)) (i : ℕ) (t : GoType)
    (e : Encoder)
    → o.shape ≡ struct t
    → (found : IsFound fields o i e.pojo_registry)
    → class_index to_lower o none e ≡ add_def (class_of o found.1) e
unfolding class_index type_name type_of registered_index define class_def_at get_struct_def_by_index
new_class_index to_lower o fields i t e shape (s, fs, typ, picked, java, known, listed) =
    let r = e.pojo_registry in
    let same : some t ≡ some s.typ = ap type_of (sym shape) ∙ typ in
    let name : t.name ≡ s.typ.name = ap (λ z. name_of_type t.name z) same in
    let class = def_of-listed (get_elem? r.class_info_list i) r s.typ (class_of o fs) listed in
    rw (shape, name, known, class) refl

-- The bytes of an object behind the definition of its class.
abbrev pub instance_bytes : FloatLib → ℕ → Items → List ℕ
instance_bytes fl idx vs = instance_head idx [] ++ bytes_of_items fl vs

-- The head of an object and its fields, behind what the buffer has.
instance_adds :
    (fl : FloatLib) (to_lower : Text → Text) (idx : ℕ) (vs : Items) (e : Encoder)
    → ArePlain fl vs
    → then_encode (wrote (instance_head idx) e) (λ u. enc_items fl to_lower vs)
      ≡ (ok tt, adding (instance_bytes fl idx vs) e)
instance_adds fl to_lower idx vs e plain =
    let b = e.buffer in
    let head = instance_head idx [] in
    ap (λ l. enc_items fl to_lower vs (with_buffer e l)) (instance_head-append idx b)
    ∙ enc_items-plain fl to_lower vs (adding head e) plain
    ∙ ap (λ l. (ok tt, with_buffer e l)) (append_assoc b head (bytes_of_items fl vs))

-- An object whose class stands in the encoder's list is written by its place there and its fields.
pub enc_value-known :
    (fl : FloatLib) (to_lower : Text → Text) (o : Pojo) (t : GoType) (vs : Items) (e : Encoder)
    (idx : ℕ)
    → o.shape ≡ struct t
    → find_class o.java_class_name e.class_info_list ≡ some idx
    → ArePlain fl vs
    → enc_value fl to_lower (pojo o vs) e ≡ (ok tt, adding (instance_bytes fl idx vs) e)
unfolding enc_value enc_head enc_struct_head class_index
enc_value-known fl to_lower o t vs e idx shape listed plain =
    rw (shape, listed) (instance_adds fl to_lower idx vs e plain)

-- An object whose class is registered and stands not in the encoder's list is written behind the
-- definition of its class, which joins the list.
pub enc_value-new :
    (fl : FloatLib) (to_lower : Text → Text) (o : Pojo) (t : GoType) (vs : Items) (e : Encoder)
    (fields : GoType → Option (List Text)) (i : ℕ)
    → o.shape ≡ struct t
    → find_class o.java_class_name e.class_info_list ≡ none
    → ArePlain fl vs
    → (found : IsFound fields o i e.pojo_registry)
    → enc_value fl to_lower (pojo o vs) e ≡ (
      ok tt,
      with_class e
          (e.buffer
            ++ (class_def o.java_class_name found.1
                ++ instance_bytes fl (length e.class_info_list) vs))
          (class_of o found.1),
    )
unfolding enc_value enc_head enc_struct_head
enc_value-new fl to_lower o t vs e fields i shape missing plain found =
    let c = class_of o found.1 in
    let idx = length e.class_info_list in
    ap (λ sh. then_encode (enc_head to_lower sh o e) (λ u. enc_items fl to_lower vs)) shape
    ∙ rw (missing, new_class_index to_lower o fields i t e shape found)
        (instance_adds fl to_lower idx vs (with_class e (e.buffer ++ c.buffer) c) plain
          ∙ ap (λ l. (ok tt, with_class e l c))
              (append_assoc e.buffer c.buffer (instance_bytes fl idx vs)))
