-- ===== src/Hessian/Objects/RoundTrip.antt =====
-- An object that `encStruct` wrote is read back by `decObject`.
use mathlib.Core.List.{append_assoc}
use dubbogo.Hessian.Classes.Found.{register-IsFound}
use dubbogo.Hessian.Objects.ClassDef.{
  class_body, class_def_lem, class_read, dec_class_def-class_body,
}
use dubbogo.Hessian.Encoder.Struct.{with_class, instance_bytes, enc_value-known, enc_value-new}
use dubbogo.Hessian.Strings.Runes.{IsRune}
use dubbogo.Base.{
  ℕ, suc, ◌^◌, ◌<◌, ◌≡◌, sym, ap, ◌∙◌, subst, false, Option, none, some, List, [], ◌∷◌, ◌++◌, map,
  arith, length, get_elem?, All, get_elem?-last, ReaderLib, ok,
}
use dubbogo.Hessian.Doubles.{HoldsAll}
use dubbogo.Hessian.Text.{Text}
use dubbogo.Hessian.Values.{Items, FloatLib, pojo, struct_value}
use dubbogo.Hessian.Classes.{
  type_of, class_def, class_of, lowered, pojo_fields, register_pojo, register, GoType, Pojo,
  ClassInfo, PojoRegistry, struct, of_pojo,
}
use dubbogo.Hessian.Encoder.{count, find_class, enc_value, Encoder}
use dubbogo.Hessian.Encoder.Plain.{adding}
use dubbogo.Hessian.Decoder.{decode_tagged, decode_from, decode}
use dubbogo.Hessian.Decoder.Leaves.{decoder}
use dubbogo.Hessian.Objects.{dec_object_tagged, dec_object, object_reader}
use dubbogo.Hessian.Objects.Fields.{GoTypes}
use dubbogo.Hessian.Objects.Instance.{FieldsFit, fields-ArePlain, run, ObjectFits, instance_back}

module _ (lib : ReaderLib) (fl : FloatLib) (types : GoTypes) (to_lower : Text → Text)
    (r : PojoRegistry) where
  -- An object and the definition of its class in front of it.
  defined_back :
      (all : HoldsAll lib) (f idx : ℕ) (java : Text) (t : GoType) (fs names : List Text)
      (vs : Items) (n : ℕ) (rest : List ℕ) (classes : List ClassInfo)
      → idx < 256
      → length classes ≡ idx
      → All IsRune java
      → All (All IsRune) names
      → length names < 2 ^ 31
      → ObjectFits lib fl types to_lower r java t fs names vs
      → run lib fl types to_lower r
          (suc (suc (suc f)))
          (decoder ((class_def java names ++ instance_bytes fl idx vs) ++ rest) n classes)
        ≡ (ok (struct_value t vs), decoder rest (suc n) (classes ++ (class_read java names ∷ [])))
  unfolding decode decode_from decode_tagged object_reader dec_object dec_object_tagged
  defined_back all f idx java t fs names vs n rest classes h size hj hn small fits =
      let later = instance_bytes fl idx vs in
      let more = classes ++ (class_read java names ∷ []) in
      let at : get_elem? more idx ≡ some (class_read java names) =
        subst (λ k. get_elem? more k ≡ some (class_read java names)) size
          (get_elem?-last (class_read java names) classes) in
      rw
        (
          class_def_lem java names small,
          append_assoc (class_body java names) later rest,
          dec_class_def-class_body lib fl classes java names n (later ++ rest) hj hn small,
        )
        (instance_back lib fl types to_lower r all f idx java t fs names vs n rest more h at fits)

-- An object whose class the encoder has written before, and the decoder has read at the same place
-- of its list, one of the first 256, is written behind whatever the buffer has, and read back with
-- the values of its fields, one reference more, and what follows it left unread, where one read gives
-- whatever is left of the input. Its fields can be set, are found by their names, and are strings,
-- int32, int64, bool, float64 and time.Time with plain values: no pointers, lists, maps, structs or
-- int16, and no negative integer with a compact form.
pub decode-enc_value_known :
    (lib : ReaderLib) (fl : FloatLib) (types : GoTypes) (to_lower : Text → Text) (o : Pojo)
    (t : GoType) (fs names : List Text) (vs : Items) (e : Encoder) (classes : List ClassInfo)
    (idx f n : ℕ) (rest : List ℕ)
    → HoldsAll lib
    → o.shape ≡ struct t
    → find_class o.java_class_name e.class_info_list ≡ some idx
    → idx < 256
    → get_elem? classes idx ≡ some (class_read o.java_class_name names)
    → ObjectFits lib fl types to_lower e.pojo_registry o.java_class_name t fs names vs
    → (added : List ℕ) × (enc_value fl to_lower (pojo o vs) e ≡ (ok tt, adding added e))
      × (decode lib fl
            (object_reader lib fl types to_lower e.pojo_registry)
            (suc (suc f))
            (decoder (added ++ rest) n classes)
          ≡ (ok (struct_value t vs), decoder rest (suc n) classes))
decode-enc_value_known lib fl types to_lower o t fs names vs e classes idx f n rest whole shape
      known small at fits =
    (
      instance_bytes fl idx vs,
      enc_value-known fl to_lower o t vs e idx shape known
          (fields-ArePlain fl types to_lower t fs 0 names vs fits.4),
      instance_back lib fl types to_lower e.pojo_registry whole f idx o.java_class_name t fs names
          vs n rest classes small at fits,
    )

abbrev names_of : Option (List Text) → List Text
names_of none = []
names_of (some ns) = ns

some_typ : {t u : GoType} → some t ≡ some u → u ≡ t
some_typ h = grind arith

abbrev type_fields : (Text → Text) → GoType → Option GoType → Option (List Text)
type_fields to_lower t none = none
type_fields to_lower t (some u) = pojo_fields to_lower u

picked_names :
    (to_lower : Text → Text) (t u : GoType) (fs names : List Text)
    → some t ≡ some u
    → t.struct_fields ≡ some fs
    → pojo_fields to_lower u ≡ some names
    → some names ≡ some (map to_lower fs)
unfolding lowered
picked_names to_lower t u fs names same is_struct picked =
    sym picked ∙ ap (type_fields to_lower t) (sym same) ∙ ap (lowered to_lower) is_struct

-- An object whose class is registered with the fields of its type, and stands neither in the
-- encoder's list nor in the decoder's of the same length, which is below 256, is written behind the
-- definition of its class, which joins both lists, and read back with the values of its fields, one
-- reference more, and what follows it left unread, where one read gives whatever is left of the
-- input. Its fields can be set, are found by their names, and are strings, int32, int64, bool,
-- float64 and time.Time with plain values: no pointers, lists, maps, structs or int16, and no
-- negative integer with a compact form.
pub decode-enc_value_new :
    (lib : ReaderLib) (fl : FloatLib) (types : GoTypes) (to_lower : Text → Text) (o : Pojo)
    (t : GoType) (fs : List Text) (vs : Items) (e : Encoder) (before : PojoRegistry) (i : ℕ)
    (classes : List ClassInfo) (f n : ℕ) (rest : List ℕ)
    → HoldsAll lib
    → o.shape ≡ struct t
    → t.struct_fields ≡ some fs
    → register_pojo to_lower o before ≡ (ok (some i), e.pojo_registry)
    → find_class o.java_class_name e.class_info_list ≡ none
    → length classes ≡ length e.class_info_list
    → length e.class_info_list < 256
    → All IsRune o.java_class_name
    → All (All IsRune) (map to_lower fs)
    → length (map to_lower fs) < 2 ^ 31
    → types.is_enum t ≡ false
    → count (types.zero_values t) ≡ count vs
    → FieldsFit fl types to_lower t fs 0 (map to_lower fs) vs
    → (added : List ℕ) × (enc_value fl to_lower (pojo o vs) e
        ≡ (ok tt, with_class e (e.buffer ++ added) (class_of o (map to_lower fs))))
      × (decode lib fl
            (object_reader lib fl types to_lower e.pojo_registry)
            (suc (suc (suc f)))
            (decoder (added ++ rest) n classes)
          ≡ (
            ok (struct_value t vs),
            decoder rest (suc n) (classes ++ (class_read o.java_class_name (map to_lower fs) ∷ [])),
          ))
unfolding type_of register
decode-enc_value_new lib fl types to_lower o t fs vs e before i classes f n rest held shape
      is_struct registered missing size small hj hn few no_enum whole fits =
    let idx = length e.class_info_list in
    let names = map to_lower fs in
    let found = register-IsFound to_lower (of_pojo o) i before e.pojo_registry registered in
    let same : some t ≡ some found.0.typ = ap type_of (sym shape) ∙ found.2 in
    let picked = picked_names to_lower t found.0.typ fs found.1 same is_struct found.3 in
    let same_names : found.1 ≡ names = ap names_of picked in
    let later = instance_bytes fl idx vs in
    (
      class_def o.java_class_name names ++ later,
      subst
          (λ ns. enc_value fl to_lower (pojo o vs) e ≡ (
            ok tt,
            with_class e (e.buffer ++ (class_def o.java_class_name ns ++ later)) (class_of o ns),
          ))
          same_names
          (enc_value-new fl to_lower o t vs e (pojo_fields to_lower) i shape missing
            (fields-ArePlain fl types to_lower t fs 0 names vs fits) found),
      defined_back lib fl types to_lower e.pojo_registry held f idx o.java_class_name t fs names vs
          n rest classes small size hj hn few
          ((found.0, found.4, some_typ same), no_enum, is_struct, whole, fits),
    )
