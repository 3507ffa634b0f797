-- ===== src/Hessian/Objects/Instance.antt =====
-- An instance behind its class definition is read back, field by field.
use mathlib.Core.List.{append_assoc}
use dubbogo.Hessian.Objects.ClassDef.{class_read}
use dubbogo.Hessian.Ints.{enc_int32}
use dubbogo.Hessian.Ints.RoundTrip.{dec_int32_exact}
use dubbogo.Hessian.Encoder.Struct.{instance_bytes}
use dubbogo.Hessian.Words.{byte}
use dubbogo.Base.{
  ℕ, suc, ◌+◌, ◌^◌, ◌≤◌, ◌<◌, ◌≡◌, refl, ap, ◌∙◌, ◌⊎◌, inl, inr, true, false, some, List, [], ◌∷◌,
  ◌++◌, arith, leb, Bool-cases, length, get_elem?, ReaderLib, ok,
}
use dubbogo.Hessian.Text.{Text}
use dubbogo.Hessian.Values.{Value, Items, FloatLib, struct_value, no_items, item}
use dubbogo.Hessian.Classes.{
  get_struct_info, found_def, GoType, ClassInfo, StructInfo, PojoRegistry,
}
use dubbogo.Hessian.Encoder.{count, instance_head}
use dubbogo.Hessian.Encoder.Plain.{IsPlain, ArePlain, bytes_of, bytes_of_items, enc_int32-append}
use dubbogo.Hessian.Decoder.{Decoding, is_negative, decode_tagged, decode_from, decode, Decoder}
use dubbogo.Hessian.Decoder.Leaves.{decoder}
use dubbogo.Hessian.Objects.{
  typed_class, dec_struct_def_by_index, read_fields, dec_instance, dec_object_of, dec_object_tagged,
  dec_object, object_reader,
}
use dubbogo.Hessian.Objects.Fields.{find_field, set_item, read_field, GoTypes}
use dubbogo.Hessian.Doubles.{HoldsAll}
use dubbogo.Hessian.Objects.Leaves.{leaf_of, leaf_field}

-- Values that stand in the fields from the place `i` on, one by one, over what the fields held.
abbrev fill : ℕ → Items → Items → Items
fill i no_items held = held
fill i (item v vs) held = fill (suc i) vs (set_item i v held)

fill_later :
    (i : ℕ) (vs : Items) (w : Value) (held : Items)
    → fill (suc i) vs (item w held) ≡ item w (fill i vs held)
unfolding set_item
fill_later i no_items w held = refl
fill_later i (item v vs) w held = fill_later (suc i) vs w (set_item i v held)

fill_all : (vs held : Items) → count held ≡ count vs → fill 0 vs held ≡ vs
unfolding count set_item
fill_all no_items no_items h = refl
fill_all no_items (item w held) h = absurd (omega arith)
fill_all (item v vs) no_items h = absurd (omega arith)
fill_all (item v vs) (item w held) h =
    fill_later 0 vs v held ∙ ap (item v) (fill_all vs held (omega arith))

-- The values `vs` are plain and fit the fields of the struct `t`, from the place `i` on: each name is
-- found at its own place, and the field there can be set and has the kind of its value.
abbrev pub FieldsFit :
    FloatLib → GoTypes → (Text → Text) → GoType → List Text → ℕ → List Text → Items → Type 0
FieldsFit fl types to_lower t fs i [] no_items = Unit {0}
FieldsFit fl types to_lower t fs i (name ∷ names) (item v vs) =
    (find_field to_lower name fs ≡ some i)
    × (types.can_set t i ≡ true)
    × (leaf_of (types.kind_of t i) v ≡ true)
    × IsPlain fl v
    × FieldsFit fl types to_lower t fs (suc i) names vs
FieldsFit fl types to_lower t fs i _ _ = ⊥

pub fields-ArePlain :
    (fl : FloatLib) (types : GoTypes) (to_lower : Text → Text) (t : GoType) (fs : List Text) (i : ℕ)
    (names : List Text) (vs : Items)
    → FieldsFit fl types to_lower t fs i names vs
    → ArePlain fl vs
unfolding IsPlain
fields-ArePlain fl types to_lower t fs i [] no_items h = tt
fields-ArePlain fl types to_lower t fs i [] (item v vs) h = absurd h
fields-ArePlain fl types to_lower t fs i (name ∷ names) no_items h = absurd h
fields-ArePlain fl types to_lower t fs i (name ∷ names) (item v vs)
      (found, can, leaf, plain, later) =
    (plain, fields-ArePlain fl types to_lower t fs (suc i) names vs later)

module _ (lib : ReaderLib) (fl : FloatLib) (types : GoTypes) (to_lower : Text → Text)
    (r : PojoRegistry) where
  abbrev pub run : ℕ → Decoding Value
  run = decode lib fl (object_reader lib fl types to_lower r)

  read_fields_lem :
      (all : HoldsAll lib) (f : ℕ) (object : Decoding Value) (t : GoType) (fs : List Text) (i : ℕ)
      (names : List Text) (vs held : Items) (n : ℕ) (rest : List ℕ) (classes : List ClassInfo)
      → FieldsFit fl types to_lower t fs i names vs
      → read_fields lib fl types to_lower r
          (run (suc f))
          object
          t
          fs
          names
          held
          (decoder (bytes_of_items fl vs ++ rest) n classes)
        ≡ (ok (struct_value t (fill i vs held)), decoder rest n classes)
  unfolding read_fields bytes_of read_field
  read_fields_lem all f object t fs i [] no_items held n rest classes h = refl
  read_fields_lem all f object t fs i [] (item v vs) held n rest classes h = absurd h
  read_fields_lem all f object t fs i (name ∷ names) no_items held n rest classes h = absurd h
  read_fields_lem all f object t fs i (name ∷ names) (item v vs) held n rest classes
        (found, can, leaf, plain, later) =
      let others = bytes_of_items fl vs ++ rest in
      let objects = object_reader lib fl types to_lower r in
      rw
        (
          append_assoc (bytes_of fl v) (bytes_of_items fl vs) rest,
          found,
          can,
          leaf_field lib fl types objects classes all f (types.kind_of t i) v leaf plain object t i
              n others,
        )
        (read_fields_lem all f object t fs (suc i) names vs (set_item i v held) n rest classes
          later)

  -- A class by its place among those that were read.
  class_at :
      (idx : ℕ) (classes : List ClassInfo) (c : ClassInfo) (s : StructInfo)
      → idx < 2 ^ 31
      → get_elem? classes idx ≡ some c
      → get_struct_info c.java_name r ≡ some s
      → dec_struct_def_by_index idx classes r ≡ some (s.typ, c)
  unfolding dec_struct_def_by_index typed_class found_def
  class_at idx classes c s small at named =
      let fits : is_negative idx ≡ false = ground arith in rw (fits, at, named) refl

  short_tag :
      (f idx : ℕ) (d : Decoder)
      → idx ≤ 15
      → decode_tagged lib fl (object_reader lib fl types to_lower r) (run f) (idx + 0x60) d
        ≡ dec_object lib fl types to_lower r (suc (length d.bytes)) (run f) (idx + 0x60) d
  unfolding decode_tagged object_reader
  short_tag f idx d h = ground arith

  object_tagged :
      (decode object : Decoding Value) (idx : ℕ) (d : Decoder)
      → idx ≤ 15
      → dec_object_tagged lib fl types to_lower r decode object (idx + 0x60) d
        ≡ dec_object_of lib fl types to_lower r decode object
            (dec_struct_def_by_index idx d.class_info_list r)
            d
  unfolding dec_object_tagged
  object_tagged decode object idx d h = ground arith

  -- What a struct needs to be read back: a Go type of the registry that is a struct and no enum, and
  -- values that fit its fields.
  abbrev pub ObjectFits : Text → GoType → List Text → List Text → Items → Type 0
  ObjectFits java t fs names vs =
      ((s : StructInfo) × (get_struct_info java r ≡ some s) × (s.typ ≡ t))
      × (types.is_enum t ≡ false)
      × (t.struct_fields ≡ some fs)
      × (count (types.zero_values t) ≡ count vs)
      × FieldsFit fl types to_lower t fs 0 names vs

  object_back :
      (all : HoldsAll lib) (f : ℕ) (object : Decoding Value) (java : Text) (t : GoType)
      (fs names : List Text) (vs : Items) (n : ℕ) (rest : List ℕ) (classes : List ClassInfo)
      → ObjectFits java t fs names vs
      → dec_object_of lib fl types to_lower r
          (run (suc f))
          object
          (some (t, class_read java names))
          (decoder (bytes_of_items fl vs ++ rest) n classes)
        ≡ (ok (struct_value t vs), decoder rest (suc n) classes)
  unfolding dec_object_of dec_instance
  object_back all f object java t fs names vs n rest classes
        (named, no_enum, is_struct, whole, fits) =
      let zeros = types.zero_values t in
      rw no_enum (
        ap
          (λ g.
            (dec_instance lib fl types to_lower r (run (suc f)) object t g (class_read java names)
              (decoder (bytes_of_items fl vs ++ rest) n classes)))
          is_struct
        ∙ read_fields_lem all f object t fs 0 names vs zeros (suc n) rest classes fits
        ∙ ap (λ held. (ok (struct_value t held), decoder rest (suc n) classes))
            (fill_all vs zeros whole))

  -- The class of an object, as its place leads to it.
  class_typed :
      (idx : ℕ) (classes : List ClassInfo) (java : Text) (t : GoType) (fs names : List Text)
      (vs : Items)
      → idx < 2 ^ 31
      → get_elem? classes idx ≡ some (class_read java names)
      → ObjectFits java t fs names vs
      → dec_struct_def_by_index idx classes r ≡ some (t, class_read java names)
  class_typed idx classes java t fs names vs small at
        ((s, named, typ), no_enum, is_struct, whole, fits) =
      class_at idx classes (class_read java names) s small at named
      ∙ ap (λ u. some (u, class_read java names)) typ

  short_back :
      (all : HoldsAll lib) (f idx : ℕ) (java : Text) (t : GoType) (fs names : List Text)
      (vs : Items) (n : ℕ) (rest : List ℕ) (classes : List ClassInfo)
      → idx ≤ 15
      → get_elem? classes idx ≡ some (class_read java names)
      → ObjectFits java t fs names vs
      → run (suc (suc f)) (decoder ((idx + 0x60) ∷ (bytes_of_items fl vs ++ rest)) n classes)
        ≡ (ok (struct_value t vs), decoder rest (suc n) classes)
  unfolding decode decode_from dec_object
  short_back all f idx java t fs names vs n rest classes h at fits =
      let d = decoder (bytes_of_items fl vs ++ rest) n classes in
      let class = class_typed idx classes java t fs names vs (omega arith) at fits in
      short_tag (suc f) idx d h
      ∙ object_tagged (run (suc f)) _ idx d h
      ∙ rw class (object_back all f _ java t fs names vs n rest classes fits)

  long_back :
      (all : HoldsAll lib) (f idx : ℕ) (java : Text) (t : GoType) (fs names : List Text)
      (vs : Items) (n : ℕ) (rest : List ℕ) (classes : List ClassInfo)
      → idx < 256
      → get_elem? classes idx ≡ some (class_read java names)
      → ObjectFits java t fs names vs
      → run
          (suc (suc f))
          (decoder (b'O' ∷ (enc_int32 idx [] ++ (bytes_of_items fl vs ++ rest))) n classes)
        ≡ (ok (struct_value t vs), decoder rest (suc n) classes)
  unfolding decode decode_from decode_tagged object_reader dec_object dec_object_tagged
  long_back all f idx java t fs names vs n rest classes h at fits =
      let tail = bytes_of_items fl vs ++ rest in
      let size = (dec_int32_exact idx tail (omega arith)).1 (omega arith) in
      let class = class_typed idx classes java t fs names vs (omega arith) at fits in
      rw (size, class) (object_back all f _ java t fs names vs n rest classes fits)

  head_cases :
      (idx : ℕ)
      → idx < 256
      → ((idx ≤ 15) × (instance_head idx [] ≡ (idx + 0x60) ∷ []))
        ⊎ (instance_head idx [] ≡ b'O' ∷ enc_int32 idx [])
  unfolding instance_head
  head_cases idx h = elim (Bool-cases (leb (byte idx) 0x0f)) [
    | inl y ↦ inl (ground arith, rw y (ap (λ m. m ∷ []) (ground arith)))
    | inr m ↦
        inr (
          rw m (ap (λ k. enc_int32 k (b'O' ∷ [])) (omega arith) ∙ enc_int32-append idx (b'O' ∷ [])))
  ]

  -- An object behind the definition of its class.
  pub instance_back :
      (all : HoldsAll lib) (f idx : ℕ) (java : Text) (t : GoType) (fs names : List Text)
      (vs : Items) (n : ℕ) (rest : List ℕ) (classes : List ClassInfo)
      → idx < 256
      → get_elem? classes idx ≡ some (class_read java names)
      → ObjectFits java t fs names vs
      → run (suc (suc f)) (decoder (instance_bytes fl idx vs ++ rest) n classes)
        ≡ (ok (struct_value t vs), decoder rest (suc n) classes)
  instance_back all f idx java t fs names vs n rest classes h at fits =
      let whole = append_assoc (instance_head idx []) (bytes_of_items fl vs) rest in
      elim (head_cases idx h) [
        | inl (small, e) ↦
            rw (whole, e) (short_back all f idx java t fs names vs n rest classes small at fits)
        | inr e ↦ rw (whole, e) (long_back all f idx java t fs names vs n rest classes h at fits)
      ]
