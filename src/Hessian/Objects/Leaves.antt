-- ===== src/Hessian/Objects/Leaves.antt =====
-- The fields of a struct that one reader reads.
use dubbogo.Base.{ℕ, suc, ◌≡◌, refl, Bool, true, false, some, List, ◌++◌, arith, ReaderLib, ok}
use dubbogo.Hessian.Text.{Text}
use dubbogo.Hessian.Ints.{bytes64}
use dubbogo.Hessian.Ints.RoundTrip.{dec_int32_exact, dec_int64_exact}
use dubbogo.Hessian.Values.{Instant, Value, FloatLib, bool, int32, int64, date, double, text}
use dubbogo.Hessian.Doubles.{dec_double, unix_millis, enc_date_in_ms, dec_date, HoldsAll}
use dubbogo.Hessian.Doubles.Reads.{whole_millis, dec_date-enc_date_in_ms, read_long_double}
use dubbogo.Hessian.Strings.RoundTrip.{dec_string-enc_string}
use dubbogo.Hessian.Classes.{GoType, ClassInfo}
use dubbogo.Hessian.Encoder.Plain.{IsPlain, bytes_of}
use dubbogo.Hessian.Decoder.{Decoding, decode, ObjectReader}
use dubbogo.Hessian.Decoder.Leaves.{whole_millis-IsMillis, depth, refs_after, decoder, bool_back}
use dubbogo.Hessian.Objects.Fields.{
  set_bool, set_float, int_or_enum, read_kind, Kind, GoTypes, string_kind, int32_kind, int64_kind,
  bool_kind, float64_kind, time_kind, set,
}

-- The values without parts that a field of a kind holds.
abbrev pub leaf_of : Kind → Value → Bool
leaf_of string_kind (text s) = true
leaf_of (int32_kind enums) (int32 v) = true
leaf_of (int64_kind enums) (int64 v) = true
leaf_of bool_kind (bool v) = true
leaf_of float64_kind (double v) = true
leaf_of time_kind (date v) = true
leaf_of _ _ = false

module _ (lib : ReaderLib) (fl : FloatLib) (types : GoTypes) (objects : ObjectReader)
    (classes : List ClassInfo) (whole : HoldsAll lib) where
  abbrev FieldBack : ℕ → Kind → Value → Type 0
  FieldBack f kind v =
      (object : Decoding Value) (t : GoType) (i n : ℕ) (rest : List ℕ)
      → read_kind lib fl types (decode lib fl objects (suc f)) object t i kind
          (decoder (bytes_of fl v ++ rest) n classes)
        ≡ (set v, decoder rest n classes)

  text_field : (f : ℕ) (v : Text) → IsPlain fl (text v) → FieldBack f string_kind (text v)
  unfolding read_kind bytes_of IsPlain
  text_field f v h object t i n rest = rw (dec_string-enc_string lib fl v rest h) refl

  int32_field :
      (f v : ℕ) (enums : Bool) → IsPlain fl (int32 v) → FieldBack f (int32_kind enums) (int32 v)
  unfolding read_kind bytes_of IsPlain int_or_enum
  int32_field f v true h object t i n rest = rw ((dec_int32_exact v rest (omega arith)).1 h) refl
  int32_field f v false h object t i n rest = rw ((dec_int32_exact v rest (omega arith)).1 h) refl

  int64_field :
      (f v : ℕ) (enums : Bool) → IsPlain fl (int64 v) → FieldBack f (int64_kind enums) (int64 v)
  unfolding read_kind bytes_of IsPlain int_or_enum
  int64_field f v true h object t i n rest = rw ((dec_int64_exact v rest (omega arith)).1 h) refl
  int64_field f v false h object t i n rest = rw ((dec_int64_exact v rest (omega arith)).1 h) refl

  bool_field : (f : ℕ) (v : Bool) → FieldBack f bool_kind (bool v)
  unfolding read_kind set_bool depth refs_after
  bool_field f v object t i n rest =
      rw (bool_back lib fl objects classes v (suc f) n rest (omega arith)) refl

  double_field : (f v : ℕ) → IsPlain fl (double v) → FieldBack f float64_kind (double v)
  unfolding read_kind bytes_of IsPlain set_float dec_double
  double_field f v h object t i n rest = rw (read_long_double fl v rest h.0) refl

  date_field : (f : ℕ) (v : Instant) → IsPlain fl (date v) → FieldBack f time_kind (date v)
  unfolding read_kind bytes_of IsPlain dec_date enc_date_in_ms
  date_field f v h object t i n rest =
      let reads : dec_date lib (some 0x4a) (bytes64 (unix_millis v) ++ rest)
          ≡ (ok (date (whole_millis v)), rest) =
        dec_date-enc_date_in_ms lib v rest whole h.0 in
      rw (reads, whole_millis-IsMillis v h) refl

  pub leaf_field :
      (f : ℕ) (kind : Kind) (v : Value) → leaf_of kind v ≡ true → IsPlain fl v → FieldBack f kind v
  leaf_field f string_kind (text v) e h = text_field f v h
  leaf_field f (int32_kind enums) (int32 v) e h = int32_field f v enums h
  leaf_field f (int64_kind enums) (int64 v) e h = int64_field f v enums h
  leaf_field f bool_kind (bool v) e h = bool_field f v
  leaf_field f float64_kind (double v) e h = double_field f v h
  leaf_field f time_kind (date v) e h = date_field f v h
  leaf_field f _ _ e h = absurd (grind arith)
