-- ===== src/Hessian/Objects/ClassDef.antt =====
-- A class definition that the encoder wrote is read back.
use mathlib.Core.List.{append-nil, append_assoc}
use dubbogo.Base.{
  ℕ, ◌%◌, ◌^◌, ◌<◌, ◌≡◌, refl, sym, ap, ◌∙◌, false, List, [], ◌∷◌, ◌++◌, arith, length, All,
  ReaderLib, ok,
}
use dubbogo.Hessian.Text.{Text, enc_string}
use dubbogo.Hessian.Ints.{enc_int32}
use dubbogo.Hessian.Ints.RoundTrip.{dec_int32_exact}
use dubbogo.Hessian.Values.{FloatLib}
use dubbogo.Hessian.Strings.Runes.{IsRune}
use dubbogo.Hessian.Strings.RoundTrip.{dec_string-enc_string}
use dubbogo.Hessian.Classes.{enc_fields, class_def, ClassInfo}
use dubbogo.Hessian.Encoder.Plain.{enc_int32-append, enc_string-append}
use dubbogo.Hessian.Decoder.{is_negative}
use dubbogo.Hessian.Decoder.Leaves.{decoder}
use dubbogo.Hessian.Objects.{read_names, class_fields, dec_class_def}

-- The bytes of the names of fields.
abbrev pub names_bytes : List Text → List ℕ
names_bytes [] = []
names_bytes (f ∷ fs) = enc_string f [] ++ names_bytes fs

enc_fields-append : (fs : List Text) (b : List ℕ) → enc_fields fs b ≡ b ++ names_bytes fs
unfolding enc_fields
enc_fields-append [] b = sym (append-nil b)
enc_fields-append (f ∷ fs) b =
    enc_fields-append fs (enc_string f b)
    ∙ ap (λ l. l ++ names_bytes fs) (enc_string-append f b)
    ∙ append_assoc b (enc_string f []) (names_bytes fs)

-- What stands behind the tag of a class definition.
abbrev pub class_body : Text → List Text → List ℕ
class_body java fs = enc_string java [] ++ (enc_int32 (length fs) [] ++ names_bytes fs)

pub class_def_lem :
    (java : Text) (fs : List Text)
    → length fs < 2 ^ 31
    → class_def java fs ≡ b'C' ∷ class_body java fs
unfolding class_def
class_def_lem java fs small =
    let n = length fs in
    let short : n % 2 ^ 32 ≡ n = omega arith in
    let head = enc_string java (b'C' ∷ []) in
    ap (λ m. enc_fields fs (enc_int32 m head)) short
    ∙ enc_fields-append fs (enc_int32 n head)
    ∙ ap (λ l. l ++ names_bytes fs)
        (enc_int32-append n head
          ∙ ap (λ l. l ++ enc_int32 n []) (enc_string-append java (b'C' ∷ [])))
    ∙ ap (λ l. b'C' ∷ l) (append_assoc (enc_string java []) (enc_int32 n []) (names_bytes fs))

-- The class as the decoder keeps it.
abbrev pub class_read : Text → List Text → ClassInfo
class_read java fs = record { java_name = java; field_name_list = fs; buffer = [] }

module _ (lib : ReaderLib) (fl : FloatLib) (classes : List ClassInfo) where
  read_names_lem :
      (fs : List Text) (n : ℕ) (rest : List ℕ)
      → All (All IsRune) fs
      → read_names lib fl (length fs) (decoder (names_bytes fs ++ rest) n classes)
        ≡ (ok fs, decoder rest n classes)
  unfolding read_names
  read_names_lem [] n rest h = refl
  read_names_lem (f ∷ fs) n rest (h, hs) =
      rw
        (
          append_assoc (enc_string f []) (names_bytes fs) rest,
          dec_string-enc_string lib fl f (names_bytes fs ++ rest) h,
          read_names_lem fs n rest hs,
        )
        refl

  pub dec_class_def-class_body :
      (java : Text) (fs : List Text) (n : ℕ) (rest : List ℕ)
      → All IsRune java
      → All (All IsRune) fs
      → length fs < 2 ^ 31
      → dec_class_def lib fl (decoder (class_body java fs ++ rest) n classes)
        ≡ (ok (class_read java fs), decoder rest n classes)
  unfolding dec_class_def class_fields
  dec_class_def-class_body java fs n rest hj hf small =
      let tail = names_bytes fs ++ rest in
      let size = (dec_int32_exact (length fs) tail (omega arith)).1 (omega arith) in
      let fits : is_negative (length fs) ≡ false = ground arith in
      rw
        (
          append_assoc (enc_string java []) (enc_int32 (length fs) [] ++ names_bytes fs) rest,
          append_assoc (enc_int32 (length fs) []) (names_bytes fs) rest,
          dec_string-enc_string lib fl java (enc_int32 (length fs) [] ++ tail) hj,
          size,
          fits,
          read_names_lem fs n rest hf,
        )
        refl
