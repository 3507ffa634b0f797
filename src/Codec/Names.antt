-- ===== src/Codec/Names.antt =====
-- The names of transports and codecs give their types back.
use Prim.Native.String.{String}
use dubbogo.Base.{
  ℕ, zero, suc, ◌+◌, ◌≤◌, ◌<◌, ◌≡◌, refl, ◌∙◌, ◌⊎◌, inl, inr, List, arith, ◌==◌, Bool-cases, lt→ltb,
  string_key,
}
use dubbogo.Codec.{
  unknown_type, codec_type_strings, name_at, type_name, find_type, get_type, transport_type_string,
  codec_type_string, get_transport_type, get_codec_type,
}

-- A type between the two ends.
abbrev pub IsType : ℕ → Type 0
IsType t = (0 < t) × (t < 3)

type_cases : (t : ℕ) → IsType t → (t ≡ 1) ⊎ (t ≡ 2)
type_cases t h = elim (Bool-cases (t == 1)) [
  | inl y ↦ inl (ground arith)
  | inr n ↦ inr (ground arith)
]

-- The name of a transport, or of a codec, gives the type back.
pub get_type-string :
    (t : ℕ)
    → IsType t
    → (get_transport_type (transport_type_string t) ≡ t)
      × (get_codec_type (codec_type_string t) ≡ t)
unfolding get_transport_type get_codec_type transport_type_string codec_type_string get_type
    find_type type_name name_at
get_type-string t h = elim (type_cases t h) [
  | inl e ↦ rw e (refl, refl)
  | inr e ↦ rw e (refl, refl)
]

find_type_cases :
    (strings : List String) (name : String) (n i : ℕ)
    → (find_type strings name n i ≡ unknown_type)
      ⊎ ((i ≤ find_type strings name n i)
          × (find_type strings name n i < i + n)
          × (name_at strings (find_type strings name n i) ≡ name))
unfolding find_type
find_type_cases strings name zero i = inl refl
find_type_cases strings name (suc n) i =
    elim (Bool-cases (string_key.same (name_at strings i) name)) [
      | inl y ↦
          rw y (inr (omega arith, omega arith, (string_key.same_iff (name_at strings i) name).0 y))
      | inr z ↦ elim (find_type_cases strings name n (suc i)) [
        | inl e ↦ rw z (inl e)
        | inr (low, high, e) ↦ rw z (inr (omega arith, omega arith, e))
      ]
    ]

name_inside : (strings : List String) (t : ℕ) → IsType t → type_name strings t ≡ name_at strings t
unfolding type_name
name_inside strings t h = rw (lt→ltb 0 t h.0, lt→ltb t 3 h.1) refl

-- A text that is taken for the type of a codec is that type's name, and any other text is taken for
-- the unknown type.
pub codec_name_cases :
    (name : String)
    → (get_codec_type name ≡ unknown_type)
      ⊎ (IsType (get_codec_type name) × (codec_type_string (get_codec_type name) ≡ name))
unfolding get_codec_type codec_type_string get_type type_name
codec_name_cases name = elim (find_type_cases codec_type_strings name 2 1) [
  | inl e ↦ inl e
  | inr (low, high, e) ↦
      let inside : type_name codec_type_strings (find_type codec_type_strings name 2 1)
          ≡ name_at codec_type_strings (find_type codec_type_strings name 2 1) =
        name_inside codec_type_strings _ (low, high) in
      inr ((low, high), inside ∙ e)
]
