-- ===== src/Codec.antt =====
-- codec/const.go: the types of transports and codecs, and their names.
pub mod Names
mod Runs
use Prim.Native.String.{String}
use dubbogo.Base.{
  ℕ, zero, suc, ◌&&◌, Option, none, some, List, [], ◌∷◌, ltb, if◌then◌else◌, get_elem?, string_key,
}

-- The constants from `..._BEGIN` on: 0 and 3 are the two ends.
abbrev pub begin_type : ℕ
begin_type = 0

abbrev pub unknown_type : ℕ
unknown_type = 3

abbrev pub transport_type_strings : List String
transport_type_strings = "" ∷ "TCP" ∷ "HTTP" ∷ "" ∷ []

abbrev pub codec_type_strings : List String
codec_type_strings = "" ∷ "jsonrpc" ∷ "dubbo" ∷ "" ∷ []

abbrev pub text_or_empty : Option String → String
text_or_empty none = ""
text_or_empty (some s) = s

-- `strings[t]`; the callers stay within the table.
unfoldable pub name_at : List String → ℕ → String
name_at strings t = text_or_empty (get_elem? strings t)

unfoldable pub type_name : List String → ℕ → String
type_name strings t = if ltb begin_type t && ltb t unknown_type then name_at strings t else ""

-- The loop over the types from `i` on, `n` in number.
unfoldable pub find_type : List String → String → ℕ → ℕ → ℕ
find_type strings name zero i = unknown_type
find_type strings name (suc n) i =
    let rest = find_type strings name n (suc i) in
    if string_key.same (name_at strings i) name then i else rest

unfoldable pub get_type : List String → String → ℕ
get_type strings name = find_type strings name 2 1

-- `TransportType.String` and `CodecType.String`
unfoldable pub transport_type_string : ℕ → String
transport_type_string = type_name transport_type_strings

unfoldable pub codec_type_string : ℕ → String
codec_type_string = type_name codec_type_strings

unfoldable pub get_transport_type : String → ℕ
get_transport_type = get_type transport_type_strings

unfoldable pub get_codec_type : String → ℕ
get_codec_type = get_type codec_type_strings
