-- ===== src/Hessian/Text.antt =====
-- Text of encode.go and decode.go: a Go string as its runes, written as UTF-8 in chunks of at most
-- 4096 runes, and the length in front of a chunk.
pub mod Heads
mod Runs
use dubbogo.Base.{
  ℕ, zero, suc, ◌+◌, ◌*◌, ◌/◌, ◌%◌, ◌^◌, ◌||◌, Option, none, some, List, [], ◌∷◌, ◌++◌, ltb, leb,
  ◌==◌, if◌then◌else◌, within, length, take, drop, go_return, ReaderLib,
}
use dubbogo.Hessian.Reader.{Reader, pure, ◌>>=◌, read_full, be}
use dubbogo.Hessian.Words.{byte}
use dubbogo.Hessian.Ints.{enc_byte, byte_sub}
use dubbogo.Hessian.Blob.{chunk_size}

-- The runes that `ReadRune` gives for the string, one by one.
abbrev pub Text : Type 0
Text = List ℕ

-- `string(r)`: the UTF-8 encoding of a rune.
unfoldable pub utf8 : ℕ → List ℕ
utf8 r =
    if leb r 0x7f
    then r ∷ []
    else if leb r 0x7ff
    then (0xc0 + r / 2 ^ 6) ∷ (0x80 + r % 2 ^ 6) ∷ []
    else if leb r 0xffff
    then (0xe0 + r / 2 ^ 12) ∷ (0x80 + (r / 2 ^ 6) % 2 ^ 6) ∷ (0x80 + r % 2 ^ 6) ∷ []
    else (0xf0 + r / 2 ^ 18)
      ∷ (0x80 + (r / 2 ^ 12) % 2 ^ 6)
      ∷ (0x80 + (r / 2 ^ 6) % 2 ^ 6)
      ∷ (0x80 + r % 2 ^ 6)
      ∷ []

-- `vChunk` over the runes that it takes.
unfoldable pub utf8_all : Text → List ℕ
utf8_all [] = []
utf8_all (r ∷ rs) = utf8 r ++ utf8_all rs

-- The bytes that open a chunk of a text with `n` runes left.
unfoldable pub text_head : ℕ → List ℕ
text_head n =
    if ltb chunk_size n
    then 0x52 ∷ byte (chunk_size / 2 ^ 8) ∷ byte chunk_size ∷ []
    else if leb n 0x1f
    then byte n ∷ []
    else if leb n 0x3ff
    then byte (n / 2 ^ 8 + 0x30) ∷ byte n ∷ []
    else b'S' ∷ byte (n / 2 ^ 8) ∷ byte n ∷ []

-- The runes that the next chunk takes.
abbrev pub text_length : ℕ → ℕ
text_length n = if ltb chunk_size n then chunk_size else n

-- The loop of `encString`. Each round takes a rune at least, so `length v` rounds are enough.
unfoldable pub enc_text : ℕ → Text → List ℕ → List ℕ
enc_text zero v b = b
enc_text (suc fuel) v b =
    let n = text_length (length v) in
    let next =
      enc_text fuel (drop n v) (enc_byte b (text_head (length v)) ++ utf8_all (take n v)) in
    if length v == 0 then b else next

unfoldable pub enc_string : Text → List ℕ → List ℕ
enc_string v b = if length v == 0 then enc_byte b (0x00 ∷ []) else enc_text (length v) v b

-- The default case returns -1 beside `jerrors.Trace` of a nil error; -1 is `none`.
unfoldable pub get_string_length : ReaderLib → ℕ → Reader (Option ℕ)
get_string_length lib tag =
    if leb tag 0x1f
    then pure (some tag)
    else if within 0x30 0x33 tag
    then (do buf ← read_full 1; pure (some (byte_sub tag 0x30 * 2 ^ 8 + be buf)))
    else if tag == b'R' || tag == b'S'
    then (do buf ← read_full 2; pure (some (be buf)))
    else λ s. (go_return none lib.trace_nil, s)
