-- ===== src/Hessian/Ints.antt =====
-- The integers of encode.go and decode.go: compact forms of int32 and int64.
pub mod RoundTrip
mod Runs
use dubbogo.Base.{
  ℕ, ◌+◌, ◌-◌, ◌*◌, ◌%◌, ◌^◌, ◌&&◌, Option, none, List, [], ◌∷◌, ◌++◌, ◌==◌, if◌then◌else◌, within,
  wrong_tag,
}
use dubbogo.Hessian.Words.{byte, sle32, sle64, sar32, sar64, neg32, neg64}
use dubbogo.Hessian.Reader.{Reader, pure, fail, ◌>>=◌, read_tag, read_full, be, tag_of}

-- `encByte(b, t...)`
abbrev pub enc_byte : List ℕ → List ℕ → List ℕ
enc_byte b t = b ++ t

-- `byte(tag - base)` is computed in bytes, so it wraps at 256.
abbrev pub byte_sub : ℕ → ℕ → ℕ
byte_sub tag base = (tag + 256 - base) % 256

unfoldable pub enc_int32 : ℕ → List ℕ → List ℕ
enc_int32 v b =
    if sle32 (neg32 0x10) v && sle32 v 0x2f
    then enc_byte b (byte ((v + 0x90) % 2 ^ 32) ∷ [])
    else if sle32 (neg32 0x800) v && sle32 v 0x7ff
    then enc_byte b (byte ((0xc8 + sar32 v 8) % 2 ^ 32) ∷ byte v ∷ [])
    else if sle32 (neg32 0x40000) v && sle32 v 0x3ffff
    then enc_byte b (byte ((sar32 v 16 + 0xd4) % 2 ^ 32) ∷ byte (sar32 v 8) ∷ byte v ∷ [])
    else enc_byte b (b'I' ∷ byte (sar32 v 24) ∷ byte (sar32 v 16) ∷ byte (sar32 v 8) ∷ byte v ∷ [])

-- The eight bytes of `v`, highest first.
unfoldable pub bytes64 : ℕ → List ℕ
bytes64 v =
    byte (sar64 v 56)
    ∷ byte (sar64 v 48)
    ∷ byte (sar64 v 40)
    ∷ byte (sar64 v 32)
    ∷ byte (sar64 v 24)
    ∷ byte (sar64 v 16)
    ∷ byte (sar64 v 8)
    ∷ byte v
    ∷ []

unfoldable pub enc_int64 : ℕ → List ℕ → List ℕ
enc_int64 v b =
    if sle64 (neg64 0x08) v && sle64 v 0x0f
    then enc_byte b (byte ((v + 0xe0) % 2 ^ 64) ∷ [])
    else if sle64 (neg64 0x800) v && sle64 v 0x7ff
    then enc_byte b (byte ((0xf8 + sar64 v 8) % 2 ^ 64) ∷ byte v ∷ [])
    else if sle64 (neg64 0x40000) v && sle64 v 0x3ffff
    then enc_byte b (byte ((0x3c + sar64 v 16) % 2 ^ 64) ∷ byte (sar64 v 8) ∷ byte v ∷ [])
    else if sle64 0x8000_0000 v && sle64 v 0x7fff_ffff
    then enc_byte b (0x59 ∷ byte (sar64 v 24) ∷ byte (sar64 v 16) ∷ byte (sar64 v 8) ∷ byte v ∷ [])
    else enc_byte b (b'L' ∷ bytes64 v)

-- `decInt32` once the tag is known.
unfoldable pub dec_int32_tagged : ℕ → Reader ℕ
dec_int32_tagged tag =
    if within 0x80 0xbf tag
    then pure (byte_sub tag 0x90)
    else if within 0xc0 0xcf tag
    then (do buf ← read_full 1; pure ((byte_sub tag 0xc8 * 2 ^ 8 + be buf) % 2 ^ 32))
    else if within 0xd0 0xd7 tag
    then (do buf ← read_full 2; pure ((byte_sub tag 0xd4 * 2 ^ 16 + be buf) % 2 ^ 32))
    else if tag == b'I'
    then (do buf ← read_full 4; pure (be buf % 2 ^ 32))
    else fail wrong_tag

unfoldable pub dec_int32 : Option ℕ → Reader ℕ
unfolding dec_int32_tagged
dec_int32 flag = do tag ← tag_of flag; dec_int32_tagged tag

-- `int64(i32)`: the sign of an int32 is extended.
abbrev pub widen : ℕ → ℕ
widen v = if sle32 0 v then v else v + (2 ^ 64 - 2 ^ 32)

unfoldable pub dec_int64_tagged : ℕ → Reader ℕ
dec_int64_tagged tag =
    if tag == b'N'
    then pure 0
    else if tag == b'F'
    then pure 0
    else if tag == b'T'
    then pure 1
    else if within 0x80 0xbf tag
    then pure (byte_sub tag 0x90)
    else if within 0xc0 0xcf tag
    then (do buf ← read_full 1; pure ((byte_sub tag 0xc8 * 2 ^ 8 + be buf) % 2 ^ 64))
    else if within 0xd0 0xd7 tag
    then (do buf ← read_full 2; pure ((byte_sub tag 0xd4 * 2 ^ 16 + be buf) % 2 ^ 64))
    else if tag == 0x5d
    then read_tag
    else if tag == 0x5e
    then (do buf ← read_full 2; pure (be buf))
    else if tag == b'I'
    then (do i32 ← dec_int32 none; pure (widen i32))
    else if tag == 0x59
    then (do i32 ← dec_int32 none; pure (widen i32))
    else if within 0xd8 0xef tag
    then pure (byte_sub tag 0xe0)
    else if within 0xf0 0xff tag
    then (do buf ← read_full 1; pure ((byte_sub tag 0xf8 * 2 ^ 8 + be buf) % 2 ^ 64))
    else if within 0x38 0x3f tag
    then (do buf ← read_full 2; pure ((byte_sub tag 0x3c * 2 ^ 16 + be buf) % 2 ^ 64))
    else if tag == b'L'
    then (do buf ← read_full 8; pure (be buf % 2 ^ 64))
    else if tag == 0x5b
    then pure 0
    else if tag == 0x5c
    then pure 1
    else if tag == 0x5f
    then (do i64 ← dec_int32 none; pure (widen i64))
    else fail wrong_tag

unfoldable pub dec_int64 : Option ℕ → Reader ℕ
unfolding dec_int64_tagged
dec_int64 flag = do tag ← tag_of flag; dec_int64_tagged tag
