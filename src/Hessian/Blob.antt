-- ===== src/Hessian/Blob.antt =====
-- Binary data of encode.go and decode.go: []byte in chunks of at most 4096 bytes.
pub mod RoundTrip
pub mod Ends
mod Runs
use dubbogo.Base.{
  ℕ, zero, suc, ◌+◌, ◌*◌, ◌/◌, ◌%◌, ◌^◌, true, false, not, ◌&&◌, Option, List, [], ◌∷◌, ◌++◌, ltb,
  leb, ◌==◌, if◌then◌else◌, within, length, take, drop, go_return, Outcome, ReaderLib, wrong_tag,
  ok, err, panic, stuck,
}
use dubbogo.Hessian.Words.{byte}
use dubbogo.Hessian.Reader.{Reader, pure, fail, bind, ◌>>=◌, read_tag, read_full, be, tag_of}
use dubbogo.Hessian.Ints.{enc_byte, byte_sub}

abbrev pub chunk_size : ℕ
chunk_size = 4096

-- The bytes that open a chunk of a slice with `n` bytes left; a longer slice opens a non-final one.
unfoldable pub chunk_head : ℕ → List ℕ
chunk_head n =
    if ltb chunk_size n
    then b'A' ∷ byte (chunk_size / 2 ^ 8) ∷ byte chunk_size ∷ []
    else if leb n 0x0f
    then byte (0x20 + n) ∷ []
    else if leb n 0x3ff
    then byte (0x34 + n / 2 ^ 8) ∷ byte n ∷ []
    else byte b'B' ∷ byte (n / 2 ^ 8) ∷ byte n ∷ []

-- `length`, the bytes that the next chunk takes: `uint16(vLength)` unless a full chunk is due.
abbrev pub chunk_length : ℕ → ℕ
chunk_length n = if ltb chunk_size n then chunk_size else n % 2 ^ 16

-- The loop of `encBinary`. Each round takes a byte at least, so `length v` rounds are enough.
unfoldable pub enc_chunks : ℕ → List ℕ → List ℕ → List ℕ
enc_chunks zero v b = b
enc_chunks (suc fuel) v b =
    let n = chunk_length (length v) in
    let next = enc_chunks fuel (drop n v) (enc_byte b (chunk_head (length v)) ++ take n v) in
    if ltb 0 (length v) then next else b

unfoldable pub enc_binary : List ℕ → List ℕ → List ℕ
enc_binary v b = if length v == 0 then enc_byte b (b'N' ∷ []) else enc_chunks (length v) v b

unfoldable pub get_binary_length : ℕ → Reader ℕ
get_binary_length tag =
    if within 0x20 0x2f tag
    then pure (byte_sub tag 0x20)
    else if within 0x34 0x37 tag
    then (do buf ← read_full 1; pure (byte_sub tag 0x34 * 2 ^ 8 + be buf))
    else if not (tag == b'A') && not (tag == b'B')
    then fail wrong_tag
    else do buf ← read_full 2; pure (be buf)

module _ (lib : ReaderLib) where
  -- The length check before a chunk is read: `CHUNK_SIZE < length` returns nil data beside
  -- `jerrors.Annotatef(err, ...)` where `err` is nil.
  abbrev pub read_chunk :
      (List ℕ → Reader (List ℕ)) → Outcome ℕ × List ℕ → Outcome (List ℕ) × List ℕ
  read_chunk k (ok n, s) =
      if ltb chunk_size n then (go_return [] lib.annotatef_nil, s) else bind (read_full n s) k
  read_chunk k (err e, s) = (err e, s)
  read_chunk k (panic, s) = (panic, s)
  read_chunk k (stuck, s) = (stuck, s)

  -- The loop over non-final chunks, and the final one behind it.
  unfoldable pub dec_chunks : ℕ → ℕ → List ℕ → Reader (List ℕ)
  dec_chunks zero tag out s = (stuck, s)
  dec_chunks (suc fuel) tag out s = elim (tag == b'A') [
    | true ↦
        read_chunk (λ chunk. read_tag >>= λ next. dec_chunks fuel next (out ++ chunk))
          (get_binary_length tag s)
    | false ↦ read_chunk (λ chunk. pure (out ++ chunk)) (get_binary_length tag s)
  ]

  -- Each round of the loop takes a byte at least, so the input's length bounds the rounds.
  unfoldable pub dec_binary : Option ℕ → Reader (List ℕ)
  dec_binary flag = tag_of flag >>= λ tag s.
      if tag == b'N' then (ok [], s) else dec_chunks (suc (length s)) tag [] s
