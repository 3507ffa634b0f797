-- ===== src/Hessian/Decoder.antt =====
-- `Decode` of decode.go, with lists, untyped maps and references.
mod Runs
pub mod Tags
pub mod Leaves
pub mod RoundTrip
use dubbogo.Base.{
  ℕ, zero, suc, ◌+◌, ◌-◌, ◌^◌, Bool, true, false, ◌||◌, none, some, List, [], ◌∷◌, leb, ◌==◌,
  if◌then◌else◌, within, length, drop, Error, Outcome, ReaderLib, eof, short_read,
  illegal_ref_index, wrong_tag, ok, err, panic, stuck,
}
use dubbogo.Hessian.Reader.{Reader}
use dubbogo.Hessian.Ints.{dec_int32, dec_int64}
use dubbogo.Hessian.Blob.{dec_binary}
use dubbogo.Hessian.Classes.{ClassInfo, next}
use dubbogo.Hessian.Values.{
  Value, Items, Entries, FloatLib, null, bool, int32, int64, text, binary, list, go_map, ref,
  no_items, item, no_entries, entry,
}
use dubbogo.Hessian.Doubles.{dec_double, dec_date}
use dubbogo.Hessian.Strings.{is_text_tag, dec_string}

-- The bytes to be read, the number of references, and the class definitions that were read.
pub record Decoder : Type 0 where
  pub bytes : List ℕ
  pub refs : ℕ
  pub class_info_list : List ClassInfo

abbrev pub Decoding : Type 0 → Type 0
Decoding A = Decoder → Outcome A × Decoder

abbrev pub then_decode :
    {A B : Type 0} → Outcome A × Decoder → (A → Decoding B) → Outcome B × Decoder
then_decode (ok a, d) k = k a d
then_decode (err e, d) k = (err e, d)
then_decode (panic, d) k = (panic, d)
then_decode (stuck, d) k = (stuck, d)

abbrev pub put_bytes : {A : Type 0} → Decoder → Outcome A × List ℕ → Outcome A × Decoder
put_bytes d (o, s) = (o, record d { bytes = s })

abbrev pub on_bytes : {A : Type 0} → Reader A → Decoding A
on_bytes m d = put_bytes d (m d.bytes)

-- `jerrors.Trace` of an error: io.EOF is no longer itself.
abbrev pub traced_error : Error → Error
traced_error eof = short_read
traced_error e = e

abbrev pub traced : {A S : Type 0} → Outcome A × S → Outcome A × S
traced (err e, s) = (err (traced_error e), s)
traced (ok a, s) = (ok a, s)
traced (panic, s) = (panic, s)
traced (stuck, s) = (stuck, s)

-- A call whose value and error are dropped.
abbrev pub dropped : {A S : Type 0} → Outcome A × S → Outcome (Unit {0}) × S
dropped (err e, s) = (ok tt, s)
dropped (ok a, s) = (ok tt, s)
dropped (panic, s) = (panic, s)
dropped (stuck, s) = (stuck, s)

-- `d.appendRefs(v)`
abbrev pub append_refs : Decoder → Decoder
append_refs d = record d { refs = suc d.refs }

-- `make([]interface{}, size)` and `refs[i]` take a negative int32 badly.
abbrev pub is_negative : ℕ → Bool
is_negative v = leb (2 ^ 31) v

-- A slice or a map cannot be the key of a map.
abbrev pub is_hashable : Value → Bool
is_hashable (binary v) = false
is_hashable (list xs) = false
is_hashable (go_map es) = false
is_hashable _ = true

-- A byte read with its error dropped.
abbrev pub skip_byte : Decoder → Decoder
skip_byte d = record d { bytes = drop 1 d.bytes }

-- The elements of a list, `decode` being `d.Decode()`.
unfoldable pub read_items : Decoding Value → ℕ → Decoding Items
read_items decode zero d = (ok no_items, d)
read_items decode (suc n) d =
    then_decode (traced (decode d))
      (λ v d'. then_decode (read_items decode n d') (λ xs d''. (ok (item v xs), d'')))

-- A list of `size` elements, with an end behind them where `ends`.
unfoldable pub list_body : Decoding Value → Bool → ℕ → Decoding Value
list_body decode ends size d =
    if is_negative size
    then (panic, d)
    else then_decode (read_items decode size (append_refs d))
        (λ xs d'. (ok (list xs), if ends then skip_byte d' else d'))

-- The size of a list: in its tag, or behind it.
unfoldable pub list_size : ℕ → ℕ → Decoding ℕ
list_size direct tag d =
    if within direct (direct + 7) tag
    then (ok (tag - direct), d)
    else traced (on_bytes (dec_int32 none) d)

-- What the loop of an untyped map does at the error of a key: io.EOF ends it.
unfoldable pub key_error : Error → Decoding Entries
key_error eof d = (ok no_entries, skip_byte d)
key_error e d = (err e, d)

-- One round: the key, the value, and the rounds behind.
unfoldable pub read_entry :
    Decoding Value → Decoding Entries → Outcome Value × Decoder → Outcome Entries × Decoder
read_entry decode rounds (ok k, d) = then_decode (decode d) (λ v d'.
    if is_hashable k
    then then_decode (rounds d') (λ es d''. (ok (entry k v es), d''))
    else (panic, d'))
read_entry decode rounds (err e, d) = key_error e d
read_entry decode rounds (panic, d) = (panic, d)
read_entry decode rounds (stuck, d) = (stuck, d)

-- The byte that `peekByte` sees: it panics at the end of the input.
unfoldable pub map_round : Decoding Value → Decoding Entries → List ℕ → Decoding Entries
map_round decode rounds [] d = (panic, d)
map_round decode rounds (b ∷ s) d =
    let next = read_entry decode rounds (decode d) in
    if b == b'Z' then (ok no_entries, skip_byte d) else next

-- The loop over the entries; each round takes a byte at least.
unfoldable pub read_entries : Decoding Value → ℕ → Decoding Entries
read_entries decode zero d = (stuck, d)
read_entries decode (suc fuel) d = map_round decode (read_entries decode fuel) d.bytes d

unfoldable pub dec_untyped_map : Decoding Value → Decoding Value
dec_untyped_map decode d =
    then_decode (read_entries decode (suc (length d.bytes)) (append_refs d))
      (λ es d'. (ok (go_map es), d'))

unfoldable pub ref_at : ℕ → Decoding Value
ref_at i d =
    if is_negative i
    then (panic, d)
    else if leb d.refs i
    then (err illegal_ref_index, d)
    else (ok (ref i), d)

unfoldable pub dec_ref : Decoding Value
dec_ref d = then_decode (on_bytes (dec_int32 none) d) ref_at

abbrev pub as_value : {A : Type 0} → (A → Value) → Reader A → Decoding Value
as_value f m d = then_decode (on_bytes m d) (λ a d'. (ok (f a), d'))

-- What goes through `reflect` to a registered Go type: `decObject`, by its tag, and `decMap` of a map
-- with a type, each with `d.Decode()`.
pub record ObjectReader : Type 0 where
  pub dec_object : Decoding Value → ℕ → Decoding Value
  pub dec_typed_map : Decoding Value → Decoding Value

module _ (lib : ReaderLib) (fl : FloatLib) where
  -- `d.decType()` with its result dropped: a text, or an int32 behind the byte that was read.
  unfoldable pub skip_type : List ℕ → Outcome (Unit {0}) × List ℕ
  skip_type [] = (ok tt, [])
  skip_type (tag ∷ s) =
      if is_text_tag lib fl tag
      then dropped (dec_string lib fl (some tag) s)
      else dropped (dec_int32 none s)

  unfoldable pub dec_list : Decoding Value → ℕ → Decoding Value
  dec_list decode tag d =
      if within 0x70 0x77 tag || tag == b'V' || tag == 0x55
      then then_decode (on_bytes skip_type d)
          (λ _ d'. then_decode (list_size 0x70 tag d') (list_body decode (tag == 0x55)))
      else if within 0x78 0x7f tag || tag == 0x58 || tag == 0x57
      then then_decode (list_size 0x78 tag d) (list_body decode (tag == 0x57))
      else (err wrong_tag, d)

  module _ (objects : ObjectReader) where
    -- `Decode` behind its tag, with itself for what a value holds.
    unfoldable pub decode_tagged : Decoding Value → ℕ → Decoding Value
    decode_tagged decode tag =
        if tag == b'Z' || tag == b'N'
        then (λ d. (ok null, d))
        else if tag == b'T'
        then (λ d. (ok (bool true), d))
        else if tag == b'F'
        then (λ d. (ok (bool false), d))
        else if within 0x80 0xd7 tag || tag == b'I'
        then as_value int32 (dec_int32 (some tag))
        else if within 0xd8 0xff tag || within 0x38 0x3f tag || tag == 0x59 || tag == b'L'
        then as_value int64 (dec_int64 (some tag))
        else if tag == 0x4b || tag == 0x4a
        then on_bytes (dec_date lib (some tag))
        else if within 0x5b 0x5f tag || tag == b'D'
        then on_bytes (dec_double fl (some tag))
        else if is_text_tag lib fl tag
        then as_value text (dec_string lib fl (some tag))
        else if tag == b'B' || tag == b'A' || within 0x20 0x2f tag || within 0x34 0x3f tag
        then as_value binary (dec_binary lib (some tag))
        else if within 0x70 0x7f tag || tag == b'V' || tag == 0x55 || tag == 0x58 || tag == 0x57
        then dec_list decode tag
        else if tag == b'M'
        then objects.dec_typed_map decode
        else if tag == b'H'
        then dec_untyped_map decode
        else if tag == b'C' || tag == b'O' || within 0x60 0x6f tag
        then objects.dec_object decode tag
        else if tag == 0x51
        then dec_ref
        else (λ d. (err wrong_tag, d))

    -- `Decode` from the input that is left.
    unfoldable pub decode_from : Decoding Value → List ℕ → Decoding Value
    decode_from decode [] d = (err eof, d)
    decode_from decode (tag ∷ s) d = decode_tagged decode tag (record d { bytes = s })

    -- `Decode` on fuel, which bounds how deep values stand in one another.
    unfoldable pub decode : ℕ → Decoding Value
    decode zero d = (stuck, d)
    decode (suc fuel) d = decode_from (decode fuel) d.bytes d
