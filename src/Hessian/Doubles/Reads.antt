-- ===== src/Hessian/Doubles/Reads.antt =====
-- What the readers of dates and doubles make of what the encoder wrote.
use dubbogo.Base.{
  ReaderLib, ℕ, ◌*◌, ◌/◌, ◌%◌, ◌^◌, ◌≤◌, ◌<◌, ◌≡◌, refl, true, false, ◌&&◌, none, some, List, [],
  ◌∷◌, ◌++◌, arith, ltb, length, length-append, take_prefix, drop_prefix, ok,
}
use dubbogo.Hessian.Words.{IsWord64}
use dubbogo.Hessian.Reader.{read_full-append}
use dubbogo.Hessian.Ints.{bytes64}
use dubbogo.Hessian.Ints.RoundTrip.{be-bytes64}
use dubbogo.Hessian.Values.{Instant, FloatLib, date, double}
use dubbogo.Hessian.Doubles.{
  enc_float, dec_double, unix_millis, enc_date_in_ms, next_bytes, from_millis, dec_date, HoldsAll,
}

-- The instant cut to whole milliseconds, towards 1970.
unfoldable pub whole_millis : Instant → Instant
whole_millis t = record {
  before = t.before && ltb 0 (t.nanos / 10 ^ 6);
  nanos = t.nanos / 10 ^ 6 * 10 ^ 6;
}

unix_millis-IsWord64 : (t : Instant) → t.nanos < 2 ^ 63 → IsWord64 (unix_millis t)
unfolding unix_millis
unix_millis-IsWord64 t h = ground arith

from_millis-unix_millis :
    (t : Instant) → t.nanos < 2 ^ 63 → from_millis (unix_millis t) ≡ whole_millis t
unfolding from_millis unix_millis whole_millis
from_millis-unix_millis t h = ground arith

next_eight :
    (lib : ReaderLib) (xs rest : List ℕ)
    → HoldsAll lib
    → length xs ≡ 8
    → next_bytes lib 8 (xs ++ rest) ≡ (ok xs, rest)
next_eight lib [] rest whole h = absurd (omega arith)
next_eight lib (x ∷ xs) rest whole h =
    let enough : ltb (length (x ∷ xs ++ rest)) 8 ≡ false = ground (arith, length-append xs rest) in
    rw
      (
        enough,
        whole (x ∷ (xs ++ rest)),
        enough,
        take_prefix 8 (x ∷ xs) rest h,
        drop_prefix 8 (x ∷ xs) rest h,
      )
      refl

length-bytes64 : (v : ℕ) → length (bytes64 v) ≡ 8
unfolding bytes64
length-bytes64 v = refl

-- A date is written in milliseconds, and reads back as that.
pub dec_date-enc_date_in_ms :
    (lib : ReaderLib) (t : Instant) (rest : List ℕ)
    → HoldsAll lib
    → t.nanos < 2 ^ 63
    → dec_date lib none (enc_date_in_ms t [] ++ rest) ≡ (ok (date (whole_millis t)), rest)
unfolding dec_date enc_date_in_ms
dec_date-enc_date_in_ms lib t rest whole h =
    rw
      (
        next_eight lib (bytes64 (unix_millis t)) rest whole (length-bytes64 (unix_millis t)),
        be-bytes64 (unix_millis t) (unix_millis-IsWord64 t h),
        from_millis-unix_millis t h,
      )
      refl

pub read_long_double :
    (fl : FloatLib) (v : ℕ) (rest : List ℕ)
    → IsWord64 v
    → dec_double fl (some b'D') (bytes64 v ++ rest) ≡ (ok (double v), rest)
unfolding dec_double
read_long_double fl v rest h =
    rw (read_full-append 8 (bytes64 v) rest (length-bytes64 v), be-bytes64 v h) refl

-- A double that stands for an integer of two bytes is written under the tag of one byte: the high
-- byte reads back as the double, and the low byte is left in front of what follows.
pub two_byte_double_left_over :
    (fl : FloatLib) (v : ℕ) (rest : List ℕ)
    → fl.same (fl.from_int (fl.to_int v)) v ≡ true
    → 0x80 ≤ fl.to_int v
    → fl.to_int v < 0x8000
    → dec_double fl none (enc_float fl v [] ++ rest)
      ≡ (ok (double (fl.from_int (fl.to_int v / 2 ^ 8))), (fl.to_int v % 2 ^ 8) ∷ rest)
unfolding dec_double enc_float
two_byte_double_left_over fl v rest whole low high = ground arith
