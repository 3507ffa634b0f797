-- ===== src/Hessian/Doubles.antt =====
-- Doubles and dates of encode.go and decode.go.
pub mod Reads
mod Runs
use dubbogo.Base.{
  ℕ, ◌-◌, ◌*◌, ◌/◌, ◌≡◌, ReaderLib, ◌%◌, ◌^◌, true, false, not, ◌&&◌, Option, none, List, [], ◌∷◌,
  ◌++◌, ltb, ◌==◌, if◌then◌else◌, length, take, drop, Outcome, eof, not_enough_buf, wrong_tag, ok,
  err, panic, stuck,
}
use dubbogo.Hessian.Words.{byte, sle64, sar64, neg64}
use dubbogo.Hessian.Reader.{Reader, pure, fail, ◌>>=◌, read_tag, read_full, be, tag_of}
use dubbogo.Hessian.Ints.{enc_byte, bytes64, dec_int32, widen}
use dubbogo.Hessian.Values.{Instant, Value, FloatLib, int32, date, double}

-- `i, _ := ...`: an error leaves the zero value.
abbrev pub or_zero : Outcome ℕ × List ℕ → Outcome ℕ × List ℕ
or_zero (ok n, s) = (ok n, s)
or_zero (err e, s) = (ok 0, s)
or_zero (panic, s) = (panic, s)
or_zero (stuck, s) = (stuck, s)

module _ (fl : FloatLib) where
  -- `encFloat`. The two-byte form carries the tag of the one-byte form, as in the source.
  unfoldable pub enc_float : ℕ → List ℕ → List ℕ
  enc_float v b =
      let iv = fl.to_int v in
      let long = enc_byte b (b'D' ∷ bytes64 v) in
      if not (fl.same (fl.from_int iv) v)
      then long
      else if iv == 0
      then enc_byte b (0x5b ∷ [])
      else if iv == 1
      then enc_byte b (0x5c ∷ [])
      else if sle64 (neg64 0x80) iv && sle64 iv 0x7f
      then enc_byte b (0x5d ∷ byte iv ∷ [])
      else if sle64 (neg64 0x8000) iv && sle64 iv 0x7fff
      then enc_byte b (0x5d ∷ byte (sar64 iv 8) ∷ byte iv ∷ [])
      else long

  unfoldable pub dec_double_tagged : ℕ → Reader Value
  dec_double_tagged tag =
      if tag == 0x59
      then (do i ← dec_int32 none; pure (int32 i))
      else if tag == 0x5b
      then pure (double (fl.from_int 0))
      else if tag == 0x5c
      then pure (double (fl.from_int 1))
      else if tag == 0x5d
      then (do b ← read_tag; pure (double (fl.from_int b)))
      else if tag == 0x5e
      then (do buf ← read_full 2; pure (double (fl.from_int (be buf))))
      else if tag == 0x5f
      then (do i ← (λ s. or_zero (dec_int32 none s)); pure (double (fl.from_int (widen i))))
      else if tag == b'D'
      then (do buf ← read_full 8; pure (double (be buf)))
      else fail wrong_tag

  unfoldable pub dec_double : Option ℕ → Reader Value
  unfolding dec_double_tagged
  dec_double flag = do tag ← tag_of flag; dec_double_tagged tag

-- `v.UnixNano() / 1e6` on an int64, truncated towards 0, for an instant that an int64 holds.
unfoldable pub unix_millis : Instant → ℕ
unix_millis t =
    let millis = t.nanos / 10 ^ 6 in if t.before then (2 ^ 64 - millis) % 2 ^ 64 else millis

unfoldable pub enc_date_in_ms : Instant → List ℕ → List ℕ
enc_date_in_ms t b = b ++ (0x4a ∷ bytes64 (unix_millis t))

-- `d.next(buf[:n])`: one read of the buffer, which is short at its end and at that of the input.
abbrev pub next_bytes : ReaderLib → ℕ → Reader (List ℕ)
next_bytes lib n [] = (err eof, [])
next_bytes lib n (b ∷ s) =
    if ltb (length (b ∷ s)) n
    then (err not_enough_buf, drop (lib.available (b ∷ s)) (b ∷ s))
    else if ltb (lib.available (b ∷ s)) n
    then (err not_enough_buf, drop (lib.available (b ∷ s)) (b ∷ s))
    else (ok (take n (b ∷ s)), drop n (b ∷ s))

-- One read gives whatever is left of the input, as it does for an input of at most 4096 bytes, the
-- size of the buffer: the first fill takes all of it.
abbrev pub HoldsAll : ReaderLib → Type 0
HoldsAll lib = (s : List ℕ) → lib.available s ≡ length s

-- `time.Unix(i64 / 1000, i64 % 1000 * 10e5)`: the instant of a signed number of milliseconds.
unfoldable pub from_millis : ℕ → Instant
from_millis v =
    if ltb v (2 ^ 63)
    then record { before = false; nanos = v * 10 ^ 6 }
    else record { before = true; nanos = (2 ^ 64 - v) * 10 ^ 6 }

-- `time.Unix(i64 * 60, 0)` for an int32 of minutes.
unfoldable pub from_minutes : ℕ → Instant
from_minutes v =
    if ltb v (2 ^ 31)
    then record { before = false; nanos = v * 60 * 10 ^ 9 }
    else record { before = true; nanos = (2 ^ 32 - v) * 60 * 10 ^ 9 }

unfoldable pub dec_date_tagged : ReaderLib → ℕ → Reader Value
dec_date_tagged lib tag =
    if tag == 0x4a
    then (do buf ← next_bytes lib 8; pure (date (from_millis (be buf))))
    else if tag == 0x4b
    then (do buf ← next_bytes lib 4; pure (date (from_minutes (be buf))))
    else fail wrong_tag

unfoldable pub dec_date : ReaderLib → Option ℕ → Reader Value
unfolding dec_date_tagged
dec_date lib flag = do tag ← tag_of flag; dec_date_tagged lib tag
