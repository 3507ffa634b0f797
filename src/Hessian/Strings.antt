-- ===== src/Hessian/Strings.antt =====
-- `decString` of decode.go: text from its chunks, and from the other values that it takes for text.
mod Runs
pub mod Runes
pub mod Encoded
pub mod RoundTrip
use dubbogo.Base.{
  ℕ, zero, suc, ◌+◌, ◌-◌, ◌*◌, ◌%◌, ◌^◌, Bool, true, false, not, ◌&&◌, ◌||◌, Option, none, some,
  List, [], ◌∷◌, ◌++◌, ltb, leb, ◌==◌, if◌then◌else◌, within, length, ReaderLib, short_read,
  wrong_tag, ok, err, panic, stuck, codes, decimal,
}
use dubbogo.Hessian.Reader.{Reader, pure, fail, bind, ◌>>=◌, read_tag, tag_of}
use dubbogo.Hessian.Ints.{dec_int64}
use dubbogo.Hessian.Text.{Text, get_string_length}
use dubbogo.Hessian.Values.{Value, FloatLib, null, double}
use dubbogo.Hessian.Doubles.{dec_double}

-- A byte that goes on with an encoded rune, in the range that its first byte asks for.
abbrev pub six : ℕ → ℕ
six b = b % 2 ^ 6

-- The second bytes that `utf8` takes behind a first byte of three or four.
abbrev pub low_second : ℕ → ℕ
low_second b = if b == 0xe0 then 0xa0 else if b == 0xf0 then 0x90 else 0x80

abbrev pub high_second : ℕ → ℕ
high_second b = if b == 0xed then 0x9f else if b == 0xf4 then 0x8f else 0xbf

abbrev pub is_tail : ℕ → Bool
is_tail = within 0x80 0xbf

abbrev pub rune_error : ℕ
rune_error = 0xfffd

-- One rune of a nonempty input that starts with `b`. A byte that starts no rune is an error rune.
unfoldable pub rune2 : ℕ → List ℕ → ℕ × List ℕ
rune2 b [] = (rune_error, [])
rune2 b (c ∷ s) = if is_tail c then (b % 2 ^ 5 * 2 ^ 6 + six c, s) else (rune_error, c ∷ s)

unfoldable pub rune3 : ℕ → List ℕ → ℕ × List ℕ
rune3 b (c ∷ d ∷ s) =
    if within (low_second b) (high_second b) c && is_tail d
    then (b % 2 ^ 4 * 2 ^ 12 + six c * 2 ^ 6 + six d, s)
    else (rune_error, c ∷ d ∷ s)
rune3 b s = (rune_error, s)

unfoldable pub rune4 : ℕ → List ℕ → ℕ × List ℕ
rune4 b (c ∷ d ∷ e ∷ s) =
    if within (low_second b) (high_second b) c && is_tail d && is_tail e
    then (b % 2 ^ 3 * 2 ^ 18 + six c * 2 ^ 12 + six d * 2 ^ 6 + six e, s)
    else (rune_error, c ∷ d ∷ e ∷ s)
rune4 b s = (rune_error, s)

unfoldable pub first_rune : ℕ → List ℕ → ℕ × List ℕ
unfolding rune2 rune3 rune4
first_rune b s =
    if ltb b 0x80
    then (b, s)
    else if within 0xc2 0xdf b
    then rune2 b s
    else if within 0xe0 0xef b
    then rune3 b s
    else if within 0xf0 0xf4 b
    then rune4 b s
    else (rune_error, s)

-- `d.reader.ReadRune()`, its error wrapped by `jerrors.Trace`.
unfoldable pub read_rune : Reader ℕ
read_rune [] = (err short_read, [])
read_rune (b ∷ s) = let (r, rest) = first_rune b s in (ok r, rest)

-- `n` runes behind those of `out`.
unfoldable pub read_runes : ℕ → Text → Reader Text
read_runes zero out = pure out
read_runes (suc n) out = read_rune >>= λ r. read_runes n (out ++ (r ∷ []))

-- Behind a tag that is no text's, where its nil error goes on with the length -1: with no rune so
-- far `make` panics on a negative length, and otherwise the next rune has no place in the slice.
unfoldable pub one_too_few : Text → Reader Text
one_too_few [] s = (panic, s)
one_too_few (r ∷ out) s = bind (read_rune s) (λ _ s'. (panic, s'))

module _ (lib : ReaderLib) where
  -- The loop of `decString`, from a chunk of `n` runes on; each round takes a byte at least.
  unfoldable pub text_chunks : ℕ → Bool → ℕ → Text → Reader Text
  text_chunks zero last n out = λ s. (stuck, s)
  text_chunks (suc fuel) last n out = read_runes n out >>= λ out'. elim last [
    | true ↦ pure out'
    | false ↦ read_tag >>= λ b. get_string_length lib b >>= λ l. elim l [
      | none ↦ one_too_few out'
      | some m ↦ text_chunks fuel (not (b == b'R')) m out'
    ]
  ]

  -- The text behind its first tag; -1 as the length of the first chunk panics.
  unfoldable pub text_from : ℕ → Reader Text
  text_from tag = get_string_length lib tag >>= λ l. elim l [
    | none ↦ λ s. (panic, s)
    | some n ↦ λ s. text_chunks (suc (suc (length s))) (not (tag == b'R')) n [] s
  ]

  module _ (fl : FloatLib) where
    -- `strconv.Itoa(int(i64))`
    unfoldable pub int_text : ℕ → Text
    int_text v = if ltb v (2 ^ 63) then decimal v else b'-' ∷ decimal (2 ^ 64 - v)

    -- `f.(float64)` panics on another type.
    unfoldable pub float_text : Value → Reader Text
    float_text (double v) s = (ok (fl.format v), s)
    float_text _ s = (panic, s)

    abbrev pub is_text_tag : ℕ → Bool
    is_text_tag tag = leb tag 0x1f || within 0x30 0x33 tag || tag == b'R' || tag == b'S'

    abbrev pub is_number_tag : ℕ → Bool
    is_number_tag tag =
        within 0x80 0xd7 tag
        || tag == b'I'
        || within 0xd8 0xff tag
        || within 0x38 0x3f tag
        || tag == 0x59
        || tag == b'L'

    unfoldable pub dec_string_tagged : ℕ → Reader Text
    dec_string_tagged tag =
        if tag == b'N'
        then pure (codes "null")
        else if tag == b'T'
        then pure (codes "true")
        else if tag == b'F'
        then pure (codes "false")
        else if is_number_tag tag
        then (do i ← dec_int64 (some tag); pure (int_text i))
        else if tag == 0x5b
        then pure (codes "0.0")
        else if tag == 0x5c
        then pure (codes "1.0")
        else if tag == 0x5d || tag == 0x5e
        then (do f ← dec_double fl (some tag); float_text f)
        else if is_text_tag tag
        then text_from tag
        else fail wrong_tag

    unfoldable pub dec_string : Option ℕ → Reader Text
    unfolding dec_string_tagged
    dec_string flag = do tag ← tag_of flag; dec_string_tagged tag
