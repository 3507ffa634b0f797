-- ===== src/Hessian/Ends/Texts.antt =====
-- `decString` of codec/hessian/decode.go ends on any input.
use dubbogo.Base.{
  ℕ, suc, inl, not, Option, none, some, List, [], arith, ◌==◌, length, ReaderLib, panic,
}
use dubbogo.Hessian.Reader.{Reader, tag_of}
use dubbogo.Hessian.Text.{Text, get_string_length}
use dubbogo.Hessian.Values.{Value, FloatLib, double}
use dubbogo.Hessian.Strings.{text_chunks, text_from, float_text, dec_string_tagged, dec_string}
use dubbogo.Hessian.Ends.{
  Ends, pure-IsSafe, then-IsSafe, tag_of-IsSafe, dec_int64-IsSafe, dec_double-IsSafe, IsSafe, safe,
}
use dubbogo.Hessian.Ends.Chunks.{string_length-IsSafe, text_chunks-Ends}

module _ (lib : ReaderLib) where
  abbrev behind_first : ℕ → Option ℕ → Reader Text
  behind_first tag l = elim l [
    | none ↦ λ s. (panic, s)
    | some n ↦ λ s. text_chunks lib (suc (suc (length s))) (not (tag == b'R')) n [] s
  ]

  behind_first-Ends : (tag : ℕ) (l : Option ℕ) (s : List ℕ) → Ends (length s) (behind_first tag l s)
  behind_first-Ends tag none s = omega arith
  behind_first-Ends tag (some n) s =
      text_chunks-Ends lib (suc (suc (length s))) (not (tag == b'R')) n [] s (inl (omega arith))

  text_from-IsSafe : (tag : ℕ) → IsSafe (text_from lib tag)
  unfolding text_from
  text_from-IsSafe tag =
      then-IsSafe (get_string_length lib tag) (behind_first tag) (string_length-IsSafe lib tag)
        (λ l. record { ends = behind_first-Ends tag l })

  module _ (fl : FloatLib) where
    float_text-IsSafe : (v : Value) → IsSafe (float_text lib fl v)
    unfolding float_text
    float_text-IsSafe (double v) = pure-IsSafe (fl.format v)
    float_text-IsSafe _ = record { ends = λ s. omega arith }

    string-IsSafe : (tag : ℕ) → IsSafe (dec_string_tagged lib fl tag)
    unfolding dec_string_tagged
    string-IsSafe tag =
        search
          (
            safe, dec_int64-IsSafe, dec_double-IsSafe, float_text-IsSafe, text_from-IsSafe,
            then-IsSafe,
          )
          depth 60 fits 4000

    pub dec_string-IsSafe : (flag : Option ℕ) → IsSafe (dec_string lib fl flag)
    unfolding dec_string
    dec_string-IsSafe flag =
        then-IsSafe (tag_of flag) (dec_string_tagged lib fl) (tag_of-IsSafe flag) string-IsSafe
