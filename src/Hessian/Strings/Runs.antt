-- ===== src/Hessian/Strings/Runs.antt =====
-- Concrete runs of the reader of text, and its theorems at concrete inputs.
use dubbogo.Base.{length, ◌≡◌, refl, inl, none, [], ◌∷◌, ◌++◌, arith, ◌==◌, ReaderLib, ok, decimal}
use dubbogo.Hessian.Text.{enc_string}
use dubbogo.Hessian.Ints.{dec_int64}
use dubbogo.Hessian.Values.{FloatLib}
use dubbogo.Hessian.Strings.{rune_error, rune3, first_rune, read_rune, int_text, dec_string}
use dubbogo.Hessian.Strings.RoundTrip.{dec_string-enc_string}

abbrev nil_lib : ReaderLib
nil_lib = record { trace_nil = none; annotatef_nil = none; available = λ s. length s }

abbrev whole_lib : FloatLib
whole_lib = record { from_int = λ n. n; to_int = λ n. n; same = λ a b. a == b; format = λ n. [] }

-- A number is read as its digits.
number_as_text : dec_string nil_lib whole_lib none (0x90 ∷ []) ≡ (ok (b'0' ∷ []), [])
unfolding dec_string dec_int64 int_text decimal
number_as_text = refl

-- A byte that starts no rune is an error rune.
broken_rune : read_rune (0xe4 ∷ 0x41 ∷ []) ≡ (ok rune_error, 0x41 ∷ [])
unfolding read_rune first_rune rune3
broken_rune = refl

dec_string-enc_string_example :
    dec_string nil_lib whole_lib none (enc_string (0x4e2d ∷ 65 ∷ []) [] ++ (9 ∷ []))
    ≡ (ok (0x4e2d ∷ 65 ∷ []), 9 ∷ [])
dec_string-enc_string_example =
    dec_string-enc_string nil_lib whole_lib (0x4e2d ∷ 65 ∷ []) (9 ∷ [])
      (inl (omega arith), (inl (omega arith), tt))
