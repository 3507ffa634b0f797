-- ===== src/Hessian/Text/Runs.antt =====
-- Runs of text and its chunk headers.
use dubbogo.Base.{length, ◌≡◌, refl, none, [], ◌∷◌, ReaderLib}
use dubbogo.Hessian.Text.{utf8, utf8_all, text_head, enc_text, enc_string}

-- Two runes, of one byte and of three.
two_runes : enc_string (b'a' ∷ 0x4e2d ∷ []) [] ≡ 2 ∷ b'a' ∷ 0xe4 ∷ 0xb8 ∷ 0xad ∷ []
unfolding enc_string enc_text text_head utf8_all utf8
two_runes = refl

abbrev nil_lib : ReaderLib
nil_lib = record { trace_nil = none; annotatef_nil = none; available = λ s. length s }
