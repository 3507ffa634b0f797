-- ===== src/Hessian/Ints/Runs.antt =====
-- Concrete runs of the integer codec, and its theorems at concrete inputs.
use dubbogo.Base.{◌<◌, ◌≡◌, refl, ◌↔◌, none, [], ◌∷◌, ◌++◌, arith, ok}
use dubbogo.Hessian.Words.{neg32, neg64}
use dubbogo.Hessian.Ints.{enc_int32, enc_int64, dec_int32, dec_int64}
use dubbogo.Hessian.Ints.RoundTrip.{dec_int32_exact, dec_int64_exact}

short_form : enc_int32 262143 [] ≡ 0xd7 ∷ 0xff ∷ 0xff ∷ []
unfolding enc_int32
short_form = refl

-- -1 is written as 0x8f and read back as 255.
minus_one : dec_int32 none (enc_int32 (neg32 1) []) ≡ (ok 255, [])
unfolding enc_int32 dec_int32
minus_one = refl

dec_int32_exact_example :
    (dec_int32 none (enc_int32 70000 [] ++ 7 ∷ []) ≡ (ok 70000, 7 ∷ [])) ↔ (70000 < neg32 0x40000)
dec_int32_exact_example = dec_int32_exact 70000 (7 ∷ []) (omega arith)

dec_int64_exact_example :
    (dec_int64 none (enc_int64 (neg64 5) [] ++ []) ≡ (ok (neg64 5), [])) ↔ (neg64 5 < neg64 0x40000)
dec_int64_exact_example = dec_int64_exact (neg64 5) [] (omega arith)
