-- ===== src/Hessian/Blob/Runs.antt =====
-- Concrete runs of the binary codec, and its theorems at concrete inputs.
use dubbogo.Base.{length, ◌≡◌, refl, none, [], ◌∷◌, ◌++◌, ReaderLib, ok}
use dubbogo.Hessian.Blob.{chunk_head, enc_chunks, enc_binary, dec_binary}
use dubbogo.Hessian.Blob.RoundTrip.{dec_binary-enc_binary}

abbrev nil_lib : ReaderLib
nil_lib = record { trace_nil = none; annotatef_nil = none; available = λ s. length s }

three_bytes : enc_binary (1 ∷ 2 ∷ 3 ∷ []) [] ≡ 0x23 ∷ 1 ∷ 2 ∷ 3 ∷ []
unfolding enc_binary enc_chunks chunk_head
three_bytes = refl

dec_binary-enc_binary_example :
    dec_binary nil_lib none (enc_binary (1 ∷ 2 ∷ []) [] ++ 9 ∷ []) ≡ (ok (1 ∷ 2 ∷ []), 9 ∷ [])
dec_binary-enc_binary_example = dec_binary-enc_binary nil_lib (1 ∷ 2 ∷ []) (9 ∷ [])
