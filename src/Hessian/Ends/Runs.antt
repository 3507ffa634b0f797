-- ===== src/Hessian/Ends/Runs.antt =====
-- A text and binary data that are cut off.
use dubbogo.Base.{ℕ, none, List, [], ◌∷◌, ◌==◌, length, ReaderLib}
use dubbogo.Hessian.Values.{FloatLib}
use dubbogo.Hessian.Strings.{dec_string}
use dubbogo.Hessian.Blob.{dec_binary}
use dubbogo.Hessian.Ends.{Ends}
use dubbogo.Hessian.Ends.Stops.{dec_string-dec_binary-Ends}

abbrev nil_lib : ReaderLib
nil_lib = record { trace_nil = none; annotatef_nil = none; available = λ s. length s }

-- Doubles that are whole, as their own bits, and no others.
abbrev whole_lib : FloatLib
whole_lib = record { from_int = λ n. n; to_int = λ n. n; same = λ a b. a == b; format = λ n. [] }

-- A chunk that is not the last, and a byte of the next one.
abbrev cut_chunk : List ℕ
cut_chunk = b'R' ∷ 0 ∷ 1 ∷ b'x' ∷ b'R' ∷ []

dec_string-dec_binary-Ends_example :
    Ends 5 (dec_string nil_lib whole_lib none cut_chunk)
    × Ends 5 (dec_binary nil_lib none cut_chunk)
dec_string-dec_binary-Ends_example = dec_string-dec_binary-Ends nil_lib whole_lib none cut_chunk
