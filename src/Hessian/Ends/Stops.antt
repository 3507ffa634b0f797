-- ===== src/Hessian/Ends/Stops.antt =====
-- `decString` and `decBinary` of codec/hessian/decode.go, with their loops over chunks, on any input.
use dubbogo.Base.{ℕ, Option, List, length, ReaderLib}
use dubbogo.Hessian.Values.{FloatLib}
use dubbogo.Hessian.Strings.{dec_string}
use dubbogo.Hessian.Blob.{dec_binary}
use dubbogo.Hessian.Ends.{Ends}
use dubbogo.Hessian.Ends.Texts.{dec_string-IsSafe}
use dubbogo.Hessian.Ends.Binaries.{dec_binary-IsSafe}

-- Reading a text and reading binary data end on every input, with a tag that was read before or
-- without one, whatever lengths the chunks claim: the loops over the chunks have fuel enough, and no
-- byte is given back to the input.
pub dec_string-dec_binary-Ends :
    (lib : ReaderLib) (fl : FloatLib) (flag : Option ℕ) (s : List ℕ)
    → Ends (length s) (dec_string lib fl flag s) × Ends (length s) (dec_binary lib flag s)
dec_string-dec_binary-Ends lib fl flag s =
    ((dec_string-IsSafe lib fl flag).ends s, (dec_binary-IsSafe lib flag).ends s)
