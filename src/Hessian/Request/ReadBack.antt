-- ===== src/Hessian/Request/ReadBack.antt =====
-- `packRequest` against the decoder and the header of a packet.
use dubbogo.Base.{Bool, true, ◌&&◌, List, [], ◌∷◌, ltb, All}
use dubbogo.Hessian.Text.{Text}
use dubbogo.Hessian.Strings.Runes.{IsRune}
use dubbogo.Hessian.Request.{Request}

-- A text of small characters, as literals are.
abbrev all_small : Text → Bool
all_small [] = true
all_small (c ∷ cs) = ltb c 0xd800 && all_small cs

-- The names of a request are texts.
abbrev pub AreNames : Request → Type 0
AreNames q =
    All IsRune q.service_path × All IsRune q.target × All IsRune q.version × All IsRune q.method
