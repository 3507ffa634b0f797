-- ===== src/Transport/Listening.antt =====
-- `listen` of http_transport.go: an address, or the first port of a range that can be bound. A bind
-- gives a listener, known by a number, or `none` for its error.
pub mod Ports
use dubbogo.Base.{
  ℕ, zero, suc, ◌+◌, ◌-◌, ◌*◌, ◌^◌, Option, none, some, List, [], ◌∷◌, ◌++◌, ltb, ◌==◌,
  if◌then◌else◌, within, or_else, decimal,
}

abbrev in_first : ℕ → List (List ℕ) → List (List ℕ)
in_first c [] = (c ∷ []) ∷ []
in_first c (p ∷ ps) = (c ∷ p) ∷ ps

-- `strings.Split(s, sep)` for a separator of one byte.
unfoldable pub split : ℕ → List ℕ → List (List ℕ)
split sep [] = [] ∷ []
split sep (c ∷ cs) = let parts = split sep cs in if c == sep then [] ∷ parts else in_first c parts

-- `strconv.Atoi` of digits behind a plus sign or none, on an int64; a minus sign cannot stand in a
-- part of a range.
unfoldable pub digits : List ℕ → ℕ → Option ℕ
digits [] n = if ltb n (2 ^ 63) then some n else none
digits (c ∷ cs) n =
    let more = digits cs (n * 10 + (c - b'0')) in if within b'0' b'9' c then more else none

unfoldable pub some_digits : List ℕ → Option ℕ
some_digits [] = none
some_digits (c ∷ cs) = digits (c ∷ cs) 0

unfoldable pub atoi : List ℕ → Option ℕ
atoi [] = none
atoi (c ∷ cs) = if c == b'+' then some_digits cs else some_digits (c ∷ cs)

-- The last part, and those in front of it.
unfoldable pub last_part : List (List ℕ) → List ℕ
last_part [] = []
last_part (p ∷ []) = p
last_part (p ∷ q ∷ ps) = last_part (q ∷ ps)

unfoldable pub but_last : List (List ℕ) → List (List ℕ)
but_last [] = []
but_last (p ∷ []) = []
but_last (p ∷ q ∷ ps) = p ∷ but_last (q ∷ ps)

-- `%s` of a slice of strings: its elements with blanks between, in brackets.
unfoldable pub joined : List (List ℕ) → List ℕ
joined [] = []
joined (p ∷ []) = p
joined (p ∷ q ∷ ps) = p ++ (b' ' ∷ joined (q ∷ ps))

unfoldable pub port_addr : List (List ℕ) → ℕ → List ℕ
port_addr host port = b'[' ∷ joined host ++ (b']' ∷ b':' ∷ decimal port)

-- The loop over the ports from `port` on, `n` of them: the first that is bound.
unfoldable pub try_ports : (ℕ → Option ℕ) → ℕ → ℕ → Option ℕ
try_ports bind zero port = none
try_ports bind (suc n) port = or_else (bind port) (try_ports bind n (suc port))

-- A range whose ends are numbers; the error of a last port and of an empty range are one here.
unfoldable pub in_range : (ℕ → Option ℕ) → Option ℕ → Option ℕ → Option ℕ
in_range bind (some min) (some max) = try_ports bind (suc max - min) min
in_range bind _ _ = none

-- By the parts of the last part, at the minus signs.
unfoldable pub listen_ports :
    (List ℕ → Option ℕ) → List ℕ → List (List ℕ) → List (List ℕ) → Option ℕ
listen_ports fn addr host (min ∷ max ∷ more) =
    in_range (λ port. fn (port_addr host port)) (atoi min) (atoi max)
listen_ports fn addr host _ = fn addr

-- By the parts of the address, at the colons.
unfoldable pub listen_parts : (List ℕ → Option ℕ) → List ℕ → List (List ℕ) → Option ℕ
listen_parts fn addr (p ∷ q ∷ more) =
    listen_ports fn addr (but_last (p ∷ q ∷ more)) (split b'-' (last_part (p ∷ q ∷ more)))
listen_parts fn addr _ = fn addr

unfoldable pub listen : List ℕ → (List ℕ → Option ℕ) → Option ℕ
listen addr fn = listen_parts fn addr (split b':' addr)
