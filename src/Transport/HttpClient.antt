-- ===== src/Transport/HttpClient.antt =====
-- The queue of the HTTP client (httpTransportClient in http_transport.go): the requests that were
-- sent, each to be matched with its response.
pub mod Order
use dubbogo.Base.{ℕ, Bool, true, false, Option, none, some, List, [], ◌∷◌, ◌++◌, if◌then◌else◌}

-- The channel `r`, which holds one request at most and may be closed, and the list `bl` behind it.
-- A request is known by a number.
pub record HttpClient : Type 0 where
  pub r : Option ℕ
  pub r_closed : Bool
  pub bl : List ℕ
  pub has_buff : Bool

abbrev pub new_client : HttpClient
new_client = record { r = none; r_closed = false; bl = []; has_buff = true }

-- `select { case h.r <- h.bl[0]: h.bl = h.bl[1:] default: }` behind `append`.
unfoldable pub offer : Option ℕ → List ℕ → Option ℕ × List ℕ
offer none [] = (none, [])
offer none (q ∷ bl) = (some q, bl)
offer (some q) bl = (some q, bl)

-- What a call comes to: it is done, with the request that `Recv` reads a response for; it waits; it
-- is at the end (io.EOF); or it panics, as a send on a closed channel does.
pub data Call : Type 0 where
  done : Option ℕ → Call
  blocked : Call
  at_end : Call
  panicked : Call

-- `Send`, as far as the queue goes.
unfoldable pub send_open : Bool → ℕ → HttpClient → Call × HttpClient
send_open true q c = (panicked, record c { bl = c.bl ++ (q ∷ []) })
send_open false q c =
    let (r, bl) = offer c.r (c.bl ++ (q ∷ [])) in (done none, record c { r = r; bl = bl })

unfoldable pub send : ℕ → HttpClient → Call × HttpClient
send q c = send_open c.r_closed q c

-- The wait for a request, on a connection that is no stream; a closed channel gives what it holds.
unfoldable pub take_request : Option ℕ → Bool → HttpClient → Call × HttpClient
take_request (some q) closed c = (done (some q), record c { r = none })
take_request none true c = (at_end, c)
take_request none false c = (blocked, c)

-- A closed client has no buffer to read from.
unfoldable pub with_buff : Bool → Call × HttpClient → Call × HttpClient
with_buff true o = o
with_buff false (done q, c) = (at_end, c)
with_buff false (blocked, c) = (blocked, c)
with_buff false (at_end, c) = (at_end, c)
with_buff false (panicked, c) = (panicked, c)

unfoldable pub recv : Bool → HttpClient → Call × HttpClient
recv stream c =
    with_buff c.has_buff (if stream then (done none, c) else take_request c.r c.r_closed c)

-- `Close`, which does its work once.
unfoldable pub close : HttpClient → HttpClient
close c = if c.has_buff then record { r = c.r; r_closed = true; bl = c.bl; has_buff = false } else c
