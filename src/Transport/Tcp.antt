-- ===== src/Transport/Tcp.antt =====
-- The sockets and the client of tcp_transport.go. What the connection does is an argument: a read
-- gives bytes or an error, a write the number of bytes that went out or an error.
pub mod Streams
use dubbogo.Base.{ℕ, Option, none, some, List, [], ◌∷◌, ◌++◌, ltb, ◌==◌, if◌then◌else◌, length}

pub data TcpError : Type 0 where
  conn_error : TcpError
  short_write : TcpError
  end_of_file : TcpError

-- `Send`, alike on both sides, by what `conn.Write` returned: `none` is an error.
unfoldable pub send : Option ℕ → List ℕ → Option TcpError
send none body = some conn_error
send (some n) body = if ltb n (length body) then some short_write else none

-- `read` of the client, by what a read of at most 4096 bytes gave: it is put behind the body.
unfoldable pub client_recv : Option (List ℕ) → List ℕ → Option TcpError × List ℕ
client_recv none body = (some conn_error, body)
client_recv (some buf) body =
    if length buf == 0 then (some end_of_file, body) else (none, body ++ buf)

-- `Recv` of the server's side: what a read gave goes over the front of the body, which it does not
-- make longer, and neither its error nor its length is looked at.
unfoldable pub overwritten : List ℕ → List ℕ → List ℕ
overwritten [] body = body
overwritten (b ∷ bs) [] = []
overwritten (b ∷ bs) (c ∷ cs) = b ∷ overwritten bs cs

unfoldable pub socket_recv : Option (List ℕ) → List ℕ → Option TcpError × List ℕ
socket_recv none body = (none, body)
socket_recv (some buf) body = (none, overwritten buf body)
