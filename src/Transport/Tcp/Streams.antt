-- ===== src/Transport/Tcp/Streams.antt =====
-- What the two sides of a TCP connection make of the bytes that come.
use mathlib.Core.List.{append_assoc, append-nil}
use dubbogo.Base.{
  ℕ, suc, ◌<◌, ◌≡◌, refl, sym, ap, ◌∙◌, false, Option, none, some, List, [], ◌∷◌, ◌++◌, arith, ◌==◌,
  length, All,
}
use dubbogo.Transport.Tcp.{client_recv, overwritten, socket_recv, TcpError}

abbrev recv_next :
    (List ℕ → Option TcpError × List ℕ) → Option TcpError × List ℕ → Option TcpError × List ℕ
recv_next more (none, body) = more body
recv_next more (some e, body) = (some e, body)

-- The receives of a client on one body, as far as none of them fails.
abbrev pub recv_all : List (List ℕ) → List ℕ → Option TcpError × List ℕ
recv_all [] body = (none, body)
recv_all (buf ∷ bufs) body = recv_next (recv_all bufs) (client_recv (some buf) body)

abbrev pub concat : List (List ℕ) → List ℕ
concat [] = []
concat (b ∷ bs) = b ++ concat bs

-- However the bytes of a body are cut into reads that are not empty, the client has them all, in
-- order, behind what its body held.
pub recv_all-concat :
    (bufs : List (List ℕ)) (body : List ℕ)
    → All (λ b. 0 < length b) bufs
    → recv_all bufs body ≡ (none, body ++ concat bufs)
unfolding client_recv
recv_all-concat [] body h = ap (λ b. (none, b)) (sym (append-nil body))
recv_all-concat (buf ∷ bufs) body (h, hs) =
    let filled : length buf == 0 ≡ false = ground arith in
    rw filled (
      recv_all-concat bufs (body ++ buf) hs
      ∙ ap (λ b. (none, b)) (append_assoc body buf (concat bufs)))

length-overwritten : (buf body : List ℕ) → length (overwritten buf body) ≡ length body
unfolding overwritten
length-overwritten [] body = refl
length-overwritten (b ∷ bs) [] = refl
length-overwritten (b ∷ bs) (c ∷ cs) = ap suc (length-overwritten bs cs)

-- The server's side never reports an error of a read, and its body is as long behind a read as it was
-- before: an empty one stays empty.
pub socket_recv-length :
    (got : Option (List ℕ)) (body : List ℕ)
    → ((socket_recv got body).0 ≡ none) × (length (socket_recv got body).1 ≡ length body)
unfolding socket_recv
socket_recv-length none body = (refl, refl)
socket_recv-length (some buf) body = (refl, length-overwritten buf body)
