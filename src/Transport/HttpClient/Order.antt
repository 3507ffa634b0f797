-- ===== src/Transport/HttpClient/Order.antt =====
-- Responses are read in the order of the requests.
use mathlib.Core.List.{append_assoc, append-nil}
use dubbogo.Base.{ℕ, ◌≡◌, refl, sym, ap, ◌∙◌, true, false, Option, none, some, List, [], ◌∷◌, ◌++◌}
use dubbogo.Transport.HttpClient.{
  new_client, offer, send_open, send, take_request, with_buff, recv, HttpClient, Call, done,
  blocked,
}

-- A call on a client that is open.
pub data Op : Type 0 where
  sends : ℕ → Op
  receives : Op

-- The requests of the sends, one after the other.
abbrev pub sent : List Op → List ℕ
sent [] = []
sent (sends q ∷ ops) = q ∷ sent ops
sent (receives ∷ ops) = sent ops

abbrev pub waiting : HttpClient → List ℕ
waiting c = elim c.r [ none ↦ c.bl | some q ↦ q ∷ c.bl ]

abbrev received_of : Call → List ℕ
received_of (done (some q)) = q ∷ []
received_of _ = []

-- The requests that the receives read responses for, where a receive that would wait is passed over.
unfoldable pub run : List Op → HttpClient → List ℕ × HttpClient
run [] c = ([], c)
run (sends q ∷ ops) c = run ops (send q c).1
run (receives ∷ ops) c =
    let (o, c') = recv false c in let (qs, c'') = run ops c' in (received_of o ++ qs, c'')

-- An open client as its queue.
abbrev pub open_client : Option ℕ → List ℕ → HttpClient
open_client r bl = record { r = r; r_closed = false; bl = bl; has_buff = true }

run-order :
    (ops : List Op) (r : Option ℕ) (bl : List ℕ)
    → (r' : Option ℕ) × (bl' : List ℕ) × ((run ops (open_client r bl)).1 ≡ open_client r' bl')
      × ((run ops (open_client r bl)).0 ++ waiting (open_client r' bl')
          ≡ waiting (open_client r bl) ++ sent ops)
unfolding run send send_open recv with_buff take_request offer
run-order [] r bl = (r, bl, refl, sym (append-nil (waiting (open_client r bl))))
run-order (sends q ∷ ops) none [] = run-order ops (some q) []
run-order (sends q ∷ ops) none (b ∷ bl) =
    let (r', bl', state, order) = run-order ops (some b) (bl ++ (q ∷ [])) in
    (r', bl', state, order ∙ ap (λ l. b ∷ l) (append_assoc bl (q ∷ []) (sent ops)))
run-order (sends q ∷ ops) (some p) bl =
    let (r', bl', state, order) = run-order ops (some p) (bl ++ (q ∷ [])) in
    (r', bl', state, order ∙ ap (λ l. p ∷ l) (append_assoc bl (q ∷ []) (sent ops)))
run-order (receives ∷ ops) none bl = run-order ops none bl
run-order (receives ∷ ops) (some p) bl =
    let (r', bl', state, order) = run-order ops none bl in (r', bl', state, ap (λ l. p ∷ l) order)

-- On a new client, whatever is sent and received, responses are read for the requests in the order
-- in which they were sent: those read for, and those that wait behind them, are the ones sent.
pub run-new_client :
    (ops : List Op) → (run ops new_client).0 ++ waiting (run ops new_client).1 ≡ sent ops
run-new_client ops =
    let (r', bl', state, order) = run-order ops none [] in
    ap (λ c. (run ops new_client).0 ++ waiting c) state ∙ order

-- Of two requests sent in a row the second one's response is not read until a third is sent: the
-- receive for it waits, with the request in the list.
pub recv-blocked :
    (a b : ℕ)
    → (recv false (recv false (send b (send a new_client).1).1).1)
      ≡ (blocked, open_client none (b ∷ []))
unfolding recv with_buff take_request send send_open offer
recv-blocked a b = refl
