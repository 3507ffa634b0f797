-- ===== src/Transport/Runs.antt =====
-- Concrete runs of the transports.
use dubbogo.Base.{
  text_beq, if◌then◌else◌, ℕ, refl, ◌≡◌, List, [], ◌∷◌, ◌++◌, Option, none, some, arith, codes,
  true, ◌⊎◌,
}
use dubbogo.Hessian.Text.{Text}
use dubbogo.Transport.Accepting.{
  Reached, started, accepted, closed, close_http, close_tcp, fresh_listener, connection, accept,
  accept_round, round_of, goes_on, Listener,
}
use dubbogo.Transport.Accepting.Pauses.{accept-errors, errors, pauses, slept_more}
use dubbogo.Transport.Accepting.Semaphore.{Follows, open_count, close_http-Follows}
use dubbogo.Transport.Listening.{
  listen, port_addr, split, last_part, but_last, atoi, some_digits, digits,
}
use dubbogo.Transport.Listening.Ports.{IsFirst, NoneBinds, listen-range}
use dubbogo.Transport.HttpClient.{new_client}
use dubbogo.Transport.HttpClient.Order.{sends, receives, run, waiting, run-new_client}
use dubbogo.Transport.HttpSocket.{HttpRequest, Package, send, set_all}
use dubbogo.Transport.HttpSocket.Headers.{answers, queue_after, send-queue_after}
use dubbogo.Transport.HttpSocket.Headers.{receives as receives_request}

-- Two connections of which the first is closed twice.
abbrev two_sockets : Listener
two_sockets = record { sem = 2; sockets = true ∷ true ∷ []; delay = 0; slept = [] }

two_accepted : Reached close_http two_sockets
unfolding accept_round round_of
two_accepted = accepted connection (accepted connection started refl) refl

close_http-Follows_example : Follows open_count (close_http 0 (close_http 0 two_sockets))
close_http-Follows_example =
    close_http-Follows (close_http 0 (close_http 0 two_sockets)) (closed 0 (closed 0 two_accepted))

one_over_tcp : Reached close_tcp (record { sem = 1; sockets = true ∷ []; delay = 0; slept = [] })
unfolding accept_round round_of
one_over_tcp = accepted connection started refl

accept-errors_example :
    (delay : ℕ) × (accept (errors 9) fresh_listener
      ≡ goes_on (slept_more delay (pauses 9 0) fresh_listener))
accept-errors_example = accept-errors 9 fresh_listener (omega arith) refl

nine_pauses : pauses 9 0 ≡ 5 ∷ 10 ∷ 20 ∷ 40 ∷ 80 ∷ 160 ∷ 320 ∷ 640 ∷ 1000 ∷ []
nine_pauses = refl

-- Every port but the first of a range is taken by nobody.
abbrev all_but_80 : List ℕ → Option ℕ
all_but_80 addr = if text_beq addr (codes "[h]:80") then none else some 7

listen-range_example :
    ((port : ℕ) × (l : ℕ) × (listen (codes "h:80-82") all_but_80 ≡ some l)
      × IsFirst (λ n. all_but_80 (port_addr (codes "h" ∷ []) n)) 80 82 port l)
    ⊎ ((listen (codes "h:80-82") all_but_80 ≡ none)
        × NoneBinds (λ n. all_but_80 (port_addr (codes "h" ∷ []) n)) 80 82)
unfolding split last_part but_last atoi some_digits digits
listen-range_example =
    listen-range all_but_80 (codes "h:80-82") (codes "h") (codes "80-82") [] [] (codes "80")
      (codes "82") 80 82 refl refl refl refl

run-new_client_example :
    (run (sends 1 ∷ sends 2 ∷ receives ∷ receives ∷ sends 3 ∷ receives ∷ []) new_client).0
      ++ waiting
          (run (sends 1 ∷ sends 2 ∷ receives ∷ receives ∷ sends 3 ∷ receives ∷ []) new_client).1
    ≡ 1 ∷ 2 ∷ 3 ∷ []
run-new_client_example =
    run-new_client (sends 1 ∷ sends 2 ∷ receives ∷ receives ∷ sends 3 ∷ receives ∷ [])

abbrev no_change : Text → Text
no_change t = t

abbrev first_request : HttpRequest
first_request = record {
  method = codes "POST";
  path = codes "/s";
  header = (codes "Id", codes "1" ∷ []) ∷ [];
  body = [];
}

abbrev second_request : HttpRequest
second_request = record {
  method = codes "POST";
  path = codes "/s";
  header = (codes "Id", codes "2" ∷ []) ∷ [];
  body = [];
}

abbrev plain_answer : Package
plain_answer = record { header = []; body = 9 ∷ [] }

-- The response to the second request has the header of the first.
send-queue_after_example :
    (reqs : Option HttpRequest) × (send no_change plain_answer (
        queue_after no_change
          (answers plain_answer ∷ receives_request second_request ∷ [])
          (some first_request))
      ≡ some (record { header = (codes "Id", codes "1" ∷ []) ∷ []; body = 9 ∷ [] }, reqs))
unfolding set_all
send-queue_after_example =
    send-queue_after no_change (answers plain_answer ∷ receives_request second_request ∷ [])
      first_request plain_answer
