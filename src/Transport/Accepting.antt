-- ===== src/Transport/Accepting.antt =====
-- The accepting loop of the listeners of tcp_transport.go and http_transport.go: the pauses at
-- temporary errors, and the semaphore of the connections. Times are in milliseconds.
pub mod Pauses
pub mod Semaphore
use dubbogo.Base.{
  ℕ, zero, suc, ◌-◌, ◌*◌, ◌≡◌, Bool, true, false, List, [], ◌∷◌, ◌++◌, ltb, ◌==◌, if◌then◌else◌,
}

abbrev pub max_sleep_time : ℕ
max_sleep_time = 1000

abbrev pub max_conn_num : ℕ
max_conn_num = 52428800

-- What `listener.Accept()` returns.
pub data Accepted : Type 0 where
  connection : Accepted
  temporary_error : Accepted
  other_error : Accepted

-- The pause at a temporary error, from the one before.
unfoldable pub next_delay : ℕ → ℕ
next_delay delay =
    let longer = if delay == 0 then 5 else delay * 2 in
    if ltb max_sleep_time longer then max_sleep_time else longer

-- A listener: the tokens in `sem`, the sockets it gave out, each open or not, and the last pause.
pub record Listener : Type 0 where
  pub sem : ℕ
  pub sockets : List Bool
  pub delay : ℕ
  pub slept : List ℕ

abbrev pub fresh_listener : Listener
fresh_listener = record { sem = 0; sockets = []; delay = 0; slept = [] }

-- One round of the loop, from `acquire` to its end: where it goes on to the next one, waits for a
-- token, or returns an error. The token that it holds while `Accept` waits is not in `sem`.
pub data Round : Type 0 where
  goes_on : Listener → Round
  waits : Listener → Round
  returns : Listener → Round

-- A round behind the token: an error gives it back.
unfoldable pub round_of : Accepted → Listener → Round
round_of connection l = goes_on (record {
  sem = suc l.sem;
  sockets = l.sockets ++ (true ∷ []);
  delay = l.delay;
  slept = l.slept;
})
round_of temporary_error l = goes_on (record {
  sem = l.sem;
  sockets = l.sockets;
  delay = next_delay l.delay;
  slept = l.slept ++ (next_delay l.delay ∷ []);
})
round_of other_error l = returns l

unfoldable pub accept_round : Accepted → Listener → Round
accept_round a l = if ltb l.sem max_conn_num then round_of a l else waits l

abbrev accept_next : (Listener → Round) → Round → Round
accept_next more (goes_on l) = more l
accept_next more (waits l) = waits l
accept_next more (returns l) = returns l

-- The loop over what `Accept` returns one after the other.
unfoldable pub accept : List Accepted → Listener → Round
accept [] l = goes_on l
accept (a ∷ more) l = accept_next (accept more) (accept_round a l)

-- Whether a socket is open.
unfoldable pub is_open : ℕ → List Bool → Bool
is_open i [] = false
is_open zero (b ∷ bs) = b
is_open (suc i) (b ∷ bs) = is_open i bs

unfoldable pub shut : ℕ → List Bool → List Bool
shut i [] = []
shut zero (b ∷ bs) = false ∷ bs
shut (suc i) (b ∷ bs) = b ∷ shut i bs

-- `Close` of a socket over HTTP: the first one gives the token back.
unfoldable pub close_http : ℕ → Listener → Listener
close_http i l =
    if is_open i l.sockets then record l { sem = l.sem - 1; sockets = shut i l.sockets } else l

-- `Close` of a socket over TCP.
unfoldable pub close_tcp : ℕ → Listener → Listener
close_tcp i l = record l { sockets = shut i l.sockets }

-- The states that the loop and the sockets it gave out lead to, `close` being that of the sockets.
pub data Reached (close : ℕ → Listener → Listener) : Listener → Type 0 where
  started : Reached close fresh_listener
  accepted :
      {l l' : Listener} (a : Accepted)
      → Reached close l
      → accept_round a l ≡ goes_on l'
      → Reached close l'
  closed : {l : Listener} (i : ℕ) → Reached close l → Reached close (close i l)
