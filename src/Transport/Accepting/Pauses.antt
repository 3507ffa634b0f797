-- ===== src/Transport/Accepting/Pauses.antt =====
-- The pauses between temporary errors.
use mathlib.Core.List.{append_assoc, append-nil}
use dubbogo.Base.{
  ℕ, zero, suc, ◌*◌, ◌^◌, ◌<◌, ◌≡◌, refl, sym, ap, ◌∙◌, true, List, [], ◌∷◌, ◌++◌, arith, ltb,
  if◌then◌else◌,
}
use dubbogo.Transport.Accepting.{
  max_sleep_time, max_conn_num, next_delay, round_of, accept_round, accept, Accepted, Listener,
  connection, temporary_error, goes_on,
}

-- The pauses of `n` temporary errors in a row, of which `k` were before: five milliseconds doubled at
-- each, and never more than a second.
abbrev pub pause : ℕ → ℕ
pause k = if ltb max_sleep_time (5 * 2 ^ k) then max_sleep_time else 5 * 2 ^ k

abbrev pub pauses : ℕ → ℕ → List ℕ
pauses zero k = []
pauses (suc n) k = pause k ∷ pauses n (suc k)

abbrev pub errors : ℕ → List Accepted
errors zero = []
errors (suc n) = temporary_error ∷ errors n

abbrev capped : ℕ → ℕ
capped t = if ltb max_sleep_time t then max_sleep_time else t

doubled : (p : ℕ) → 0 < p → next_delay (capped (5 * p)) ≡ capped (5 * (p * 2))
unfolding next_delay
doubled p h = ground arith

some_power : (k : ℕ) → 0 < 2 ^ k
some_power zero = omega arith
some_power (suc k) = omega (arith, some_power k)

next_delay-pause : (k : ℕ) → next_delay (pause k) ≡ pause (suc k)
next_delay-pause k =
    let twice : 2 ^ suc k ≡ 2 ^ k * 2 = omega arith in
    doubled (2 ^ k) (some_power k) ∙ ap (λ p. capped (5 * p)) (sym twice)

-- A listener that has slept some times more.
abbrev pub slept_more : ℕ → List ℕ → Listener → Listener
slept_more delay ps l = record {
  sem = l.sem;
  sockets = l.sockets;
  delay = delay;
  slept = l.slept ++ ps;
}

accept-pauses :
    (n k : ℕ) (l : Listener)
    → l.sem < max_conn_num
    → next_delay l.delay ≡ pause k
    → (delay : ℕ) × (accept (errors n) l ≡ goes_on (slept_more delay (pauses n k) l))
unfolding accept accept_round round_of
accept-pauses zero k l room next =
    (l.delay, ap (λ s. goes_on (record l { slept = s })) (sym (append-nil l.slept)))
accept-pauses (suc n) k l room next =
    let has_room : ltb l.sem max_conn_num ≡ true = ground arith in
    let l' = slept_more (pause k) (pause k ∷ []) l in
    let (delay, e) = accept-pauses n (suc k) l' room (next_delay-pause k) in
    (
      delay,
      rw (has_room, next)
          (e
            ∙ ap
                (λ s.
                  goes_on (record { sem = l.sem; sockets = l.sockets; delay = delay; slept = s }))
                (append_assoc l.slept (pause k ∷ []) (pauses n (suc k)))),
    )

-- Where there is a token, `n` temporary errors in a row make a new listener sleep five milliseconds
-- and then twice as long each time, a second at most, and take no token and no socket.
pub accept-errors :
    (n : ℕ) (l : Listener)
    → l.sem < max_conn_num
    → l.delay ≡ 0
    → (delay : ℕ) × (accept (errors n) l ≡ goes_on (slept_more delay (pauses n 0) l))
unfolding next_delay
accept-errors n l room start = accept-pauses n 0 l room (rw start refl)

-- The pause is not taken back by a connection: an error behind one waits twice as long as the last
-- error before it did.
pub accept-connection_between :
    (l : Listener) (k : ℕ)
    → suc l.sem < max_conn_num
    → next_delay l.delay ≡ pause k
    → (l' : Listener) × (accept (temporary_error ∷ connection ∷ temporary_error ∷ []) l
        ≡ goes_on l')
      × (l'.slept ≡ l.slept ++ (pause k ∷ pause (suc k) ∷ []))
unfolding accept accept_round round_of
accept-connection_between l k room next =
    let first : ltb l.sem max_conn_num ≡ true = ground arith in
    let second : ltb (suc l.sem) max_conn_num ≡ true = ground arith in
    (
      record {
        sem = suc l.sem;
        sockets = l.sockets ++ (true ∷ []);
        delay = pause (suc k);
        slept = (l.slept ++ (pause k ∷ [])) ++ (pause (suc k) ∷ []);
      },
      rw (first, next) (rw first (rw (second, next_delay-pause k) refl)),
      append_assoc l.slept (pause k ∷ []) (pause (suc k) ∷ []),
    )
