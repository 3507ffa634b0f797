-- ===== src/Transport/Accepting/Semaphore.antt =====
-- The tokens of the semaphore against the sockets.
use dubbogo.Base.{
  ℕ, zero, suc, ◌≤◌, ◌<◌, ◌≡◌, refl, sym, ap, ◌∙◌, subst, inl, inr, Bool, true, false, List, [],
  ◌∷◌, ◌++◌, arith, ltb, if◌then◌else◌, Bool-cases, length,
}
use dubbogo.Transport.Accepting.{
  max_conn_num, round_of, accept_round, is_open, shut, close_http, close_tcp, Accepted, Listener,
  Reached, connection, temporary_error, other_error, goes_on, waits, started, accepted, closed,
}

-- The number of the open sockets.
abbrev pub open_count : List Bool → ℕ
open_count [] = 0
open_count (true ∷ bs) = suc (open_count bs)
open_count (false ∷ bs) = open_count bs

open_count-append : (xs : List Bool) → open_count (xs ++ (true ∷ [])) ≡ suc (open_count xs)
open_count-append [] = refl
open_count-append (true ∷ xs) = ap suc (open_count-append xs)
open_count-append (false ∷ xs) = open_count-append xs

open_count-shut :
    (i : ℕ) (xs : List Bool) → is_open i xs ≡ true → suc (open_count (shut i xs)) ≡ open_count xs
unfolding is_open shut
open_count-shut i [] h = absurd (grind arith)
open_count-shut zero (true ∷ xs) h = refl
open_count-shut zero (false ∷ xs) h = absurd (grind arith)
open_count-shut (suc i) (true ∷ xs) h = ap suc (open_count-shut i xs h)
open_count-shut (suc i) (false ∷ xs) h = open_count-shut i xs h

length_snoc : (xs : List Bool) → length (xs ++ (true ∷ [])) ≡ suc (length xs)
length_snoc [] = refl
length_snoc (x ∷ xs) = ap suc (length_snoc xs)

length-shut : (i : ℕ) (xs : List Bool) → length (shut i xs) ≡ length xs
unfolding shut
length-shut i [] = refl
length-shut zero (b ∷ xs) = refl
length-shut (suc i) (b ∷ xs) = ap suc (length-shut i xs)

-- What a count of the sockets must be for the tokens to follow it.
abbrev pub Follows : (List Bool → ℕ) → Listener → Type 0
Follows count l = (l.sem ≡ count l.sockets) × (l.sem ≤ max_conn_num)

goes_on_same : (l l' : Listener) → goes_on l ≡ goes_on l' → l ≡ l'
goes_on_same l l' h = grind arith

round_of-Follows :
    (count : List Bool → ℕ) (a : Accepted) (l l' : Listener)
    → ((xs : List Bool) → count (xs ++ (true ∷ [])) ≡ suc (count xs))
    → Follows count l
    → l.sem < max_conn_num
    → round_of a l ≡ goes_on l'
    → Follows count l'
unfolding round_of
round_of-Follows count connection l l' grows (same, few) room h =
    subst (Follows count) (goes_on_same _ l' h) (ap suc same ∙ sym (grows l.sockets), omega arith)
round_of-Follows count temporary_error l l' grows (same, few) room h =
    subst (Follows count) (goes_on_same _ l' h) (same, few)
round_of-Follows count other_error l l' grows follows room h = absurd (grind arith)

waits_apart : (l l' : Listener) → waits l ≡ goes_on l' → ⊥
waits_apart l l' h = grind arith

accept_round-Follows :
    (count : List Bool → ℕ) (a : Accepted) (l l' : Listener)
    → ((xs : List Bool) → count (xs ++ (true ∷ [])) ≡ suc (count xs))
    → Follows count l
    → accept_round a l ≡ goes_on l'
    → Follows count l'
unfolding accept_round
accept_round-Follows count a l l' grows follows h = elim (Bool-cases (ltb l.sem max_conn_num)) [
  | inl y ↦
      round_of-Follows count a l l' grows follows (ground arith)
        (ap (λ t. if t then round_of a l else waits l) (sym y) ∙ h)
  | inr m ↦ absurd (waits_apart l l' (ap (λ t. if t then round_of a l else waits l) (sym m) ∙ h))
]

-- Whatever the listener accepts and the sockets over HTTP are closed, each of them however often, the
-- tokens taken are as many as the open sockets, and no more than the limit.
pub close_http-Follows : (l : Listener) → Reached close_http l → Follows open_count l
unfolding close_http
close_http-Follows _ started = (refl, omega arith)
close_http-Follows _ (accepted {l} {l'} a before e) =
    accept_round-Follows open_count a l l' open_count-append (close_http-Follows l before) e
close_http-Follows _ (closed {l} i before) =
    let (same, few) = close_http-Follows l before in
    elim (Bool-cases (is_open i l.sockets)) [
      | inl y ↦
          let one_less = open_count-shut i l.sockets y in
          rw y (omega (arith, same, one_less), omega (arith, few))
      | inr m ↦ rw m (same, few)
    ]

-- Over TCP the tokens are never given back: they are as many as the sockets ever accepted, open or
-- closed.
pub close_tcp-Follows : (l : Listener) → Reached close_tcp l → Follows (length {A = Bool}) l
unfolding close_tcp
close_tcp-Follows _ started = (refl, omega arith)
close_tcp-Follows _ (accepted {l} {l'} a before e) =
    accept_round-Follows length a l l' length_snoc (close_tcp-Follows l before) e
close_tcp-Follows _ (closed {l} i before) =
    let (same, few) = close_tcp-Follows l before in (same ∙ sym (length-shut i l.sockets), few)

-- Once a listener over TCP has accepted as many connections as the limit, it waits for good: whatever
-- is closed behind, the next round does not begin.
pub tcp_waits :
    (l : Listener) (i : ℕ) (a : Accepted)
    → Reached close_tcp l
    → length l.sockets ≡ max_conn_num
    → accept_round a (close_tcp i l) ≡ waits (close_tcp i l)
unfolding accept_round close_tcp
tcp_waits l i a reached full =
    let (same, few) = close_tcp-Follows l reached in
    let taken : ltb l.sem max_conn_num ≡ false = ground arith in rw taken refl
