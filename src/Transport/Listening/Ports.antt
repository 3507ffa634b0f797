-- ===== src/Transport/Listening/Ports.antt =====
-- Which port of a range is bound.
use dubbogo.Base.{
  ℕ, zero, suc, ◌+◌, ◌-◌, ◌≤◌, ◌<◌, ◌≡◌, refl, ap, ◌∙◌, ◌⊎◌, inl, inr, Option, none, some, List,
  ◌∷◌, arith, ◌==◌, Bool-cases, ==_iff, Option-cases,
}
use dubbogo.Transport.Listening.{
  split, atoi, last_part, but_last, port_addr, try_ports, in_range, listen_ports, listen_parts,
  listen,
}

-- The port `p` is the first from `min` on that can be bound, and gives `l`.
abbrev pub IsFirst : (ℕ → Option ℕ) → ℕ → ℕ → ℕ → ℕ → Type 0
IsFirst bind min max p l =
    (min ≤ p) × (p ≤ max) × (bind p ≡ some l) × ((q : ℕ) → min ≤ q → q < p → bind q ≡ none)

-- No port from `min` to `max` can be bound.
abbrev pub NoneBinds : (ℕ → Option ℕ) → ℕ → ℕ → Type 0
NoneBinds bind min max = (q : ℕ) → min ≤ q → q ≤ max → bind q ≡ none

here_and_later :
    (bind : ℕ → Option ℕ) (port q : ℕ)
    → bind port ≡ none
    → ((r : ℕ) → suc port ≤ r → r < q → bind r ≡ none)
    → (r : ℕ) → port ≤ r
    → r < q
    → bind r ≡ none
here_and_later bind port q here later r low high = elim (Bool-cases (r == port)) [
  | inl y ↦ ap bind ((==_iff r port).0 y) ∙ here
  | inr m ↦ later r (ground arith) high
]

-- What the loop over `n` ports from `port` on comes to.
abbrev Tried : (ℕ → Option ℕ) → ℕ → ℕ → Option ℕ → Type 0
Tried bind n port found =
    ((p : ℕ) × (l : ℕ) × (found ≡ some l)
      × (port ≤ p)
      × (p < port + n)
      × (bind p ≡ some l)
      × ((q : ℕ) → port ≤ q → q < p → bind q ≡ none))
    ⊎ ((found ≡ none) × ((q : ℕ) → port ≤ q → q < port + n → bind q ≡ none))

try_ports-Tried : (bind : ℕ → Option ℕ) (n port : ℕ) → Tried bind n port (try_ports bind n port)
unfolding try_ports
try_ports-Tried bind zero port = inr (refl, λ q low high. absurd (omega arith))
try_ports-Tried bind (suc n) port = elim (Option-cases (bind port)) [
  | inr (l, e) ↦
      inl (port, l, rw e refl, omega arith, omega arith, e, λ q low high. absurd (omega arith))
  | inl none_here ↦ elim (try_ports-Tried bind n (suc port)) [
    | inl (p, l, found, low, high, bound, before) ↦ inl (
      p,
      l,
      rw none_here found,
      omega arith,
      omega arith,
      bound,
      here_and_later bind port p none_here before,
    )
    | inr (found, all) ↦ inr (
      rw none_here found,
      λ q low high. here_and_later bind port (suc port + n) none_here all q low (omega arith),
    )
  ]
]

-- On a range of ports the listener is that of the first port, from the lower end to the upper one,
-- that can be bound; and there is none exactly where none of them can be bound.
pub listen-range :
    (fn : List ℕ → Option ℕ) (addr p q : List ℕ) (parts more : List (List ℕ)) (low high : List ℕ)
    (min max : ℕ)
    → split b':' addr ≡ p ∷ q ∷ parts
    → split b'-' (last_part (p ∷ q ∷ parts)) ≡ low ∷ high ∷ more
    → atoi low ≡ some min
    → atoi high ≡ some max
    → ((port : ℕ) × (l : ℕ) × (listen addr fn ≡ some l)
        × IsFirst (λ n. fn (port_addr (but_last (p ∷ q ∷ parts)) n)) min max port l)
      ⊎ ((listen addr fn ≡ none)
          × NoneBinds (λ n. fn (port_addr (but_last (p ∷ q ∷ parts)) n)) min max)
unfolding listen listen_parts listen_ports in_range
listen-range fn addr p q parts more low high min max colons dashes lower upper =
    let bind = λ (n : ℕ). fn (port_addr (but_last (p ∷ q ∷ parts)) n) in
    let same : listen addr fn ≡ try_ports bind (suc max - min) min =
      rw (colons, dashes, lower, upper) refl in
    elim (try_ports-Tried bind (suc max - min) min) [
      | inl (port, l, found, above, below, bound, before) ↦
          inl (port, l, same ∙ found, (above, omega arith, bound, before))
      | inr (found, all) ↦ inr (same ∙ found, λ n above below. all n above (omega arith))
    ]
