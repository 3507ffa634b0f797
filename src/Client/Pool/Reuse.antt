-- ===== src/Client/Pool/Reuse.antt =====
-- Which connections the pool hands out, keeps and closes.
use Prim.Native.String.{String}
use text.Mathlib.Text.{◌==◌ as str_eq}
use mathlib.Core.List.{append_assoc, append-nil}
use dubbogo.Base.{
  ℕ, zero, suc, ◌+◌, ◌≤◌, ◌<◌, ◌≡◌, refl, sym, ap, ◌∙◌, subst, ◌≢◌, ◌⊎◌, inl, inr, Bool, false,
  Option, none, some, List, [], ◌∷◌, ◌++◌, arith, leb, ◌==◌, if◌then◌else◌, Bool-cases, ltb→lt,
  ==_false, length, take, get_elem?, All, length-append, length-take, Option-cases, string_key,
  nat_key, Dict, same_self, lookup, insert, lookup-insert,
}
use dubbogo.Client.Pool.{
  slice_of, expired, visit, search, set_conns, pool_key, or_dial, get_conn, release_conn, release,
  PoolConn, Pool, Search,
}

abbrev IsExpired : ℕ → ℕ → PoolConn → Type 0
IsExpired ttl now c = c.created + ttl < now

-- A slice `cs` is searched from its end: what was found is its last connection within the ttl, what
-- is kept stands before it, and what was closed stands behind it.
abbrev pub IsSearch : ℕ → ℕ → List PoolConn → Search → Type 0
IsSearch ttl now cs s =
    ((c : PoolConn) × (s.found ≡ some c)
      × (cs ≡ s.kept ++ (c ∷ s.closed))
      × (now ≤ c.created + ttl)
      × All (IsExpired ttl now) s.closed)
    ⊎ ((s.found ≡ none) × (s.kept ≡ []) × (s.closed ≡ cs) × All (IsExpired ttl now) cs)

take_last :
    {A : Type 0} (n : ℕ) (cs : List A)
    → length cs ≡ suc n
    → (c : A) × (get_elem? cs n ≡ some c) × (cs ≡ take n cs ++ (c ∷ [])) × (length (take n cs) ≡ n)
take_last n [] h = absurd (omega arith)
take_last zero (c ∷ []) h = (c, refl, refl, refl)
take_last zero (c ∷ d ∷ cs) h = absurd (omega arith)
take_last (suc n) (c ∷ cs) h =
    let (l, e, f, g) = take_last n cs (omega arith) in (l, e, ap (◌∷◌ c) f, omega (arith, g))

-- Behind a split of the slice, the search of its front part says what that of the whole does.
search-IsSearch :
    (ttl now n : ℕ) (cs closed : List PoolConn)
    → length cs ≡ n
    → All (IsExpired ttl now) closed
    → IsSearch ttl now (cs ++ closed) (search ttl now n cs closed)
unfolding search visit
search-IsSearch ttl now zero [] closed h old = inr (refl, refl, refl, old)
search-IsSearch ttl now zero (c ∷ cs) closed h old = absurd (omega arith)
search-IsSearch ttl now (suc n) cs closed h old =
    let (c, e, f, g) = take_last n cs h in
    let whole : cs ++ closed ≡ take n cs ++ (c ∷ closed) =
      ap (λ l. l ++ closed) f ∙ append_assoc (take n cs) (c ∷ []) closed in
    elim (Bool-cases (expired ttl now c)) [
      | inl y ↦
          rw (e, y)
            (subst (λ l. IsSearch ttl now l (search ttl now n (take n cs) (c ∷ closed))) (sym whole)
              (search-IsSearch ttl now n (take n cs) (c ∷ closed) g (ltb→lt _ _ y, old)))
      | inr z ↦ rw (e, z) (inl (c, refl, whole, ground arith, old))
    ]

lookup_same :
    (key : String) (cs : List PoolConn) (entries : Dict String (List PoolConn))
    → lookup key (insert key cs entries) ≡ some cs
lookup_same key cs entries = lookup-insert key key cs entries ∙ rw (same_self key) refl

-- What `getConn` leaves in the slice; an empty one it leaves as it is.
kept_slice :
    (key : String) (now : ℕ) (p : Pool) (cs : List PoolConn)
    → slice_of (lookup key p.conns) ≡ cs
    → slice_of (
        lookup key
          (if length cs == 0
            then p
            else set_conns key (search p.ttl now (length cs) cs []).kept p).conns)
      ≡ (search p.ttl now (length cs) cs []).kept
unfolding slice_of search
kept_slice key now p [] e = e
kept_slice key now p (c ∷ cs) e =
    let kept = (search p.ttl now (suc (length cs)) (c ∷ cs) []).kept in
    rw (==_false (suc (length cs)) 0 (λ z. omega arith))
      (ap slice_of (lookup_same key kept p.conns))

-- `getConn` hands out the last connection of the slice within the ttl, keeps those before it and
-- closes those behind it; where all have expired, it closes them and dials.
pub get_conn-IsSearch :
    (protocol addr : String) (now : ℕ) (dialled : Option PoolConn) (p : Pool)
    → (s : Search) × IsSearch p.ttl now (slice_of (lookup (pool_key protocol addr) p.conns)) s
      × (get_conn protocol addr now dialled p).0 ≡ or_dial s.found dialled
      × (get_conn protocol addr now dialled p).2 ≡ s.closed
      × slice_of (lookup (pool_key protocol addr) (get_conn protocol addr now dialled p).1.conns)
        ≡ s.kept
unfolding get_conn
get_conn-IsSearch protocol addr now dialled p =
    let key = pool_key protocol addr in
    let cs = slice_of (lookup key p.conns) in
    let s = search p.ttl now (length cs) cs [] in
    (
      s,
      subst (λ l. IsSearch p.ttl now l s) (append-nil cs)
          (search-IsSearch p.ttl now (length cs) cs [] refl tt),
      refl,
      refl,
      kept_slice key now p cs refl,
    )

-- The pool keeps no more connections to an address than its size.
abbrev pub IsBounded : Pool → Type 0
IsBounded p = (key : String) → length (slice_of (lookup key p.conns)) ≤ p.size

set_conns-IsBounded :
    (key : String) (cs : List PoolConn) (p : Pool)
    → length cs ≤ p.size
    → IsBounded p
    → IsBounded (set_conns key cs p)
unfolding slice_of
set_conns-IsBounded key cs p small h k = elim (Bool-cases (str_eq key k)) [
  | inl y ↦
      subst (λ o. length (slice_of o) ≤ p.size) (sym (lookup-insert key k cs p.conns)) (rw y small)
  | inr n ↦
      subst (λ o. length (slice_of o) ≤ p.size) (sym (lookup-insert key k cs p.conns)) (rw n (h k))
]

-- Giving a connection back keeps the number of connections to each address within the size.
pub release-IsBounded :
    (protocol addr : String) (c : Option PoolConn) (failed : Bool) (p : Pool)
    → IsBounded p
    → IsBounded (release protocol addr c failed p).0
unfolding release release_conn
release-IsBounded protocol addr none failed p h = h
release-IsBounded protocol addr (some c) failed p h =
    let cs = slice_of (lookup (pool_key protocol addr) p.conns) in
    elim (Bool-cases (c.created == 0)) [
      | inl y ↦ rw y h
      | inr live ↦ elim (Bool-cases failed) [
        | inl y ↦ rw (live, y) h
        | inr fine ↦ elim (Bool-cases (leb p.size (length cs))) [
          | inl full ↦ rw (live, fine, full) h
          | inr room ↦
              rw (live, fine, room)
                (set_conns-IsBounded (pool_key protocol addr) (cs ++ (c ∷ [])) p
                  (ground (arith, length-append cs (c ∷ []))) h)
        ]
      ]
    ]

length_last : {A : Type 0} (a : A) (xs : List A) → length (xs ++ (a ∷ [])) ≡ suc (length xs)
length_last a xs = omega (arith, length-append xs (a ∷ []))

elem_last : {A : Type 0} (a : A) (xs : List A) → get_elem? (xs ++ (a ∷ [])) (length xs) ≡ some a
elem_last a [] = refl
elem_last a (x ∷ xs) = elem_last a xs

search_last :
    (ttl now : ℕ) (c : PoolConn) (cs : List PoolConn)
    → now ≤ c.created + ttl
    → (search ttl now (length (cs ++ (c ∷ []))) (cs ++ (c ∷ [])) []).found ≡ some c
unfolding search visit
search_last ttl now c cs fresh =
    let young : expired ttl now c ≡ false = ground arith in
    rw (length_last c cs, elem_last c cs, young) refl

-- A live connection that is given back without an error, to a slice with room, is the one that the
-- next call for the address gets, while it is within the ttl.
pub get_conn-release :
    (protocol addr : String) (now : ℕ) (dialled : Option PoolConn) (c : PoolConn) (p : Pool)
    → c.created ≢ 0
    → now ≤ c.created + p.ttl
    → length (slice_of (lookup (pool_key protocol addr) p.conns)) < p.size
    → (get_conn protocol addr now dialled (release protocol addr (some c) false p).0).0 ≡ some c
unfolding get_conn release release_conn slice_of search visit or_dial
get_conn-release protocol addr now dialled c p live fresh room =
    let key = pool_key protocol addr in
    let cs = slice_of (lookup key p.conns) in
    let space : leb p.size (length cs) ≡ false = ground arith in
    rw (==_false c.created 0 live, space, lookup_same key (cs ++ (c ∷ [])) p.conns)
      (ap (λ o. or_dial o dialled) (search_last p.ttl now c cs fresh))

search_shorter :
    (ttl now n : ℕ) (cs closed : List PoolConn)
    → length (search ttl now n cs closed).kept ≤ length cs
unfolding search visit
search_shorter ttl now zero cs closed = omega arith
search_shorter ttl now (suc n) cs closed = elim (Option-cases (get_elem? cs n)) [
  | inl e ↦ rw e (omega (arith, length-take n cs))
  | inr (c, e) ↦ elim (Bool-cases (expired ttl now c)) [
    | inl y ↦
        rw (e, y)
          (omega (arith, search_shorter ttl now n (take n cs) (c ∷ closed), length-take n cs))
    | inr z ↦ rw (e, z) (omega (arith, length-take n cs))
  ]
]

-- Taking a connection out keeps the number of connections to each address within the size.
pub get_conn-IsBounded :
    (protocol addr : String) (now : ℕ) (dialled : Option PoolConn) (p : Pool)
    → IsBounded p
    → IsBounded (get_conn protocol addr now dialled p).1
unfolding get_conn
get_conn-IsBounded protocol addr now dialled p h =
    let key = pool_key protocol addr in
    let cs = slice_of (lookup key p.conns) in
    let s = search p.ttl now (length cs) cs [] in
    elim (Bool-cases (length cs == 0)) [
      | inl y ↦ rw y h
      | inr n ↦ rw n (
          set_conns-IsBounded key s.kept p
            (omega (arith, h key, search_shorter p.ttl now (length cs) cs [])) h)
    ]
