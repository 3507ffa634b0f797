-- ===== src/Selector/Cache/Loop.antt =====
-- The loop of `update` that takes the provider of an event out of the cached slice.
use Prim.Native.String.{String}
use native.Mathlib.Nat.{zero-add, add-zero, suc-add, add-suc}
use mathlib.Core.List.{append_assoc}
use dubbogo.Base.{
  ℕ, zero, suc, ◌+◌, ◌-◌, ◌≤◌, ◌<◌, ◌≡◌, refl, sym, ap, ◌∙◌, subst, inl, inr, true, false, List, [],
  ◌∷◌, ◌++◌, arith, if◌then◌else◌, Bool-cases, length, take, drop, get_elem?, All, length-append,
  take_prefix, All-append, All-drop, take_all, get_elem?-append, drop-append, get_elem?-front,
  string_key,
}
use dubbogo.Registry.Service.{ServiceUrl}
use dubbogo.Selector.Cache.{hit, range_round, range_loop, without_url}

-- The providers with another url, in their order.
unfoldable pub kept : String → List ServiceUrl → List ServiceUrl
kept url [] = []
kept url (s ∷ ss) = if string_key.same s.primitive_url url then kept url ss else s ∷ kept url ss

-- How many providers have a url.
unfoldable pub count_url : String → List ServiceUrl → ℕ
count_url url [] = 0
count_url url (s ∷ ss) = (if string_key.same s.primitive_url url then 1 else 0) + count_url url ss

abbrev pub IsDistinct : List ServiceUrl → Type 0
IsDistinct ss = (url : String) → count_url url ss ≤ 1

abbrev Misses : String → ServiceUrl → Type 0
Misses url s = string_key.same s.primitive_url url ≡ false

get-Misses :
    (url : String) (ss : List ServiceUrl) (i : ℕ)
    → All (Misses url) ss
    → hit url (get_elem? ss i) ≡ false
get-Misses url [] i h = refl
get-Misses url (s ∷ ss) zero h = h.0
get-Misses url (s ∷ ss) (suc i) h = get-Misses url ss i h.1

-- Rounds that hit nothing change nothing.
loop-Misses :
    (url : String) (rounds i n : ℕ) (array : List ServiceUrl)
    → ((j : ℕ) → i ≤ j → j < i + rounds → hit url (get_elem? array j) ≡ false)
    → range_loop url rounds i (array, n) ≡ (array, n)
unfolding range_loop range_round
loop-Misses url zero i n array h = refl
loop-Misses url (suc rounds) i n array h =
    rw (h i (omega arith) (omega arith))
      (loop-Misses url rounds (suc i) n array (λ j a b. h j (omega arith) (omega arith)))

loop_split :
    (url : String) (a b i : ℕ) (state : List ServiceUrl × ℕ)
    → range_loop url (a + b) i state ≡ range_loop url b (i + a) (range_loop url a i state)
unfolding range_loop
loop_split url zero b i state = rw (zero-add, add-zero) refl
loop_split url (suc a) b i state =
    rw (suc-add, loop_split url a b (suc i) (range_round url i state), add-suc, suc-add) refl

-- At most one provider has the url: then none, or one between others.
data View (url : String) : List ServiceUrl → Type 0 where
  none_hit : {ss : List ServiceUrl} → All (Misses url) ss → View url ss
  one_hit :
      {ss : List ServiceUrl} (xs ys : List ServiceUrl) (s : ServiceUrl)
      → ss ≡ xs ++ (s ∷ ys)
      → string_key.same s.primitive_url url ≡ true
      → All (Misses url) xs
      → All (Misses url) ys
      → View url ss

count-Misses : (url : String) (ss : List ServiceUrl) → count_url url ss ≡ 0 → All (Misses url) ss
unfolding count_url
count-Misses url [] h = tt
count-Misses url (s ∷ ss) h = (ground arith, count-Misses url ss (ground arith))

view : (url : String) (ss : List ServiceUrl) → count_url url ss ≤ 1 → View url ss
unfolding count_url
view url [] h = none_hit tt
view url (s ∷ ss) h = elim (Bool-cases (string_key.same s.primitive_url url)) [
  | inl e ↦ one_hit [] ss s refl e tt (count-Misses url ss (ground arith))
  | inr e ↦ elim (view url ss (ground arith)) [
    | none_hit a ↦ none_hit (e, a)
    | one_hit xs ys t p q a b ↦ one_hit (s ∷ xs) ys t (ap (◌∷◌ s) p) q (e, a) b
  ]
]

-- The array behind the round that hits: the entries after it are one place further down, and the
-- last cell keeps its value.
shifted : List ServiceUrl → ServiceUrl → List ServiceUrl → List ServiceUrl
shifted xs s ys = xs ++ (ys ++ drop (length xs + length ys) (xs ++ (s ∷ ys)))

round_hits :
    (url : String) (xs ys : List ServiceUrl) (s : ServiceUrl)
    → string_key.same s.primitive_url url ≡ true
    → range_round url (length xs) (xs ++ (s ∷ ys), length (xs ++ (s ∷ ys)))
      ≡ (shifted xs s ys, length xs + length ys)
unfolding range_round shifted
round_hits url xs ys s e =
    let l = xs ++ (s ∷ ys) in
    ground (
      arith,
      get_elem?-append 0 xs (s ∷ ys),
      length-append xs (s ∷ ys),
      take_prefix (length xs) xs (s ∷ ys) refl,
      take_all (length l) l (omega arith),
      drop-append 1 xs (s ∷ ys),
    )

shifted-Misses :
    (url : String) (xs ys : List ServiceUrl) (s : ServiceUrl) (j : ℕ)
    → All (Misses url) ys
    → length xs < j
    → j < length xs + suc (length ys)
    → hit url (get_elem? (shifted xs s ys) j) ≡ false
unfolding shifted
shifted-Misses url xs [] s j h lo hi = absurd (omega arith)
shifted-Misses url xs (y ∷ ys) s j h lo hi =
    let tail = drop (length xs + suc (length ys)) (xs ++ (s ∷ y ∷ ys)) in
    let e : tail ≡ drop (length ys) (y ∷ ys) = drop-append (suc (length ys)) xs (s ∷ y ∷ ys) in
    let all =
      All-append (Misses url) (y ∷ ys) (drop (length ys) (y ∷ ys)) h
        (All-drop (Misses url) (length ys) (y ∷ ys) h) in
    let k : j ≡ length xs + (j - length xs) = omega arith in
    rw (e, k, get_elem?-append (j - length xs) xs ((y ∷ ys) ++ drop (length ys) (y ∷ ys)))
      (get-Misses url ((y ∷ ys) ++ drop (length ys) (y ∷ ys)) (j - length xs) all)

loop_suc :
    (url : String) (rounds i : ℕ) (state : List ServiceUrl × ℕ)
    → range_loop url (suc rounds) i state ≡ range_loop url rounds (suc i) (range_round url i state)
unfolding range_loop
loop_suc url rounds i state = refl

loop_hits :
    (url : String) (xs ys : List ServiceUrl) (s : ServiceUrl)
    → string_key.same s.primitive_url url ≡ true
    → All (Misses url) xs
    → All (Misses url) ys
    → range_loop url (length xs + suc (length ys)) 0 (xs ++ (s ∷ ys), length (xs ++ (s ∷ ys)))
      ≡ (shifted xs s ys, length xs + length ys)
loop_hits url xs ys s e a b =
    let l = xs ++ (s ∷ ys) in
    rw
      (
        loop_split url (length xs) (suc (length ys)) 0 (l, length l),
        loop-Misses url (length xs) 0 (length l) l
            (λ j lo hi. rw (get_elem?-front j xs (s ∷ ys) (omega arith)) (get-Misses url xs j a)),
        zero-add,
        loop_suc url (length ys) (length xs) (l, length l),
        round_hits url xs ys s e,
      )
      (loop-Misses url (length ys) (suc (length xs)) (length xs + length ys) (shifted xs s ys)
        (λ j lo hi. shifted-Misses url xs ys s j b (omega arith) (omega arith)))

without-one_hit :
    (url : String) (xs ys : List ServiceUrl) (s : ServiceUrl)
    → string_key.same s.primitive_url url ≡ true
    → All (Misses url) xs
    → All (Misses url) ys
    → without_url url (xs ++ (s ∷ ys)) ≡ xs ++ ys
unfolding without_url shifted
without-one_hit url xs ys s e a b =
    let l = xs ++ (s ∷ ys) in
    let tail = drop (length xs + length ys) l in
    let whole : range_loop url (length l) 0 (l, length l)
        ≡ (shifted xs s ys, length xs + length ys) =
      subst (λ r. range_loop url r 0 (l, length l) ≡ (shifted xs s ys, length xs + length ys))
        (sym (length-append xs (s ∷ ys))) (loop_hits url xs ys s e a b) in
    ap (λ (st : List ServiceUrl × ℕ). take st.1 st.0) whole
    ∙ rw (← append_assoc xs ys tail)
        (take_prefix (length xs + length ys) (xs ++ ys) tail (length-append xs ys))

kept-Misses : (url : String) (ss : List ServiceUrl) → All (Misses url) ss → kept url ss ≡ ss
unfolding kept
kept-Misses url [] h = refl
kept-Misses url (s ∷ ss) h = ground (arith, kept-Misses url ss h.1)

kept-append :
    (url : String) (xs ys : List ServiceUrl) → kept url (xs ++ ys) ≡ kept url xs ++ kept url ys
unfolding kept
kept-append url [] ys = refl
kept-append url (x ∷ xs) ys = ground (arith, kept-append url xs ys)

kept-hit :
    (url : String) (s : ServiceUrl) (ss : List ServiceUrl)
    → string_key.same s.primitive_url url ≡ true
    → kept url (s ∷ ss) ≡ kept url ss
unfolding kept
kept-hit url s ss e = ground arith

without-Misses :
    (url : String) (ss : List ServiceUrl) → All (Misses url) ss → without_url url ss ≡ ss
unfolding without_url
without-Misses url ss a =
    rw (loop-Misses url (length ss) 0 (length ss) ss (λ j lo hi. get-Misses url ss j a))
      (take_all (length ss) ss (omega arith))

-- The loop of `update`, which removes from the array that it ranges over, leaves the providers with
-- another url, in their order, where at most one provider has the url of the event.
pub without_url-kept :
    (url : String) (ss : List ServiceUrl) → count_url url ss ≤ 1 → without_url url ss ≡ kept url ss
without_url-kept url ss h = elim (view url ss h) [
  | none_hit a ↦ without-Misses url ss a ∙ sym (kept-Misses url ss a)
  | one_hit xs ys s p e a b ↦
      ap (without_url url) p
      ∙ without-one_hit url xs ys s e a b
      ∙ rw (p, kept-append, kept-hit url s ys e, kept-Misses url xs a, kept-Misses url ys b) refl
]
