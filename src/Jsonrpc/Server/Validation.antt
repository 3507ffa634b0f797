-- ===== src/Jsonrpc/Server/Validation.antt =====
-- Which requests are let through.
use Prim.Native.String.{String}
use text.Mathlib.TextEquality.{eq_iff}
use dubbogo.Base.{
  ℕ, ◌+◌, ◌≤◌, ◌≡◌, refl, ◌↔◌, ◌⊎◌, inl, inr, Bool, true, false, not, ◌&&◌, ◌||◌, ◌==◌, leb,
  Bool-cases, Option, none, some, [], ◌∷◌, arith, if◌then◌else◌, length, Option-cases, nat_key,
  string_key, Dict, lookup,
}
use dubbogo.Jsonrpc.Server.{
  Raw, member, has, is_nil, opens_structure, is_id, member_count, well_formed, valid_request,
  Members,
}

-- How often a key stands among the members, and how many members a request does not have.
unfoldable pub occurrences {ℓ} : {V : Type ℓ} → String → Dict String V → ℕ
occurrences k [] = 0
occurrences k ((j, v) ∷ m) = (if string_key.same j k then 1 else 0) + occurrences k m

unfoldable pub unknowns {ℓ} : {V : Type ℓ} → Dict String V → ℕ
unknowns [] = 0
unknowns ((j, v) ∷ m) =
    (if string_key.same j "jsonrpc"
        || string_key.same j "method"
        || string_key.same j "id"
        || string_key.same j "params"
      then 0
      else 1)
    + unknowns m

-- A Go map has each key once.
abbrev pub IsMap {ℓ} : {V : Type ℓ} → Dict String V → Type 0
IsMap m = (k : String) → occurrences k m ≤ 1

module _ {ℓ} {V : Type ℓ} where
  length-members :
      (m : Dict String V)
      → length m
        ≡ occurrences "jsonrpc" m
          + occurrences "method" m
          + occurrences "id" m
          + occurrences "params" m
          + unknowns m
  unfolding occurrences unknowns
  length-members [] = omega arith
  length-members ((j, v) ∷ m) = ground (
    arith,
    length-members m,
    eq_iff j "jsonrpc",
    eq_iff j "method",
    eq_iff j "id",
    eq_iff j "params",
    eq_iff "jsonrpc" "method",
    eq_iff "jsonrpc" "id",
    eq_iff "jsonrpc" "params",
    eq_iff "method" "id",
    eq_iff "method" "params",
    eq_iff "id" "params",
  )

  occurrences-none : (k : String) (m : Dict String V) → lookup k m ≡ none → occurrences k m ≡ 0
  unfolding occurrences lookup
  occurrences-none k [] h = refl
  occurrences-none k ((j, v) ∷ m) h = ground (arith, occurrences-none k m)

  occurrences-some :
      (k : String) (m : Dict String V) (v : V) → lookup k m ≡ some v → 1 ≤ occurrences k m
  unfolding occurrences lookup
  occurrences-some k [] v h = absurd (cc)
  occurrences-some k ((j, w) ∷ m) v h = ground (arith, occurrences-some k m v)

  abbrev present : Option V → ℕ
  present none = 0
  present (some v) = 1

  occurrences-lookup :
      (k : String) (m : Dict String V)
      → occurrences k m ≤ 1
      → occurrences k m ≡ present (lookup k m)
  occurrences-lookup k m h = elim (Option-cases (lookup k m)) [
    | inl e ↦ rw e (occurrences-none k m e)
    | inr (v, e) ↦ rw e (omega (arith, occurrences-some k m v e))
  ]

-- What kind of value a JSON text is, by its first character; `none` is no JSON value.
pub data JsonKind : Type 0 where
  text_json number_json boolean_json null_json array_json object_json : JsonKind

abbrev pub kind_of_json : Raw → Option JsonKind
kind_of_json [] = none
kind_of_json (c ∷ r) =
    if c == b'"'
    then some text_json
    else if c == b'-' || (leb b'0' c && leb c b'9')
    then some number_json
    else if c == b't' || c == b'f'
    then some boolean_json
    else if c == b'n'
    then some null_json
    else if c == b'['
    then some array_json
    else if c == b'{'
    then some object_json
    else none

-- A string, a number or null.
abbrev pub IsIdKind : Option JsonKind → Type 0
IsIdKind k = (k ≡ some text_json) ⊎ (k ≡ some number_json) ⊎ (k ≡ some null_json)

-- An array or an object.
abbrev pub IsStructureKind : Option JsonKind → Type 0
IsStructureKind k = (k ≡ some array_json) ⊎ (k ≡ some object_json)

-- A member that is there and not null.
abbrev pub HasValue : String → Members → Type 0
HasValue k m = (v : Raw) × (lookup k m.fields ≡ some (some v))

abbrev pub kind_of_param : Option Raw → Option JsonKind
kind_of_param none = none
kind_of_param (some r) = kind_of_json r

-- The requests of JSON-RPC 2.0: the version and the method are there, the params are an array or an
-- object if they are there, the id is a string, a number or null if it is there, and there is nothing
-- else.
abbrev pub IsRequest : Members → Option Raw → Raw → Type 0
IsRequest m params id =
    HasValue "jsonrpc" m
    × HasValue "method" m
    × (unknowns m.fields ≡ 0)
    × (m.version ≡ "2.0")
    × ((lookup "params" m.fields ≡ none) ⊎ IsStructureKind (kind_of_param params))
    × ((lookup "id" m.fields ≡ none) ⊎ IsIdKind (kind_of_json id))

to_structure :
    (c : ℕ) (r : Raw)
    → opens_structure (some (c ∷ r)) ≡ true
    → IsStructureKind (kind_of_json (c ∷ r))
to_structure c r h = elim (Bool-cases (c == b'[')) [
  | inl y ↦ inl (ground arith)
  | inr m ↦ inr (ground arith)
]

from_structure :
    (c : ℕ) (r : Raw)
    → IsStructureKind (kind_of_json (c ∷ r))
    → opens_structure (some (c ∷ r)) ≡ true
from_structure c r (inl h) = ground arith
from_structure c r (inr h) = ground arith

to_id :
    (c : ℕ) (r : Raw) (k : JsonKind)
    → kind_of_json (c ∷ r) ≡ some k
    → is_id (some (c ∷ r)) ≡ true
    → IsIdKind (kind_of_json (c ∷ r))
to_id c r text_json h e = inl h
to_id c r number_json h e = inr (inl h)
to_id c r null_json h e = inr (inr h)
to_id c r boolean_json h e = absurd (ground arith)
to_id c r array_json h e = absurd (ground arith)
to_id c r object_json h e = absurd (ground arith)

from_id : (c : ℕ) (r : Raw) → IsIdKind (kind_of_json (c ∷ r)) → is_id (some (c ∷ r)) ≡ true
from_id c r (inl h) = ground arith
from_id c r (inr (inl h)) = ground arith
from_id c r (inr (inr h)) = ground arith

-- The test of the code on a member, as what it looks for.
value_iff : (k : String) (m : Members) → (is_nil (member k m) ≡ false) ↔ HasValue k m
unfolding member
value_iff k m = elim (Option-cases (lookup k m.fields)) [
  | inl e ↦ (λ h. absurd (ground arith), λ h. absurd (ground (arith, h.1)))
  | inr (none, e) ↦ (λ h. absurd (ground arith), λ h. absurd (ground (arith, h.1)))
  | inr (some v, e) ↦ (λ h. (v, e), λ h. ground arith)
]

absent_iff : (k : String) (m : Members) → (has k m ≡ false) ↔ (lookup k m.fields ≡ none)
unfolding has
absent_iff k m = (λ h. ground arith, λ h. ground arith)

structure_iff :
    (params : Option Raw) → (opens_structure params ≡ true) ↔ IsStructureKind (kind_of_param params)
structure_iff none = (λ h. absurd (cc), λ h. absurd (ground arith))
structure_iff (some []) = (λ h. absurd (cc), λ h. absurd (ground arith))
structure_iff (some (c ∷ r)) = (to_structure c r, from_structure c r)

-- The id of a request is a value of JSON, so that what is none of the four refused is one of the three.
id_iff :
    (id : Raw) (k : JsonKind)
    → kind_of_json id ≡ some k
    → (is_id (some id) ≡ true) ↔ IsIdKind (kind_of_json id)
id_iff [] k h = absurd (cc)
id_iff (c ∷ r) k h = (to_id c r k h, from_id c r)

member_count_iff :
    (n i p u : ℕ) (has_id has_params : Bool)
    → n ≡ 2 + i + p + u
    → i ≡ (if has_id then 1 else 0)
    → p ≡ (if has_params then 1 else 0)
    → (member_count n has_id has_params ≡ true) ↔ (u ≡ 0)
member_count_iff n i p u has_id has_params e f g = (λ h. ground arith, λ h. ground arith)

either {ℓ κ} : {A B : Type ℓ} {C D : Type κ} → (A → B) → (C → D) → A ⊎ C → B ⊎ D
either f g (inl a) = inl (f a)
either f g (inr c) = inr (g c)

-- The conjunction of the checks, taken apart and put together.
conditions :
    {n h c v a s b i : Bool}
    → ((not n && not h && c && v && (not a || s)) && (not b || i)) ≡ true
    → (n ≡ false)
      × (h ≡ false)
      × (c ≡ true)
      × (v ≡ true)
      × ((a ≡ false) ⊎ (s ≡ true))
      × ((b ≡ false) ⊎ (i ≡ true))
conditions {a} {b} e = (
  ground arith,
  ground arith,
  ground arith,
  ground arith,
  elim (Bool-cases a) [ inl y ↦ inr (ground arith) | inr m ↦ inl m ],
  elim (Bool-cases b) [ inl y ↦ inr (ground arith) | inr m ↦ inl m ],
)

checked :
    {n h c v a s b i : Bool}
    → n ≡ false
    → h ≡ false
    → c ≡ true
    → v ≡ true
    → (a ≡ false) ⊎ (s ≡ true)
    → (b ≡ false) ⊎ (i ≡ true)
    → ((not n && not h && c && v && (not a || s)) && (not b || i)) ≡ true
checked e f g k l o = ground arith

module _ (m : Members) (unique : IsMap m.fields) where
  -- With the version and the method there, the number of members is right exactly if none is unknown.
  count_iff :
      is_nil (member "jsonrpc" m) ≡ false
      → is_nil (member "method" m) ≡ false
      → (member_count (length m.fields) (has "id" m) (has "params" m) ≡ true)
        ↔ (unknowns m.fields ≡ 0)
  unfolding has member
  count_iff j k =
      member_count_iff (length m.fields) (present (lookup "id" m.fields))
        (present (lookup "params" m.fields)) (unknowns m.fields) (has "id" m) (has "params" m)
        (ground (
          arith,
          length-members m.fields,
          occurrences-lookup "jsonrpc" m.fields (unique "jsonrpc"),
          occurrences-lookup "method" m.fields (unique "method"),
          occurrences-lookup "id" m.fields (unique "id"),
          occurrences-lookup "params" m.fields (unique "params"),
        ))
        (ground arith) (ground arith)

  -- A request passes the checks exactly when it is one of JSON-RPC 2.0: the version 2.0 and a method,
  -- an array or an object for params and a string, a number or null for the id if these are there, and
  -- no other member. Its id is the text of a JSON value, as encoding/json gives it.
  pub valid_request_iff :
      (params : Option Raw) (id : Raw) (k : JsonKind)
      → kind_of_json id ≡ some k
      → (valid_request m params (some id) ≡ true) ↔ IsRequest m params id
  unfolding valid_request well_formed
  valid_request_iff params id k value = (
    λ h.
        let (jsonrpc, method, count, version, structure, proper) = conditions h in
        (
          (value_iff "jsonrpc" m).0 jsonrpc,
          (value_iff "method" m).0 method,
          (count_iff jsonrpc method).0 count,
          (eq_iff m.version "2.0").0 version,
          either (absent_iff "params" m).0 (structure_iff params).0 structure,
          either (absent_iff "id" m).0 (id_iff id k value).0 proper,
        ),
    λ h.
        let jsonrpc = (value_iff "jsonrpc" m).1 h.0 in
        let method = (value_iff "method" m).1 h.1 in
        checked jsonrpc method ((count_iff jsonrpc method).1 h.2) ((eq_iff m.version "2.0").1 h.3)
          (either (absent_iff "params" m).1 (structure_iff params).1 h.4)
          (either (absent_iff "id" m).1 (id_iff id k value).1 h.5),
  )
