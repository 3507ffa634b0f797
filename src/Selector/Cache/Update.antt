-- ===== src/Selector/Cache/Update.antt =====
-- What an event makes of the cached providers.
use Prim.Native.String.{String}
use text.Mathlib.TextEquality.{eq_iff}
use dubbogo.Base.{
  ℕ, ◌+◌, ◌≤◌, ◌≡◌, refl, ◌∙◌, inl, inr, List, [], ◌∷◌, ◌++◌, arith, if◌then◌else◌, Bool-cases,
  nat_key, string_key, same_self, lookup, lookup-insert, lookup-delete,
}
use dubbogo.Registry.Service.{
  key, service_config, Action, ServiceUrl, service_url_add, service_url_del, service_url_update,
}
use dubbogo.Selector.Cache.Loop.{kept, count_url, IsDistinct, without_url-kept}
use dubbogo.Selector.Cache.{set, services_of, add_event, update, CacheSelector}

-- The providers cached under a key.
abbrev pub cached : CacheSelector → String → List ServiceUrl
cached c k = services_of (lookup k c.cache)

cached-set :
    (c : CacheSelector) (now : ℕ) (k j : String) (ss : List ServiceUrl)
    → cached (set c now k ss) j ≡ (if string_key.same k j then ss else cached c j)
unfolding set
cached-set c now k j [] = ground (arith, lookup-delete k j c.cache)
cached-set c now k j (s ∷ ss) = ground (arith, lookup-insert k j (s ∷ ss) c.cache)

pub cached-update :
    (c : CacheSelector) (now : ℕ) (action : Action) (s : ServiceUrl) (j : String)
    → let k = key (service_config s) in
      IsDistinct (cached c k)
      → cached (update c now action s) j ≡ (
          if string_key.same k j
          then add_event action s (kept s.primitive_url (cached c k))
          else cached c j)
unfolding update
cached-update c now action s j h =
    let k = key (service_config s) in
    rw (without_url-kept s.primitive_url (cached c k) (h s.primitive_url)) (cached-set c now k j _)

count-kept :
    (u url : String) (ss : List ServiceUrl)
    → count_url u (kept url ss) ≡ (if string_key.same url u then 0 else count_url u ss)
unfolding count_url kept
count-kept u url [] = ground arith
count-kept u url (s ∷ ss) =
    ground (
      arith,
      count-kept u url ss,
      eq_iff s.primitive_url url,
      eq_iff s.primitive_url u,
      eq_iff url u,
    )

count-append :
    (u : String) (xs ys : List ServiceUrl)
    → count_url u (xs ++ ys) ≡ count_url u xs + count_url u ys
unfolding count_url
count-append u [] ys = omega arith
count-append u (x ∷ xs) ys = omega (arith, count-append u xs ys)

-- How often a url stands behind an event.
abbrev pub expected : Action → ℕ
expected service_url_add = 1
expected service_url_update = 1
expected service_url_del = 0

count-add_event :
    (u : String) (action : Action) (s : ServiceUrl) (ss : List ServiceUrl)
    → count_url u (add_event action s (kept s.primitive_url ss))
      ≡ (if string_key.same s.primitive_url u then expected action else count_url u ss)
unfolding count_url
count-add_event u service_url_add s ss =
    ground
      (arith, count-append u (kept s.primitive_url ss) (s ∷ []), count-kept u s.primitive_url ss)
count-add_event u service_url_update s ss =
    ground
      (arith, count-append u (kept s.primitive_url ss) (s ∷ []), count-kept u s.primitive_url ss)
count-add_event u service_url_del s ss = count-kept u s.primitive_url ss

-- Every service's providers have different urls.
abbrev pub IsDistinctCache : CacheSelector → Type 0
IsDistinctCache c = (k : String) → IsDistinct (cached c k)

expected-le : (action : Action) → expected action ≤ 1
expected-le service_url_add = omega arith
expected-le service_url_del = omega arith
expected-le service_url_update = omega arith

pub count-update :
    (c : CacheSelector) (now : ℕ) (action : Action) (s : ServiceUrl) (j u : String)
    → let k = key (service_config s) in
      IsDistinct (cached c k)
      → count_url u (cached (update c now action s) j) ≡ (
          if string_key.same k j
          then (if string_key.same s.primitive_url u
              then expected action
              else count_url u (cached c k))
          else count_url u (cached c j))
count-update c now action s j u h =
    let k = key (service_config s) in
    elim (Bool-cases (string_key.same k j)) [
      | inl e ↦ rw (cached-update c now action s j h, e) (count-add_event u action s (cached c k))
      | inr e ↦ rw (cached-update c now action s j h, e) refl
    ]

-- Events keep the providers of each service apart, and behind an event its url stands once under
-- its service, or not at all behind a deletion.
pub update-IsDistinctCache :
    (c : CacheSelector) (now : ℕ) (action : Action) (s : ServiceUrl)
    → IsDistinctCache c
    → IsDistinctCache (update c now action s)
      × (count_url s.primitive_url (cached (update c now action s) (key (service_config s)))
          ≡ expected action)
update-IsDistinctCache c now action s h =
    let k = key (service_config s) in
    (
      λ j u.
          ground (arith, count-update c now action s j u (h k), expected-le action, h k u, h j u),
      count-update c now action s k s.primitive_url (h k)
          ∙ rw (same_self k, same_self s.primitive_url) refl,
    )
