-- ===== src/Zookeeper/Watcher/Effects.antt =====
-- What the watcher's events make of the selector's cache.
use Prim.Native.String.{String}
use text.Mathlib.TextEquality.{eq_iff}
use dubbogo.Base.{
  ℕ, suc, ◌≡◌, refl, sym, ap, ◌∙◌, inl, inr, Bool, true, false, not, ◌&&◌, Option, none, some, List,
  [], ◌∷◌, ◌++◌, arith, if◌then◌else◌, Bool-cases, All, Option-cases, string_key, nat_key,
  same_self,
}
use dubbogo.Registry.Service.{
  key, service_config, service_equal, Action, ServiceUrl, ServiceConfig, service_url_add,
  service_url_del, service_url_update,
}
use dubbogo.Registry.Service.Equality.{service_equal_iff}
use dubbogo.Registry.Urls.{new_service_url, new_service_url-primitive, UrlLib}
use dubbogo.Selector.Cache.{update, watch_event, CacheSelector}
use dubbogo.Selector.Cache.Loop.{count_url}
use dubbogo.Selector.Cache.Update.{
  cached, expected, IsDistinctCache, count-update, update-IsDistinctCache,
}
use dubbogo.Zookeeper.Watcher.{contains, send_add, added_nodes, Event}

-- The selector takes the events in their order, each at a time, and over a connection that is valid
-- then or not.
unfoldable pub deliver : (ℕ → ℕ × Bool) → CacheSelector → List Event → CacheSelector
deliver at c [] = c
deliver at c (e ∷ es) =
    deliver (λ i. at (suc i)) (watch_event c (at 0).0 (at 0).1 e.action e.service) es

-- The connection is valid whenever the selector takes an event.
abbrev pub StaysValid : (ℕ → ℕ × Bool) → Type 0
StaysValid at = (i : ℕ) → (at i).1 ≡ true

-- How often a url is cached behind the events, from how often before.
unfoldable pub effect : List Event → String → ℕ → ℕ
effect [] u m = m
effect (e ∷ es) u m =
    effect es u (if string_key.same e.service.primitive_url u then expected e.action else m)

pub effect-append :
    (xs ys : List Event) (u : String) (m : ℕ) → effect (xs ++ ys) u m ≡ effect ys u (effect xs u m)
unfolding effect
effect-append [] ys u m = refl
effect-append (x ∷ xs) ys u m = effect-append xs ys u _

watch_event-valid :
    (c : CacheSelector) (now : ℕ) (action : Action) (s : ServiceUrl)
    → watch_event c now true action s ≡ update c now action s
unfolding watch_event
watch_event-valid c now service_url_add s = refl
watch_event-valid c now service_url_del s = refl
watch_event-valid c now service_url_update s = refl

module _ (lib : UrlLib) (conf : ServiceConfig) where
  -- Whether a child is a url that fits the configuration.
  abbrev pub is_fit : Option ServiceUrl → Bool
  is_fit none = false
  is_fit (some url) = service_equal conf url

  -- How often a url is to be cached: once if it is a child that fits, and not at all otherwise.
  unfoldable pub wanted : List String → String → ℕ
  wanted children u = if contains children u && is_fit (new_service_url lib u) then 1 else 0

  abbrev pub Fits : Event → Type 0
  Fits e = service_equal conf e.service ≡ true

  pub deliver-effect :
      (at : ℕ → ℕ × Bool) (c : CacheSelector) (es : List Event)
      → StaysValid at
      → All Fits es
      → IsDistinctCache c
      → IsDistinctCache (deliver at c es)
        × ((u : String)
            → count_url u (cached (deliver at c es) (key conf))
              ≡ effect es u (count_url u (cached c (key conf))))
  unfolding deliver effect
  deliver-effect at c [] valid fits d = (d, λ u. refl)
  deliver-effect at c (e ∷ es) valid (fit, fits) d =
      let now = (at 0).0 in
      let c' = watch_event c now (at 0).1 e.action e.service in
      let here : c' ≡ update c now e.action e.service =
        ap (λ b. watch_event c now b e.action e.service) (valid 0)
        ∙ watch_event-valid c now e.action e.service in
      let keys : key conf ≡ key (service_config e.service) =
        ap key ((service_equal_iff conf e.service).0 fit) in
      let distinct : IsDistinctCache c' =
        rw here (update-IsDistinctCache c now e.action e.service d).0 in
      let (later, counts) =
        deliver-effect (λ i. at (suc i)) c' es (λ i. valid (suc i)) fits distinct in
      let one : (u : String)
          → count_url u (cached c' (key conf)) ≡ (
              if string_key.same e.service.primitive_url u
              then expected e.action
              else count_url u (cached c (key conf))) =
        λ u.
          rw
            (
              here,
              keys,
              count-update c now e.action e.service (key (service_config e.service)) u (d _),
              same_self (key (service_config e.service)),
            )
            refl in
      (later, λ u. counts u ∙ ap (effect es u) (one u))

  -- Where a child is the url, it tells whether the url fits.
  pub fits_here :
      (n u : String) (o : Option ServiceUrl)
      → new_service_url lib n ≡ o
      → (string_key.same n u && is_fit (new_service_url lib u)) ≡ (string_key.same n u && is_fit o)
  fits_here n u o e = elim (Bool-cases (string_key.same n u)) [
    | inl same ↦ rw (same, sym ((eq_iff n u).0 same), e) refl
    | inr other ↦ rw other refl
  ]

  -- The event for a new child, in front of others.
  send_add-effect :
      (n : String) (later : List Event) (u : String) (m : ℕ)
      → effect (send_add lib conf (new_service_url lib n) later) u m
        ≡ effect later u (if string_key.same n u && is_fit (new_service_url lib u) then 1 else m)
  unfolding effect
  send_add-effect n later u m = elim (Option-cases (new_service_url lib n)) [
    | inl e ↦ rw (fits_here n u none e, e) (ground arith)
    | inr (s, e) ↦
        let named = new_service_url-primitive lib n s e in
        rw (fits_here n u (some s) e, e) (ground (arith, named))
  ]

  send_add-Fits :
      (o : Option ServiceUrl) (later : List Event)
      → All Fits later
      → All Fits (send_add lib conf o later)
  send_add-Fits none later h = h
  send_add-Fits (some s) later h = elim (Bool-cases (service_equal conf s)) [
    | inl fit ↦ rw fit (fit, h)
    | inr other ↦ rw other h
  ]

  pub added-Fits : (old ns : List String) → All Fits (added_nodes lib conf old ns)
  unfolding added_nodes
  added-Fits old [] = tt
  added-Fits old (n ∷ ns) = elim (Bool-cases (contains old n)) [
    | inl known ↦ rw known (added-Fits old ns)
    | inr new ↦ rw new (send_add-Fits (new_service_url lib n) _ (added-Fits old ns))
  ]

  pub same_contained :
      (old : List String) (n u : String) (b : Bool)
      → contains old n ≡ b
      → string_key.same n u ≡ true
      → contains old u ≡ b
  same_contained old n u b e same = rw ((eq_iff n u).0 same) at e

  pub added-effect :
      (old ns : List String) (u : String) (m : ℕ)
      → effect (added_nodes lib conf old ns) u m
        ≡ (if contains ns u && not (contains old u) && is_fit (new_service_url lib u) then 1 else m)
  unfolding added_nodes effect contains
  added-effect old [] u m = refl
  added-effect old (n ∷ ns) u m = elim (Bool-cases (contains old n)) [
    | inl known ↦
        rw (known, added-effect old ns u m) (ground (arith, same_contained old n u true known))
    | inr new ↦
        rw (new, send_add-effect n (added_nodes lib conf old ns) u m, added-effect old ns u)
          (ground (arith, same_contained old n u false new))
  ]
