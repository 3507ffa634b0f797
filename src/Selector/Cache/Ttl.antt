-- ===== src/Selector/Cache/Ttl.antt =====
-- How long `get` answers from the cache.
use Prim.Native.String.{String}
use text.Mathlib.TextEquality.{eq_iff}
use dubbogo.Base.{
  ℕ, ◌+◌, ◌*◌, ◌≤◌, ◌<◌, ◌≡◌, refl, sym, ap, ◌∙◌, Bool, ◌↔◌, true, false, Option, none, some, List,
  ◌∷◌, arith, ltb, if◌then◌else◌, nat_key, string_key, same_self, lookup, insert, lookup-insert,
}
use dubbogo.Registry.Service.{
  key, service_config, Action, ServiceUrl, ServiceConfig, service_url_add, service_url_del,
  service_url_update,
}
use dubbogo.Selector.Cache.Loop.{count_url}
use dubbogo.Selector.Cache.Update.{cached, IsDistinctCache, count-update}
use dubbogo.Selector.Cache.{ask_registry, get, watch_event, CacheSelector}

-- The cache behind an answer of the registry.
abbrev refreshed : CacheSelector → ℕ → String → List ServiceUrl → CacheSelector
refreshed c now sname ss = record c {
  cache = insert sname ss c.cache;
  ttls = insert sname (now + c.ttl) c.ttls;
}

get_missing :
    (c : CacheSelector) (now : ℕ) (conf : ServiceConfig) (ss : List ServiceUrl)
    → lookup (key conf) c.cache ≡ none
    → get c now conf (some ss) ≡ (refreshed c now (key conf) ss, some ss, true)
unfolding get
get_missing c now conf ss fresh = rw fresh refl

asked :
    (c : CacheSelector) (now : ℕ) (sname : String) (old : List ServiceUrl)
    (answer : Option (List ServiceUrl))
    → (ask_registry c now sname old answer).2 ≡ true
asked c now sname old none = refl
asked c now sname old (some ss) = refl

get-refreshed :
    (c : CacheSelector) (t0 t : ℕ) (conf : ServiceConfig) (s : ServiceUrl) (ss : List ServiceUrl)
    (answer : Option (List ServiceUrl))
    → let d = refreshed c t0 (key conf) (s ∷ ss) in
      get d t conf answer ≡ (
        if ltb t (t0 + c.ttl + c.ttl)
        then (d, some (s ∷ ss), false)
        else ask_registry d t (key conf) (s ∷ ss) answer)
unfolding get
get-refreshed c t0 t conf s ss answer =
    rw
      (
        lookup-insert (key conf) (key conf) (s ∷ ss) c.cache,
        lookup-insert (key conf) (key conf) (t0 + c.ttl) c.ttls,
        same_self (key conf),
      )
      (ground arith)

-- A flag that tells two answers apart tells which test chose between them.
chosen {ℓ κ} :
    {A : Type ℓ} {B : Type κ} (b : Bool) (x : A × B × Bool) (y : A × B × Bool)
    → x.2 ≡ false
    → y.2 ≡ true
    → (((if b then x else y) ≡ x) ↔ (b ≡ true)) × (((if b then x else y).2 ≡ true) ↔ (b ≡ false))
chosen true x y e f = ((λ h. refl, λ h. refl), (λ h. cc, λ h. cc))
chosen false x y e f = ((λ h. cc (sym e ∙ ap (λ r. r.2) (sym h) ∙ f), λ h. cc), (λ h. refl, λ h. f))

-- Providers that the registry gave at time `t0` are answered from the cache, which stays as it is,
-- exactly until twice the ttl has passed; from then on the registry is asked again.
pub get-get :
    (c : CacheSelector) (t0 t : ℕ) (conf : ServiceConfig) (s : ServiceUrl) (ss : List ServiceUrl)
    (answer : Option (List ServiceUrl))
    → lookup (key conf) c.cache ≡ none
    → let d = (get c t0 conf (some (s ∷ ss))).0 in
      ((get d t conf answer ≡ (d, some (s ∷ ss), false)) ↔ (t < t0 + 2 * c.ttl))
      × (((get d t conf answer).2 ≡ true) ↔ (t0 + 2 * c.ttl ≤ t))
get-get c t0 t conf s ss answer fresh =
    let d = refreshed c t0 (key conf) (s ∷ ss) in
    let (kept, expired) =
      chosen (ltb t (t0 + c.ttl + c.ttl)) (d, some (s ∷ ss), false)
        (ask_registry d t (key conf) (s ∷ ss) answer) refl (asked d t (key conf) (s ∷ ss) answer) in
    rw (get_missing c t0 conf (s ∷ ss) fresh, get-refreshed c t0 t conf s ss answer)
      (
        (λ h. ground (arith, kept.0 h), λ h. kept.1 (ground arith)),
        (λ h. ground (arith, expired.0 h), λ h. expired.1 (ground arith)),
      )

-- While the connection to the registry is broken no event takes a provider from any service.
pub watch_event-keeps :
    (c : CacheSelector) (now : ℕ) (action : Action) (s : ServiceUrl) (j u : String)
    → IsDistinctCache c
    → count_url u (cached c j) ≤ count_url u (cached (watch_event c now false action s) j)
unfolding watch_event
watch_event-keeps c now service_url_del s j u h = omega arith
watch_event-keeps c now service_url_add s j u h = ground (
  arith,
  count-update c now service_url_add s j u (h (key (service_config s))),
  eq_iff (key (service_config s)) j,
  h j u,
)
watch_event-keeps c now service_url_update s j u h = ground (
  arith,
  count-update c now service_url_update s j u (h (key (service_config s))),
  eq_iff (key (service_config s)) j,
  h j u,
)
