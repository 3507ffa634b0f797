-- ===== src/Selector/Cache.antt =====
-- selector/cache/cache.go: the providers of each service, kept up by registry events. Times are
-- in nanoseconds from some origin; the lock is held through each operation.
pub mod Loop
pub mod Update
pub mod Ttl
mod Runs
use Prim.Native.String.{String}
use dubbogo.Base.{
  ℕ, zero, suc, ◌+◌, ◌-◌, Bool, true, false, not, ◌&&◌, Option, none, some, List, [], ◌∷◌, ◌++◌,
  ltb, leb, if◌then◌else◌, length, take, drop, get_elem?, string_key, nat_key, Dict, lookup, insert,
  delete,
}
use dubbogo.Registry.Service.{
  key, service_config, Action, ServiceUrl, ServiceConfig, service_url_add, service_url_del,
  service_url_update,
}

pub record CacheSelector : Type 0 where
  pub ttl : ℕ
  pub cache : Dict String (List ServiceUrl)
  pub ttls : Dict String ℕ

-- `filterServices`: the entries behind position `i` of the first `n` move down by one in the shared
-- array, whose cell `n - 1` keeps its value; the slice gets one shorter.
unfoldable pub filter_services : List ServiceUrl → ℕ → ℕ → List ServiceUrl × ℕ
filter_services array n i =
    if leb n i
    then (array, n)
    else (take i array ++ (drop (suc i) (take n array) ++ drop (n - 1) array), n - 1)

-- Whether the entry at `i` has the url of the event.
abbrev pub hit : String → Option ServiceUrl → Bool
hit url none = false
hit url (some s) = string_key.same s.primitive_url url

-- One round of `for i, s := range services`: the range reads the array that the rounds change.
unfoldable pub range_round : String → ℕ → List ServiceUrl × ℕ → List ServiceUrl × ℕ
unfolding filter_services
range_round url i (array, n) =
    if hit url (get_elem? array i) then filter_services array n i else (array, n)

-- The loop, with the rounds that are left.
unfoldable pub range_loop : String → ℕ → ℕ → List ServiceUrl × ℕ → List ServiceUrl × ℕ
range_loop url zero i state = state
range_loop url (suc rounds) i state = range_loop url rounds (suc i) (range_round url i state)

-- The slice behind the loop.
unfoldable pub without_url : String → List ServiceUrl → List ServiceUrl
without_url url services =
    let (array, n) = range_loop url (length services) 0 (services, length services) in take n array

unfoldable pub set : CacheSelector → ℕ → String → List ServiceUrl → CacheSelector
set c now service services =
    if ltb 0 (length services)
    then record c {
      cache = insert service services c.cache;
      ttls = insert service (now + c.ttl) c.ttls;
    }
    else record c { cache = delete service c.cache; ttls = delete service c.ttls }

-- The services cached under a key, nil where there are none.
abbrev pub services_of : Option (List ServiceUrl) → List ServiceUrl
services_of none = []
services_of (some ss) = ss

abbrev pub add_event : Action → ServiceUrl → List ServiceUrl → List ServiceUrl
add_event service_url_add s ss = ss ++ (s ∷ [])
add_event service_url_update s ss = ss ++ (s ∷ [])
add_event service_url_del s ss = ss

-- `update`, for an event with a service.
unfoldable pub update : CacheSelector → ℕ → Action → ServiceUrl → CacheSelector
update c now action s =
    let sname = key (service_config s) in
    let services = without_url s.primitive_url (services_of (lookup sname c.cache)) in
    set c now sname (add_event action s services)

-- `get`, with the answer that the registry would give. The second field tells whether it was asked.
abbrev pub ask_registry :
    CacheSelector
    → ℕ
    → String
    → List ServiceUrl
    → Option (List ServiceUrl)
    → CacheSelector × Option (List ServiceUrl) × Bool
ask_registry c now sname old none = (c, if ltb 0 (length old) then some old else none, true)
ask_registry c now sname old (some ss) = (
  record c { cache = insert sname ss c.cache; ttls = insert sname (now + c.ttl) c.ttls },
  some ss,
  true,
)

-- `k && time.Since(ttl) < c.ttl`
abbrev pub is_live : ℕ → ℕ → Option ℕ → Bool
is_live ttl now none = false
is_live ttl now (some t) = ltb now (t + ttl)

unfoldable pub get :
    CacheSelector
    → ℕ
    → ServiceConfig
    → Option (List ServiceUrl)
    → CacheSelector × Option (List ServiceUrl) × Bool
get c now conf answer =
    let sname = key conf in
    let old = services_of (lookup sname c.cache) in
    if ltb 0 (length old) && is_live c.ttl now (lookup sname c.ttls)
    then (c, some old, false)
    else ask_registry c now sname old answer

-- `watch` passes an event on unless it is a deletion over a broken connection.
unfoldable pub watch_event : CacheSelector → ℕ → Bool → Action → ServiceUrl → CacheSelector
watch_event c now valid service_url_del s = if not valid then c else update c now service_url_del s
watch_event c now valid action s = update c now action s

unfoldable pub close : CacheSelector → CacheSelector
close c = record c { cache = [] }
