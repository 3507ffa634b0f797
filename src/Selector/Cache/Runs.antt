-- ===== src/Selector/Cache/Runs.antt =====
-- The theorems on the cache at concrete providers.
use Prim.Native.String.{String}
use dubbogo.Base.{
  ◌+◌, ◌*◌, ◌≤◌, ◌<◌, ◌≡◌, refl, ◌↔◌, true, false, none, some, [], ◌∷◌, arith, nat_key, lookup,
}
use dubbogo.Registry.Service.{ServiceUrl, ServiceConfig, service_url_add}
use dubbogo.Selector.Cache.{range_round, range_loop, without_url, update, get, CacheSelector}
use dubbogo.Selector.Cache.Loop.{count_url}
use dubbogo.Selector.Cache.Update.{IsDistinctCache, update-IsDistinctCache}
use dubbogo.Selector.Cache.Ttl.{get-get}

abbrev provider : String → ServiceUrl
provider url = record {
  protocol = "dubbo";
  location = url;
  path = "/user";
  version = "";
  group = "";
  query = ("interface", "user") ∷ [];
  primitive_url = url;
  ip = "";
  port = "";
  weight = 0;
}

abbrev user_service : ServiceConfig
user_service = record { protocol = "dubbo"; service = "user"; group = ""; version = "" }

abbrev empty : CacheSelector
empty = record { ttl = 10; cache = []; ttls = [] }

empty-IsDistinctCache : IsDistinctCache empty
unfolding lookup count_url
empty-IsDistinctCache k u = omega arith

removed :
    without_url "b" (provider "a" ∷ provider "b" ∷ provider "c" ∷ [])
    ≡ provider "a" ∷ provider "c" ∷ []
unfolding without_url range_loop range_round
removed = refl

update-IsDistinctCache_example : IsDistinctCache (update empty 5 service_url_add (provider "a"))
update-IsDistinctCache_example =
    (update-IsDistinctCache empty 5 service_url_add (provider "a") empty-IsDistinctCache).0

get-get_example :
    let d = (get empty 5 user_service (some (provider "a" ∷ []))).0 in
    ((get d 24 user_service none ≡ (d, some (provider "a" ∷ []), false)) ↔ (24 < 5 + 2 * 10))
    × (((get d 24 user_service none).2 ≡ true) ↔ (5 + 2 * 10 ≤ 24))
unfolding lookup
get-get_example = get-get empty 5 24 user_service (provider "a") [] none refl
