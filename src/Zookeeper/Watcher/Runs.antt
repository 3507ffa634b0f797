-- ===== src/Zookeeper/Watcher/Runs.antt =====
-- Concrete runs of the watcher, and its theorems at concrete inputs.
use Prim.Native.String.{String}
use dubbogo.Base.{
  ◌≡◌, refl, true, false, none, some, List, [], ◌∷◌, arith, if◌then◌else◌, All, string_key, nat_key,
  lookup,
}
use dubbogo.Registry.Service.{
  query_get, key, service_equal, ServiceUrl, ServiceConfig, service_url_add, service_url_del,
}
use dubbogo.Registry.Urls.{new_service_url, UrlLib}
use dubbogo.Selector.Cache.{CacheSelector}
use dubbogo.Selector.Cache.Loop.{count_url}
use dubbogo.Selector.Cache.Update.{cached, IsDistinctCache}
use dubbogo.Zookeeper.Watcher.{
  contains, get_children, send, added_nodes, deleted_nodes, handle_zk_node_event, found_nodes,
  watch_service, Event, listed,
}
use dubbogo.Zookeeper.Watcher.Effects.{deliver, wanted, Fits, deliver-effect}
use dubbogo.Zookeeper.Watcher.Follow.{handle_zk_node_event-follows, watch_service-follows}

-- A library for which every text but "bad" is a url of the service "user".
abbrev small_lib : UrlLib
small_lib = record {
  query_unescape = λ s. if string_key.same s "bad" then none else some s;
  parse = λ s. some record { scheme = "dubbo"; host = s; path = ""; raw_query = "" };
  parse_query = λ q. some (("interface", "user") ∷ []);
  contains_colon = λ s. false;
  split_host_port = λ s. none;
}

abbrev user_conf : ServiceConfig
user_conf = record { protocol = "dubbo"; service = "user"; group = ""; version = "" }

abbrev empty_cache : CacheSelector
empty_cache = record { ttl = 5; cache = []; ttls = [] }

empty_cache-IsDistinctCache : IsDistinctCache empty_cache
unfolding lookup count_url
empty_cache-IsDistinctCache k u = omega arith

-- The url that the library makes of a text.
abbrev user_url : String → ServiceUrl
user_url n = record {
  protocol = "dubbo";
  location = n;
  path = "";
  version = "";
  group = "";
  query = ("interface", "user") ∷ [];
  primitive_url = n;
  ip = "";
  port = "";
  weight = 0;
}

-- The events for a child that comes and one that goes, beside one that stays.
abbrev two_events : List Event
two_events = send service_url_add (user_url "c") (send service_url_del (user_url "a") [])

changes :
    handle_zk_node_event small_lib user_conf ("a" ∷ "b" ∷ []) (listed true ("b" ∷ "c" ∷ []))
    ≡ some two_events
unfolding handle_zk_node_event get_children deleted_nodes contains new_service_url service_equal
    query_get lookup added_nodes
changes = refl

-- The events for the children at the start, and the cache behind them.
abbrev first_events : List Event
first_events = watch_service small_lib user_conf (listed true ("a" ∷ "b" ∷ []))

abbrev two_cached : CacheSelector
two_cached = deliver (λ i. (i, true)) empty_cache first_events

first_events-Fits : All (Fits small_lib user_conf) first_events
unfolding get_children watch_service found_nodes new_service_url service_equal query_get lookup
first_events-Fits = (refl, (refl, tt))

two_cached-IsDistinctCache : IsDistinctCache two_cached
two_cached-IsDistinctCache =
    (deliver-effect small_lib user_conf (λ i. (i, true)) empty_cache first_events (λ i. refl)
      first_events-Fits empty_cache-IsDistinctCache).0

two_cached_lem :
    (u : String)
    → count_url u (cached two_cached (key user_conf))
      ≡ wanted small_lib user_conf ("a" ∷ "b" ∷ []) u
unfolding count_url lookup get_children
two_cached_lem =
    watch_service-follows small_lib user_conf (λ i. (i, true)) empty_cache
      (listed true ("a" ∷ "b" ∷ [])) (λ i. refl) empty_cache-IsDistinctCache (λ u. refl)

handle_zk_node_event-follows_example :
    count_url "c" (cached (deliver (λ i. (i, true)) two_cached two_events) (key user_conf))
    ≡ wanted small_lib user_conf ("b" ∷ "c" ∷ []) "c"
unfolding get_children
handle_zk_node_event-follows_example =
    handle_zk_node_event-follows small_lib user_conf (λ i. (i, true)) two_cached ("a" ∷ "b" ∷ [])
      ("b" ∷ "c" ∷ []) (listed true ("b" ∷ "c" ∷ [])) two_events (λ i. refl) refl changes
      two_cached-IsDistinctCache two_cached_lem "c"
