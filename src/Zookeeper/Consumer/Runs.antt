-- ===== src/Zookeeper/Consumer/Runs.antt =====
-- Concrete runs of a consumer's requests, and its theorems at concrete inputs.
use Prim.Native.String.{String}
use mathlib.Core.Option.{some-injective}
use dubbogo.Base.{
  ◌≡◌, refl, subst, true, false, none, some, List, [], ◌∷◌, string_key, nat_key, text_key, lookup,
  insert,
}
use dubbogo.Registry.Service.{query_get, key, service_equal, ServiceUrl, ServiceConfig}
use dubbogo.Registry.Urls.{new_service_url, UrlLib}
use dubbogo.Zookeeper.Watcher.{get_children, listed}
use dubbogo.Zookeeper.Provider.{Application}
use dubbogo.Zookeeper.Consumer.{values, service_map, get_services, ConsumerRegistry}
use dubbogo.Zookeeper.Consumer.Services.{find_at, last_fit, IsAddressed, get_services-last_fit}

-- A library for which every text is a url of the service "user" at the same address.
abbrev small_lib : UrlLib
small_lib = record {
  query_unescape = λ s. some s;
  parse = λ s. some record { scheme = "dubbo"; host = "h"; path = s; raw_query = "" };
  parse_query = λ q. some (("interface", "user") ∷ []);
  contains_colon = λ s. false;
  split_host_port = λ s. none;
}

abbrev user_conf : ServiceConfig
user_conf = record { protocol = "dubbo"; service = "user"; group = ""; version = "" }

abbrev small_app : Application
small_app = record {
  name = "app";
  version = "";
  organization = "org";
  module_name = "module";
  owner = "owner";
  timeout = "5";
  birth = "1";
  process_id = "7";
  local_ip = "10.0.0.1";
  library_version = "0.5";
}

abbrev user_registry : ConsumerRegistry
user_registry = record { application = small_app; services = ("user@dubbo", user_conf) ∷ [] }

abbrev user_url : String → ServiceUrl
user_url n = record {
  protocol = "dubbo";
  location = "h";
  path = n;
  version = "";
  group = "";
  query = ("interface", "user") ∷ [];
  primitive_url = n;
  ip = "";
  port = "";
  weight = 0;
}

-- Of two children at one address the last one is given.
last_wins :
    get_services small_lib user_registry user_conf true (listed true ("a" ∷ "b" ∷ []))
    ≡ some (user_url "b" ∷ [])
unfolding get_services lookup key get_children values service_map new_service_url service_equal
    query_get insert
last_wins = refl

small_lib-IsAddressed : IsAddressed small_lib user_conf
unfolding new_service_url query_get lookup
small_lib-IsAddressed n url e fit =
    subst (λ u. (string_key.same u.location "" ≡ false) × (query_get u.location u ≡ ""))
      (some-injective (user_url n) url e) (refl, refl)

get_services-last_fit_example :
    (services : List ServiceUrl) × (get_services small_lib user_registry user_conf true
        (listed true ("a" ∷ "b" ∷ []))
      ≡ some services)
    × (find_at "h" services ≡ last_fit small_lib user_conf "h" ("a" ∷ "b" ∷ []))
unfolding lookup get_children key
get_services-last_fit_example =
    get_services-last_fit small_lib user_conf user_registry user_conf (listed true ("a" ∷ "b" ∷ []))
      ("a" ∷ "b" ∷ []) "h" refl refl small_lib-IsAddressed
