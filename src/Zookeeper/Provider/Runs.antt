-- ===== src/Zookeeper/Provider/Runs.antt =====
-- Concrete runs of the registration of providers, and its theorems at concrete inputs.
use Prim.Native.String.{String}
use dubbogo.Base.{◌≡◌, refl, true, some, [], ◌∷◌, string_key, nat_key, text_key, lookup}
use dubbogo.Registry.Service.{ProviderServiceConfig}
use dubbogo.Registry.Urls.{UrlLib}
use dubbogo.Zookeeper.Watcher.{contains}
use dubbogo.Zookeeper.Watcher.Effects.{wanted}
use dubbogo.Zookeeper.Provider.{
  provider_params, with_path, url_path, raw_url, node_of, register, Application, ProviderRegistry,
  UrlWriter, Zookeeper,
}
use dubbogo.Zookeeper.Provider.Seen.{register-wanted, ReadsUrl}

abbrev small_app : Application
small_app = record {
  name = "app";
  version = "";
  organization = "org";
  module_name = "module";
  owner = "owner";
  timeout = "5";
  birth = "1";
  process_id = "7";
  local_ip = "10.0.0.1";
  library_version = "0.5";
}

abbrev empty_registry : ProviderRegistry
empty_registry = record { application = small_app; services = []; zk_path = [] }

abbrev user_conf : ProviderServiceConfig
user_conf = record {
  config = record { protocol = "dubbo"; service = "user"; group = "g"; version = "" };
  path = "10.0.0.1:80";
  methods = "Get";
}

-- A writer that leaves the query out.
abbrev short_writer : UrlWriter
short_writer = record { encode = λ params. ""; query_escape = λ s. s; itoa = λ n. "n" }

abbrev all_done : Zookeeper
all_done = record { connected = true; create = λ path. true; register_temp = λ path node. true }

abbrev user_node : String
user_node = "dubbo://10.0.0.1:80/user?"

registered : (register short_writer all_done empty_registry user_conf).1 ≡ some user_node
unfolding register node_of raw_url with_path url_path lookup
registered = refl

-- A library that knows the one url.
abbrev one_url : UrlLib
one_url = record {
  query_unescape = λ s. some s;
  parse =
      λ s. some record { scheme = "dubbo"; host = "10.0.0.1:80"; path = "/user"; raw_query = "" };
  parse_query = λ q. some (provider_params small_app user_conf);
  contains_colon = λ s. true;
  split_host_port = λ s. some ("10.0.0.1", "80");
}

one_url_reads : ReadsUrl one_url short_writer empty_registry (with_path small_app user_conf)
unfolding with_path raw_url node_of
one_url_reads = record {
  url_path = "/user";
  address = ("10.0.0.1", "80");
  unescapes = refl;
  parses = refl;
  parses_query = refl;
  splits = refl;
}

register-wanted_example : wanted one_url user_conf.config ("other" ∷ user_node ∷ []) user_node ≡ 1
unfolding contains
register-wanted_example =
    register-wanted one_url short_writer all_done empty_registry user_conf user_node
      ("other" ∷ user_node ∷ []) registered one_url_reads refl
