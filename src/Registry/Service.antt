-- ===== src/Registry/Service.antt =====
-- registry/service_url.go and registry/config.go.
pub mod Equality
mod Runs
use Prim.Native.String.{String, ◌++◌ as str_append}
use dubbogo.Base.{
  ℕ, Bool, true, false, not, ◌&&◌, none, some, if◌then◌else◌, string_key, nat_key, Dict, lookup,
}

-- `ServiceURLEventType`
pub data Action : Type 0 where
  service_url_add service_url_del service_url_update : Action

-- The query holds the first value of each key.
pub record ServiceUrl : Type 0 where
  pub protocol : String
  pub location : String
  pub path : String
  pub version : String
  pub group : String
  pub query : Dict String String
  pub primitive_url : String
  pub ip : String
  pub port : String
  pub weight : ℕ

-- `Query.Get(key)`
unfoldable pub query_get : String → ServiceUrl → String
query_get key url = elim (lookup key url.query) [ none ↦ "" | some v ↦ v ]

pub record ServiceConfig : Type 0 where
  pub protocol : String
  pub service : String
  pub group : String
  pub version : String

-- `fmt.Sprintf("%s@%s", c.Service, c.Protocol)`
unfoldable pub key : ServiceConfig → String
key c = str_append c.service (str_append "@" c.protocol)

unfoldable pub service_config : ServiceUrl → ServiceConfig
service_config url = record {
  protocol = url.protocol;
  service = query_get "interface" url;
  group = url.group;
  version = url.version;
}

abbrev ne_str : String → String → Bool
ne_str a b = not (string_key.same a b)

unfoldable pub service_equal : ServiceConfig → ServiceUrl → Bool
service_equal c url =
    if ne_str c.protocol url.protocol
    then false
    else if ne_str c.service (query_get "interface" url)
    then false
    else if ne_str c.group url.group
    then false
    else if ne_str c.version url.version
    then false
    else true

pub record ProviderServiceConfig : Type 0 where
  pub config : ServiceConfig
  pub path : String
  pub methods : String

unfoldable pub provider_equal : ProviderServiceConfig → ServiceUrl → Bool
provider_equal c url =
    if ne_str c.config.protocol url.protocol
    then false
    else if ne_str c.config.service (query_get "interface" url)
    then false
    else if ne_str c.config.group "" && ne_str c.config.group url.group
    then false
    else if ne_str c.config.version "" && ne_str c.config.version url.version
    then false
    else if ne_str c.path url.path
    then false
    else if ne_str c.methods (query_get "methods" url)
    then false
    else true
