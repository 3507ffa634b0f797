-- ===== src/Zookeeper/Provider.antt =====
-- registry/zk/provider.go: the registration of a provider. The calls of zookeeper are answered by the
-- argument `Zookeeper`; the url is written for url.Values with its keys in the order of `Add`.
pub mod Seen
mod Runs
use Prim.Native.String.{String, ◌++◌ as str_append}
use dubbogo.Base.{
  ℕ, ◌+◌, ◌-◌, ◌/◌, Bool, not, ◌&&◌, ◌||◌, Option, none, some, [], ◌∷◌, ◌==◌, if◌then◌else◌,
  string_key, nat_key, text_key, Dict, lookup, insert,
}
use dubbogo.Registry.Service.{key, ProviderServiceConfig}

-- What the registry knows of its process, as text.
pub record Application : Type 0 where
  pub name : String
  pub version : String
  pub organization : String
  pub module_name : String
  pub owner : String
  pub timeout : String
  pub birth : String
  pub process_id : String
  pub local_ip : String
  pub library_version : String

-- `zkPath` and `services`.
pub record ProviderRegistry : Type 0 where
  pub application : Application
  pub services : Dict String ProviderServiceConfig
  pub zk_path : Dict String ℕ

-- `url.Values.Encode`, `url.QueryEscape` and `strconv.Itoa`.
pub record UrlWriter : Type 0 where
  pub encode : Dict String String → String
  pub query_escape : String → String
  pub itoa : ℕ → String

-- Whether the client is connected, the path of the service is there or made, and the node is made.
pub record Zookeeper : Type 0 where
  pub connected : Bool
  pub create : String → Bool
  pub register_temp : String → String → Bool

abbrev pub is_blank : String → Bool
is_blank s = string_key.same s ""

-- `params.Add(key, value)` where the value is not blank.
abbrev pub add_unless_blank : String → String → Dict String String → Dict String String
add_unless_blank key value later = if is_blank value then later else (key, value) ∷ later

unfoldable pub provider_params : Application → ProviderServiceConfig → Dict String String
provider_params app conf =
    ("interface", conf.config.service)
    ∷ ("application", app.name)
    ∷ ("revision", if is_blank app.version then "0.1.0" else app.version)
    ∷ add_unless_blank "group" conf.config.group (
        ("category", "providers")
        ∷ ("dubbo", str_append "dubbo-provider-golang-" app.library_version)
        ∷ ("org", app.organization)
        ∷ ("module", app.module_name)
        ∷ ("owner", app.owner)
        ∷ ("side", "provider")
        ∷ ("pid", app.process_id)
        ∷ ("ip", app.local_ip)
        ∷ ("timeout", app.timeout)
        ∷ ("timestamp", app.birth)
        ∷ add_unless_blank "version" conf.config.version
            (add_unless_blank "methods" conf.methods []))

-- The path of a provider without one is the local address.
unfoldable pub with_path : Application → ProviderServiceConfig → ProviderServiceConfig
with_path app conf = if is_blank conf.path then record conf { path = app.local_ip } else conf

-- `conf.String()`
unfoldable pub config_string : ProviderServiceConfig → String
config_string c = str_append c.config.service (
    str_append "@" (
      str_append c.config.protocol (
        str_append "-" (
          str_append c.config.group (
            str_append "-" (
              str_append c.config.version
                (str_append "-" (str_append c.path (str_append "/" c.methods)))))))))

abbrev pub count_of : Option ℕ → ℕ
count_of none = 0
count_of (some n) = n

module _ (writer : UrlWriter) where
  -- The path in the url: numbered where the service has been registered before.
  unfoldable pub url_path : Dict String ℕ → String → String
  url_path zk_path service =
      let n = count_of (lookup service zk_path) in
      if n == 0 then service else str_append service (writer.itoa n)

  -- `s.zkPath[urlPath]++`
  unfoldable pub count_path : Dict String ℕ → String → Dict String ℕ
  count_path zk_path path = insert path (count_of (lookup path zk_path) + 1) zk_path

  unfoldable pub raw_url : ProviderRegistry → ProviderServiceConfig → String
  raw_url r conf = str_append conf.config.protocol (
      str_append "://" (
        str_append conf.path (
          str_append "/" (
            str_append (url_path r.zk_path conf.config.service)
              (str_append "?" (writer.encode (provider_params r.application conf)))))))

  -- The name of the node.
  unfoldable pub node_of : ProviderRegistry → ProviderServiceConfig → String
  node_of r conf = writer.query_escape (raw_url r conf)

  abbrev pub providers_path : ProviderServiceConfig → String
  providers_path conf = str_append "/dubbo/" (str_append conf.config.service "/providers")

  -- `register`: the node that it makes, if it does not fail.
  unfoldable pub register :
      Zookeeper → ProviderRegistry → ProviderServiceConfig → ProviderRegistry × Option String
  register zk r conf =
      let conf' = with_path r.application conf in
      let node = node_of r conf' in
      let counted = record r {
        zk_path = count_path r.zk_path (url_path r.zk_path conf.config.service);
      } in
      if is_blank conf.config.service || is_blank conf.methods
      then (r, none)
      else if not zk.connected
      then (r, none)
      else if not (zk.create (providers_path conf))
      then (r, none)
      else if not (zk.create (providers_path conf) && zk.register_temp (providers_path conf) node)
      then (counted, none)
      else (counted, some node)

  abbrev pub keep_service :
      ProviderServiceConfig → ProviderRegistry × Option String → ProviderRegistry × Option String
  keep_service conf (r, none) = (r, none)
  keep_service conf (r, some node) =
      (record r { services = insert (config_string conf) conf r.services }, some node)

  abbrev pub register_unless :
      Zookeeper
      → ProviderRegistry
      → ProviderServiceConfig
      → Option ProviderServiceConfig
      → ProviderRegistry × Option String
  register_unless zk r conf (some known) = (r, none)
  register_unless zk r conf none = keep_service (with_path r.application conf) (register zk r conf)

  -- `Register`. The configuration is looked up without the path that it may get, and kept with it.
  unfoldable pub register_provider :
      Zookeeper → ProviderRegistry → ProviderServiceConfig → ProviderRegistry × Option String
  register_provider zk r conf = register_unless zk r conf (lookup (config_string conf) r.services)
