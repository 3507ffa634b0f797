-- ===== src/Zookeeper/Consumer.antt =====
-- registry/zk/consumer.go: the registration of a consumer, and the providers that it asks for.
pub mod Services
mod Runs
use Prim.Native.String.{String, ◌++◌ as str_append}
use dubbogo.Base.{
  ◌/◌, Bool, true, false, not, ◌&&◌, Option, none, some, List, [], ◌∷◌, if◌then◌else◌, string_key,
  nat_key, text_key, Dict, lookup, insert,
}
use dubbogo.Registry.Service.{query_get, key, service_equal, ServiceUrl, ServiceConfig}
use dubbogo.Registry.Urls.{new_service_url, UrlLib}
use dubbogo.Zookeeper.Watcher.{get_children, Answer}
use dubbogo.Zookeeper.Provider.{is_blank, add_unless_blank, Application, UrlWriter, Zookeeper}

pub record ConsumerRegistry : Type 0 where
  pub application : Application
  pub services : Dict String ServiceConfig

unfoldable pub consumer_params : Application → ServiceConfig → Dict String String
consumer_params app conf =
    ("interface", conf.service)
    ∷ ("application", app.name)
    ∷ ("revision", if is_blank app.version then "0.1.0" else app.version)
    ∷ add_unless_blank "group" conf.group (
        ("category", "consumers")
        ∷ ("dubbo", str_append "dubbo-consumer-golang-" app.library_version)
        ∷ ("org", app.organization)
        ∷ ("module", app.module_name)
        ∷ ("owner", app.owner)
        ∷ ("side", "consumer")
        ∷ ("pid", app.process_id)
        ∷ ("ip", app.local_ip)
        ∷ ("timeout", app.timeout)
        ∷ ("timestamp", app.birth)
        ∷ add_unless_blank "version" conf.version [])

abbrev pub service_path : ServiceConfig → String → String
service_path conf role = str_append "/dubbo/" (str_append conf.service (str_append "/" role))

-- The name of a consumer's node.
unfoldable pub consumer_node : UrlWriter → Application → ServiceConfig → String
consumer_node writer app conf = writer.query_escape (
    str_append conf.protocol (
      str_append "://" (
        str_append app.local_ip (
          str_append "/" (
            str_append (str_append conf.service conf.version)
              (str_append "?" (writer.encode (consumer_params app conf))))))))

-- `register`: whether it succeeds.
unfoldable pub register_node : UrlWriter → Zookeeper → Application → ServiceConfig → Bool
register_node writer zk app conf =
    zk.connected
    && zk.create (service_path conf "consumers")
    && zk.create (service_path conf "providers")
    && zk.create (service_path conf "consumers")
    && zk.register_temp (service_path conf "consumers") (consumer_node writer app conf)

-- `Register`, with whether it succeeds.
unfoldable pub register_consumer :
    UrlWriter → Zookeeper → ConsumerRegistry → ServiceConfig → ConsumerRegistry × Bool
register_consumer writer zk c conf = elim (lookup (key conf) c.services) [
  | some known ↦ (c, false)
  | none ↦
      if not (register_node writer zk c.application conf)
      then (c, false)
      else (record c { services = insert (key conf) conf c.services }, true)
]

-- The values of a map; Go leaves their order open.
unfoldable pub values : Dict String ServiceUrl → List ServiceUrl
values [] = []
values ((location, url) ∷ rest) = url ∷ values rest

-- A provider is left out where its query, asked for its address, names a key of the map.
abbrev pub put_location :
    Dict String ServiceUrl → ServiceUrl → Option ServiceUrl → Dict String ServiceUrl
put_location table url (some known) = table
put_location table url none = insert url.location url table

module _ (lib : UrlLib) where
  abbrev pub add_location :
      ServiceConfig → Dict String ServiceUrl → Option ServiceUrl → Dict String ServiceUrl
  add_location conf table none = table
  add_location conf table (some url) =
      if not (service_equal conf url)
      then table
      else put_location table url (lookup (query_get url.location url) table)

  -- The loop over the children, into the map by address.
  unfoldable pub service_map :
      ServiceConfig → List String → Dict String ServiceUrl → Dict String ServiceUrl
  service_map conf [] table = table
  service_map conf (n ∷ ns) table =
      service_map conf ns (add_location conf table (new_service_url lib n))

  abbrev pub services_at : ServiceConfig → Option (List String) → Option (List ServiceUrl)
  services_at conf none = none
  services_at conf (some nodes) = some (values (service_map conf nodes []))

  abbrev pub services_for : Option ServiceConfig → Bool → Answer → Option (List ServiceUrl)
  services_for none connected answer = none
  services_for (some conf) connected answer =
      if not connected then none else services_at conf (get_children answer)

  -- `GetServices`; `none` is an error.
  unfoldable pub get_services :
      ConsumerRegistry → ServiceConfig → Bool → Answer → Option (List ServiceUrl)
  get_services c sc connected answer = services_for (lookup (key sc) c.services) connected answer
