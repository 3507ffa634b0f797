-- ===== src/Zookeeper/Provider/Seen.antt =====
-- A provider that registers is seen by the consumers that ask for it.
use Prim.Native.String.{String}
use text.Mathlib.TextEquality.{eq_iff}
use dubbogo.Base.{
  ◌≡◌, refl, sym, ◌∙◌, subst, inl, inr, true, false, some, List, [], arith, if◌then◌else◌,
  Bool-cases, string_key, nat_key, text_key, Dict, same_self, lookup,
}
use dubbogo.Registry.Service.{query_get, service_equal, ServiceUrl, ProviderServiceConfig}
use dubbogo.Registry.Urls.{first_value, new_service_url, UrlLib}
use dubbogo.Zookeeper.Watcher.{contains}
use dubbogo.Zookeeper.Watcher.Effects.{wanted}
use dubbogo.Zookeeper.Provider.{
  is_blank, add_unless_blank, provider_params, with_path, raw_url, node_of, register, Application,
  ProviderRegistry, UrlWriter, Zookeeper,
}

module _ (lib : UrlLib) (writer : UrlWriter) (r : ProviderRegistry)
    (conf : ProviderServiceConfig) where
  -- What net/url is relied on for one url: that it reads what it writes.
  pub record ReadsUrl : Type 0 where
    pub url_path : String
    pub address : String × String
    pub unescapes : lib.query_unescape (node_of writer r conf) ≡ some (raw_url writer r conf)
    pub parses :
        lib.parse (raw_url writer r conf)
        ≡ some record {
          scheme = conf.config.protocol;
          host = conf.path;
          path = url_path;
          raw_query = writer.encode (provider_params r.application conf);
        }
    pub parses_query :
        lib.parse_query (writer.encode (provider_params r.application conf))
        ≡ some (provider_params r.application conf)
    pub splits :
        (if lib.contains_colon conf.path then lib.split_host_port conf.path else some ("", ""))
        ≡ some address

value_here :
    (name v : String) (later : Dict String String)
    → first_value name later ≡ ""
    → first_value name (add_unless_blank name v later) ≡ v
unfolding lookup
value_here name v later h = elim (Bool-cases (is_blank v)) [
  | inl blank ↦ rw blank (h ∙ sym ((eq_iff v "").0 blank))
  | inr full ↦ rw (full, same_self name) refl
]

value_past :
    (k name v : String) (later : Dict String String)
    → string_key.same name k ≡ false
    → first_value k (add_unless_blank name v later) ≡ first_value k later
unfolding lookup
value_past k name v later h = elim (Bool-cases (is_blank v)) [
  | inl blank ↦ rw blank refl
  | inr full ↦ rw (full, h) refl
]

-- The query that a consumer looks at.
params_lem :
    (app : Application) (conf : ProviderServiceConfig)
    → (first_value "interface" (provider_params app conf) ≡ conf.config.service)
      × (first_value "group" (provider_params app conf) ≡ conf.config.group)
      × (first_value "version" (provider_params app conf) ≡ conf.config.version)
unfolding provider_params lookup
params_lem app conf =
    let methods = add_unless_blank "methods" conf.methods [] in
    (
      refl,
      value_here "group" conf.config.group _ (
          value_past "group" "version" conf.config.version methods refl
          ∙ value_past "group" "methods" conf.methods [] refl),
      value_past "version" "group" conf.config.group _ refl
          ∙ value_here "version" conf.config.version methods
              (value_past "version" "methods" conf.methods [] refl),
    )

module _ (lib : UrlLib) (writer : UrlWriter) (r : ProviderRegistry)
    (conf : ProviderServiceConfig) where
  -- The url that a consumer makes of the node.
  abbrev seen_url : ReadsUrl lib writer r conf → ServiceUrl
  seen_url reads = record {
    protocol = conf.config.protocol;
    location = conf.path;
    path = reads.url_path;
    version = first_value "version" (provider_params r.application conf);
    group = first_value "group" (provider_params r.application conf);
    query = provider_params r.application conf;
    primitive_url = node_of writer r conf;
    ip = reads.address.0;
    port = reads.address.1;
    weight = 0;
  }

  node-seen :
      (reads : ReadsUrl lib writer r conf)
      → new_service_url lib (node_of writer r conf) ≡ some (seen_url reads)
  unfolding new_service_url
  node-seen reads = rw (reads.unescapes, reads.parses, reads.parses_query, reads.splits) refl

  seen-fits :
      (reads : ReadsUrl lib writer r conf) → service_equal conf.config (seen_url reads) ≡ true
  unfolding service_equal query_get
  seen-fits reads =
      let (interface_is, group_is, version_is) = params_lem r.application conf in
      ground (
        arith,
        interface_is,
        group_is,
        version_is,
        same_self conf.config.protocol,
        same_self conf.config.service,
        same_self conf.config.group,
        same_self conf.config.version,
      )

with_path-config :
    (app : Application) (conf : ProviderServiceConfig) → (with_path app conf).config ≡ conf.config
unfolding with_path
with_path-config app conf = elim (Bool-cases (is_blank conf.path)) [
  | inl blank ↦ rw blank refl
  | inr full ↦ rw full refl
]

-- The node of a registration that succeeds.
registered_node :
    (writer : UrlWriter) (zk : Zookeeper) (r : ProviderRegistry) (conf : ProviderServiceConfig)
    (node : String)
    → (register writer zk r conf).1 ≡ some node
    → node_of writer r (with_path r.application conf) ≡ node
unfolding register
registered_node writer zk r conf node done = ground (arith, done)

-- Where net/url reads what it wrote, a provider that is registered is wanted, once, by the consumers
-- with its configuration, among whatever children its node is listed.
pub register-wanted :
    (lib : UrlLib) (writer : UrlWriter) (zk : Zookeeper) (r : ProviderRegistry)
    (conf : ProviderServiceConfig) (node : String) (children : List String)
    → (register writer zk r conf).1 ≡ some node
    → ReadsUrl lib writer r (with_path r.application conf)
    → contains children node ≡ true
    → wanted lib conf.config children node ≡ 1
unfolding wanted
register-wanted lib writer zk r conf node children done reads listed_there =
    let conf' = with_path r.application conf in
    let e : node ≡ node_of writer r conf' = sym (registered_node writer zk r conf node done) in
    let fits : service_equal conf.config (seen_url lib writer r conf' reads) ≡ true =
      subst (λ c. service_equal c (seen_url lib writer r conf' reads) ≡ true)
        (with_path-config r.application conf) (seen-fits lib writer r conf' reads) in
    rw (listed_there, e, node-seen lib writer r conf' reads, fits) refl
