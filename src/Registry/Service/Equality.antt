-- ===== src/Registry/Service/Equality.antt =====
-- What it means that a configuration fits a url.
use text.Mathlib.TextEquality.{eq_iff}
use dubbogo.Base.{◌≡◌, ◌↔◌, ◌⊎◌, true, arith}
use dubbogo.Registry.Service.{
  query_get, service_config, service_equal, provider_equal, ServiceUrl, ServiceConfig,
  ProviderServiceConfig,
}

-- A consumer's configuration fits a url exactly when it is the configuration of that url.
pub service_equal_iff :
    (c : ServiceConfig) (url : ServiceUrl) → (service_equal c url ≡ true) ↔ (c ≡ service_config url)
unfolding service_equal service_config
service_equal_iff c url = (
  λ h. ground (
    arith,
    eq_iff c.protocol url.protocol,
    eq_iff c.service (query_get "interface" url),
    eq_iff c.group url.group,
    eq_iff c.version url.version,
  ),
  λ h. ground (
    arith,
    eq_iff c.protocol url.protocol,
    eq_iff c.service (query_get "interface" url),
    eq_iff c.group url.group,
    eq_iff c.version url.version,
  ),
)

-- A provider's configuration fits exactly the urls with its protocol, interface, path and methods
-- whose group and version it names, where an empty name stands for any.
pub provider_equal_iff :
    (c : ProviderServiceConfig) (url : ServiceUrl)
    → (provider_equal c url ≡ true) ↔ (
        (c.config.protocol ≡ url.protocol)
        × (c.config.service ≡ query_get "interface" url)
        × ((c.config.group ≡ "") ⊎ (c.config.group ≡ url.group))
        × ((c.config.version ≡ "") ⊎ (c.config.version ≡ url.version))
        × (c.path ≡ url.path)
        × (c.methods ≡ query_get "methods" url))
unfolding provider_equal
provider_equal_iff c url =
    let a = eq_iff c.config.protocol url.protocol in
    let b = eq_iff c.config.service (query_get "interface" url) in
    let d = eq_iff c.config.group url.group in
    let e = eq_iff c.config.group "" in
    let f = eq_iff c.config.version url.version in
    let g = eq_iff c.config.version "" in
    let i = eq_iff c.path url.path in
    let j = eq_iff c.methods (query_get "methods" url) in
    (λ h. ground (arith, a, b, d, e, f, g, i, j), λ h. ground (arith, a, b, d, e, f, g, i, j))
