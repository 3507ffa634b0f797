-- ===== src/Registry/Service/Runs.antt =====
-- Configurations and urls at concrete values.
use dubbogo.Base.{◌≡◌, ◌↔◌, true, [], ◌∷◌}
use dubbogo.Registry.Service.{
  service_config, service_equal, ServiceUrl, ServiceConfig, ProviderServiceConfig,
}
use dubbogo.Registry.Service.Equality.{service_equal_iff}

abbrev user_url : ServiceUrl
user_url = record {
  protocol = "dubbo";
  location = "10.0.0.1:20880";
  path = "/user";
  version = "1.0";
  group = "g";
  query = ("interface", "user") ∷ ("methods", "get") ∷ [];
  primitive_url = "dubbo%3A%2F%2F10.0.0.1";
  ip = "";
  port = "";
  weight = 0;
}

abbrev user_config : ServiceConfig
user_config = record { protocol = "dubbo"; service = "user"; group = "g"; version = "1.0" }

service_equal_iff_example :
    (service_equal user_config user_url ≡ true) ↔ (user_config ≡ service_config user_url)
service_equal_iff_example = service_equal_iff user_config user_url

abbrev any_version : ProviderServiceConfig
any_version = record {
  config = record { protocol = "dubbo"; service = "user"; group = ""; version = "" };
  path = "/user";
  methods = "get";
}
