-- ===== src/Registry/Urls.antt =====
-- `NewServiceURL` of registry/service_url.go.
use Prim.Native.String.{String}
use dubbogo.Base.{
  ◌≡◌, inl, inr, Bool, Option, none, some, arith, if◌then◌else◌, Option-cases, string_key, nat_key,
  text_key, Dict, lookup,
}
use dubbogo.Registry.Service.{ServiceUrl}

-- What `url.Parse` makes of a url.
pub record ParsedUrl : Type 0 where
  pub scheme : String
  pub host : String
  pub path : String
  pub raw_query : String

-- net/url, net and strings: `url.QueryUnescape`, `url.Parse`, `url.ParseQuery` (with the first value
-- of each key), `strings.Contains(s, ":")` and `net.SplitHostPort`. `none` is an error.
pub record UrlLib : Type 0 where
  pub query_unescape : String → Option String
  pub parse : String → Option ParsedUrl
  pub parse_query : String → Option (Dict String String)
  pub contains_colon : String → Bool
  pub split_host_port : String → Option (String × String)

abbrev pub or_blank : Option String → String
or_blank none = ""
or_blank (some v) = v

abbrev pub first_value : String → Dict String String → String
first_value name query = or_blank (lookup name query)

-- The fields of the url, once its address is split.
abbrev pub service_url :
    String → ParsedUrl → Dict String String → Option (String × String) → Option ServiceUrl
service_url url_string parsed query none = none
service_url url_string parsed query (some (ip, port)) = some record {
  protocol = parsed.scheme;
  location = parsed.host;
  path = parsed.path;
  version = first_value "version" query;
  group = first_value "group" query;
  query = query;
  primitive_url = url_string;
  ip = ip;
  port = port;
  weight = 0;
}

module _ (lib : UrlLib) where
  -- The address, only split where there is a colon in it.
  abbrev address : String → Option (String × String)
  address host = if lib.contains_colon host then lib.split_host_port host else some ("", "")

  abbrev with_query : String → ParsedUrl → Option (Dict String String) → Option ServiceUrl
  with_query url_string parsed none = none
  with_query url_string parsed (some query) =
      service_url url_string parsed query (address parsed.host)

  abbrev with_parsed : String → Option ParsedUrl → Option ServiceUrl
  with_parsed url_string none = none
  with_parsed url_string (some parsed) =
      with_query url_string parsed (lib.parse_query parsed.raw_query)

  abbrev with_raw : String → Option String → Option ServiceUrl
  with_raw url_string none = none
  with_raw url_string (some raw) = with_parsed url_string (lib.parse raw)

  unfoldable pub new_service_url : String → Option ServiceUrl
  new_service_url url_string = with_raw url_string (lib.query_unescape url_string)

  -- A url keeps the text that it was made of.
  service_url-primitive :
      (n : String) (parsed : ParsedUrl) (query : Dict String String) (a : Option (String × String))
      (s : ServiceUrl)
      → service_url n parsed query a ≡ some s
      → s.primitive_url ≡ n
  service_url-primitive n parsed query none s h = absurd (ground arith)
  service_url-primitive n parsed query (some (ip, port)) s h = ground arith

  pub new_service_url-primitive :
      (n : String) (s : ServiceUrl) → new_service_url n ≡ some s → s.primitive_url ≡ n
  unfolding new_service_url
  new_service_url-primitive n s h = elim (Option-cases (lib.query_unescape n)) [
    | inl e ↦ absurd (ground arith)
    | inr (raw, e) ↦ elim (Option-cases (lib.parse raw)) [
      | inl e' ↦ absurd (ground arith)
      | inr (parsed, e') ↦ elim (Option-cases (lib.parse_query parsed.raw_query)) [
        | inl e'' ↦ absurd (ground arith)
        | inr (query, e'') ↦
            service_url-primitive n parsed query (address parsed.host) s (rw (e, e', e'') at h)
      ]
    ]
  ]
