-- ===== src/Transport/HttpSocket.antt =====
-- The server's side of a connection over HTTP (httpTransportSocket in http_transport.go): the queue
-- that keeps a request for the header of its responses. `canonical` stands for the spelling that
-- net/http gives to the key of a header.
pub mod Headers
use dubbogo.Base.{
  ℕ, not, Option, none, some, List, [], ◌∷◌, ◌==◌, if◌then◌else◌, codes, string_key, nat_key,
  text_key, Dict, insert,
}
use dubbogo.Hessian.Text.{Text}

-- The values of each key.
abbrev pub Header : Type 0
Header = Dict Text (List Text)

-- A request as `http.ReadRequest` gives it, and its body as `ReadAll` does.
pub record HttpRequest : Type 0 where
  pub method : Text
  pub path : Text
  pub header : Header
  pub body : List ℕ

pub record Package : Type 0 where
  pub header : Dict Text Text
  pub body : List ℕ

pub record HttpResponse : Type 0 where
  pub header : Header
  pub body : List ℕ

-- The first value of a key, or the empty text.
unfoldable pub first_value : List Text → Text
first_value [] = []
first_value (v ∷ vs) = v

unfoldable pub first_values : Header → Dict Text Text → Dict Text Text
first_values [] m = m
first_values ((k, vs) ∷ h) m = first_values h (insert k (first_value vs) m)

-- `r.URL.Path[1:]`, or the whole path where it has no slash in front; `none` is a panic.
unfoldable pub service_of : Text → Option Text
service_of [] = none
service_of (c ∷ cs) = some (if not (c == b'/') then c ∷ cs else cs)

unfoldable pub package_at : Option Text → HttpRequest → Option Package
package_at none q = none
package_at (some service) q = some (record {
  header =
      insert (codes "HttpMethod") q.method
        (insert (codes "Path") service (first_values q.header []));
  body = q.body;
})

-- The channel `reqQ` of size 1: `select { case h.reqQ <- r: default: }`.
unfoldable pub keep : Option HttpRequest → HttpRequest → Option HttpRequest
keep none q = some q
keep (some p) q = some p

-- `Recv` of a request that came whole, with the queue behind it; `none` is a panic.
unfoldable pub queued :
    Option Package → Option HttpRequest → HttpRequest → Option (Package × Option HttpRequest)
queued none reqs q = none
queued (some p) reqs q = some (p, keep reqs q)

unfoldable pub recv : HttpRequest → Option HttpRequest → Option (Package × Option HttpRequest)
recv q reqs = queued (package_at (service_of q.path) q) reqs q

module _ (canonical : Text → Text) where
  -- `rsp.Header.Set(k, v)` for each key of the package.
  unfoldable pub set_all : Dict Text Text → Header → Header
  set_all [] h = h
  set_all ((k, v) ∷ more) h = set_all more (insert (canonical k) (v ∷ []) h)

  -- `Send`: the response and the queue. The header of the response is the map of the request, which
  -- goes back into the queue. `none` waits for a request.
  unfoldable pub send : Package → Option HttpRequest → Option (HttpResponse × Option HttpRequest)
  send p none = none
  send p (some q) =
      let h = set_all p.header q.header in
      some (record { header = h; body = p.body }, keep none (record q { header = h }))

  -- `error`: a response with a header of its own.
  unfoldable pub error : Package → HttpResponse
  error p = record { header = set_all p.header []; body = p.body }
