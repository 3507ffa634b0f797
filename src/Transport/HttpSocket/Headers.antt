-- ===== src/Transport/HttpSocket/Headers.antt =====
-- Which request's header the responses on a connection carry.
use dubbogo.Base.{◌≡◌, refl, ap, ◌∙◌, Option, none, some, List, [], ◌∷◌}
use dubbogo.Hessian.Text.{Text}
use dubbogo.Transport.HttpSocket.{
  Header, service_of, package_at, keep, queued, recv, set_all, send, HttpRequest, Package,
  HttpResponse,
}

-- Requests that were received and responses that were sent on a connection.
pub data Turn : Type 0 where
  receives : HttpRequest → Turn
  answers : Package → Turn

-- The headers set by the answers, in their order.
abbrev pub answered : (Text → Text) → List Turn → Header → Header
answered canonical [] h = h
answered canonical (receives q ∷ turns) h = answered canonical turns h
answered canonical (answers p ∷ turns) h = answered canonical turns (set_all canonical p.header h)

abbrev pub with_header : HttpRequest → Header → HttpRequest
with_header q h = record q { header = h }

-- The queue behind the turns; a turn that would panic or wait leaves it.
abbrev after_recv : Option HttpRequest → Option (Package × Option HttpRequest) → Option HttpRequest
after_recv reqs none = reqs
after_recv reqs (some (p, reqs')) = reqs'

abbrev after_send :
    Option HttpRequest → Option (HttpResponse × Option HttpRequest) → Option HttpRequest
after_send reqs none = reqs
after_send reqs (some (p, reqs')) = reqs'

unfoldable pub queue_after : (Text → Text) → List Turn → Option HttpRequest → Option HttpRequest
queue_after canonical [] reqs = reqs
queue_after canonical (receives q ∷ turns) reqs =
    queue_after canonical turns (after_recv reqs (recv q reqs))
queue_after canonical (answers p ∷ turns) reqs =
    queue_after canonical turns (after_send reqs (send canonical p reqs))

still_first :
    (p : Option Package) (first q : HttpRequest)
    → after_recv (some first) (queued p (some first) q) ≡ some first
unfolding queued keep
still_first none first q = refl
still_first (some p) first q = refl

queue_after-first :
    (canonical : Text → Text) (turns : List Turn) (first : HttpRequest)
    → queue_after canonical turns (some first)
      ≡ some (with_header first (answered canonical turns first.header))
unfolding queue_after recv send keep
queue_after-first canonical [] first = refl
queue_after-first canonical (receives q ∷ turns) first =
    ap (queue_after canonical turns) (still_first (package_at (service_of q.path) q) first q)
    ∙ queue_after-first canonical turns first
queue_after-first canonical (answers p ∷ turns) first =
    queue_after-first canonical turns (with_header first (set_all canonical p.header first.header))

-- Whatever was received and answered on a connection behind its first request, a response carries
-- the header of that first request, with what every response so far has set in it: never that of the
-- request that it answers.
pub send-queue_after :
    (canonical : Text → Text) (turns : List Turn) (first : HttpRequest) (p : Package)
    → (reqs : Option HttpRequest) × (send canonical p (queue_after canonical turns (some first))
        ≡ some (
          record {
            header = set_all canonical p.header (answered canonical turns first.header);
            body = p.body;
          },
          reqs,
        ))
unfolding send
send-queue_after canonical turns first p =
    let h = set_all canonical p.header (answered canonical turns first.header) in
    (
      keep none (with_header first h),
      ap (send canonical p) (queue_after-first canonical turns first),
    )
