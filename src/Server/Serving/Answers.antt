-- ===== src/Server/Serving/Answers.antt =====
-- The answers to requests.
use dubbogo.Base.{
  ℕ, ◌≡◌, refl, inl, Bool, false, Option, none, some, List, [], ◌∷◌, arith, if◌then◌else◌,
}
use dubbogo.Hessian.Text.{Text}
use dubbogo.Server.Methods.{is_text_empty, register, MethodType, Handler, RpcServer}
use dubbogo.Server.Methods.Installed.{suitable, register-finds}
use dubbogo.Server.Serving.{
  read_request, send_response, Handlers, Package, call_unary, serve_request, request, reply,
  invalid_request,
}

-- The text of an error, "" for none.
abbrev pub or_empty : Option Text → Text
or_empty none = []
or_empty (some e) = e

module _ (handlers : Handlers) where
  -- A registered handler answers the requests for its suitable methods without a stream whose body can
  -- be read: it is called, no error ends the connection, and the one response has the request's number
  -- and the handler's reply, or where the handler returns an error with a text that text and no reply.
  -- No further package is taken.
  pub serve_request-register :
      (is_upper : ℕ → Bool) (server : RpcServer) (h : Handler) (names m : Text) (mt : MethodType)
      (seq : ℕ) (ps : List Package)
      → (register is_upper server h).1 ≡ inl names
      → is_text_empty h.service ≡ false
      → is_text_empty m ≡ false
      → suitable is_upper m h.methods ≡ some mt
      → mt.stream ≡ false
      → let served =
          serve_request handlers (register is_upper server h).0 (request h.service m seq) none ps in
        (served.called ≡ some (h.service, m))
        × (served.error ≡ none)
        × (served.responses
            ≡ record {
              service = h.service;
              method = m;
              seq = seq;
              error = or_empty (handlers h.service m).error;
              body =
                  if is_text_empty (or_empty (handlers h.service m).error)
                  then reply
                  else invalid_request;
            }
              ∷ [])
        × (served.rest ≡ ps)
  unfolding serve_request read_request call_unary send_response
  serve_request-register is_upper server h names m mt seq ps done is_named asked fits unary =
      rw (register-finds is_upper server h names m done is_named asked, fits, unary)
        (refl, refl, ground arith, refl)
