-- ===== src/Server/Serving.antt =====
-- server/rpc_server.go, server/rpc_stream.go and server/server.go, for handlers that return: how a
-- request is served, and the loop over the packages of a connection.
pub mod Answers
pub mod Streams
mod Runs
use dubbogo.Base.{
  ℕ, zero, suc, length, ◌+◌, ◌/◌, ◌%◌, ◌^◌, ◌⊎◌, inl, inr, Bool, true, false, not, ◌||◌, Option,
  none, some, List, [], ◌∷◌, ◌++◌, map, if◌then◌else◌, codes, string_key, nat_key, text_key, lookup,
  insert,
}
use dubbogo.Hessian.Text.{Text}
use dubbogo.Server.Methods.{is_text_empty, MethodType, Service, RpcServer}

-- What `codec.ReadRequestHeader` finds: the end of the input, another error, or a request.
pub data HeaderRead : Type 0 where
  at_end : HeaderRead
  unreadable : HeaderRead
  request : Text → Text → ℕ → HeaderRead

-- What a response carries: the handler's reply, the placeholder, or nothing.
pub data Reply : Type 0 where
  reply invalid_request no_reply : Reply

pub record Response : Type 0 where
  pub service : Text
  pub method : Text
  pub seq : ℕ
  pub error : Text
  pub body : Reply

-- Why `serveRequest` returns an error. The text of `body_error` is the codec's.
pub data ServeError : Type 0 where
  ended : ServeError
  bad_header : ServeError
  ill_formed : Text → Text → ServeError
  no_service : Text → ServeError
  no_method : Text → Text → ServeError
  body_error : Text → ServeError

-- `err.Error()` of the errors behind a header.
abbrev pub message : ServeError → Text
message ended = codes "EOF"
message bad_header = codes "rpc: server cannot decode request"
message (ill_formed s m) =
    codes "rpc: service/method request ill-formed: " ++ (s ++ (codes "/" ++ m))
message (no_service s) = codes "rpc: can't find service " ++ s
message (no_method s m) = codes "rpc: can't find method " ++ (m ++ (codes " of service " ++ s))
message (body_error e) = e

-- The method that a request asks for.
abbrev pub found : Text → Text → Option MethodType → MethodType ⊎ ServeError
found s m none = inr (no_method s m)
found s m (some mt) = inl mt

abbrev pub find_method : Text → Text → Option Service → MethodType ⊎ ServeError
find_method s m none = inr (no_service s)
find_method s m (some service) = found s m (lookup m service.method)

unfoldable pub find_request : RpcServer → Text → Text → MethodType ⊎ ServeError
find_request server s m =
    if is_text_empty s || is_text_empty m
    then inr (ill_formed s m)
    else find_method s m (lookup s server.service_map)

-- `readRequest` behind the header: the body of a stream is dropped, with its error.
abbrev pub with_body : Option Text → MethodType ⊎ ServeError → MethodType ⊎ ServeError
with_body body (inr e) = inr e
with_body none (inl mt) = inl mt
with_body (some e) (inl mt) = if mt.stream then inl mt else inr (body_error e)

unfoldable pub read_request : RpcServer → Text → Text → Option Text → MethodType ⊎ ServeError
read_request server s m body = with_body body (find_request server s m)

-- `sendResponse`
unfoldable pub send_response : Text → Text → ℕ → Reply → Text → Response
send_response s m seq body errmsg = record {
  service = s;
  method = m;
  seq = seq;
  error = errmsg;
  body = if is_text_empty errmsg then body else invalid_request;
}

-- The message that the handler leaves: that of its error, or, behind a stream without one, "EOS".
abbrev pub final_message : Bool → Option Text → Text
final_message stream (some e) = e
final_message true none = codes "EOS"
final_message false none = []

-- What a handler does with its stream.
pub data StreamStep : Type 0 where
  send_message receive : StreamStep

-- A call of a handler: what it does with its stream, in the order in which it does it, which for a
-- method without a stream is not looked at, and the error that it returns, if any.
pub record HandlerRun : Type 0 where
  pub steps : List StreamStep
  pub error : Option Text

-- The calls of the handlers, by service and method.
abbrev pub Handlers : Type 0
Handlers = Text → Text → HandlerRun

-- What `sock.Recv` gives: whether its Content-Type has a codec, and what the codec reads in it.
pub record Package : Type 0 where
  pub content_type : Text
  pub supported : Bool
  pub header : HeaderRead
  pub body : Option Text

-- What serving a request does: the responses that are written, the handler that was called, the
-- error that is returned, and the packages that are left on the connection.
pub record Served : Type 0 where
  pub responses : List Response
  pub called : Option (Text × Text)
  pub error : Option ServeError
  pub server : RpcServer
  pub rest : List Package

pub data Sent : Type 0 where
  plain_text : Text → Sent
  response : Response → Sent

abbrev pub unsupported : Package → Sent
unsupported p = plain_text (codes "Unsupported Content-Type: " ++ p.content_type)

-- `mtype.numCalls++`, in the service that holds the method.
abbrev pub count_in : RpcServer → Text → Text → Service → Option MethodType → RpcServer
count_in server s m service none = server
count_in server s m service (some mt) = record server {
  service_map =
      insert s
        (record service {
          method = insert m (record mt { num_calls = (mt.num_calls + 1) % 2 ^ 64 }) service.method;
        })
        server.service_map;
}

abbrev pub count_at : RpcServer → Text → Text → Option Service → RpcServer
count_at server s m none = server
count_at server s m (some service) = count_in server s m service (lookup m service.method)

unfoldable pub count_call : RpcServer → Text → Text → RpcServer
count_call server s m = count_at server s m (lookup s server.service_map)

-- `rpcStream.Send`
abbrev pub streamed : Text → Text → ℕ → Response
streamed s m seq = record { service = s; method = m; seq = seq; error = []; body = reply }

-- `r.seq = req.Seq` of `rpcStream.Recv`, behind a header that can be read.
abbrev pub received_seq : ℕ → HeaderRead → ℕ
received_seq seq at_end = seq
received_seq seq unreadable = seq
received_seq seq (request s m n) = n

-- What a handler does with the stream of a request: `Send` writes a response under the number that
-- was received last, and `Recv` takes the next package from the socket, or fails.
unfoldable pub stream_run :
    Text → Text → ℕ → List StreamStep → List Package → List Response × List Package
stream_run s m seq [] ps = ([], ps)
stream_run s m seq (send_message ∷ steps) ps =
    let (rs, rest) = stream_run s m seq steps ps in (streamed s m seq ∷ rs, rest)
stream_run s m seq (receive ∷ steps) [] = stream_run s m seq steps []
stream_run s m seq (receive ∷ steps) (p ∷ ps) = stream_run s m (received_seq seq p.header) steps ps

-- `service.call`: a unary call, and one with a stream, whose last response has no body.
unfoldable pub call_unary : RpcServer → Text → Text → ℕ → HandlerRun → List Package → Served
call_unary server s m seq run ps = record {
  responses = send_response s m seq reply (final_message false run.error) ∷ [];
  called = some (s, m);
  error = none;
  server = count_call server s m;
  rest = ps;
}

unfoldable pub call_stream : RpcServer → Text → Text → ℕ → HandlerRun → List Package → Served
call_stream server s m seq run ps =
    let (rs, rest) = stream_run s m seq run.steps ps in
    record {
      responses = rs ++ (send_response s m seq no_reply (final_message true run.error) ∷ []);
      called = some (s, m);
      error = none;
      server = count_call server s m;
      rest = rest;
    }

module _ (handlers : Handlers) where
  abbrev pub serve_found :
      RpcServer → Text → Text → ℕ → List Package → MethodType ⊎ ServeError → Served
  serve_found server s m seq ps (inr e) = record {
    responses = send_response s m seq invalid_request (message e) ∷ [];
    called = none;
    error = some e;
    server = server;
    rest = ps;
  }
  serve_found server s m seq ps (inl mt) =
      if mt.stream
      then call_stream server s m seq (handlers s m) ps
      else call_unary server s m seq (handlers s m) ps

  -- `serveRequest`, with the error of `ReadRequestBody`, and the packages behind the request's.
  unfoldable pub serve_request : RpcServer → HeaderRead → Option Text → List Package → Served
  serve_request server at_end body ps = record {
    responses = [];
    called = none;
    error = some ended;
    server = server;
    rest = ps;
  }
  serve_request server unreadable body ps = record {
    responses = [];
    called = none;
    error = some bad_header;
    server = server;
    rest = ps;
  }
  serve_request server (request s m seq) body ps =
      serve_found server s m seq ps (read_request server s m body)

abbrev pub go_on : Option ServeError → List Sent → List Sent
go_on none later = later
go_on (some e) later = []

-- The loop of `handlePkg`, until `Recv` fails behind the packages. The calls of the handlers are given
-- by the number of packages that follow the request's. Each round takes a package, so as much fuel
-- as there are packages is enough.
unfoldable pub handle_rounds : (ℕ → Handlers) → ℕ → RpcServer → List Package → List Sent
handle_rounds calls fuel server [] = []
handle_rounds calls zero server (p ∷ ps) = []
handle_rounds calls (suc fuel) server (p ∷ ps) =
    let served = serve_request (calls (length ps)) server p.header p.body ps in
    let later = handle_rounds calls fuel served.server served.rest in
    if not p.supported
    then unsupported p ∷ []
    else map response served.responses ++ go_on served.error later

unfoldable pub handle_pkg : (ℕ → Handlers) → RpcServer → List Package → List Sent
handle_pkg calls server ps = handle_rounds calls (length ps) server ps
