-- ===== src/Server/Serving/Runs.antt =====
-- Concrete runs of the service of requests, and its theorems at concrete inputs.
use dubbogo.Base.{
  ℕ, ◌≡◌, refl, Bool, true, false, map, none, some, [], ◌∷◌, within, codes, string_key, nat_key,
  text_beq, text_key, lookup, insert,
}
use dubbogo.Server.Methods.{
  is_exported, is_exported_or_builtin_type, prepare_method, trim_comma, install, register,
  ReflectType, Method, MethodType, Handler, RpcServer, pointer, named,
}
use dubbogo.Server.Serving.{
  find_request, read_request, send_response, count_call, call_stream, stream_run, handle_rounds,
  Handlers, serve_request, handle_pkg, Package, Sent, request, reply, send_message, receive,
  plain_text, response,
}
use dubbogo.Server.Methods.Installed.{suitable}
use dubbogo.Server.Serving.Answers.{serve_request-register}

abbrev is_ascii_upper : ℕ → Bool
is_ascii_upper = within b'A' b'Z'

abbrev int_type : ReflectType
int_type = named false (codes "int") []

abbrev get_user : Method
get_user = record {
  name = codes "Get";
  pkg_path = [];
  ins = int_type ∷ int_type ∷ int_type ∷ pointer false int_type ∷ [];
  outs = named false (codes "error") [] ∷ [];
}

abbrev user_handler : Handler
user_handler = record { type_name = codes "User"; service = codes "user"; methods = get_user ∷ [] }

abbrev prepared : MethodType
prepared = record {
  method = get_user;
  arg_type = int_type;
  reply_type = some (pointer false int_type);
  context_type = int_type;
  stream = false;
  num_calls = 0;
}

abbrev empty_server : RpcServer
empty_server = record { service_map = [] }

abbrev user_server : RpcServer
user_server = record {
  service_map =
      (codes "user", record { name = codes "user"; method = (codes "Get", prepared) ∷ [] }) ∷ [];
}

-- Handlers that all succeed, and send, receive and send on a stream.
abbrev all_succeed : Handlers
all_succeed s m = record { steps = send_message ∷ receive ∷ send_message ∷ []; error = none }

serve_request-register_example :
    let served =
      serve_request all_succeed
        (register is_ascii_upper empty_server user_handler).0
        (request (codes "user") (codes "Get") 7)
        none
        [] in
    (served.called ≡ some (codes "user", codes "Get"))
    × (served.error ≡ none)
    × (served.responses
        ≡ record { service = codes "user"; method = codes "Get"; seq = 7; error = []; body = reply }
          ∷ [])
    × (served.rest ≡ [])
unfolding register is_exported lookup install prepare_method is_exported_or_builtin_type text_beq
    insert trim_comma suitable
serve_request-register_example =
    serve_request-register all_succeed is_ascii_upper empty_server user_handler (codes "Get")
      (codes "Get") prepared 7 [] refl refl refl refl refl

-- A request that is served, and one for no method.
abbrev good : Package
good = record {
  content_type = codes "application/json";
  supported = true;
  header = request (codes "user") (codes "Get") 1;
  body = none;
}

abbrev bad : Package
bad = record good { header = request (codes "user") [] 2 }

abbrev sent_number : Sent → ℕ
sent_number (plain_text t) = 0
sent_number (response r) = r.seq

-- A server whose method has a stream.
abbrev stream_server : RpcServer
stream_server = record {
  service_map =
      (
        codes "user",
        record {
          name = codes "user";
          method = (codes "Get", record prepared { stream = true }) ∷ [];
        },
      )
      ∷ [];
}

-- The stream takes the second request, under whose number its second message goes out, and its last
-- response has the first number; the third request opens a stream again, with nothing to receive.
stream_numbers :
    map sent_number (handle_pkg (λ n. all_succeed) stream_server (good ∷ bad ∷ good ∷ []))
    ≡ 1 ∷ 2 ∷ 1 ∷ 1 ∷ 1 ∷ 1 ∷ []
unfolding handle_pkg handle_rounds serve_request read_request find_request lookup text_beq
    call_stream stream_run send_response count_call insert
stream_numbers = refl
