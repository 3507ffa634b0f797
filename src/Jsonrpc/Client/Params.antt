-- ===== src/Jsonrpc/Client/Params.antt =====
-- A request without params, from the client's codec to the server's.
use Prim.Native.String.{String}
use dubbogo.Base.{ℕ, ◌≡◌, false, Option, none, some, [], ◌∷◌, arith, nat_key, string_key, lookup}
use dubbogo.Jsonrpc.Client.{param_value, write, Param, ClientRequest, ClientCodec, sent}
use dubbogo.Jsonrpc.Server.{Raw, member, has, well_formed, valid_request, Members}

-- The members of a `clientRequest` on the wire: no field has `omitempty`, and a method is text.
unfoldable pub wire : ClientRequest → Raw → Members
wire q id = record {
  fields =
      ("jsonrpc", some (b'"' ∷ []))
      ∷ ("method", some (b'"' ∷ []))
      ∷ ("params", q.params)
      ∷ ("id", some id)
      ∷ [];
  version = "2.0";
  method = q.method;
}

-- A request whose argument is nil, or an uninitialized map or slice, is refused by the server.
pub nil_param_refused :
    (c d : ClientCodec) (id : ℕ) (method : String) (param : Param) (q : ClientRequest) (raw : Raw)
    (decoded : Option Raw)
    → write c id method param ≡ (d, sent q)
    → param_value param ≡ some none
    → valid_request (wire q raw) none decoded ≡ false
unfolding write wire valid_request well_formed has member lookup
nil_param_refused c d id method param q raw decoded e p = ground arith
