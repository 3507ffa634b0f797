-- ===== src/Jsonrpc/Server/Runs.antt =====
-- The theorems on the server's codec at concrete requests.
use text.Mathlib.TextEquality.{eq_iff}
use dubbogo.Base.{
  ◌≡◌, refl, ◌↔◌, true, none, some, [], ◌∷◌, arith, nat_key, string_key, lookup, insert, delete,
}
use dubbogo.Jsonrpc.Server.{
  null_text, member, has, reset, unmarshal, well_formed, valid_request, accept, point_id,
  judge_pointed, judge, read_header, write, Members, ServerCodec, own, reply_result, object, header,
}
use dubbogo.Jsonrpc.Server.Validation.{
  occurrences, IsMap, IsRequest, number_json, valid_request_iff,
}
use dubbogo.Jsonrpc.Server.Replies.{step, run, reads}

abbrev fresh : ServerCodec
fresh = record { req_params = none; req_id = none; seq = 0; pending = []; null = null_text }

-- {"jsonrpc":"2.0","method":"getUser","id":7}
abbrev get_user : Members
get_user = record {
  fields =
      ("jsonrpc", some (b'"' ∷ [])) ∷ ("method", some (b'"' ∷ [])) ∷ ("id", some (b'7' ∷ [])) ∷ [];
  version = "2.0";
  method = "getUser";
}

abbrev first : ServerCodec
first = record {
  req_params = none;
  req_id = none;
  seq = 1;
  pending = (1, some (own (b'7' ∷ []))) ∷ [];
  null = null_text;
}

abbrev second : ServerCodec
second = record {
  req_params = none;
  req_id = none;
  seq = 2;
  pending = (1, some (own (b'7' ∷ []))) ∷ (2, some (own (b'7' ∷ []))) ∷ [];
  null = null_text;
}

get_user_again : read_header first "POST" (object get_user) ≡ (second, header 2 "getUser")
unfolding read_header reset unmarshal judge point_id judge_pointed well_formed accept valid_request
    has member insert lookup
get_user_again = refl

get_user_IsMap : IsMap get_user.fields
unfolding occurrences
get_user_IsMap k = ground (
  arith,
  eq_iff "jsonrpc" k,
  eq_iff "method" k,
  eq_iff "id" k,
  eq_iff "jsonrpc" "method",
  eq_iff "jsonrpc" "id",
  eq_iff "method" "id",
)

valid_request_iff_example :
    (valid_request get_user none (some (b'7' ∷ [])) ≡ true) ↔ IsRequest get_user none (b'7' ∷ [])
valid_request_iff_example =
    valid_request_iff get_user get_user_IsMap none (b'7' ∷ []) number_json refl

-- The same request with a null id, and with 5.
abbrev with_null : Members
with_null = record get_user {
  fields = ("jsonrpc", some (b'"' ∷ [])) ∷ ("method", some (b'"' ∷ [])) ∷ ("id", none) ∷ [];
}

abbrev with_five : Members
with_five = record get_user {
  fields =
      ("jsonrpc", some (b'"' ∷ [])) ∷ ("method", some (b'"' ∷ [])) ∷ ("id", some (b'5' ∷ [])) ∷ [];
}

-- A null id that is answered as 5: the request that was refused left `&null` in the codec, and the
-- decoding of the next one wrote through it.
null_id_overwritten :
    (write
      (run fresh (
        reads "POST" (object with_null)
        ∷ reads "GET" (object with_null)
        ∷ reads "POST" (object with_five)
        ∷ []))
      1
      []
      (some [])).1
    ≡ reply_result (b'5' ∷ []) []
unfolding run step write read_header reset unmarshal judge point_id judge_pointed well_formed accept
    valid_request has member insert lookup delete
null_id_overwritten = refl
