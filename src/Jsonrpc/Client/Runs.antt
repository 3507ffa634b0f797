-- ===== src/Jsonrpc/Client/Runs.antt =====
-- The theorems on the client's codec at concrete calls.
use dubbogo.Base.{◌+◌, ◌^◌, ◌≡◌, refl, none, [], ◌∷◌, arith, nat_key, string_key, insert}
use dubbogo.Jsonrpc.Client.{
  shaped, param_value, write, read_header, ClientRequest, ClientCodec, nil, sent, response, header,
}
use dubbogo.Jsonrpc.Client.Matching.{run, read_header-write, writes}

abbrev idle : ClientCodec
idle = record { pending = [] }

abbrev asked : ClientCodec
asked = record { pending = (3, "getUser") ∷ [] }

abbrev question : ClientRequest
question = record { method = "getUser"; params = none; id = 3 }

-- The id 2 ^ 31 + 3 is masked to 3.
question_goes_out : write idle (2 ^ 31 + 3) "getUser" nil ≡ (asked, sent question)
unfolding write param_value shaped insert
question_goes_out = refl

read_header-write_example :
    (read_header (run asked (writes 4 "getAge" nil ∷ [])) (response 3 none)).1
    ≡ header 3 "getUser" none
read_header-write_example =
    (read_header-write idle asked (2 ^ 31 + 3) "getUser" nil question (writes 4 "getAge" nil ∷ [])
      none question_goes_out (omega arith)).1
