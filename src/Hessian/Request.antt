-- ===== src/Hessian/Request.antt =====
-- A whole request: `packRequest` of request.go, over the encoder and the header of a packet.
pub mod Body
pub mod ReadBack
mod Runs
use dubbogo.Base.{
  ℕ, zero, suc, ◌-◌, ◌/◌, ◌%◌, ◌^◌, Bool, true, false, List, [], ◌∷◌, ◌++◌, ltb, if◌then◌else◌,
  length, take, drop, Outcome, bad_length, not_supported, ok, err, panic, stuck, codes, decimal,
}
use dubbogo.Hessian.Text.{Text}
use dubbogo.Hessian.Header.{header_length, bytes32, request_header, default_len}
use dubbogo.Hessian.Args.{get_args_type_list, Arg}
use dubbogo.Hessian.Values.{
  Value, Items, Entries, FloatLib, null, text, typed_map, no_items, item, no_entries, entry,
}
use dubbogo.Hessian.Classes.{PojoRegistry}
use dubbogo.Hessian.Encoder.{Encoded, then_encode, enc_value, Encoder}

-- What `codec.Message` tells of a request: its id by its bits, and the timeout in nanoseconds.
pub record Request : Type 0 where
  pub id : ℕ
  pub heartbeat : Bool
  pub service_path : Text
  pub target : Text
  pub version : Text
  pub method : Text
  pub timeout : ℕ

-- An argument: its type, as `getArgType` sees it, and its value.
pub record Argument : Type 0 where
  pub typ : Arg
  pub value : Value

unfoldable pub arg_types : List Argument → List Arg
arg_types [] = []
arg_types (a ∷ args) = a.typ ∷ arg_types args

-- The values of the arguments in front of others.
unfoldable pub arg_values : List Argument → Items → Items
arg_values [] more = more
arg_values (a ∷ args) more = item a.value (arg_values args more)

-- `m.Timeout / time.Millisecond` where there is a timeout.
unfoldable pub timeout_param : ℕ → Entries
timeout_param zero = no_entries
timeout_param (suc n) = entry (text (codes "timeout")) (text (decimal (suc n / 10 ^ 6))) no_entries

-- `serviceParams`. The variable `version` of `packRequest` is never set, so its key is left out.
unfoldable pub service_params : Request → Entries
service_params q =
    entry (text (codes "path")) (text q.service_path)
      (entry (text (codes "interface")) (text q.target) (timeout_param q.timeout))

-- What is encoded one by one: the version of dubbo, the names, the types and the values of the
-- arguments, and `last`.
unfoldable pub body_values : Request → Text → List Argument → Value → Items
body_values q types args last = item (text (codes "2.5.4")) (
    item (text q.target) (
      item (text q.version)
        (item (text q.method) (item (text types) (arg_values args (item last no_items))))))

-- `encoder.Encode(v)` with its error dropped.
unfoldable pub no_error : Encoded → Encoded
no_error (ok u, e) = (ok u, e)
no_error (err x, e) = (ok tt, e)
no_error (panic, e) = (panic, e)
no_error (stuck, e) = (stuck, e)

-- `binary.BigEndian.PutUint32(byteArray[12:], uint32(pkgLen-HEADER_LENGTH))`
unfoldable pub put_length : List ℕ → List ℕ
put_length b = take 12 b ++ bytes32 ((length b - header_length) % 2 ^ 32) ++ drop 16 b

-- The end of `packRequest`: what is to be written, if it is not too long.
unfoldable pub finish : Encoded → Outcome (List ℕ) × Encoder
finish (ok u, e) =
    (if ltb default_len (length e.buffer) then err bad_length else ok (put_length e.buffer), e)
finish (err x, e) = (err x, e)
finish (panic, e) = (panic, e)
finish (stuck, e) = (stuck, e)

-- The new encoder with the header in front of the body, its length yet 0.
abbrev pub request_encoder : Bool → ℕ → PojoRegistry → Encoder
request_encoder hb id r = record {
  buffer = request_header hb id 0;
  class_info_list = [];
  pojo_registry = r;
}

module _ (fl : FloatLib) (to_lower : Text → Text) where
  unfoldable pub encode_each : Items → Encoder → Encoded
  encode_each no_items e = (ok tt, e)
  encode_each (item v vs) e =
      then_encode (no_error (enc_value fl to_lower v e)) (λ u. encode_each vs)

  -- `order` is the order in which `MapKeys` gives the entries of a map.
  module _ (order : Entries → Entries) where
    -- The body of a request whose arguments have types, and of one whose arguments have not.
    unfoldable pub encode_body : Request → List Argument → List ℕ × Bool → Encoder → Encoded
    encode_body q args (types, true) e = (err not_supported, e)
    encode_body q args (types, false) e =
        encode_each (body_values q types args (typed_map (order (service_params q)))) e

    -- A request goes out from an encoder of its own, behind a header whose length is put last. An
    -- argument without a type is an error after the first values are encoded, and nothing is written.
    unfoldable pub pack_request :
        Request → List Argument → PojoRegistry → Outcome (List ℕ) × Encoder
    pack_request q args r =
        let e : Encoder = record {
          buffer = request_header q.heartbeat q.id 0;
          class_info_list = [];
          pojo_registry = r;
        } in
        finish (
          if q.heartbeat
          then enc_value fl to_lower null e
          else encode_body q args (get_args_type_list (arg_types args)) e)
