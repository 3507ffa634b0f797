-- ===== src/Jsonrpc/Client.antt =====
-- codec/jsonrpc/client.go: the codec of a connection on the client's side.
pub mod Matching
pub mod Params
mod Runs
use Prim.Native.String.{String}
use dubbogo.Base.{
  ℕ, ◌%◌, ◌^◌, Bool, ◌&&◌, Option, none, some, if◌then◌else◌, string_key, nat_key, Dict, lookup,
  insert, delete,
}
use dubbogo.Jsonrpc.Server.{Raw, is_nil}

-- What `reflect` tells of an argument: its kind, and whether a map or slice is nil. `V` holds the
-- encoded value. A map's flag says whether its keys are strings.
pub data Shape : Type 0 where
  map_shape : Bool → Bool → Shape
  slice_shape : Bool → Shape
  array_shape struct_shape other_shape : Shape

pub data Param : Type 0 where
  nil : Param
  value : Shape → Raw → Param
  pointer : Shape → Raw → Param

-- `clientRequest`: the params are always written, as null where they are nil.
pub record ClientRequest : Type 0 where
  pub method : String
  pub params : Option Raw
  pub id : ℕ

pub record ClientCodec : Type 0 where
  pub pending : Dict ℕ String

-- `m.ID & MAX_JSONRPC_ID`, on the bit pattern of an int64.
abbrev pub masked : ℕ → ℕ
masked id = id % 2 ^ 31

-- What is written for an argument of a kind, if it is supported.
unfoldable pub shaped : Shape → Raw → Option (Option Raw)
shaped (map_shape string_keys is_nil) r = some (if string_keys && is_nil then none else some r)
shaped (slice_shape is_nil) r = some (if is_nil then none else some r)
shaped array_shape r = some (some r)
shaped struct_shape r = some (some r)
shaped other_shape r = none

unfoldable pub param_value : Param → Option (Option Raw)
unfolding shaped
param_value nil = some none
param_value (value shape r) = shaped shape r
param_value (pointer shape r) = shaped shape r

pub data WriteOutcome : Type 0 where
  sent : ClientRequest → WriteOutcome
  unsupported : WriteOutcome

abbrev pub send : ClientCodec → ℕ → String → Option (Option Raw) → ClientCodec × WriteOutcome
send c id method none = (c, unsupported)
send c id method (some params) = (
  record { pending = insert (masked id) method c.pending },
  sent (record { method = method; params = params; id = masked id }),
)

unfoldable pub write : ClientCodec → ℕ → String → Param → ClientCodec × WriteOutcome
write c id method param = send c id method (param_value param)

-- A response as `json.Decode` gives it: the end of the stream, no response, or its id and error.
pub data Response : Type 0 where
  end : Response
  malformed : Response
  response : ℕ → Option Raw → Response

pub data HeaderOutcome : Type 0 where
  eof_error : HeaderOutcome
  internal_error : HeaderOutcome
  unknown_id : HeaderOutcome
  header : ℕ → String → Option Raw → HeaderOutcome

abbrev pub matched : ClientCodec → ℕ → Option Raw → Option String → ClientCodec × HeaderOutcome
matched c id error none = (c, unknown_id)
matched c id error (some method) =
    (record { pending = delete id c.pending }, header id method error)

unfoldable pub read_header : ClientCodec → Response → ClientCodec × HeaderOutcome
read_header c end = (c, eof_error)
read_header c malformed = (c, internal_error)
read_header c (response id error) = matched c id error (lookup id c.pending)
