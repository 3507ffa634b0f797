-- ===== src/Jsonrpc/Server.antt =====
-- codec/jsonrpc/server.go: the codec of a connection, which keeps the request ids of the client.
pub mod Validation
pub mod Replies
mod Runs
use Prim.Native.String.{String}
use dubbogo.Base.{
  ℕ, ◌+◌, Bool, true, false, not, ◌&&◌, ◌||◌, Option, none, some, List, [], ◌∷◌, ltb, ◌==◌,
  if◌then◌else◌, length, string_key, nat_key, Dict, lookup, insert, delete, codes,
}

-- `json.RawMessage`: the bytes of a value, with no space in front.
abbrev pub Raw : Type 0
Raw = List ℕ

-- An object whose members have the types of the request, as `json.Unmarshal` gives it: a member
-- whose value is null is a nil pointer. `version` and `method` are the texts of the members
-- "jsonrpc" and "method", or "" where these are absent.
pub record Members : Type 0 where
  pub fields : Dict String (Option Raw)
  pub version : String
  pub method : String

-- What a read from the connection gives: no JSON, a value that does not fit the request, with the
-- params and the id that the decoder stores nevertheless, or an object.
pub data Incoming : Type 0 where
  no_json : Incoming
  no_request : Option (Option Raw) → Option (Option Raw) → Incoming
  object : Members → Incoming

-- A non-nil `*json.RawMessage` that holds an id: one that the decoder made for a request, which no
-- other request holds, or `&null`, the package's variable, which all null ids share.
pub data RequestId : Type 0 where
  own : Raw → RequestId
  shared : RequestId

-- The fields of `serverRequest` and of `serverCodec` that outlive a call, and the package's
-- variable `null`. An inner `none` of `pending` is the nil id of a notification.
pub record ServerCodec : Type 0 where
  pub req_params : Option Raw
  pub req_id : Option RequestId
  pub seq : ℕ
  pub pending : Dict ℕ (Option RequestId)
  pub null : Raw

-- What the variable holds at the start.
abbrev pub null_text : Raw
null_text = b'n' ∷ b'u' ∷ b'l' ∷ b'l' ∷ []

-- `o[key]` on a map of pointers: a missing key reads as nil.
unfoldable pub member : String → Members → Option Raw
member key m = elim (lookup key m.fields) [ none ↦ none | some v ↦ v ]

unfoldable pub has : String → Members → Bool
has key m = elim (lookup key m.fields) [ none ↦ false | some v ↦ true ]

abbrev pub is_nil {ℓ} : {A : Type ℓ} → Option A → Bool
is_nil none = true
is_nil (some a) = false

-- What an id points to.
abbrev pub text_of : Raw → RequestId → Raw
text_of null (own r) = r
text_of null shared = null

abbrev pub text_of_id : Raw → Option RequestId → Option Raw
text_of_id null none = none
text_of_id null (some i) = some (text_of null i)

-- `*r.Params = (*r.Params)[:0]`
abbrev pub truncated : Option Raw → Option Raw
truncated none = none
truncated (some r) = some []

-- `*r.ID = (*r.ID)[:0]`, which writes through the pointer, and what that makes of the variable.
abbrev pub truncated_id : Option RequestId → Option RequestId
truncated_id (some (own r)) = some (own [])
truncated_id i = i

abbrev pub truncated_null : Option RequestId → Raw → Raw
truncated_null (some shared) null = []
truncated_null i null = null

-- `reset`
unfoldable pub reset : ServerCodec → ServerCodec
reset c = record c {
  req_params = truncated c.req_params;
  req_id = truncated_id c.req_id;
  null = truncated_null c.req_id c.null;
}

-- A member of the JSON object for a field of the Go struct: where it is absent the field stays as
-- it was, null makes it nil, and another value is written through the pointer that the field holds.
abbrev pub decoded_params : Option (Option Raw) → Option Raw → Option Raw
decoded_params none old = old
decoded_params (some new) old = new

abbrev pub decoded_id : Option (Option Raw) → Option RequestId → Option RequestId
decoded_id none old = old
decoded_id (some none) old = none
decoded_id (some (some new)) (some shared) = some shared
decoded_id (some (some new)) old = some (own new)

abbrev pub decoded_null : Option (Option Raw) → Option RequestId → Raw → Raw
decoded_null (some (some new)) (some shared) null = new
decoded_null new old null = null

-- The first `json.Unmarshal` of `UnmarshalJSON`, behind `reset`.
unfoldable pub unmarshal : ServerCodec → Option (Option Raw) → Option (Option Raw) → ServerCodec
unmarshal c params id = record c {
  req_params = decoded_params params c.req_params;
  req_id = decoded_id id c.req_id;
  null = decoded_null id c.req_id c.null;
}

abbrev pub opens_structure : Option Raw → Bool
opens_structure none = false
opens_structure (some []) = false
opens_structure (some (c ∷ r)) = c == b'[' || c == b'{'

abbrev pub is_id : Option Raw → Bool
is_id none = false
is_id (some []) = false
is_id (some (c ∷ r)) = not (c == b't' || c == b'f' || c == b'{' || c == b'[')

-- The test on the number of members.
abbrev pub member_count : ℕ → Bool → Bool → Bool
member_count n has_id has_params =
    not
      ((n == 3 && not (has_id || has_params)) || (n == 4 && not (has_id && has_params)) || ltb 4 n)

-- The checks of `UnmarshalJSON` in front of that of the id.
unfoldable pub well_formed : Members → Option Raw → Bool
well_formed m params =
    not (is_nil (member "jsonrpc" m))
    && not (is_nil (member "method" m))
    && member_count (length m.fields) (has "id" m) (has "params" m)
    && string_key.same m.version "2.0"
    && (not (has "params" m) || opens_structure params)

-- The checks of `UnmarshalJSON`, on the params and on the text of the id behind the decoding.
unfoldable pub valid_request : Members → Option Raw → Option Raw → Bool
valid_request m params id = well_formed m params && (not (has "id" m) || is_id id)

-- The outcome of `ReadHeader`: the header's id and method, or the error reply that was sent, with
-- the text of its id, `&null`.
pub data HeaderOutcome : Type 0 where
  header : ℕ → String → HeaderOutcome
  replied_parse_error : Raw → HeaderOutcome
  replied_invalid_request : Raw → HeaderOutcome
  not_post : HeaderOutcome

-- The request gets the next sequence number, under which its id is kept.
unfoldable pub accept : ServerCodec → String → ServerCodec × HeaderOutcome
accept c method = (
  record c { req_id = none; seq = c.seq + 1; pending = insert (c.seq + 1) c.req_id c.pending },
  header (c.seq + 1) method,
)

-- `r.ID = &null`
unfoldable pub point_id : Members → ServerCodec → ServerCodec
point_id m c = if has "id" m && is_nil c.req_id then record c { req_id = some shared } else c

unfoldable pub judge_pointed : ServerCodec → String → Members → ServerCodec × HeaderOutcome
judge_pointed c http_method m =
    if not (valid_request m c.req_params (text_of_id c.null c.req_id))
    then (c, replied_invalid_request c.null)
    else if not (string_key.same http_method "POST")
    then (c, not_post)
    else accept c m.method

-- What stands behind the decoding. A header of the transport says the HTTP method; "" where there
-- is none.
unfoldable pub judge : ServerCodec → String → Members → ServerCodec × HeaderOutcome
judge c http_method m =
    judge_pointed (if well_formed m c.req_params then point_id m c else c) http_method m

-- `ReadHeader` resets the request, and `UnmarshalJSON` does once more.
unfoldable pub read_header : ServerCodec → String → Incoming → ServerCodec × HeaderOutcome
read_header c http_method no_json = (reset c, replied_parse_error (reset c).null)
read_header c http_method (no_request params id) =
    let d = unmarshal (reset (reset c)) params id in (d, replied_invalid_request d.null)
read_header c http_method (object m) =
    judge (unmarshal (reset (reset c)) (lookup "params" m.fields) (lookup "id" m.fields))
      http_method m

-- `newError(message).Error()` as its code, without the sign, and the message.
pub data ErrorBody : Type 0 where
  verbatim : List ℕ → ErrorBody
  coded : ℕ → List ℕ → ErrorBody

has_prefix : List ℕ → List ℕ → Bool
has_prefix m [] = true
has_prefix [] (x ∷ p) = false
has_prefix (c ∷ m) (x ∷ p) = c == x && has_prefix m p

new_error : List ℕ → ErrorBody
unfolding has_prefix
new_error m =
    if has_prefix m (codes "rpc: service/method request ill-formed")
      || has_prefix m (codes "rpc: can't find service")
      || has_prefix m (codes "rpc: can't find method")
    then coded 32601 m
    else coded 32000 m

last_or : ℕ → List ℕ → ℕ
last_or d [] = d
last_or d (x ∷ xs) = last_or x xs

-- An error text in braces is sent as it is.
unfoldable pub error_body : List ℕ → ErrorBody
unfolding new_error last_or
error_body [] = new_error []
error_body (c ∷ m) =
    if c == b'{' && last_or c m == b'}' then verbatim (c ∷ m) else new_error (c ∷ m)

-- What `Write` sends: the id of the request with a result or an error, or nothing.
pub data Reply : Type 0 where
  unknown_sequence : Reply
  no_reply : Reply
  reply_result : Raw → Raw → Reply
  reply_error : Raw → ErrorBody → Reply

-- `resp.Result = &null` for a nil result.
abbrev or_null : Raw → Option Raw → Raw
or_null null none = null
or_null null (some x) = x

abbrev pub reply : Raw → Raw → List ℕ → Option Raw → Reply
reply null raw [] x = reply_result raw (or_null null x)
reply null raw (c ∷ m) x = reply_error raw (error_body (c ∷ m))

-- The reply to an id, by what the variable holds when it is encoded.
abbrev pub reply_to : Raw → Option RequestId → List ℕ → Option Raw → Reply
reply_to null none error x = no_reply
reply_to null (some i) error x = reply null (text_of null i) error x

abbrev written :
    ServerCodec → ℕ → Option (Option RequestId) → List ℕ → Option Raw → ServerCodec × Reply
written c id none error x = (c, unknown_sequence)
written c id (some b) error x =
    (record c { pending = delete id c.pending }, reply_to c.null b error x)

-- `m.Error` is empty on success; `x` is the encoded result, `none` for nil.
unfoldable pub write : ServerCodec → ℕ → List ℕ → Option Raw → ServerCodec × Reply
write c id error x = written c id (lookup id c.pending) error x
