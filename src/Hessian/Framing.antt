-- ===== src/Hessian/Framing.antt =====
-- The codec of codec/hessian/hessian.go: whole packets over a buffered reader of 4096 bytes.
pub mod Packets
mod Runs
use dubbogo.Base.{
  ℕ, ◌⊎◌, inl, inr, Bool, true, false, ◌||◌, Option, none, some, List, [], ltb, ◌==◌, if◌then◌else◌,
  length, take, drop, Outcome, ReaderLib, wrong_tag, ok, err,
}
use dubbogo.Hessian.Text.{Text}
use dubbogo.Hessian.Header.{header_length, unpack_response_header, HeaderError, Message}
use dubbogo.Hessian.Values.{Entries, FloatLib}
use dubbogo.Hessian.Classes.{PojoRegistry}
use dubbogo.Hessian.Decoder.{ObjectReader}
use dubbogo.Hessian.Request.{pack_request, Request, Argument}
use dubbogo.Hessian.Response.{unpack_response_body, Target, BodyResult}

-- The bits of a message type.
abbrev request_type : ℕ
request_type = 0x02

abbrev response_type : ℕ
response_type = 0x04

abbrev heartbeat_type : ℕ
heartbeat_type = 0x08

-- The size of a `bufio.Reader`, and so the longest `Peek`.
abbrev pub peek_limit : ℕ
peek_limit = 4096

-- `input` are the bytes that are yet to come.
pub record HessianCodec : Type 0 where
  pub mt : ℕ
  pub rsp_body_len : ℕ
  pub input : List ℕ

pub data CodecError : Type 0 where
  unrecognised : CodecError
  read_error : CodecError
  body_not_enough : CodecError
  java_exception : CodecError
  bad_header : HeaderError → CodecError

-- A call's error, if any, the message and the codec behind it.
abbrev pub HeaderRead : Type 0
HeaderRead = Option CodecError × Message × HessianCodec

-- Behind `unpackResponseHeaer`: a Java exception is an error too, which leaves the length of the body
-- as it was.
unfoldable pub header_done : (HeaderError ⊎ Bool) × Message → HessianCodec → HeaderRead
header_done (inl e, m) c = (some (bad_header e), m, c)
header_done (inr true, m) c = (some java_exception, m, c)
header_done (inr false, m) c =
    (none, m, record { mt = c.mt; rsp_body_len = m.body_len; input = c.input })

-- `Peek` and `Discard` of the header.
unfoldable pub peek_header : Message → HessianCodec → HeaderRead
peek_header m c =
    if ltb (length c.input) header_length
    then (some read_error, m, c)
    else header_done (unpack_response_header (take header_length c.input) m)
        (record c { input = drop header_length c.input })

unfoldable pub read_header : Message → ℕ → HessianCodec → HeaderRead
read_header m mt c =
    let c' = record c { mt = mt } in
    if mt == request_type
    then (none, m, c')
    else if mt == heartbeat_type || mt == response_type
    then peek_header m c'
    else (some unrecognised, m, c')

-- What a body comes to: it is not read, read and dropped for want of a place, or unpacked.
pub data BodyRead : Type 0 where
  not_read : BodyRead
  body_error : CodecError → BodyRead
  skipped : BodyRead
  unpacked : Outcome BodyResult → BodyRead

module _ (lib : ReaderLib) (fl : FloatLib) (objects : ObjectReader) where
  unfoldable pub unpack_into : Option Target → List ℕ → BodyRead
  unpack_into none buf = skipped
  unpack_into (some t) buf = unpacked (unpack_response_body lib fl objects t buf)

  unfoldable pub peek_body : Option Target → HessianCodec → BodyRead × HessianCodec
  peek_body ret c =
      if ltb peek_limit c.rsp_body_len
      then (body_error body_not_enough, c)
      else if ltb (length c.input) c.rsp_body_len
      then (body_error read_error, c)
      else (
        unpack_into ret (take c.rsp_body_len c.input),
        record c { input = drop c.rsp_body_len c.input },
      )

  unfoldable pub read_body : Option Target → HessianCodec → BodyRead × HessianCodec
  read_body ret c =
      if c.mt == heartbeat_type || c.mt == response_type then peek_body ret c else (not_read, c)

-- `Write`: the bytes that go out. The type of the message tells a heartbeat from a request.
module _ (fl : FloatLib) (to_lower : Text → Text) (order : Entries → Entries) where
  unfoldable pub write : ℕ → Request → List Argument → PojoRegistry → Outcome (List ℕ)
  write mt q args r =
      if mt == heartbeat_type || mt == request_type
      then (pack_request fl to_lower order (record q { heartbeat = mt == heartbeat_type }) args r).0
      else if mt == response_type
      then ok []
      else err wrong_tag
