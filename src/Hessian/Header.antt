-- ===== src/Hessian/Header.antt =====
-- The 16-byte header of a dubbo packet: what packRequest of request.go writes, and
-- unpackResponseHeaer of response.go.
pub mod Echo
mod Runs
use dubbogo.Base.{
  ℕ, zero, suc, ◌+◌, ◌*◌, ◌/◌, ◌%◌, ◌^◌, ◌⊎◌, inl, inr, Bool, not, ◌&&◌, ◌||◌, Option, none, some,
  List, [], ◌∷◌, ◌++◌, ltb, ◌==◌, if◌then◌else◌, length, take, drop,
}
use dubbogo.Hessian.Words.{byte}
use dubbogo.Hessian.Reader.{be}

abbrev pub header_length : ℕ
header_length = 16

-- `DubboHeader[2]` and `DubboHeartbeatHeader[2]`, with `byteArray[2] |= byte(m.ID & SERIAL_MASK)`.
-- The low four bits of the latter are set already.
unfoldable pub flag_byte : Bool → ℕ → ℕ
flag_byte heartbeat id = if heartbeat then 0xef + 16 * ((id / 16) % 2) else 0xc0 + id % 32

-- `binary.BigEndian.PutUint32`
unfoldable pub bytes32 : ℕ → List ℕ
bytes32 v = byte (v / 2 ^ 24) ∷ byte (v / 2 ^ 16) ∷ byte (v / 2 ^ 8) ∷ byte v ∷ []

-- `binary.BigEndian.PutUint64`
unfoldable pub put_uint64 : ℕ → List ℕ
put_uint64 v = bytes32 (v / 2 ^ 32) ++ bytes32 v

-- The header of a request with the given id, before a body of `body` bytes.
unfoldable pub request_header : Bool → ℕ → ℕ → List ℕ
request_header heartbeat id body =
    0xda ∷ 0xbb ∷ flag_byte heartbeat id ∷ 0 ∷ put_uint64 id ++ bytes32 (body % 2 ^ 32)

-- `DEFAULT_LEN`, the bound on a whole packet.
abbrev pub default_len : ℕ
default_len = 8388608

-- The end of `packRequest`: the header in front of the encoded body. `none` is an error.
unfoldable pub pack : Bool → ℕ → List ℕ → Option (List ℕ)
pack heartbeat id body =
    if ltb default_len (header_length + length body)
    then none
    else some (request_header heartbeat id (length body) ++ body)

pub data HeaderError : Type 0 where
  illegal_package : HeaderError
  zero_serial_id : HeaderError
  request_flag : HeaderError

-- The fields of `codec.Message` that a response's header sets. A message type is a set of bits, of
-- which `heartbeat` (0x08) and `response` (0x04) are the ones set here; the bits there stay.
pub record Message : Type 0 where
  pub id : ℕ
  pub heartbeat : Bool
  pub response : Bool
  pub body_len : ℕ

-- A byte by its position; the callers give 16 bytes, and Go panics on less.
unfoldable pub at : List ℕ → ℕ → ℕ
at [] i = 0
at (b ∷ bs) zero = b
at (b ∷ bs) (suc i) = at bs i

-- What is left of the checks once the flags are read: the status and the numbers behind it.
unfoldable pub unpack_numbers : List ℕ → Message → Message
unpack_numbers buf m = record {
  id = be (take 8 (drop 4 buf));
  heartbeat = m.heartbeat;
  response = m.response;
  body_len = be (take 4 (drop 12 buf));
}

unfoldable pub unpack_flags : List ℕ → Message → Message
unpack_flags buf m = record {
  id = m.id;
  heartbeat = m.heartbeat || ((at buf 2 / 32) % 2 == 1);
  response = m.response || ((at buf 2 / 64) % 2 == 1);
  body_len = m.body_len;
}

-- The result beside the message: an error of the header, or none and whether the error is
-- `ErrJavaException`, of a status other than OK. This is what follows the test of the magic number.
unfoldable pub unpack_flagged : List ℕ → Message → (HeaderError ⊎ Bool) × Message
unpack_flagged buf m =
    if at buf 2 % 32 == 0
    then (inl zero_serial_id, m)
    else if (at buf 2 / 128) % 2 == 1
    then (inl request_flag, unpack_flags buf m)
    else (inr (not (at buf 3 == 20)), unpack_numbers buf (unpack_flags buf m))

unfoldable pub unpack_response_header : List ℕ → Message → (HeaderError ⊎ Bool) × Message
unpack_response_header buf m =
    if not (at buf 0 == 0xda) && not (at buf 1 == 0xbb)
    then (inl illegal_package, m)
    else unpack_flagged buf m
