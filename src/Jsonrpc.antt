-- ===== src/Jsonrpc.antt =====
-- codec/jsonrpc: the JSON-RPC 2.0 codecs of the server and the client. `encoding/json` is not
-- modelled: a message comes as the members that it has, each with the bytes of its value.
pub mod Server
pub mod Client
