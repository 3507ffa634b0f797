-- ===== src/Hessian.antt =====
-- codec/hessian: the Hessian 2 encoder and decoder of the dubbo protocol.
pub mod Words
pub mod Reader
pub mod Ints
pub mod Blob
pub mod Text
pub mod Classes
pub mod Values
pub mod Doubles
pub mod Strings
pub mod Encoder
pub mod Ends
pub mod Decoder
pub mod Objects
pub mod Header
pub mod Args
pub mod Request
pub mod Response
pub mod Framing
