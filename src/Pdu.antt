-- ===== src/Pdu.antt =====
-- safecom/src/pdu.c: the wire format.
pub mod Types
pub mod Bytes
pub mod Codec
pub mod Wire
pub mod Serialize
pub mod RoundTrip
pub mod Build
pub mod Seal
pub mod Overflow
pub mod Frames
pub mod Total
pub mod DataPayload
