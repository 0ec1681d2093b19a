-- ===== src/Codec.antt =====
-- The encoder of src/tc_encode.c against the decoder of src/tc_decode.c, and reported chains.
pub mod Masks
pub mod Pedit
pub mod Acts
pub mod Wire
pub mod Flower
pub mod RoundTrip
pub mod Reported
mod Tests
