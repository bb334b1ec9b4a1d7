-- ===== src/Dmr.antt =====
-- The data formats under the translator: byte and bit strings, and the codec library it calls.
mod BitString
pub mod Codec
unfoldable pub use BitString.*
