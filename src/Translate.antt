-- ===== src/Translate.antt =====
-- The package translate: calls carried between the two sides (translate/translator.py).
pub mod State
pub mod Lock
pub mod Frame
pub mod Packet
pub mod Reflect
pub mod Pacer
pub mod Outbound
pub mod Inbound
pub mod Callbacks
pub mod Valid
