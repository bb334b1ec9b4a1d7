-- ===== src/Hbp.antt =====
-- The package hbp: the HomeBrew side.
pub mod Const
pub mod Protocol
pub mod Client
