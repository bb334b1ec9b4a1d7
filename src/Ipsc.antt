-- ===== src/Ipsc.antt =====
-- The IPSC side (ipsc/).
pub mod Const
pub mod Wire
pub mod Auth
pub mod Follow
pub mod Master
pub mod PeerTable
pub mod PeerState
pub mod Peer
pub mod Link
