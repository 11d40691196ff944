-- ===== src/NetRom.antt =====
-- netrom/: the NET/ROM layers 3 and 4 above the AX.25 link.
pub mod Transport
pub mod ConnectInfo
pub mod Quality
pub mod Packet
pub mod Alias
pub mod Inp3
pub mod Nodes
pub mod Routing
pub mod Forwarding
pub mod Sntt
pub mod Circuit
