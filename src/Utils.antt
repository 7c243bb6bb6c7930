-- ===== src/Utils.antt =====
-- The parts of src/utils that the supervisor and the mDNS service use.
pub mod Strings
pub mod Net
pub mod StringQueue
pub mod Hash
pub mod IfaceMapper
pub mod Iptables
pub mod HashMap
mod Examples
