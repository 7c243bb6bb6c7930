-- ===== src/Supervisor.antt =====
-- The supervisor.
pub mod BridgeList
pub mod MacMapper
pub mod Context
pub mod Save
pub mod Network
pub mod Access
pub mod Subscribers
pub mod System
pub mod Texts
pub mod Replies
pub mod Processor
pub mod Requests
pub mod Loop
mod Examples
