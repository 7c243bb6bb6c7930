-- ===== src/Dns.antt =====
-- src/dns: the mDNS service.
pub mod MdnsMapper
pub mod CommandMapper
pub mod Reflector
pub mod Handler
pub mod Bridges
mod Examples
