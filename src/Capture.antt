-- ===== src/Capture.antt =====
-- src/capture: the decoding of captured packets.
pub mod MdnsDecoder
mod Examples
