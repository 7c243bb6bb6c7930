-- ===== src/Supervisor/Examples.antt =====
-- The theorems on src/supervisor at concrete inputs.
mod Data
mod Bridges
mod Devices
mod Requests
