-- ===== src/Examples.antt =====
-- The theorems at concrete inputs, and tests of the definitions.
mod Policies
mod Tunnels
mod Plugins
mod Proxies
mod Supervision
mod Services
mod Commands
mod Stopping
