-- ===== src/Tests.antt =====
-- Concrete runs, and the theorems at concrete inputs.
pub mod Backend
pub mod Codecs
mod Packets
pub mod Hashes
mod Files
pub mod Disk
pub mod Outputs
mod Paths
mod CommandLine
