-- ===== src/Tests.antt =====
-- Runs at concrete inputs, and the theorems at inputs that meet their hypotheses.
pub mod Ip
pub mod Samples
pub mod Hosts
pub mod State
pub mod Store
pub mod Host
pub mod Apply
pub mod Api
pub mod Backup
pub mod Audit
