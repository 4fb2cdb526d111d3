-- ===== src/Flash.antt =====
-- otsdaq-mu2e/FEInterfaces/RocFlashProgrammer.h: remote programming of the ROCs of one DTC.
pub mod Types
pub mod Checksum
pub mod Exec
pub mod Port
pub mod Link
pub mod Reply
pub mod Verify
pub mod Segment
pub mod Probe
pub mod Upload
pub mod Activate
pub mod Preflight
pub mod Run
mod Tests
