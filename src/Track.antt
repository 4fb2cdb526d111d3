-- ===== src/Track.antt =====
-- The handler of the subevents that the detached readout delivers: the check of their event window
-- tags, the check of emulated data, and the counts (`handleDetachedSubevent`,
-- `checkROCEmulatorBlock` and `handleMergedDetachedEvents` in
-- otsdaq-mu2e/FEInterfaces/DTCFrontEndInterfaceImpl.cc).
pub mod Types
pub mod Tag
pub mod Rounds
pub mod Bounds
pub mod Emulator
pub mod Fragments
pub mod Handle
pub mod Merged
mod Tests
mod HandlerTests
