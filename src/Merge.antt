-- ===== src/Merge.antt =====
-- The merge modes of the detached buffer test of a DTC: the halves of an event that arrive over
-- DTC_0 and DTC_1 are paired by their tags and joined
-- (otsdaq-mu2e/FEInterfaces/DTCFrontEndInterfaceImpl.cc and DTCFrontEndInterface.h).
pub mod Types
pub mod Build
pub mod Stage
pub mod Scan
pub mod Tests
