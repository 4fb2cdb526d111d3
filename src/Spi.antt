-- ===== src/Spi.antt =====
-- The actions on the SPI flash of a PolarFire ROC, under its action lock
-- (otsdaq-mu2e/FEInterfaces/ROCPolarFireCoreInterfaceImpl.cc and ROCPolarFireCoreInterface.h).
pub mod Exec
pub mod Command
pub mod Poll
pub mod Actions
mod Tests
