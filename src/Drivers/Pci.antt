-- ===== src/Drivers/Pci.antt =====
-- LSD/src/drivers/pci.
pub mod Slot
pub mod Host
mod Tests
