-- ===== src/Drivers.antt =====
-- LSD/src/drivers.
pub mod Rtc
pub mod Virtio
pub mod Pci
