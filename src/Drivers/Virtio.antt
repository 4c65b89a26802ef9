-- ===== src/Drivers/Virtio.antt =====
-- LSD/src/drivers/virtio.
pub mod Splitqueue
pub mod Header
pub mod Input
pub mod Entropy
pub mod Devices
mod Tests
