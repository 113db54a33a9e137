-- ===== src/Lease.antt =====
-- The shared accelerator lease (components/kilix-device-lease/src/kilix_device_lease/__init__.py).
pub mod Entry
pub mod Order
pub mod Schema
pub mod Exec
pub mod Namespace
pub mod Prune
pub mod Acquire
pub mod Release
pub mod System
mod Tests
