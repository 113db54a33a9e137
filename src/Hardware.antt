-- ===== src/Hardware.antt =====
-- The private cache of redacted hardware snapshots
-- (components/plebian-hardware/src/plebian_hardware/state.py).
pub mod Redaction
pub mod Snapshot
pub mod Cache
pub mod Changes
mod Tests
