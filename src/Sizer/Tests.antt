-- ===== src/Sizer/Tests.antt =====
-- Concrete catalogs and snapshots, and runs of the sizer on them.
mod Data
mod Plans
mod Parts
mod Probes
mod Chats
