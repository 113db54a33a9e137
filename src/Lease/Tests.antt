-- ===== src/Lease/Tests.antt =====
-- The lease theorems at concrete registries, and runs of the operations.
mod Data
mod Orders
mod Turns
mod Histories
