-- ===== src/Sizer.antt =====
-- The development model sizer (components/plebian-model-sizer/src/plebian_model_sizer).
pub mod Checked
pub mod Resources
pub mod Nvidia
pub mod Geometry
pub mod Catalog
pub mod Estimate
pub mod Recommend
pub mod Chat
mod Tests
