-- ===== src/Material.antt =====
-- Materials of customers, encrypted, and their versions: backend/app/customer_materials.py and
-- backend/app/material_versions.py.
pub mod Rows
pub mod Csv
pub mod Table
pub mod Store
pub mod Versions
pub mod Recovered
pub mod Chain
mod Examples
