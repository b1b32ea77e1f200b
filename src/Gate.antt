-- ===== src/Gate.antt =====
-- The gate to a tenant's services and the preflight of activities: backend/app/domain.py, and the routes of
-- backend/app/main.py that save, test and enable services.
pub mod Rows
pub mod Services
pub mod Integration
pub mod Readiness
pub mod Opening
pub mod Preflight
pub mod Selection
mod Examples
