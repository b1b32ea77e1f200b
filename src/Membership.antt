-- ===== src/Membership.antt =====
-- Members of a tenant, their seats and what the tenant uses: backend/app/membership_governance.py,
-- backend/app/entitlements.py and backend/app/usage_metering.py.
pub mod Rows
pub mod Quota
pub mod Governance
pub mod Administrators
pub mod Seats
pub mod Usage
mod Examples
