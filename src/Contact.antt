-- ===== src/Contact.antt =====
-- Attempts to contact: backend/app/contact_orchestration.py, and the events of calls,
-- backend/app/telephony.py.
pub mod Rows
pub mod Attempts
pub mod Channels
pub mod Telephony
pub mod Limits
pub mod Progress
pub mod Daily
pub mod Runs
mod Examples
