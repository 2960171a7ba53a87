-- ===== src/Tests.antt =====
-- Sample data, runs of the handlers on it, and the theorems at that data.
mod Sample
pub mod Billing
pub mod Letting
pub mod Terms
pub mod Permissions
pub mod Reminders
pub mod Access
pub mod Repairs
pub mod Numbering
pub mod Notices
pub mod Trail
pub mod Files
pub mod Figures
pub mod Opening
