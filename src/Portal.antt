-- ===== src/Portal.antt =====
-- The O2UL services of the portal and their strata repositories.
pub mod Profiles
pub mod Presence
pub mod Files
pub mod Preferences
pub mod Notifications
pub mod Settings
