-- ===== src/Tests.antt =====
-- The program run on a small world, and the theorems applied there.
pub mod World
pub mod Database
pub mod Statistics
pub mod Notifications
pub mod Inbox
pub mod Samples
pub mod Organizations
pub mod Guards
pub mod Serving
pub mod Accounts
pub mod Texts
pub mod Changes
pub mod Profiles
pub mod Pages
pub mod Volumes
pub mod Logins
