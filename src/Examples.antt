-- ===== src/Examples.antt =====
-- The theorems at concrete rows, requests and services.
pub mod Data
pub mod Vaults
pub mod Intents
pub mod Gifts
pub mod Experience
pub mod Conversions
pub mod Policies
pub mod Learning
pub mod AccountDeletion
pub mod Notifications
