-- ===== src/Models.antt =====
-- The package models: the rows of the database's tables, and the methods of the rows.
pub mod Common
pub mod Log
pub mod Creditor
pub mod PinInfo
pub mod Account
pub mod Transfer
pub mod Signal
pub mod Db
pub mod UsageStats
