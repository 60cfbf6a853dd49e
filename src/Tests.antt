-- ===== src/Tests.antt =====
-- Runs of the model at concrete inputs, by the part of the program.
pub mod Data
pub mod Ledger
pub mod Accounts
pub mod Transfers
pub mod StoredProcedures
pub mod Scanners
pub mod Actors
pub mod Usage
pub mod Owner
