-- ===== src/Procedures.antt =====
-- The package procedures: the transactions of the program.
pub mod Common
pub mod Ledger
pub mod Creditors
pub mod Pins
pub mod Accounts
pub mod AccountDeletion
pub mod AccountParts
pub mod Log
pub mod Transfers
pub mod TransferSignals
pub mod AccountConfigs
pub mod AccountUpdates
pub mod LedgerUpdates
