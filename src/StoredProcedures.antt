-- ===== src/StoredProcedures.antt =====
-- The functions in PL/pgSQL of the migrations: those of dd24bce84ed1_processing_procedures.py, which
-- the program calls in place of its own code when `APP_USE_PGPLSQL_FUNCTIONS` is set, and those of
-- 54696121695a_create_stored_procedures.py (`Usage`).
pub mod Ledger
pub mod LedgerRun
pub mod Log
pub mod Usage
