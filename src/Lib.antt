-- ===== src/Lib.antt =====
-- The creditors agent of Swaptacular: it keeps the accounts that creditors have with debtors, makes
-- transfers from them, and keeps for each creditor a log of what has changed. Clients change a
-- creditor's objects by the operations of swpt_creditors/procedures/; the accounting authorities
-- send messages, which other operations of the same package process. All state is in a database.
--
-- The files:
--   Models/ has the tables and their methods (swpt_creditors/models/): Creditor, PinInfo, Account,
--     Transfer, Log and Signal, the types and constants in Common, and in Db the database, the outbox
--     of messages, and transactions.
--   Procedures/Common is procedures/common.py.
--   Procedures/Creditors, Pins and Log are procedures/creditors.py: the life of a creditor, its PIN,
--     and its log.
--   Procedures/Accounts, AccountDeletion and AccountParts are procedures/accounts.py: the creation of
--     accounts and the queries, their deletion, and the updates of their parts.
--   Procedures/Ledger, LedgerUpdates, AccountUpdates and AccountConfigs are
--     procedures/account_updates.py: the changes of a ledger as functions on its account, the
--     transaction around them, and the messages about accounts.
--   Procedures/Transfers and TransferSignals are procedures/transfers.py: the operations of the
--     creditor, and the messages about transfers.
--   StoredProcedures/Ledger, LedgerRun and Log are the functions in PL/pgSQL of
--     migrations/versions/dd24bce84ed1_processing_procedures.py (names end in _sp), which run in place
--     of process_pending_ledger_update and process_pending_log_entries when
--     APP_USE_PGPLSQL_FUNCTIONS is set; call_process_… is the procedure with both branches.
--   StoredProcedures/Usage is migrations/versions/54696121695a_create_stored_procedures.py: the
--     functions that count the accounts, transfers and reconfigurations of a creditor; and
--     StoredProcedures/Usage/Inspect is swpt_creditors/inspect_ops.py, which calls them for the routes.
--   Scanners/ is swpt_creditors/table_scanners.py: Retention has the scanners that delete old rows of
--     three tables, Creditors and Accounts the other two. They call no procedure, but leave pending
--     ledger updates for LedgerUpdates.
--   Actors/ is swpt_creditors/actors.py: the consumer of messages, which calls the procedures.
--   Base/ has lists as tables, integers and tests; Tests/ has runs at concrete inputs.
-- A function of the source has a definition of its name, without a leading underscore; parts of a
-- function that the language wants apart have names of their own. Proofs are in the modules below
-- the module that they are about.
--
-- A row is a record and a table a list of rows. An operation under `@atomic` is a function from the
-- database to a result and a database, or to an exception, upon which nothing is kept. The current
-- time, and the salt of a PIN, are arguments; an operation reads the clock once. IDs are natural
-- numbers: signed ones are shifted by 2^63, which keeps their order. Times are microseconds and dates
-- are days from the least ones; amounts are integers, and where they must fit 64 bits a theorem says
-- so. A float is its bits, and the operations on floats are a parameter, with the rounding that a column
-- of single precision makes when a row is written (to_real), as are the message
-- authentication code, the equality of JSON documents, the sequence's next value, the sequence
-- numbers of swpt_pythonlib, and the date of a time (the record Host), the match of a sharding realm
-- (Config), the schemas of messages (Schemas), and the order in which the database returns rows to a
-- query without an order.
--
-- Loops: the correcting loops of the ledger have the size of the correction for fuel, of which each
-- round takes off at least 1; the loops over a sequence have one more than the target, enough
-- when the sequence grows; 20 digits are enough for a reservation ID. Other loops go over lists.
--
-- Not modelled: locks, retries and interleavings within a transaction, the check constraints but for
-- two (the root creditor's ID, and the hash of a PIN that is on), the order in which the parts of a new account draw values of the sequence (the model
-- chooses one), the JSON form of log entries, the schemas and routes of the Web API, and the command
-- line.
pub mod Base
pub mod Models
pub mod Procedures
pub mod StoredProcedures
pub mod Scanners
pub mod Actors
pub mod Tests
