-- ===== src/Models/Db.antt =====
-- The database: a list of rows for each table, the outbox of signals, and the last values that the
-- sequences gave out. An operation under `@atomic` is a transaction: one that raises leaves the
-- database as it was.
use swpt_creditors.Base.{ℕ, ◌+◌, Bool, true, false, ◌&&◌, Option, none, some, List, [], ◌∷◌, ◌++◌}
use swpt_creditors.Base.Tests.{◌==◌}
use swpt_creditors.Models.Common.{CreditorId, DebtorId, Error, Host}
use swpt_creditors.Models.Log.{BaseLogEntry, PendingLogEntry, LogEntry}
use swpt_creditors.Models.Creditor.{Creditor}
use swpt_creditors.Models.PinInfo.{PinInfo}
use swpt_creditors.Models.Account.{
  Account, AccountData, AccountKnowledge, AccountExchange, AccountDisplay, LedgerEntry,
}
use swpt_creditors.Models.Transfer.{CommittedTransfer, PendingLedgerUpdate, RunningTransfer}
use swpt_creditors.Models.Signal.{Signal}

pub record Db : Type 0 where
  pub creditors : List Creditor
  pub pin_infos : List PinInfo
  pub accounts : List Account
  pub account_data : List AccountData
  pub account_knowledge : List AccountKnowledge
  pub account_exchanges : List AccountExchange
  pub account_displays : List AccountDisplay
  pub ledger_entries : List LedgerEntry
  pub committed_transfers : List CommittedTransfer
  pub pending_ledger_updates : List PendingLedgerUpdate
  pub running_transfers : List RunningTransfer
  pub pending_log_entries : List PendingLogEntry
  pub log_entries : List LogEntry
  pub signals : List Signal
  pub uid_seq : ℕ
  pub coordinator_request_id_seq : ℕ
  pub creditor_reservation_id_seq : ℕ
  pub pending_entry_id_seq : ℕ

pub data Result {ℓ} (A : Type ℓ) : Type ℓ where
  ok : A → Result A
  err : Error → Result A

-- A transaction: the new database, or an exception, upon which nothing is kept.
abbrev pub Tx : Type 0 → Type 0
Tx A = Db → Result (A × Db)

infixl 5 ◌>>=◌ ◌>>◌
abbrev pub ◌>>=◌ : {A B : Type 0} → Tx A → (A → Tx B) → Tx B
◌>>=◌ m f db = elim (m db) [ ok (a, db') ↦ f a db' | err e ↦ err e ]

abbrev pub ◌>>◌ : {B : Type 0} → Tx (Unit {0}) → Tx B → Tx B
m >> k = m >>= λ _. k

abbrev pub pure : {A : Type 0} → A → Tx A
pure a db = ok (a, db)

abbrev pub raise : {A : Type 0} → Error → Tx A
raise e db = err e

abbrev pub gets : {A : Type 0} → (Db → A) → Tx A
gets f db = ok (f db, db)

abbrev pub modify : (Db → Db) → Tx (Unit {0})
modify f db = ok (tt, f db)

-- The result of a function that may raise.
abbrev pub lift : {A : Type 0} → Result A → Tx A
lift (ok a) db = ok (a, db)
lift (err e) db = err e

-- `if row is None: raise e`
abbrev pub or_raise : {A : Type 0} → Option A → Error → Tx A
or_raise none e = raise e
or_raise (some a) e = pure a

abbrev pub raise_if : Bool → Error → Tx (Unit {0})
raise_if true e = raise e
raise_if false e = pure tt

-- The database after a transaction: one that raises is rolled back.
abbrev pub committed : {A : Type 0} → Db → Result (A × Db) → Db
committed db (ok (_, db')) = db'
committed db (err _) = db

-- The key of an account and of its parts.
abbrev pub is_key : CreditorId → DebtorId → CreditorId → DebtorId → Bool
is_key creditor_id debtor_id c d = c == creditor_id && d == debtor_id

-- `db.session.add(PendingLogEntry(creditor_id=…, …))`; the key's second half is a sequence.
unfoldable pub add_pending_log_entry : CreditorId → BaseLogEntry → Db → Db
add_pending_log_entry creditor_id entry db = record db {
  pending_log_entries =
      db.pending_log_entries
      ++ record {
        creditor_id = creditor_id;
        pending_entry_id = db.pending_entry_id_seq + 1;
        entry = entry;
      }
        ∷ [];
  pending_entry_id_seq = db.pending_entry_id_seq + 1;
}

-- `db.session.add(…Signal(…))`
unfoldable pub add_signal : Signal → Db → Db
add_signal signal db = record db { signals = db.signals ++ signal ∷ [] }

-- `db.session.scalar(uid_seq)`
unfoldable pub next_uid : Host → Db → Db
next_uid host db = record db { uid_seq = host.next_value db.uid_seq }
