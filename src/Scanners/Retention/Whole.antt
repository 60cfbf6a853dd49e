-- ===== src/Scanners/Retention/Whole.antt =====
-- Scans of whole tables by the scanners of log entries, ledger entries and committed transfers
-- (table_scanners.py).
use swpt_creditors.Base.{
  ◌+◌, ◌-◌, ◌≡◌, max, not, ap, ◌∙◌, Bool, true, false, ◌&&◌, ◌||◌, List, arith,
}
use swpt_creditors.Base.Lists.{All, any_row, rows_where, delete_where}
use swpt_creditors.Base.Rows.{All-map, delete_where_cong, everywhere}
use swpt_creditors.Base.Tests.{ltb, leb}
use swpt_creditors.Models.Common.{Timestamp, CreditorId}
use swpt_creditors.Models.Log.{LogEntry}
use swpt_creditors.Models.Account.{LedgerEntry}
use swpt_creditors.Models.Transfer.{CommittedTransfer}
use swpt_creditors.Models.Db.{Db}
use swpt_creditors.Scanners.{Config, is_valid_creditor_id, belongs_to_parent_shard}
use swpt_creditors.Scanners.Retention.{
  is_stale_log_entry, is_same_log_entry, scan_log_entries, is_stale_ledger_entry,
  is_same_ledger_entry, scan_ledger_entries, transfer_retention_interval, is_stale_transfer,
  is_same_transfer, scan_committed_transfers,
}
use swpt_creditors.Scanners.Retention.Kept.{IsKeyed, delete_by_keys}

-- The row was added, or committed, more than the interval ago; or the agent deletes the rows that
-- went to the other half of its shard, and the creditor's ID is in range and matches the parent's
-- realm but not the agent's own.
abbrev pub is_outdated : Config → Timestamp → Timestamp → Timestamp → CreditorId → Bool
is_outdated config now interval ts c =
    ltb (ts + interval) now
    || config.delete_parent_shard_records
      && leb config.min_creditor_id c
      && leb c config.max_creditor_id
      && config.realm_match c true
      && not (config.realm_match c false)

-- Two rows with equal primary keys are the same row.
abbrev pub LogKeyed : List LogEntry → Type 0
LogKeyed rows =
    All (λ a. All (λ b. a.creditor_id ≡ b.creditor_id → a.entry_id ≡ b.entry_id → b ≡ a) rows) rows

abbrev pub LedgersKeyed : List LedgerEntry → Type 0
LedgersKeyed rows =
    All
      (λ a.
        All
          (λ b.
            a.creditor_id ≡ b.creditor_id
            → a.debtor_id ≡ b.debtor_id
            → a.entry_id ≡ b.entry_id
            → b ≡ a)
          rows)
      rows

abbrev pub TransfersKeyed : List CommittedTransfer → Type 0
TransfersKeyed rows =
    All
      (λ a.
        All
          (λ b.
            a.creditor_id ≡ b.creditor_id
            → a.debtor_id ≡ b.debtor_id
            → a.creation_date ≡ b.creation_date
            → a.transfer_number ≡ b.transfer_number
            → b ≡ a)
          rows)
      rows

log-IsKeyed : (rows : List LogEntry) → LogKeyed rows → IsKeyed is_same_log_entry rows
log-IsKeyed rows h =
    All-map rows (λ a k. All-map rows (λ b unique same. unique (ground arith) (ground arith)) k) h

ledgers-IsKeyed : (rows : List LedgerEntry) → LedgersKeyed rows → IsKeyed is_same_ledger_entry rows
ledgers-IsKeyed rows h =
    All-map rows
      (λ a k. All-map rows (λ b unique same. unique (ground arith) (ground arith) (ground arith)) k)
      h

transfers-IsKeyed :
    (rows : List CommittedTransfer) → TransfersKeyed rows → IsKeyed is_same_transfer rows
transfers-IsKeyed rows h =
    All-map rows
      (λ a k.
        All-map rows
          (λ b unique same. unique (ground arith) (ground arith) (ground arith) (ground arith)) k)
      h

outdated :
    (config : Config) (now interval ts : Timestamp) (c : CreditorId)
    → (ltb ts (now - interval)
        || config.delete_parent_shard_records && belongs_to_parent_shard config c)
      ≡ is_outdated config now interval ts c
unfolding belongs_to_parent_shard is_valid_creditor_id
outdated config now interval ts c = ground arith

-- The deletion of the stale rows of a whole table with distinct keys.
delete_stale :
    {A : Type 0} (same : A → A → Bool) (p q : A → Bool) (rows : List A)
    → ((x : A) → same x x ≡ true)
    → IsKeyed same rows
    → ((x : A) → p x ≡ q x)
    → delete_where (λ x. any_row (same x) (rows_where p rows)) rows ≡ delete_where q rows
delete_stale same p q rows itself keyed alike =
    delete_by_keys same p rows itself keyed ∙ delete_where_cong p q rows (everywhere rows alike)

-- A scan of a whole table, in which no two rows have the same primary key, deletes exactly the rows
-- that are outdated: the log entries and the ledger entries by the time at which they were added and
-- the table's own retention interval, the committed transfers by the time of the commit and the sum
-- of the longest delay of transfers and the longer one of the two intervals.
pub whole_scans :
    (config : Config) (now : Timestamp) (db : Db)
    → LogKeyed db.log_entries
    → LedgersKeyed db.ledger_entries
    → TransfersKeyed db.committed_transfers
    → (scan_log_entries config now db.log_entries db ≡ record db {
      log_entries =
          delete_where
            (λ e.
              is_outdated config now config.log_retention_interval e.entry.added_at e.creditor_id)
            db.log_entries;
    })
      × (scan_ledger_entries config now db.ledger_entries db ≡ record db {
        ledger_entries =
            delete_where
              (λ e.
                is_outdated config now config.ledger_retention_interval e.added_at e.creditor_id)
              db.ledger_entries;
      })
      × (scan_committed_transfers config now db.committed_transfers db ≡ record db {
        committed_transfers =
            delete_where
              (λ t.
                is_outdated config now
                  (config.max_transfer_delay
                    + max config.log_retention_interval config.ledger_retention_interval)
                  t.committed_at
                  t.creditor_id)
              db.committed_transfers;
      })
unfolding scan_log_entries scan_ledger_entries scan_committed_transfers is_stale_log_entry
    is_stale_ledger_entry is_stale_transfer transfer_retention_interval
whole_scans config now db k l m = (
  ap {B = Db} (λ rows. record db { log_entries = rows })
      (delete_stale is_same_log_entry _ _ db.log_entries (λ x. ground arith)
        (log-IsKeyed db.log_entries k)
        (λ e. outdated config now config.log_retention_interval e.entry.added_at e.creditor_id)),
  ap {B = Db} (λ rows. record db { ledger_entries = rows })
      (delete_stale is_same_ledger_entry _ _ db.ledger_entries (λ x. ground arith)
        (ledgers-IsKeyed db.ledger_entries l)
        (λ e. outdated config now config.ledger_retention_interval e.added_at e.creditor_id)),
  ap {B = Db} (λ rows. record db { committed_transfers = rows })
      (delete_stale is_same_transfer _ _ db.committed_transfers (λ x. ground arith)
        (transfers-IsKeyed db.committed_transfers m)
        (λ t. outdated config now _ t.committed_at t.creditor_id)),
)
