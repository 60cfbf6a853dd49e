-- ===== src/Scanners/Retention.antt =====
-- `LogEntryScanner`, `LedgerEntryScanner` and `CommittedTransferScanner` of table_scanners.py. The
-- intervals are taken to be shorter than the calendar: a cutoff before the least time is an
-- `OverflowError` of the program, and here the least time, which no row is older than.
pub mod Kept
pub mod Whole
use swpt_creditors.Base.{◌+◌, ◌-◌, ◌&&◌, ◌||◌, max, Bool, List}
use swpt_creditors.Base.Lists.{rows_where, any_row, delete_where}
use swpt_creditors.Base.Tests.{◌==◌, ltb}
use swpt_creditors.Models.Common.{Timestamp}
use swpt_creditors.Models.Log.{LogEntry}
use swpt_creditors.Models.Account.{LedgerEntry}
use swpt_creditors.Models.Transfer.{CommittedTransfer}
use swpt_creditors.Models.Db.{Db}
use swpt_creditors.Scanners.{Config, belongs_to_parent_shard}

unfoldable pub is_stale_log_entry : Config → Timestamp → LogEntry → Bool
unfolding belongs_to_parent_shard
is_stale_log_entry config current_ts row =
    ltb row.entry.added_at (current_ts - config.log_retention_interval)
    || config.delete_parent_shard_records && belongs_to_parent_shard config row.creditor_id

abbrev pub is_same_log_entry : LogEntry → LogEntry → Bool
is_same_log_entry a b = a.creditor_id == b.creditor_id && a.entry_id == b.entry_id

unfoldable pub scan_log_entries : Config → Timestamp → List LogEntry → Db → Db
unfolding is_stale_log_entry
scan_log_entries config current_ts rows db =
    let to_delete : List LogEntry = rows_where (is_stale_log_entry config current_ts) rows in
    record db {
      log_entries = delete_where (λ e. any_row (is_same_log_entry e) to_delete) db.log_entries;
    }

unfoldable pub is_stale_ledger_entry : Config → Timestamp → LedgerEntry → Bool
unfolding belongs_to_parent_shard
is_stale_ledger_entry config current_ts row =
    ltb row.added_at (current_ts - config.ledger_retention_interval)
    || config.delete_parent_shard_records && belongs_to_parent_shard config row.creditor_id

abbrev pub is_same_ledger_entry : LedgerEntry → LedgerEntry → Bool
is_same_ledger_entry a b =
    a.creditor_id == b.creditor_id && a.debtor_id == b.debtor_id && a.entry_id == b.entry_id

unfoldable pub scan_ledger_entries : Config → Timestamp → List LedgerEntry → Db → Db
unfolding is_stale_ledger_entry
scan_ledger_entries config current_ts rows db =
    let to_delete : List LedgerEntry = rows_where (is_stale_ledger_entry config current_ts) rows in
    record db {
      ledger_entries =
          delete_where (λ e. any_row (is_same_ledger_entry e) to_delete) db.ledger_entries;
    }

unfoldable pub transfer_retention_interval : Config → Timestamp
transfer_retention_interval config =
    config.max_transfer_delay + max config.log_retention_interval config.ledger_retention_interval

unfoldable pub is_stale_transfer : Config → Timestamp → CommittedTransfer → Bool
unfolding belongs_to_parent_shard transfer_retention_interval
is_stale_transfer config current_ts row =
    ltb row.committed_at (current_ts - transfer_retention_interval config)
    || config.delete_parent_shard_records && belongs_to_parent_shard config row.creditor_id

abbrev pub is_same_transfer : CommittedTransfer → CommittedTransfer → Bool
is_same_transfer a b =
    a.creditor_id == b.creditor_id
    && a.debtor_id == b.debtor_id
    && a.creation_date == b.creation_date
    && a.transfer_number == b.transfer_number

unfoldable pub scan_committed_transfers : Config → Timestamp → List CommittedTransfer → Db → Db
unfolding is_stale_transfer
scan_committed_transfers config current_ts rows db =
    let to_delete : List CommittedTransfer =
      rows_where (is_stale_transfer config current_ts) rows in
    record db {
      committed_transfers =
          delete_where (λ t. any_row (is_same_transfer t) to_delete) db.committed_transfers;
    }
