-- ===== src/Scanners/Creditors.antt =====
-- `CreditorScanner` of table_scanners.py. The intervals are taken to be shorter than the calendar: a
-- cutoff before the least time is an `OverflowError` of the program, and here the least time,
-- which no row is older than.
pub mod Survival
use swpt_creditors.Base.{◌-◌, ◌&&◌, not, Bool, true, Option, none, some, List}
use swpt_creditors.Base.Lists.{rows_where, any_row, delete_where}
use swpt_creditors.Base.Tests.{◌==◌, ltb, if◌then◌else◌}
use swpt_creditors.Models.Common.{CreditorId, Timestamp, Date, Host}
use swpt_creditors.Models.Creditor.{Creditor, is_activated, is_deactivated}
use swpt_creditors.Models.Transfer.{PendingLedgerUpdate, RunningTransfer}
use swpt_creditors.Models.Db.{Db}
use swpt_creditors.Scanners.{Config, belongs_to_parent_shard}

-- `db.session.delete(creditor)` for each row of a query, with what the foreign keys delete with it:
-- the PIN, the accounts with their parts and pending updates, and the running transfers.
unfoldable pub delete_creditors : (Creditor → Bool) → Db → Db
delete_creditors query db = record db {
  creditors = delete_where query db.creditors;
  pin_infos = delete_where (λ p. is_gone p.creditor_id) db.pin_infos;
  accounts = delete_where (λ a. is_gone a.creditor_id) db.accounts;
  account_data = delete_where (λ a. is_gone a.creditor_id) db.account_data;
  account_knowledge = delete_where (λ a. is_gone a.creditor_id) db.account_knowledge;
  account_exchanges = delete_where (λ a. is_gone a.creditor_id) db.account_exchanges;
  account_displays = delete_where (λ a. is_gone a.creditor_id) db.account_displays;
  pending_ledger_updates =
      delete_where (λ (p : PendingLedgerUpdate). is_gone p.creditor_id) db.pending_ledger_updates;
  running_transfers =
      delete_where (λ (rt : RunningTransfer). is_gone rt.creditor_id) db.running_transfers;
}
  where
    is_gone : CreditorId → Bool
    is_gone creditor_id = any_row (λ c. c.creditor_id == creditor_id && query c) db.creditors

unfoldable pub not_activated_for_long_time : Timestamp → Creditor → Bool
unfolding is_activated
not_activated_for_long_time inactive_cutoff_ts c =
    not (is_activated c) && ltb c.created_at inactive_cutoff_ts

abbrev pub is_null_or_before : Date → Option Date → Bool
is_null_or_before cutoff none = true
is_null_or_before cutoff (some date) = ltb date cutoff

unfoldable pub deactivated_long_time_ago : Date → Creditor → Bool
unfolding is_deactivated
deactivated_long_time_ago deactivated_cutoff_date c =
    is_deactivated c && is_null_or_before deactivated_cutoff_date c.deactivation_date

-- `Creditor.creditor_id.in_(ids_to_delete)`, where the IDs are those of the rows that pass a test.
unfoldable pub is_among : (Creditor → Bool) → List Creditor → Creditor → Bool
is_among test rows c = any_row (λ r. r.creditor_id == c.creditor_id) (rows_where test rows)

unfoldable pub delete_not_activated : Config → Timestamp → List Creditor → Db → Db
unfolding delete_creditors not_activated_for_long_time is_among
delete_not_activated config current_ts rows =
    delete_creditors (λ c. is_among expired rows c && expired c)
  where
    expired : Creditor → Bool
    expired = not_activated_for_long_time (current_ts - config.inactive_interval)

unfoldable pub delete_deactivated : Host → Config → Timestamp → List Creditor → Db → Db
unfolding delete_creditors deactivated_long_time_ago is_among
delete_deactivated host config current_ts rows =
    delete_creditors (λ c. is_among expired rows c && expired c)
  where
    expired : Creditor → Bool
    expired = deactivated_long_time_ago (host.date_of (current_ts - config.deactivated_interval))

unfoldable pub delete_parent_shard_creditors : Config → List Creditor → Db → Db
unfolding delete_creditors belongs_to_parent_shard is_among
delete_parent_shard_creditors config rows =
    delete_creditors (is_among (λ c. belongs_to_parent_shard config c.creditor_id) rows)

-- `process_rows`
unfoldable pub scan_creditors : Host → Config → Timestamp → List Creditor → Db → Db
unfolding delete_not_activated delete_deactivated delete_parent_shard_creditors
scan_creditors host config current_ts rows db = delete_deactivated host config current_ts rows (
    delete_not_activated config current_ts rows (
      if config.delete_parent_shard_records
      then delete_parent_shard_creditors config rows db
      else db))
