-- ===== src/Procedures/Log.antt =====
-- The functions of procedures/creditors.py that write and read a creditor's log.
pub mod Numbering
use swpt_creditors.Base.{ℕ, ◌+◌, Bool, ◌&&◌, ◌||◌, Option, none, some, List, [], ◌∷◌, ◌++◌}
use swpt_creditors.Base.Lists.{rows_where, delete_where, take}
use swpt_creditors.Base.Sort.{sort_by}
use swpt_creditors.Base.Tests.{◌==◌, ltb, if◌then◌else◌}
use swpt_creditors.Models.Common.{CreditorId, Timestamp, creditor_does_not_exist}
use swpt_creditors.Models.Log.{
  BaseLogEntry, blank_entry, PendingLogEntry, LogEntry, is_transfer, truthy, is_created,
  get_object_type, oth_transfers_list,
}
use swpt_creditors.Models.Creditor.{Creditor, generate_log_entry_id}
use swpt_creditors.Models.Db.{Db, Tx, ◌>>=◌, ◌>>◌, pure, gets, modify, or_raise}
use swpt_creditors.Procedures.Creditors.{get_creditor, put_creditor}

-- The creditor's row, and the entries that are added to the log.
pub record LogState : Type 0 where
  pub creditor : Creditor
  pub added : List LogEntry

unfoldable pub add_log_entry : BaseLogEntry → LogState → LogState
unfolding generate_log_entry_id
add_log_entry entry s =
    let (creditor', entry_id) = generate_log_entry_id s.creditor in
    record {
      creditor = creditor';
      added =
          s.added
          ++ record { creditor_id = s.creditor.creditor_id; entry_id = entry_id; entry = entry }
            ∷ [];
    }

unfoldable pub add_transfers_list_update_log_entry : Timestamp → LogState → LogState
unfolding add_log_entry
add_transfers_list_update_log_entry added_at s =
    let creditor' : Creditor = record (s.creditor) {
      transfers_list_latest_update_id = s.creditor.transfers_list_latest_update_id + 1;
      transfers_list_latest_update_ts = added_at;
    } in
    add_log_entry
      (record (blank_entry added_at) {
        object_update_id = some creditor'.transfers_list_latest_update_id;
        object_type_hint = some oth_transfers_list;
      })
      (record s { creditor = creditor' })

-- Whether an entry tells of a running transfer that was created or deleted.
unfoldable pub changes_transfers_list : BaseLogEntry → Bool
unfolding get_object_type is_created
changes_transfers_list e = is_transfer (get_object_type e) && (is_created e || truthy e.is_deleted)

-- The branch `if creditor` of `_process_pending_log_entry`.
unfoldable pub process_pending_log_entry : LogState → PendingLogEntry → LogState
unfolding add_log_entry add_transfers_list_update_log_entry changes_transfers_list
process_pending_log_entry s p =
    let s' : LogState = add_log_entry p.entry s in
    if changes_transfers_list p.entry
    then add_transfers_list_update_log_entry p.entry.added_at s'
    else s'

-- The loop over the pending entries.
unfoldable pub process_all : LogState → List PendingLogEntry → LogState
process_all s [] = s
process_all s (p ∷ ps) = process_all (process_pending_log_entry s p) ps

-- The pending entries of a creditor, in the order of their IDs.
unfoldable pub pending_of : CreditorId → Db → List PendingLogEntry
pending_of creditor_id db =
    sort_by (λ p. p.pending_entry_id)
      (rows_where (λ p. p.creditor_id == creditor_id) db.pending_log_entries)

-- `db.session.delete(entry)` for each of them: they are all the creditor's pending entries.
unfoldable pub delete_pending : CreditorId → Db → Db
delete_pending creditor_id db = record db {
  pending_log_entries = delete_where (λ p. p.creditor_id == creditor_id) db.pending_log_entries;
}

-- Without a creditor the entries are only deleted.
unfoldable pub log_for : Option Creditor → List PendingLogEntry → Db → Db
unfolding process_all put_creditor
log_for none ps db = db
log_for (some c) ps db =
    let s : LogState = process_all (record { creditor = c; added = [] }) ps in
    record (put_creditor s.creditor db) { log_entries = db.log_entries ++ s.added }

unfoldable pub process_pending_log_entries : CreditorId → Tx (Unit {0})
unfolding get_creditor pending_of delete_pending log_for
process_pending_log_entries creditor_id = modify (λ db.
    delete_pending creditor_id
      (log_for (get_creditor creditor_id db) (pending_of creditor_id db) db))

is_after : CreditorId → ℕ → LogEntry → Bool
is_after creditor_id prev e = e.creditor_id == creditor_id && ltb prev e.entry_id

unfoldable pub get_log_entries : CreditorId → ℕ → ℕ → Tx (List LogEntry × ℕ)
unfolding get_creditor is_after
get_log_entries creditor_id count prev = do
  creditor ← or_raise (← gets (get_creditor creditor_id)) creditor_does_not_exist
  entries ← gets (λ db.
      take count
        (sort_by (λ e. e.entry_id) (rows_where (is_after creditor_id prev) db.log_entries)))
  pure (entries, creditor.last_log_entry_id)
