-- ===== src/StoredProcedures/Log.antt =====
-- `process_pending_log_entries` of migrations/versions/dd24bce84ed1_processing_procedures.py. Its
-- query has no `ORDER BY`: the order in which the database returns rows is the argument `scan`.
pub mod Deletions
pub mod Agrees
use swpt_creditors.Base.{
  ℕ, ◌+◌, Bool, true, false, ◌&&◌, ◌||◌, Option, none, some, List, [], ◌∷◌, ◌++◌,
}
use swpt_creditors.Base.Lists.{rows_where, delete_where, update_where}
use swpt_creditors.Base.Tests.{◌==◌, is_none, if◌then◌else◌}
use swpt_creditors.Models.Common.{CreditorId}
use swpt_creditors.Models.Log.{
  BaseLogEntry, blank_entry, PendingLogEntry, LogEntry, ObjectType, is_transfer, truthy, Hint,
  oth_transfer, oth_transfers_list,
}
use swpt_creditors.Models.Creditor.{Creditor}
use swpt_creditors.Models.Db.{Db, Tx, modify}
use swpt_creditors.Procedures.Creditors.{has_creditor_id, get_creditor}
use swpt_creditors.Procedures.Log.{LogState, process_pending_log_entries}

-- `entry.object_type_hint = 1`, NULL being false
abbrev pub is_transfer_hint : Option Hint → Bool
is_transfer_hint none = false
is_transfer_hint (some oth_transfer) = true
is_transfer_hint (some _) = false

-- `entry.object_type = 'Transfer'`
abbrev pub is_transfer_type : Option ObjectType → Bool
is_transfer_type none = false
is_transfer_type (some t) = is_transfer t

-- `entry.object_update_id IS NULL OR entry.object_update_id = 1`
abbrev pub is_null_or_one : Option ℕ → Bool
is_null_or_one none = true
is_null_or_one (some n) = n == 1

unfoldable pub changes_transfers_list_sp : BaseLogEntry → Bool
changes_transfers_list_sp e =
    (is_none e.object_type && is_transfer_hint e.object_type_hint || is_transfer_type e.object_type)
    && (is_null_or_one e.object_update_id || truthy e.is_deleted)

-- The two `INSERT INTO log_entry`, with the changes of `cr`.
unfoldable pub process_entry_sp : LogState → PendingLogEntry → LogState
unfolding changes_transfers_list_sp
process_entry_sp s p =
    if changes_transfers_list_sp p.entry
    then record {
      creditor = listed;
      added =
          copied
          ++ record {
            creditor_id = listed.creditor_id;
            entry_id = listed.last_log_entry_id;
            entry = record (blank_entry listed.transfers_list_latest_update_ts) {
              object_update_id = some listed.transfers_list_latest_update_id;
              object_type_hint = some oth_transfers_list;
            };
          }
            ∷ [];
    }
    else record { creditor = cr; added = copied }
  where
    cr : Creditor
    cr = record (s.creditor) { last_log_entry_id = s.creditor.last_log_entry_id + 1 }

    copied : List LogEntry
    copied =
        s.added
        ++ record { creditor_id = cr.creditor_id; entry_id = cr.last_log_entry_id; entry = p.entry }
          ∷ []

    listed : Creditor
    listed = record cr {
      last_log_entry_id = cr.last_log_entry_id + 1;
      transfers_list_latest_update_ts = p.entry.added_at;
      transfers_list_latest_update_id = cr.transfers_list_latest_update_id + 1;
    }

-- The loop's insertions, where `cr` was found.
unfoldable pub process_entries_sp : LogState → List PendingLogEntry → LogState
process_entries_sp s [] = s
process_entries_sp s (p ∷ ps) = process_entries_sp (process_entry_sp s p) ps

-- `WHERE creditor_id = entry.creditor_id AND pending_entry_id = entry.pending_entry_id`
abbrev pub is_same_entry : PendingLogEntry → PendingLogEntry → Bool
is_same_entry entry p =
    p.creditor_id == entry.creditor_id && p.pending_entry_id == entry.pending_entry_id

-- The loop's deletions.
unfoldable pub delete_entries_sp :
    List PendingLogEntry → List PendingLogEntry → List PendingLogEntry
delete_entries_sp [] rows = rows
delete_entries_sp (entry ∷ entries) rows =
    delete_entries_sp entries (delete_where (is_same_entry entry) rows)

-- `UPDATE creditor SET …`
unfoldable pub set_creditor : Creditor → Creditor → Creditor
set_creditor cr c = record c {
  last_log_entry_id = cr.last_log_entry_id;
  transfers_list_latest_update_id = cr.transfers_list_latest_update_id;
  transfers_list_latest_update_ts = cr.transfers_list_latest_update_ts;
}

unfoldable pub log_for_sp : CreditorId → Option Creditor → List PendingLogEntry → Db → Db
unfolding process_entries_sp set_creditor
log_for_sp cid none entries db = db
log_for_sp cid (some c) entries db =
    let s : LogState = process_entries_sp (record { creditor = c; added = [] }) entries in
    record db {
      creditors = update_where (has_creditor_id cid) (set_creditor s.creditor) db.creditors;
      log_entries = db.log_entries ++ s.added;
    }

-- The rows that the loop runs over.
unfoldable pub scanned :
    (List PendingLogEntry → List PendingLogEntry) → CreditorId → Db → List PendingLogEntry
scanned scan cid db = scan (rows_where (λ p. p.creditor_id == cid) db.pending_log_entries)

unfoldable pub process_pending_log_entries_sp :
    (List PendingLogEntry → List PendingLogEntry) → CreditorId → Tx (Unit {0})
unfolding get_creditor log_for_sp delete_entries_sp scanned
process_pending_log_entries_sp scan cid = modify (λ db.
    let entries : List PendingLogEntry = scanned scan cid db in
    let db' : Db = log_for_sp cid (get_creditor cid db) entries db in
    record db' { pending_log_entries = delete_entries_sp entries db'.pending_log_entries })

-- `process_pending_log_entries` of procedures/creditors.py with both of its branches: the flag is
-- `APP_USE_PGPLSQL_FUNCTIONS`.
unfoldable pub call_process_pending_log_entries :
    Bool → (List PendingLogEntry → List PendingLogEntry) → CreditorId → Tx (Unit {0})
call_process_pending_log_entries true scan creditor_id =
    process_pending_log_entries_sp scan creditor_id
call_process_pending_log_entries false scan creditor_id = process_pending_log_entries creditor_id
