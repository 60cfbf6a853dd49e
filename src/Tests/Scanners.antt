-- ===== src/Tests/Scanners.antt =====
-- The scanners at concrete inputs.
use swpt_creditors.Base.{◌≡◌, refl, inl, true, false, some, [], ◌∷◌, arith}
use swpt_creditors.Base.Int.{pos, int_laws}
use swpt_creditors.Base.Lists.{rows_where, delete_where}
use swpt_creditors.Models.Log.{LogEntry, blank_entry}
use swpt_creditors.Models.Account.{AccountData, LedgerEntry}
use swpt_creditors.Models.Creditor.{is_activated, is_deactivated}
use swpt_creditors.Models.Db.{Db, ok}
use swpt_creditors.Procedures.Accounts.{get_account_data}
use swpt_creditors.Procedures.Ledger.{LedgerUpdate}
use swpt_creditors.Procedures.Ledger.Update.{Updates}
use swpt_creditors.Procedures.LedgerUpdates.{get_sorted_pending_transfers, is_pending_transfer}
use swpt_creditors.Procedures.LedgerUpdates.Progress.{IsSound}
use swpt_creditors.Scanners.{Config, is_valid_creditor_id, belongs_to_parent_shard}
use swpt_creditors.Scanners.Creditors.{scan_creditors}
use swpt_creditors.Scanners.Creditors.Survival.{Survives, scan_creditors-Survives}
use swpt_creditors.Scanners.Retention.{
  scan_log_entries, is_stale_ledger_entry, scan_ledger_entries, is_same_transfer,
  scan_committed_transfers,
}
use swpt_creditors.Scanners.Retention.Kept.{scan_committed_transfers-keeps}
use swpt_creditors.Scanners.Retention.Whole.{is_outdated, whole_scans}
use swpt_creditors.Scanners.Accounts.{scan_update_ledger, needs_repair}
use swpt_creditors.Scanners.Accounts.Ledger.{scan_update_ledger-Updates}
use swpt_creditors.Scanners.Accounts.CatchUp.{
  CaughtUp, schedule_ledger_repairs_if_necessary-CaughtUp,
}
use swpt_creditors.Tests.Data.{host, account, third_transfer, creditor, db}

abbrev pub config : Config
config = record {
  min_creditor_id = 0;
  max_creditor_id = 100;
  realm_match = λ creditor_id match_parent. true;
  delete_parent_shard_records = true;
  inactive_interval = 10;
  deactivated_interval = 10;
  log_retention_interval = 300;
  ledger_retention_interval = 400;
  max_transfer_delay = 500;
  max_heartbeat_delay = 100;
  max_config_delay = 100;
}

scan_creditors-Survives_example :
    Survives creditor db (scan_creditors host config 1000 (creditor ∷ []) db)
unfolding is_activated is_deactivated belongs_to_parent_shard is_valid_creditor_id
scan_creditors-Survives_example =
    scan_creditors-Survives host config 1000 (creditor ∷ []) creditor db refl (λ h. refl, tt) refl

abbrev entry : LedgerEntry
entry = record {
  creditor_id = 7;
  debtor_id = 3;
  entry_id = 7;
  creation_date = some 20;
  transfer_number = some 3;
  acquired_amount = pos 1;
  principal = pos 1;
  added_at = 800;
}

abbrev log_entry : LogEntry
log_entry = record { creditor_id = 7; entry_id = 1; entry = blank_entry 600 }

abbrev full : Db
full = record db { ledger_entries = entry ∷ []; log_entries = log_entry ∷ [] }

whole_scans_example :
    (scan_log_entries config 1000 full.log_entries full ≡ record full {
      log_entries =
          delete_where
            (λ e. is_outdated config 1000 300 e.entry.added_at e.creditor_id)
            full.log_entries;
    })
    × (scan_ledger_entries config 1000 full.ledger_entries full ≡ record full {
      ledger_entries =
          delete_where
            (λ e. is_outdated config 1000 400 e.added_at e.creditor_id)
            full.ledger_entries;
    })
    × (scan_committed_transfers config 1000 full.committed_transfers full ≡ record full {
      committed_transfers =
          delete_where
            (λ t. is_outdated config 1000 900 t.committed_at t.creditor_id)
            full.committed_transfers;
    })
whole_scans_example =
    whole_scans config 1000 full ((λ g h. refl, tt), tt) ((λ f g h. refl, tt), tt)
      ((λ e f g h. refl, tt), tt)

scan_committed_transfers-keeps_example :
    rows_where
      (is_same_transfer third_transfer)
      (scan_committed_transfers config 1000 (third_transfer ∷ []) full).committed_transfers
    ≡ rows_where (is_same_transfer third_transfer) full.committed_transfers
unfolding is_stale_ledger_entry belongs_to_parent_shard is_valid_creditor_id
scan_committed_transfers-keeps_example =
    scan_committed_transfers-keeps config 1000 (third_transfer ∷ []) third_transfer (inl entry) full
      (λ h. refl, tt) (refl, omega arith) refl

scan_update_ledger-Updates_example :
    (u : LedgerUpdate) × (scan_update_ledger account 1000 ≡ ok u)
    × Updates account 2 (pos 12) false u
scan_update_ledger-Updates_example =
    scan_update_ledger-Updates account 1000 (omega int_laws, omega int_laws)
      (omega int_laws, omega int_laws) (λ e. cc)

-- The account when its fourth transfer was lost.
abbrev behind : AccountData
behind = record account { last_transfer_number = 4 }

abbrev behind_db : Db
behind_db = record db { account_data = behind ∷ []; pending_ledger_updates = [] }

third-IsSound' : IsSound third_transfer
third-IsSound' = (
  (omega int_laws, omega int_laws),
  (omega int_laws, omega int_laws),
  (omega int_laws, omega int_laws),
)

schedule_ledger_repairs_if_necessary-CaughtUp_example :
    CaughtUp host config 1000 10 behind behind_db
unfolding get_account_data get_sorted_pending_transfers is_pending_transfer needs_repair
    is_valid_creditor_id
schedule_ledger_repairs_if_necessary-CaughtUp_example =
    schedule_ledger_repairs_if_necessary-CaughtUp host config 1000 10 behind behind_db refl refl
      refl (omega arith) (third-IsSound', tt) (omega int_laws, omega int_laws)
      (omega int_laws, omega int_laws) (omega arith, tt) (omega arith) (omega arith)
