-- ===== src/Scanners/Accounts.antt =====
-- `AccountScanner` of table_scanners.py. The intervals are taken to be shorter than the calendar: a
-- cutoff before the least time is an `OverflowError` of the program, and here the least time,
-- which no row is older than.
pub mod Ledger
pub mod CatchUp
use swpt_creditors.Base.{
  ℕ, zero, suc, ◌+◌, ◌-◌, ◌*◌, ◌&&◌, ◌||◌, not, Bool, true, false, Option, none, some, List, [],
  ◌∷◌, ◌++◌,
}
use swpt_creditors.Base.Int.{ℤ, pos, ◌+ℤ◌, ◌-ℤ◌, eq_ℤ, nat_abs}
use swpt_creditors.Base.Lists.{rows_where, any_row, not_empty}
use swpt_creditors.Base.Tests.{◌==◌, ltb, leb, is_none, if◌then◌else◌}
use swpt_creditors.Models.Common.{
  Timestamp, Host, Error, microseconds, assertion_error, integrity_error,
}
use swpt_creditors.Models.Log.{blank_entry, oth_account_ledger, ObjectType, ObjectUri}
use swpt_creditors.Models.Account.{AccountData, LedgerEntry}
use swpt_creditors.Models.Db.{
  Db, Result, ok, err, Tx, ◌>>=◌, ◌>>◌, pure, lift, modify, raise_if, gets, next_uid,
  add_pending_log_entry,
}
use swpt_creditors.Procedures.Common.{contain_principal_overflow}
use swpt_creditors.Procedures.Accounts.{data_key, put_account_data}
use swpt_creditors.Procedures.Ledger.{LedgerUpdate}
use swpt_creditors.Procedures.AccountUpdates.{add_ledger_entries, announce_ledger}
use swpt_creditors.Procedures.TransferSignals.{ensure_pending_ledger_update}
use swpt_creditors.Scanners.{Config, is_valid_creditor_id}

-- `timedelta(hours=1)`
abbrev pub td_hour : Timestamp
td_hour = 3600 * microseconds

unfoldable pub needs_update : Timestamp → AccountData → Bool
needs_update latest_update_cutoff_ts row =
    row.last_transfer_number == row.ledger_last_transfer_number
    && not (eq_ℤ row.ledger_principal row.principal)
    && ltb row.ledger_latest_update_ts latest_update_cutoff_ts

-- `self.pk.in_(…)`, where the keys are those of the rows that pass a test and have a valid ID.
unfoldable pub is_picked : Config → (AccountData → Bool) → List AccountData → AccountData → Bool
unfolding is_valid_creditor_id
is_picked config test rows d =
    any_row (data_key d.creditor_id d.debtor_id)
      (rows_where (λ row. test row && is_valid_creditor_id config row.creditor_id false) rows)

-- The variables of the loop of `_update_ledger`.
pub record LedgerLoop : Type 0 where
  pub ledger_principal : ℤ
  pub ledger_last_entry_id : ℕ
  pub correction_amount : ℤ
  pub entries : List LedgerEntry

unfoldable pub correct_step : AccountData → Timestamp → LedgerLoop → LedgerLoop
correct_step data' current_ts s =
    let safe_correction_amount : ℤ = contain_principal_overflow s.correction_amount in
    let ledger_principal' : ℤ = s.ledger_principal +ℤ safe_correction_amount in
    record {
      ledger_principal = ledger_principal';
      ledger_last_entry_id = s.ledger_last_entry_id + 1;
      correction_amount = s.correction_amount -ℤ safe_correction_amount;
      entries =
          s.entries
          ++ record {
            creditor_id = data'.creditor_id;
            debtor_id = data'.debtor_id;
            entry_id = s.ledger_last_entry_id + 1;
            creation_date = none;
            transfer_number = none;
            acquired_amount = safe_correction_amount;
            principal = ledger_principal';
            added_at = current_ts;
          }
            ∷ [];
    }

-- `while correction_amount != 0`
unfoldable pub correct_steps : AccountData → Timestamp → ℕ → LedgerLoop → LedgerLoop
unfolding correct_step
correct_steps data' current_ts zero s = s
correct_steps data' current_ts (suc fuel) s = elim (eq_ℤ s.correction_amount (pos 0)) [
  | true ↦ s
  | false ↦ correct_steps data' current_ts fuel (correct_step data' current_ts s)
]

-- What follows the loop.
unfoldable pub finish_scan : AccountData → Timestamp → LedgerLoop → LedgerUpdate
finish_scan data' current_ts s = record {
  account = data'';
  entries = s.entries;
  log_entry = some (record (blank_entry current_ts) {
    object_type_hint = some oth_account_ledger;
    debtor_id = some data''.debtor_id;
    object_update_id = some data''.ledger_latest_update_id;
    data_principal = some data'.principal;
    data_next_entry_id = some (data''.ledger_last_entry_id + 1);
  });
}
  where
    data'' : AccountData
    data'' = record data' {
      ledger_last_entry_id = s.ledger_last_entry_id;
      ledger_principal = data'.principal;
      ledger_latest_update_id = data'.ledger_latest_update_id + 1;
      ledger_latest_update_ts = current_ts;
    }

unfoldable pub start_loop : AccountData → LedgerLoop
start_loop data' = record {
  ledger_principal = data'.ledger_principal;
  ledger_last_entry_id = data'.ledger_last_entry_id;
  correction_amount = data'.principal -ℤ data'.ledger_principal;
  entries = [];
}

-- `_update_ledger`. Each round brings the amount nearer to 0, so that its size is fuel enough.
unfoldable pub scan_update_ledger : AccountData → Timestamp → Result LedgerUpdate
unfolding start_loop correct_steps finish_scan
scan_update_ledger data' current_ts =
    let s : LedgerLoop = start_loop data' in
    if eq_ℤ s.correction_amount (pos 0)
    then err assertion_error
    else ok (
        finish_scan data' current_ts
          (correct_steps data' current_ts (nat_abs s.correction_amount) s))

-- One account of the query's result.
unfoldable pub update_one : Timestamp → AccountData → Tx (Unit {0})
unfolding scan_update_ledger put_account_data add_ledger_entries announce_ledger
update_one current_ts data' = do
  u ← lift (scan_update_ledger data' current_ts)
  modify (λ db.
      announce_ledger current_ts u.account u.account.principal u.account.ledger_last_transfer_number
        u.log_entry (add_ledger_entries u (put_account_data u.account db)))

unfoldable pub update_each : Timestamp → List AccountData → Tx (Unit {0})
unfolding update_one
update_each current_ts [] = pure tt
update_each current_ts (data' ∷ to_update) =
    update_one current_ts data' >> update_each current_ts to_update

-- Whether a scanned row passes a test and has a valid ID.
unfoldable pub is_any_picked : Config → (AccountData → Bool) → List AccountData → Bool
unfolding is_valid_creditor_id
is_any_picked config test rows =
    not_empty
      (rows_where (λ row. test row && is_valid_creditor_id config row.creditor_id false) rows)

-- The branch `if pks_to_update`.
unfoldable pub update_picked : Host → Config → List AccountData → Timestamp → Tx (Unit {0})
unfolding needs_update is_picked update_each next_uid
update_picked host config rows current_ts = do
  to_update ← gets (λ db.
      rows_where
        (λ d.
          is_picked config (needs_update (current_ts - td_hour)) rows d
          && needs_update (current_ts - td_hour) d)
        db.account_data)
  update_each current_ts to_update
  modify (next_uid host)

-- `_update_ledgers_if_necessary`, a transaction.
unfoldable pub update_ledgers_if_necessary :
    Host → Config → List AccountData → Timestamp → Tx (Unit {0})
unfolding needs_update is_any_picked update_picked
update_ledgers_if_necessary host config rows current_ts =
    if is_any_picked config (needs_update (current_ts - td_hour)) rows
    then update_picked host config rows current_ts
    else pure tt

unfoldable pub needs_repair : Timestamp → AccountData → Bool
needs_repair committed_at_cutoff row =
    if leb row.last_transfer_number row.ledger_last_transfer_number
    then false
    else elim row.ledger_pending_transfer_ts [
      | some ts ↦ ltb ts committed_at_cutoff
      | none ↦ ltb row.last_transfer_committed_at committed_at_cutoff
    ]

-- The insertions. A row of an account that is there no more violates a foreign key.
unfoldable pub ensure_each : List AccountData → Tx (Unit {0})
unfolding ensure_pending_ledger_update
ensure_each [] = pure tt
ensure_each (row ∷ rows) = do
  there ← gets (λ db. any_row (data_key row.creditor_id row.debtor_id) db.account_data)
  raise_if (not there) integrity_error
  modify (ensure_pending_ledger_update row.creditor_id row.debtor_id)
  ensure_each rows

-- `_schedule_ledger_repairs_if_necessary`, a transaction.
unfoldable pub schedule_ledger_repairs_if_necessary :
    Config → List AccountData → Timestamp → Tx (Unit {0})
unfolding needs_repair is_valid_creditor_id ensure_each
schedule_ledger_repairs_if_necessary config rows current_ts = ensure_each (
    rows_where
      (λ row.
        needs_repair (current_ts - config.max_transfer_delay) row
        && is_valid_creditor_id config row.creditor_id false)
      rows)

unfoldable pub has_unreported_config_problem : Timestamp → Timestamp → AccountData → Bool
has_unreported_config_problem last_heartbeat_ts_cutoff last_config_ts_cutoff row =
    (not row.is_config_effectual
      || row.has_server_account && ltb row.last_heartbeat_ts last_heartbeat_ts_cutoff)
    && is_none row.config_error
    && ltb row.last_config_ts last_config_ts_cutoff

-- `_set_config_error`, and the flush.
unfoldable pub set_config_error : Timestamp → AccountData → Db → Db
unfolding put_account_data add_pending_log_entry
set_config_error current_ts data' db =
    add_pending_log_entry data''.creditor_id
      (record (blank_entry current_ts) {
        object_type = some ObjectType.account_info;
        object_uri = some (ObjectUri.account_info data''.creditor_id data''.debtor_id);
        object_update_id = some data''.info_latest_update_id;
      })
      (put_account_data data'' db)
  where
    data'' : AccountData
    data'' = record data' {
      config_error = some "CONFIGURATION_IS_NOT_EFFECTUAL";
      info_latest_update_id = data'.info_latest_update_id + 1;
      info_latest_update_ts = current_ts;
    }

unfoldable pub set_each : Timestamp → List AccountData → Db → Db
unfolding set_config_error
set_each current_ts [] db = db
set_each current_ts (data' ∷ to_set) db =
    set_each current_ts to_set (set_config_error current_ts data' db)

-- `_set_config_errors_if_necessary`, a transaction.
unfoldable pub set_config_errors_if_necessary :
    Host → Config → List AccountData → Timestamp → Db → Db
unfolding has_unreported_config_problem is_picked is_any_picked set_each next_uid
set_config_errors_if_necessary host config rows current_ts db =
    let problem : AccountData → Bool =
      has_unreported_config_problem (current_ts - config.max_heartbeat_delay)
        (current_ts - config.max_config_delay) in
    if is_any_picked config problem rows
    then next_uid host (
        set_each current_ts
          (rows_where (λ d. is_picked config problem rows d && problem d) db.account_data) db)
    else db

-- `process_rows`: three transactions. The first one that raises ends the call, and those before it
-- stay committed.
unfoldable pub scan_accounts : Host → Config → Timestamp → List AccountData → Db → Db × Option Error
unfolding update_ledgers_if_necessary schedule_ledger_repairs_if_necessary
    set_config_errors_if_necessary
scan_accounts host config current_ts rows db =
    elim (update_ledgers_if_necessary host config rows current_ts db) [
      | err e ↦ (db, some e)
      | ok (_, db1) ↦ elim (schedule_ledger_repairs_if_necessary config rows current_ts db1) [
        | err e ↦ (db1, some e)
        | ok (_, db2) ↦ (set_config_errors_if_necessary host config rows current_ts db2, none)
      ]
    ]
