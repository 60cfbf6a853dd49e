-- ===== src/StoredProcedures/Ledger.antt =====
-- `contain_principal_overflow`, `make_correcting_ledger_entry_if_necessary` and `update_ledger` of
-- migrations/versions/dd24bce84ed1_processing_procedures.py. The rows that they insert in the table
-- `ledger_entry` are part of the result.
pub mod Agrees
use swpt_creditors.Base.{
  ℕ, zero, suc, ◌+◌, ◌-◌, ◌^◌, Bool, true, false, not, Option, none, some, List, [], ◌∷◌, ◌++◌,
  String,
}
use swpt_creditors.Base.Int.{ℤ, pos, negsuc, ◌+ℤ◌, ◌-ℤ◌, eq_ℤ, ltb_ℤ, nat_abs}
use swpt_creditors.Base.Tests.{if◌then◌else◌}
use swpt_creditors.Models.Common.{
  CreditorId, DebtorId, Timestamp, Date, is_int64, max_int64, numeric_value_out_of_range,
}
use swpt_creditors.Models.Log.{BaseLogEntry, blank_entry, Hint, oth_account_ledger}
use swpt_creditors.Models.Account.{AccountData, LedgerEntry}
use swpt_creditors.Models.Db.{Result, ok, err}

-- The type `account_ledger_data`.
pub record AccountLedgerData : Type 0 where
  pub creditor_id : CreditorId
  pub debtor_id : DebtorId
  pub creation_date : Date
  pub principal : ℤ
  pub account_id : String
  pub ledger_principal : ℤ
  pub ledger_last_entry_id : ℕ
  pub ledger_last_transfer_number : ℕ
  pub ledger_latest_update_id : ℕ
  pub ledger_latest_update_ts : Timestamp
  pub ledger_pending_transfer_ts : Option Timestamp
  pub last_transfer_number : ℕ
  pub last_transfer_committed_at : Timestamp

-- `SELECT … INTO STRICT data` of `process_pending_ledger_update`, with NULL for `ledger_pending_transfer_ts`.
unfoldable pub select_ledger_data : AccountData → AccountLedgerData
select_ledger_data d = record {
  creditor_id = d.creditor_id;
  debtor_id = d.debtor_id;
  creation_date = d.creation_date;
  principal = d.principal;
  account_id = d.account_id;
  ledger_principal = d.ledger_principal;
  ledger_last_entry_id = d.ledger_last_entry_id;
  ledger_last_transfer_number = d.ledger_last_transfer_number;
  ledger_latest_update_id = d.ledger_latest_update_id;
  ledger_latest_update_ts = d.ledger_latest_update_ts;
  ledger_pending_transfer_ts = none;
  last_transfer_number = d.last_transfer_number;
  last_transfer_committed_at = d.last_transfer_committed_at;
}

-- The type `pending_log_entry_result`; the hint is a number, 4 for an account's ledger.
pub record PendingLogEntryResult : Type 0 where
  pub creditor_id : CreditorId
  pub added_at : Timestamp
  pub object_type_hint : Hint
  pub debtor_id : DebtorId
  pub object_update_id : ℕ
  pub data_principal : ℤ
  pub data_next_entry_id : ℕ

-- The row that is inserted in `pending_log_entry`, without its keys.
unfoldable pub log_row : PendingLogEntryResult → BaseLogEntry
log_row e = record (blank_entry e.added_at) {
  object_update_id = some e.object_update_id;
  object_type_hint = some e.object_type_hint;
  debtor_id = some e.debtor_id;
  data_principal = some e.data_principal;
  data_next_entry_id = some e.data_next_entry_id;
}

unfoldable pub contain_principal_overflow_sp : ℤ → ℤ
contain_principal_overflow_sp value =
    if ltb_ℤ value (negsuc (2 ^ 63 - 2))
    then negsuc (2 ^ 63 - 2)
    else if ltb_ℤ max_int64 value
    then max_int64
    else value

-- The variables of the correcting loop.
pub record CorrectionSp : Type 0 where
  pub data' : AccountLedgerData
  pub ledger_principal : ℤ
  pub correction_amount : ℤ
  pub entries : List LedgerEntry
  pub made_correcting_ledger_entry : Bool

-- A round of the loop. `ledger_principal` is a BIGINT.
unfoldable pub correct_once_sp : Timestamp → CorrectionSp → Result CorrectionSp
unfolding contain_principal_overflow_sp
correct_once_sp current_ts s =
    if is_int64 ledger_principal'
    then ok (record {
      data' = data'';
      ledger_principal = ledger_principal';
      correction_amount = s.correction_amount -ℤ safe_amount;
      entries =
          s.entries
          ++ record {
            creditor_id = data''.creditor_id;
            debtor_id = data''.debtor_id;
            entry_id = data''.ledger_last_entry_id;
            creation_date = none;
            transfer_number = none;
            acquired_amount = safe_amount;
            principal = ledger_principal';
            added_at = current_ts;
          }
            ∷ [];
      made_correcting_ledger_entry = true;
    })
    else err numeric_value_out_of_range
  where
    safe_amount : ℤ
    safe_amount = contain_principal_overflow_sp s.correction_amount

    ledger_principal' : ℤ
    ledger_principal' = s.ledger_principal +ℤ safe_amount

    data'' : AccountLedgerData
    data'' = record (s.data') { ledger_last_entry_id = s.data'.ledger_last_entry_id + 1 }

-- `LOOP EXIT WHEN correction_amount = 0; …`
unfoldable pub correct_all_sp : ℕ → Timestamp → CorrectionSp → Result CorrectionSp
unfolding correct_once_sp
correct_all_sp zero current_ts s = ok s
correct_all_sp (suc fuel) current_ts s = elim (eq_ℤ s.correction_amount (pos 0)) [
  | true ↦ ok s
  | false ↦ elim (correct_once_sp current_ts s) [
    | ok s' ↦ correct_all_sp fuel current_ts s'
    | err e ↦ err e
  ]
]

unfoldable pub start_correction_sp : AccountLedgerData → ℤ → CorrectionSp
start_correction_sp data' previous_principal = record {
  data' = data';
  ledger_principal = data'.ledger_principal;
  correction_amount = previous_principal -ℤ data'.ledger_principal;
  entries = [];
  made_correcting_ledger_entry = false;
}

-- Each round brings the amount nearer to 0, so that its size is fuel enough.
unfoldable pub make_correcting_ledger_entry_if_necessary_sp :
    AccountLedgerData → ℤ → ℤ → Timestamp → Result CorrectionSp
unfolding correct_all_sp start_correction_sp
make_correcting_ledger_entry_if_necessary_sp data' acquired_amount principal current_ts =
    let s : CorrectionSp = start_correction_sp data' (principal -ℤ acquired_amount) in
    if is_int64 (principal -ℤ acquired_amount)
    then correct_all_sp (nat_abs s.correction_amount) current_ts s
    else ok s

-- The type `update_ledger_result`, with the rows that are inserted on the way.
pub record UpdateLedgerResult : Type 0 where
  pub data' : AccountLedgerData
  pub log_entry : Option PendingLogEntryResult
  pub entries : List LedgerEntry

-- `IF acquired_amount != 0 THEN …`; the flag becomes `should_return_log_entry`.
unfoldable pub add_transfer_entry_sp : CorrectionSp → ℕ → ℤ → ℤ → Timestamp → CorrectionSp
add_transfer_entry_sp s transfer_number acquired_amount principal current_ts =
    if not (eq_ℤ acquired_amount (pos 0))
    then record s {
      data' = data'';
      entries =
          s.entries
          ++ record {
            creditor_id = data''.creditor_id;
            debtor_id = data''.debtor_id;
            entry_id = data''.ledger_last_entry_id;
            creation_date = some data''.creation_date;
            transfer_number = some transfer_number;
            acquired_amount = acquired_amount;
            principal = principal;
            added_at = current_ts;
          }
            ∷ [];
      made_correcting_ledger_entry = true;
    }
    else s
  where
    data'' : AccountLedgerData
    data'' = record (s.data') { ledger_last_entry_id = s.data'.ledger_last_entry_id + 1 }

-- The rest of `update_ledger`. Nothing is asserted.
unfoldable pub finish_update_sp : CorrectionSp → ℕ → ℤ → Timestamp → UpdateLedgerResult
finish_update_sp s transfer_number principal current_ts =
    if s.made_correcting_ledger_entry
    then record {
      data' = logged;
      log_entry = some (record {
        creditor_id = logged.creditor_id;
        added_at = current_ts;
        object_type_hint = oth_account_ledger;
        debtor_id = logged.debtor_id;
        object_update_id = logged.ledger_latest_update_id;
        data_principal = principal;
        data_next_entry_id = logged.ledger_last_entry_id + 1;
      });
      entries = s.entries;
    }
    else record { data' = moved; log_entry = none; entries = s.entries }
  where
    moved : AccountLedgerData
    moved = record (s.data') {
      ledger_principal = principal;
      ledger_last_transfer_number = transfer_number;
    }

    logged : AccountLedgerData
    logged = record moved {
      ledger_latest_update_id = moved.ledger_latest_update_id + 1;
      ledger_latest_update_ts = current_ts;
    }

unfoldable pub update_ledger_sp :
    AccountLedgerData → ℕ → ℤ → ℤ → Timestamp → Result UpdateLedgerResult
unfolding make_correcting_ledger_entry_if_necessary_sp add_transfer_entry_sp finish_update_sp
update_ledger_sp data' transfer_number acquired_amount principal current_ts =
    elim (make_correcting_ledger_entry_if_necessary_sp data' acquired_amount principal current_ts) [
      | ok s ↦ ok (
          finish_update_sp
            (add_transfer_entry_sp s transfer_number acquired_amount principal current_ts)
            transfer_number principal current_ts)
      | err e ↦ err e
    ]
