-- ===== src/Procedures/Ledger.antt =====
-- The functions of procedures/account_updates.py that add entries to an account's ledger:
-- `_update_ledger`, `_make_correcting_ledger_entry_if_necessary` and
-- `_fix_missing_last_transfer_if_necessary`. What they add to the session is part of the result.
pub mod Chain
pub mod Correct
pub mod Update
use swpt_creditors.Base.{
  ℕ, zero, suc, ◌+◌, ◌-◌, Bool, true, false, ◌&&◌, ◌||◌, Option, none, some, List, [], ◌∷◌, ◌++◌,
}
use swpt_creditors.Base.Int.{ℤ, pos, ◌+ℤ◌, ◌-ℤ◌, eq_ℤ, nat_abs}
use swpt_creditors.Base.Tests.{ltb, is_none, if◌then◌else◌}
use swpt_creditors.Models.Common.{Timestamp, is_int64, assertion_error}
use swpt_creditors.Models.Log.{BaseLogEntry, blank_entry, oth_account_ledger}
use swpt_creditors.Models.Account.{AccountData, LedgerEntry}
use swpt_creditors.Models.Db.{Result, ok, err}
use swpt_creditors.Procedures.Common.{contain_principal_overflow}

-- The variables of the correcting loop.
pub record Correction : Type 0 where
  pub account : AccountData
  pub ledger_principal : ℤ
  pub correction_amount : ℤ
  pub entries : List LedgerEntry
  pub made_correcting_ledger_entry : Bool

-- A round of the loop.
unfoldable pub correct_once : Timestamp → Correction → Correction
correct_once current_ts s = record s {
  account = account';
  ledger_principal = s.ledger_principal +ℤ safe_correction_amount;
  correction_amount = s.correction_amount -ℤ safe_correction_amount;
  entries =
      s.entries
      ++ record {
        creditor_id = account'.creditor_id;
        debtor_id = account'.debtor_id;
        entry_id = account'.ledger_last_entry_id;
        creation_date = none;
        transfer_number = none;
        acquired_amount = safe_correction_amount;
        principal = s.ledger_principal +ℤ safe_correction_amount;
        added_at = current_ts;
      }
        ∷ [];
  made_correcting_ledger_entry = true;
}
  where
    safe_correction_amount : ℤ
    safe_correction_amount = contain_principal_overflow s.correction_amount

    account' : AccountData
    account' = record (s.account) { ledger_last_entry_id = s.account.ledger_last_entry_id + 1 }

-- `while correction_amount != 0`
unfoldable pub correct_all : ℕ → Timestamp → Correction → Correction
correct_all zero current_ts s = s
correct_all (suc fuel) current_ts s = elim (eq_ℤ s.correction_amount (pos 0)) [
  | true ↦ s
  | false ↦ correct_all fuel current_ts (correct_once current_ts s)
]

-- The loop's start.
unfoldable pub start_correction : AccountData → ℤ → Correction
start_correction account previous_principal = record {
  account = account;
  ledger_principal = account.ledger_principal;
  correction_amount = previous_principal -ℤ account.ledger_principal;
  entries = [];
  made_correcting_ledger_entry = false;
}

-- Each round brings the amount nearer to 0, so that its size is fuel enough.
unfoldable pub make_correcting_ledger_entry_if_necessary :
    AccountData → ℤ → ℤ → Timestamp → Correction
unfolding correct_all start_correction
make_correcting_ledger_entry_if_necessary account acquired_amount principal current_ts =
    let s : Correction = start_correction account (principal -ℤ acquired_amount) in
    if is_int64 (principal -ℤ acquired_amount)
    then correct_all (nat_abs s.correction_amount) current_ts s
    else s

-- The account, the new ledger entries, and the pending log entry, if there is one.
pub record LedgerUpdate : Type 0 where
  pub account : AccountData
  pub entries : List LedgerEntry
  pub log_entry : Option BaseLogEntry

-- The entry of a transfer.
unfoldable pub transfer_entry : AccountData → ℕ → ℤ → ℤ → Timestamp → LedgerEntry
transfer_entry account transfer_number acquired_amount principal current_ts = record {
  creditor_id = account.creditor_id;
  debtor_id = account.debtor_id;
  entry_id = account.ledger_last_entry_id;
  creation_date = some account.creation_date;
  transfer_number = some transfer_number;
  acquired_amount = acquired_amount;
  principal = principal;
  added_at = current_ts;
}

-- `if acquired_amount != 0: …`
unfoldable pub add_transfer_entry : Correction → ℕ → ℤ → ℤ → Timestamp → Correction
unfolding transfer_entry
add_transfer_entry s transfer_number acquired_amount principal current_ts =
    if eq_ℤ acquired_amount (pos 0) then s else record s {
      account = account';
      entries =
          s.entries
          ++ transfer_entry account' transfer_number acquired_amount principal current_ts ∷ [];
      made_correcting_ledger_entry = true;
    }
  where
    account' : AccountData
    account' = record (s.account) { ledger_last_entry_id = s.account.ledger_last_entry_id + 1 }

-- The last part of `_update_ledger`: `should_insert` says whether an entry was added.
unfoldable pub finish_update : Correction → ℕ → ℤ → Timestamp → Bool → LedgerUpdate
finish_update s transfer_number principal current_ts always_insert =
    if s.made_correcting_ledger_entry || always_insert
    then record { account = logged; entries = s.entries; log_entry = some ledger_log_entry }
    else record { account = moved; entries = s.entries; log_entry = none }
  where
    moved : AccountData
    moved = record (s.account) {
      ledger_principal = principal;
      ledger_last_transfer_number = transfer_number;
    }

    logged : AccountData
    logged = record moved {
      ledger_latest_update_id = moved.ledger_latest_update_id + 1;
      ledger_latest_update_ts = current_ts;
    }

    ledger_log_entry : BaseLogEntry
    ledger_log_entry = record (blank_entry current_ts) {
      object_type_hint = some oth_account_ledger;
      debtor_id = some logged.debtor_id;
      object_update_id = some logged.ledger_latest_update_id;
      data_principal = some principal;
      data_next_entry_id = some (logged.ledger_last_entry_id + 1);
    }

unfoldable pub update_ledger : AccountData → ℕ → ℤ → ℤ → Timestamp → Bool → Result LedgerUpdate
unfolding make_correcting_ledger_entry_if_necessary add_transfer_entry finish_update
update_ledger account transfer_number acquired_amount principal current_ts always_insert =
    let s : Correction =
      add_transfer_entry
        (make_correcting_ledger_entry_if_necessary account acquired_amount principal current_ts)
        transfer_number acquired_amount principal current_ts in
    if s.made_correcting_ledger_entry || eq_ℤ s.account.ledger_principal principal
    then ok (finish_update s transfer_number principal current_ts always_insert)
    else err assertion_error

-- The update that changes nothing.
abbrev pub no_update : AccountData → LedgerUpdate
no_update account = record { account = account; entries = []; log_entry = none }

-- `last_transfer_committed_at < current_ts - max_delay`; the difference of a longer delay than
-- the calendar reaches back is an `OverflowError`, which is raised before (`cutoff`).
unfoldable pub fix_missing_last_transfer_if_necessary :
    AccountData → Timestamp → Timestamp → Result LedgerUpdate
unfolding update_ledger
fix_missing_last_transfer_if_necessary account max_delay current_ts =
    if is_none account.ledger_pending_transfer_ts
      && ltb account.ledger_last_transfer_number account.last_transfer_number
      && ltb account.last_transfer_committed_at (current_ts - max_delay)
    then update_ledger account account.last_transfer_number (pos 0) account.principal current_ts
        false
    else ok (no_update account)
