-- ===== src/Tests/Ledger.antt =====
-- The ledger at concrete inputs.
use swpt_creditors.Base.{◌≤◌, ◌<◌, ◌≡◌, refl, Bool, false, [], ◌∷◌, ◌++◌, none, some, arith}
use swpt_creditors.Base.Int.{pos, negsuc, ◌-ℤ◌, ◌+ℤ◌, int_laws}
use swpt_creditors.Models.Log.{blank_entry, oth_account_ledger}
use swpt_creditors.Models.Db.{Db, ok}
use swpt_creditors.Procedures.Common.{contain_principal_overflow}
use swpt_creditors.Procedures.Accounts.{get_account_data}
use swpt_creditors.Procedures.Ledger.{
  LedgerUpdate, start_correction, correct_all, correct_once, transfer_entry,
  make_correcting_ledger_entry_if_necessary, add_transfer_entry, finish_update, update_ledger,
  no_update,
}
use swpt_creditors.Procedures.Ledger.Correct.{correct_all_ends}
use swpt_creditors.Procedures.Ledger.Update.{Updates, update_ledger-Updates}
use swpt_creditors.Procedures.LedgerUpdates.{
  add_transfers, must_wait, then_update, get_sorted_pending_transfers, is_pending_transfer,
  bring_up_to_date, conclude, process_pending_ledger_update, catch_up,
}
use swpt_creditors.Procedures.LedgerUpdates.Progress.{IsSound, Progress}
use swpt_creditors.Procedures.LedgerUpdates.Order.{
  Absorbs, add_transfers-Absorbs, unfinished_advances,
}
use swpt_creditors.Procedures.LedgerUpdates.Database.{
  process_pending_ledger_update-Progress, catch_up_reaches,
}
use swpt_creditors.Tests.Data.{host, account, third_transfer, db}

third_transfer-IsSound : IsSound third_transfer
third_transfer-IsSound = (
  (omega int_laws, omega int_laws),
  (omega int_laws, omega int_laws),
  (omega int_laws, omega int_laws),
)

process_pending_ledger_update-Progress_example :
    (is_done : Bool) × (u : LedgerUpdate) × (db' : Db) × (process_pending_ledger_update host 1000 7
        3 10 500 db
      ≡ ok (is_done, db'))
    × Progress account u
    × (db'.ledger_entries ≡ db.ledger_entries ++ u.entries)
    × (get_account_data 7 3 db' ≡ some u.account)
unfolding get_account_data
process_pending_ledger_update-Progress_example =
    process_pending_ledger_update-Progress host 1000 7 3 10 500 db account refl refl (omega arith)
      (third_transfer-IsSound, tt) (omega int_laws, omega int_laws) (omega int_laws, omega int_laws)

update_ledger-Updates_example :
    (u : LedgerUpdate) × (update_ledger account 3 (negsuc 3) (pos 8) 1000 false ≡ ok u)
    × Updates account 3 (pos 8) false u
update_ledger-Updates_example =
    update_ledger-Updates account 3 (negsuc 3) (pos 8) 1000 false (omega int_laws, omega int_laws)
      (omega int_laws, omega int_laws) (omega int_laws, omega int_laws)
      (omega int_laws, omega int_laws)

correct_all_ends_example :
    (correct_all 2 1000 (start_correction account (pos 12))).correction_amount ≡ pos 0
unfolding start_correction ◌-ℤ◌
correct_all_ends_example = correct_all_ends 1000 2 (start_correction account (pos 12)) (omega arith)

catch_up_reaches_example : 12 ≤ catch_up host 13 12 9
catch_up_reaches_example = catch_up_reaches host 13 12 9 (λ k. omega arith) (omega arith)

-- The third transfer finds a ledger that is 2 behind; its own entry takes 4.
abbrev after_third : LedgerUpdate
after_third = record {
  account = record account {
    ledger_principal = pos 8;
    ledger_last_entry_id = 7;
    ledger_last_transfer_number = 3;
    ledger_latest_update_id = 4;
    ledger_latest_update_ts = 1000;
  };
  entries =
      record {
        creditor_id = 7;
        debtor_id = 3;
        entry_id = 6;
        creation_date = none;
        transfer_number = none;
        acquired_amount = pos 2;
        principal = pos 12;
        added_at = 1000;
      }
      ∷ record {
        creditor_id = 7;
        debtor_id = 3;
        entry_id = 7;
        creation_date = some 20;
        transfer_number = some 3;
        acquired_amount = negsuc 3;
        principal = pos 8;
        added_at = 1000;
      }
      ∷ [];
  log_entry = some (record (blank_entry 1000) {
    object_type_hint = some oth_account_ledger;
    debtor_id = some 3;
    object_update_id = some 4;
    data_principal = some (pos 8);
    data_next_entry_id = some 8;
  });
}

update_third :
    add_transfers 500 1000 (third_transfer ∷ []) (no_update account) ≡ ok (false, after_third)
unfolding add_transfers must_wait then_update update_ledger
    make_correcting_ledger_entry_if_necessary start_correction correct_all correct_once
    contain_principal_overflow add_transfer_entry transfer_entry finish_update ◌-ℤ◌ ◌+ℤ◌
update_third = refl

add_transfers-Absorbs_example : Absorbs 500 2 (third_transfer ∷ []) false 3
add_transfers-Absorbs_example =
    add_transfers-Absorbs 500 1000 (third_transfer ∷ []) (no_update account) false after_third
      update_third

burst_of_one :
    bring_up_to_date (get_sorted_pending_transfers account 1 db) 1 500 1000 account
    ≡ ok (false, after_third)
unfolding bring_up_to_date get_sorted_pending_transfers is_pending_transfer conclude add_transfers
    must_wait then_update update_ledger make_correcting_ledger_entry_if_necessary start_correction
    correct_all correct_once contain_principal_overflow add_transfer_entry transfer_entry
    finish_update ◌-ℤ◌ ◌+ℤ◌
burst_of_one = refl

unfinished_advances_example : 2 < 3
unfinished_advances_example =
    unfinished_advances db 1 500 1000 account after_third (omega arith) burst_of_one
