-- ===== src/Tests/Accounts.antt =====
-- Accounts at concrete inputs.
use swpt_creditors.Base.{ℕ, List, ◌∷◌, [], none, some, ◌<◌, ◌≡◌, refl, ◌⊎◌, true, false}
use swpt_creditors.Base.Int.{int_laws, pos}
use swpt_creditors.Base.Tests.{if◌then◌else◌}
use swpt_creditors.Base.Lists.{any_row}
use swpt_creditors.Models.Common.{unsafe_account_deletion, forbidden_peg_deletion}
use swpt_creditors.Models.Creditor.{is_activated, is_deactivated}
use swpt_creditors.Models.Account.{AccountData, is_deletion_safe, is_scheduled_for_deletion}
use swpt_creditors.Models.Db.{Db, ok, err}
use swpt_creditors.Procedures.Creditors.{get_creditor, get_active_creditor}
use swpt_creditors.Procedures.Accounts.{
  get_account_data, get_account_display, put_account_data, create_new_account,
}
use swpt_creditors.Procedures.AccountDeletion.{is_deletion_allowed, is_pegged_to, delete_account}
use swpt_creditors.Procedures.AccountDeletion.Deletes.{Deleted, delete_account-Deleted}
use swpt_creditors.Procedures.AccountDeletion.Recreate.{recreated_above}
use swpt_creditors.Procedures.AccountUpdates.{is_expired, beat, process_account_update_signal}
use swpt_creditors.Procedures.AccountUpdates.Redelivery.{
  Delivered, process_account_update_signal-Delivered, redelivery,
}
use swpt_creditors.Models.Common.{Timestamp}
use swpt_creditors.Procedures.AccountParts.{ConfigUpdate}
use swpt_creditors.Procedures.AccountParts.Pegs.{
  AccountOp, creates, deletes, sets_exchange, PegsExist, perform_all, perform_all-PegsExist,
}
use swpt_creditors.Tests.Data.{host, creditor, account, display, db, update}

found-creditor : get_creditor 7 db ≡ some creditor
unfolding get_creditor
found-creditor = refl

active-creditor : get_active_creditor 7 db ≡ some creditor
unfolding get_active_creditor get_creditor is_activated is_deactivated
active-creditor = refl

found-account : get_account_data 7 3 db ≡ some account
unfolding get_account_data
found-account = refl

found-display : get_account_display 7 3 db ≡ some display
unfolding get_account_display
found-display = refl

account-may_go : is_deletion_allowed account display ≡ true
unfolding is_deletion_allowed is_deletion_safe is_scheduled_for_deletion
account-may_go = refl

update-is_fresh : is_expired 320 update ≡ false
unfolding is_expired
update-is_fresh = refl

delete_account-Deleted_example :
    ((is_deletion_allowed account display ≡ false)
      × (delete_account host 500 7 3 db ≡ err unsafe_account_deletion))
    ⊎ ((is_deletion_allowed account display ≡ true)
        × (any_row (is_pegged_to 7 3) [] ≡ true)
        × (delete_account host 500 7 3 db ≡ err forbidden_peg_deletion))
    ⊎ ((is_deletion_allowed account display ≡ true)
        × (any_row (is_pegged_to 7 3) [] ≡ false)
        × ((db' : Db) × (delete_account host 500 7 3 db ≡ ok (tt, db'))
            × Deleted 7 3 account creditor db db'))
delete_account-Deleted_example =
    delete_account-Deleted host 500 7 3 db creditor account display found-creditor found-account
      found-display

recreated_above_example :
    (db1 db2 : Db) × (a' : AccountData) × (delete_account host 500 7 3 db ≡ ok (tt, db1))
    × (create_new_account host 600 7 3 db1 ≡ ok (tt, db2))
    × (get_account_data 7 3 db2 ≡ some a')
    × (5 < a'.ledger_last_entry_id)
recreated_above_example =
    recreated_above host 500 600 7 3 db creditor account display active-creditor found-creditor
      found-account account-may_go found-display refl

process_account_update_signal-Delivered_example :
    Delivered host update db (process_account_update_signal host 320 update db)
process_account_update_signal-Delivered_example =
    process_account_update_signal-Delivered host 320 update account db refl update-is_fresh
      found-account (omega int_laws, omega int_laws)

redelivery_example :
    (db1 : Db) × (d1 : AccountData) × (process_account_update_signal host 320 update db
      ≡ ok (tt, db1))
    × (get_account_data 7 3 db1 ≡ some d1)
    × (process_account_update_signal host 330 update db1
        ≡ ok (tt, if is_expired 330 update then db1 else put_account_data (beat 330 update d1) db1))
redelivery_example =
    redelivery host 320 330 update account db refl update-is_fresh found-account
      (omega int_laws, omega int_laws)

-- The account with the debtor 3 gets the peg 4, whose account is created before; its deletion is
-- refused then.
abbrev peg_ops : List (Timestamp × AccountOp)
peg_ops =
    (500, creates 7 4)
    ∷ (
      510,
      sets_exchange 7 3
          (record {
            policy = none;
            min_principal = pos 0;
            max_principal = pos 9;
            peg_exchange_rate = some 2;
            peg_debtor_id = some 4;
          })
          2,
    )
    ∷ (520, deletes 7 4)
    ∷ []

abbrev exchange_db : Db
exchange_db = record db {
  account_exchanges =
      record {
        creditor_id = 7;
        debtor_id = 3;
        policy = none;
        min_principal = pos 0;
        max_principal = pos 9;
        peg_exchange_rate = none;
        peg_debtor_id = none;
        latest_update_id = 1;
        latest_update_ts = 100;
      }
      ∷ [];
}

perform_all-PegsExist_example : PegsExist (perform_all host peg_ops exchange_db)
perform_all-PegsExist_example = perform_all-PegsExist host peg_ops exchange_db (tt, tt)

abbrev new_config : ConfigUpdate
new_config = record {
  is_scheduled_for_deletion = true;
  negligible_amount = 5;
  allow_unsafe_deletion = false;
  config_data = "x";
}

abbrev next_id : ℕ
next_id = 2
