-- ===== src/Procedures/AccountDeletion.antt =====
-- The deletion of accounts in procedures/accounts.py, and the reading of a ledger's entries.
pub mod Deletes
pub mod Recreate
use swpt_creditors.Base.{ℕ, ◌&&◌, ◌||◌, not, max, Bool, true, some, List, [], ◌∷◌, ◌++◌}
use swpt_creditors.Base.Lists.{rows_where, any_row, delete_where, take}
use swpt_creditors.Base.Sort.{sort_by}
use swpt_creditors.Base.Tests.{◌==◌, ltb, opt_eq, is_none}
use swpt_creditors.Models.Common.{
  CreditorId, DebtorId, Timestamp, Host, creditor_does_not_exist, account_does_not_exist,
  unsafe_account_deletion, forbidden_peg_deletion,
}
use swpt_creditors.Models.Log.{blank_entry, ObjectType, ObjectUri}
use swpt_creditors.Models.Creditor.{Creditor}
use swpt_creditors.Models.Account.{
  AccountData, AccountExchange, AccountDisplay, LedgerEntry, is_deletion_safe,
}
use swpt_creditors.Models.Db.{
  Db, Tx, ◌>>=◌, ◌>>◌, gets, modify, or_raise, raise_if, is_key, next_uid,
}
use swpt_creditors.Procedures.Creditors.{get_creditor, stop_account_trade}
use swpt_creditors.Procedures.Log.{LogState, add_log_entry}
use swpt_creditors.Procedures.Accounts.{
  account_key, data_key, knowledge_key, exchange_key, display_key, pending_key, get_account_data,
  get_account_display, log_accounts_list, put_log,
}

-- Another account of the creditor that is pegged to the debtor's.
unfoldable pub is_pegged_to : CreditorId → DebtorId → AccountExchange → Bool
is_pegged_to creditor_id debtor_id x =
    x.creditor_id == creditor_id
    && opt_eq ◌==◌ x.peg_debtor_id (some debtor_id)
    && not (x.debtor_id == debtor_id)

-- The deletion of an account's row, and of what the foreign keys delete with it.
unfoldable pub delete_account_rows : CreditorId → DebtorId → Db → Db
delete_account_rows creditor_id debtor_id db = record db {
  accounts = delete_where (account_key creditor_id debtor_id) db.accounts;
  account_data = delete_where (data_key creditor_id debtor_id) db.account_data;
  account_knowledge = delete_where (knowledge_key creditor_id debtor_id) db.account_knowledge;
  account_exchanges = delete_where (exchange_key creditor_id debtor_id) db.account_exchanges;
  account_displays = delete_where (display_key creditor_id debtor_id) db.account_displays;
  pending_ledger_updates =
      delete_where (pending_key creditor_id debtor_id) db.pending_ledger_updates;
}

-- The seven objects of an account that the log reports as deleted.
abbrev pub deleted_objects : CreditorId → DebtorId → List (ObjectType × ObjectUri)
deleted_objects creditor_id debtor_id =
    (ObjectType.account, ObjectUri.account creditor_id debtor_id)
    ∷ (ObjectType.account_config, ObjectUri.account_config creditor_id debtor_id)
    ∷ (ObjectType.account_info, ObjectUri.account_info creditor_id debtor_id)
    ∷ (ObjectType.account_ledger, ObjectUri.account_ledger creditor_id debtor_id)
    ∷ (ObjectType.account_display, ObjectUri.account_display creditor_id debtor_id)
    ∷ (ObjectType.account_exchange, ObjectUri.account_exchange creditor_id debtor_id)
    ∷ (ObjectType.account_knowledge, ObjectUri.account_knowledge creditor_id debtor_id)
    ∷ []

unfoldable pub log_deletions : Timestamp → ℕ → List (ObjectType × ObjectUri) → LogState → LogState
unfolding add_log_entry
log_deletions current_ts object_update_id [] s = s
log_deletions current_ts object_update_id ((object_type, object_uri) ∷ objects) s =
    log_deletions current_ts object_update_id objects (
      add_log_entry
        (record (blank_entry current_ts) {
          object_type = some object_type;
          object_uri = some object_uri;
          object_update_id = some object_update_id;
          is_deleted = some true;
        })
        s)

unfoldable pub log_account_deletion : Host → Creditor → DebtorId → Timestamp → Db → Db
unfolding log_accounts_list log_deletions put_log stop_account_trade next_uid
log_account_deletion host creditor debtor_id current_ts db =
    let object_update_id : ℕ = host.next_value db.uid_seq in
    let s : LogState =
      log_deletions current_ts object_update_id (deleted_objects creditor.creditor_id debtor_id)
        (log_accounts_list current_ts (record { creditor = creditor; added = [] })) in
    record (put_log s (next_uid host db)) {
      signals =
          db.signals
          ++ stop_account_trade creditor.creditor_id object_update_id current_ts debtor_id;
    }

-- The largest ledger entry ID of any deleted account.
unfoldable pub keep_historic : AccountData → Creditor → Creditor
keep_historic account creditor = record creditor {
  largest_historic_ledger_entry_id =
      max account.ledger_last_entry_id creditor.largest_historic_ledger_entry_id;
}

unfoldable pub is_deletion_allowed : AccountData → AccountDisplay → Bool
unfolding is_deletion_safe
is_deletion_allowed account display =
    is_deletion_safe account || account.allow_unsafe_deletion || is_none display.debtor_name

unfoldable pub delete_account : Host → Timestamp → CreditorId → DebtorId → Tx (Unit {0})
unfolding get_creditor get_account_data get_account_display is_deletion_allowed is_pegged_to
    keep_historic delete_account_rows log_account_deletion
delete_account host current_ts creditor_id debtor_id = do
  creditor ← or_raise (← gets (get_creditor creditor_id)) creditor_does_not_exist
  account ← or_raise (← gets (get_account_data creditor_id debtor_id)) account_does_not_exist
  display ← or_raise (← gets (get_account_display creditor_id debtor_id)) account_does_not_exist
  raise_if (not (is_deletion_allowed account display)) unsafe_account_deletion
  raise_if (← gets (λ db. any_row (is_pegged_to creditor_id debtor_id) db.account_exchanges))
      forbidden_peg_deletion
  modify (delete_account_rows creditor_id debtor_id)
  modify (log_account_deletion host (keep_historic account creditor) debtor_id current_ts)

-- `LedgerEntry.entry_id < prev`, `> stop`, the latest first.
is_between : CreditorId → DebtorId → ℕ → ℕ → LedgerEntry → Bool
is_between creditor_id debtor_id prev stop e =
    is_key creditor_id debtor_id e.creditor_id e.debtor_id
    && ltb e.entry_id prev
    && ltb stop e.entry_id

unfoldable pub get_account_ledger_entries :
    CreditorId → DebtorId → ℕ → ℕ → ℕ → Db → List LedgerEntry
unfolding is_between
get_account_ledger_entries creditor_id debtor_id prev stop count db = take count (
    mathlib.Core.List.reverse (
      sort_by (λ e. e.entry_id)
        (rows_where (is_between creditor_id debtor_id prev stop) db.ledger_entries)))
