-- ===== src/Procedures/AccountDeletion/Deletes.antt =====
-- The ways in which `delete_account` ends, and what it leaves.
use swpt_creditors.Base.{
  ℕ, ◌≤◌, ◌≡◌, refl, sym, ◌∙◌, inl, inr, ◌⊎◌, not, Bool, true, false, none, some, List, [], ◌∷◌,
  arith,
}
use swpt_creditors.Base.Lists.{find_row, any_row, put_row, rows_where, delete_where}
use swpt_creditors.Base.Rows.{
  find_row_sound, find_row-put_row_by, find_row-delete_where, any_row-delete_where,
  rows_where-delete_other,
}
use swpt_creditors.Base.Tests.{==_iff, Bool-cases}
use swpt_creditors.Models.Common.{
  CreditorId, DebtorId, Timestamp, Host, unsafe_account_deletion, forbidden_peg_deletion,
}
use swpt_creditors.Models.Log.{ObjectType, ObjectUri}
use swpt_creditors.Models.Creditor.{Creditor}
use swpt_creditors.Models.Account.{AccountData, AccountDisplay}
use swpt_creditors.Models.Db.{Db, ok, err}
use swpt_creditors.Procedures.Creditors.{get_creditor, has_creditor_id, put_creditor}
use swpt_creditors.Procedures.Log.{LogState, add_log_entry}
use swpt_creditors.Procedures.Accounts.{
  account_key, data_key, knowledge_key, exchange_key, display_key, pending_key, has_account,
  get_account_data, get_account_display, log_accounts_list, put_log,
}
use swpt_creditors.Procedures.AccountDeletion.{
  is_pegged_to, delete_account_rows, log_deletions, deleted_objects, log_account_deletion,
  keep_historic, is_deletion_allowed, delete_account,
}

-- The fields of a creditor's row that the log does not touch.
pub record Kept (c c' : Creditor) : Type 0 where
  pub id_is : c'.creditor_id ≡ c.creditor_id
  pub flags_are : c'.status_flags ≡ c.status_flags
  pub historic_is : c'.largest_historic_ledger_entry_id ≡ c.largest_historic_ledger_entry_id

log_accounts_list-Kept :
    (ts : Timestamp) (s : LogState) → Kept s.creditor (log_accounts_list ts s).creditor
unfolding log_accounts_list add_log_entry
log_accounts_list-Kept ts s = record { id_is = refl; flags_are = refl; historic_is = refl }

log_deletions-Kept :
    (ts : Timestamp) (n : ℕ) (os : List (ObjectType × ObjectUri)) (s : LogState)
    → Kept s.creditor (log_deletions ts n os s).creditor
unfolding log_deletions add_log_entry
log_deletions-Kept ts n [] s = record { id_is = refl; flags_are = refl; historic_is = refl }
log_deletions-Kept ts n ((t, u) ∷ os) s =
    let k = log_deletions-Kept ts n os _ in
    record { id_is = k.id_is; flags_are = k.flags_are; historic_is = k.historic_is }

put_creditor-found :
    (creditor_id : CreditorId) (x c : Creditor) (cs : List Creditor)
    → x.creditor_id ≡ c.creditor_id
    → find_row (has_creditor_id creditor_id) cs ≡ some c
    → find_row (has_creditor_id creditor_id) (put_row (has_creditor_id x.creditor_id) x cs) ≡ some x
put_creditor-found creditor_id x c cs same found =
    let key = find_row_sound (has_creditor_id creditor_id) cs c found in
    find_row-put_row_by (has_creditor_id x.creditor_id) (has_creditor_id creditor_id) x cs c
      ((==_iff x.creditor_id creditor_id).1 (same ∙ (==_iff c.creditor_id creditor_id).0 key))
      ((==_iff c.creditor_id x.creditor_id).1 (sym same)) found

-- The rows without the key are the same.
abbrev pub SameOthers : {A : Type 0} → (A → Bool) → List A → List A → Type 0
SameOthers key rows rows' = rows_where (λ x. not (key x)) rows' ≡ rows_where (λ x. not (key x)) rows

delete-SameOthers :
    {A : Type 0} (key : A → Bool) (rows : List A) → SameOthers key rows (delete_where key rows)
delete-SameOthers key rows =
    rows_where-delete_other (λ x. not (key x)) key rows (λ x other. ground arith)

-- The state in which a deletion leaves the account and the creditor's row.
pub record Deleted (creditor_id : CreditorId) (debtor_id : DebtorId) (a : AccountData)
    (c : Creditor) (db db' : Db) : Type 0 where
  pub no_account : has_account creditor_id debtor_id db' ≡ false
  pub no_data : get_account_data creditor_id debtor_id db' ≡ none
  pub no_display : get_account_display creditor_id debtor_id db' ≡ none
  pub no_knowledge : any_row (knowledge_key creditor_id debtor_id) db'.account_knowledge ≡ false
  pub no_exchange : any_row (exchange_key creditor_id debtor_id) db'.account_exchanges ≡ false
  pub no_update : any_row (pending_key creditor_id debtor_id) db'.pending_ledger_updates ≡ false
  -- the account's entries and transfers are kept
  pub entries_are : db'.ledger_entries ≡ db.ledger_entries
  pub transfers_are : db'.committed_transfers ≡ db.committed_transfers
  -- the rows of other accounts
  pub other_accounts : SameOthers (account_key creditor_id debtor_id) db.accounts db'.accounts
  pub other_data : SameOthers (data_key creditor_id debtor_id) db.account_data db'.account_data
  pub other_knowledge :
      SameOthers (knowledge_key creditor_id debtor_id) db.account_knowledge db'.account_knowledge
  pub other_exchanges :
      SameOthers (exchange_key creditor_id debtor_id) db.account_exchanges db'.account_exchanges
  pub other_displays :
      SameOthers (display_key creditor_id debtor_id) db.account_displays db'.account_displays
  pub other_updates :
      SameOthers
        (pending_key creditor_id debtor_id)
        db.pending_ledger_updates
        db'.pending_ledger_updates
  pub creditor' : Creditor
  pub stored : get_creditor creditor_id db' ≡ some creditor'
  pub flags_are : creditor'.status_flags ≡ c.status_flags
  pub above_account : a.ledger_last_entry_id ≤ creditor'.largest_historic_ledger_entry_id
  pub above_others : c.largest_historic_ledger_entry_id ≤ creditor'.largest_historic_ledger_entry_id

pub deletion-Deleted :
    (host : Host) (ts : Timestamp) (creditor_id : CreditorId) (debtor_id : DebtorId) (db : Db)
    (a : AccountData) (c : Creditor)
    → get_creditor creditor_id db ≡ some c
    → Deleted creditor_id debtor_id a c db (
        log_account_deletion host
          (keep_historic a c)
          debtor_id
          ts
          (delete_account_rows creditor_id debtor_id db))
unfolding log_account_deletion delete_account_rows put_log put_creditor keep_historic get_creditor
    has_account get_account_data get_account_display
deletion-Deleted host ts creditor_id debtor_id db a c found =
    let start : LogState = record { creditor = keep_historic a c; added = [] } in
    let k1 = log_accounts_list-Kept ts start in
    let k2 =
      log_deletions-Kept ts (host.next_value db.uid_seq) (deleted_objects c.creditor_id debtor_id)
        (log_accounts_list ts start) in
    record {
      no_account = any_row-delete_where _ db.accounts;
      no_data = find_row-delete_where _ db.account_data;
      no_display = find_row-delete_where _ db.account_displays;
      no_knowledge = any_row-delete_where _ db.account_knowledge;
      no_exchange = any_row-delete_where _ db.account_exchanges;
      no_update = any_row-delete_where _ db.pending_ledger_updates;
      entries_are = refl;
      transfers_are = refl;
      other_accounts = delete-SameOthers _ db.accounts;
      other_data = delete-SameOthers _ db.account_data;
      other_knowledge = delete-SameOthers _ db.account_knowledge;
      other_exchanges = delete-SameOthers _ db.account_exchanges;
      other_displays = delete-SameOthers _ db.account_displays;
      other_updates = delete-SameOthers _ db.pending_ledger_updates;
      creditor' =
          (log_deletions ts (host.next_value db.uid_seq) (deleted_objects c.creditor_id debtor_id)
            (log_accounts_list ts start)).creditor;
      stored = put_creditor-found creditor_id _ c db.creditors (k2.id_is ∙ k1.id_is) found;
      flags_are = k2.flags_are ∙ k1.flags_are;
      above_account = omega (arith, k2.historic_is, k1.historic_is);
      above_others = omega (arith, k2.historic_is, k1.historic_is);
    }

-- The deletion of an account whose row and display are there, by a creditor that exists: it is
-- refused as unsafe exactly when the account is not safe to delete, its unsafe deletion is not
-- allowed, and it has a name; then it is refused when another account is pegged to it;
-- otherwise it commits, the account is gone with its data, display, knowledge, exchange and
-- pending ledger update, the ledger entries, the committed transfers and the rows of other accounts
-- in these tables are what they were, the creditor's row keeps its status, and its historic ledger entry ID is at least what it was and at least the account's last entry ID.
pub delete_account-Deleted :
    (host : Host) (ts : Timestamp) (creditor_id : CreditorId) (debtor_id : DebtorId) (db : Db)
    (c : Creditor) (a : AccountData) (display : AccountDisplay)
    → get_creditor creditor_id db ≡ some c
    → get_account_data creditor_id debtor_id db ≡ some a
    → get_account_display creditor_id debtor_id db ≡ some display
    → ((is_deletion_allowed a display ≡ false)
        × (delete_account host ts creditor_id debtor_id db ≡ err unsafe_account_deletion))
      ⊎ ((is_deletion_allowed a display ≡ true)
          × (any_row (is_pegged_to creditor_id debtor_id) db.account_exchanges ≡ true)
          × (delete_account host ts creditor_id debtor_id db ≡ err forbidden_peg_deletion))
      ⊎ ((is_deletion_allowed a display ≡ true)
          × (any_row (is_pegged_to creditor_id debtor_id) db.account_exchanges ≡ false)
          × ((db' : Db) × (delete_account host ts creditor_id debtor_id db ≡ ok (tt, db'))
              × Deleted creditor_id debtor_id a c db db'))
unfolding delete_account
delete_account-Deleted host ts creditor_id debtor_id db c a display ec ea ed =
    elim (Bool-cases (is_deletion_allowed a display)) [
      | inr f ↦ inl (f, rw (ec, ea, ed, f))
      | inl t ↦
          elim (Bool-cases (any_row (is_pegged_to creditor_id debtor_id) db.account_exchanges)) [
            | inl peg ↦ inr (inl (t, peg, rw (ec, ea, ed, t, peg)))
            | inr no_peg ↦ inr (
                inr (
                  t,
                  no_peg,
                  (
                    log_account_deletion host (keep_historic a c) debtor_id ts
                        (delete_account_rows creditor_id debtor_id db),
                    rw (ec, ea, ed, t, no_peg),
                    deletion-Deleted host ts creditor_id debtor_id db a c ec,
                  ),
                ))
          ]
    ]
