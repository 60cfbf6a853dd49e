-- ===== src/Procedures/AccountDeletion/Recreate.antt =====
-- `delete_account` followed by `create_new_account`, for the same creditor and debtor.
use swpt_creditors.Base.{
  ℕ, ◌+◌, ◌<◌, ◌/◌, ◌%◌, ◌≡◌, refl, sym, ◌∙◌, ap, inl, inr, not, ◌&&◌, true, false, none, some,
  arith,
}
use swpt_creditors.Base.Lists.{any_row}
use swpt_creditors.Base.Rows.{find_row_sound, find_row-append}
use swpt_creditors.Base.Tests.{◌==◌, ==_iff, Bool-cases}
use swpt_creditors.Models.Common.{CreditorId, DebtorId, Timestamp, Host}
use swpt_creditors.Models.Creditor.{Creditor, is_activated, is_deactivated}
use swpt_creditors.Models.Account.{
  AccountData, AccountDisplay, huge_negligible_amount, default_config_flags,
}
use swpt_creditors.Models.Signal.{configure_account}
use swpt_creditors.Models.Db.{Db, ok, add_signal}
use swpt_creditors.Procedures.Creditors.{
  get_creditor, get_active_creditor, has_creditor_id, put_creditor, is_active, keep_active,
}
use swpt_creditors.Procedures.Log.{add_log_entry}
use swpt_creditors.Procedures.Accounts.{
  data_key, has_account, get_account_data, get_account_display, log_accounts_list, put_log,
  log_account_creation, insert_account, add_account_rows, create_new_account, new_account_data,
}
use swpt_creditors.Procedures.AccountDeletion.{
  is_pegged_to, delete_account_rows, log_account_deletion, keep_historic, is_deletion_allowed,
  delete_account,
}
use swpt_creditors.Procedures.AccountDeletion.Deletes.{Kept, deletion-Deleted}

log_account_creation-Kept :
    (ts : Timestamp) (debtor_id : DebtorId) (n : ℕ) (c : Creditor)
    → Kept c (log_account_creation ts debtor_id n c).creditor
unfolding log_account_creation log_accounts_list add_log_entry
log_account_creation-Kept ts debtor_id n c = record {
  id_is = refl;
  flags_are = refl;
  historic_is = refl;
}

data_key_refl :
    (creditor_id : CreditorId) (debtor_id : DebtorId) (c d : ℕ)
    → c ≡ creditor_id
    → d ≡ debtor_id
    → (c == creditor_id && d == debtor_id) ≡ true
data_key_refl creditor_id debtor_id c d ec ed = ground arith

insert_account-data :
    (host : Host) (ts : Timestamp) (creditor_id : CreditorId) (debtor_id : DebtorId) (c : Creditor)
    (db : Db)
    → c.creditor_id ≡ creditor_id
    → get_account_data creditor_id debtor_id db ≡ none
    → (a : AccountData) × (get_account_data creditor_id debtor_id
          (insert_account host c debtor_id ts db)
        ≡ some a)
      × (a.ledger_last_entry_id ≡ c.largest_historic_ledger_entry_id + 1)
unfolding insert_account add_account_rows put_log put_creditor get_account_data new_account_data
insert_account-data host ts creditor_id debtor_id c db same free = (
  _,
  find_row-append (data_key creditor_id debtor_id) db.account_data _ free
      (data_key_refl creditor_id debtor_id _ _ same refl),
  refl,
)

kept_active-is_active : (c d : Creditor) → keep_active (some c) ≡ some d → is_active c ≡ true
kept_active-is_active c d h = elim (Bool-cases (is_active c)) [
  | inl t ↦ t
  | inr f ↦ absurd (none_is_not_some (rw f at h))
]
  where
    none_is_not_some : none ≡ some d → ⊥
    none_is_not_some e = cc

is_active-flags : (c c' : Creditor) → c'.status_flags ≡ c.status_flags → is_active c' ≡ is_active c
unfolding is_activated is_deactivated
is_active-flags c c' same = ap (λ (n : ℕ). (n % 2 == 1) && not (n / 2 % 2 == 1)) same

keep_active-yes : (c : Creditor) → is_active c ≡ true → keep_active (some c) ≡ some c
keep_active-yes c h = rw h refl

-- A creditor that is active stays so when the flags are the same.
active_again :
    (creditor_id : CreditorId) (db db' : Db) (c c' : Creditor)
    → get_active_creditor creditor_id db ≡ some c
    → get_creditor creditor_id db ≡ some c
    → get_creditor creditor_id db' ≡ some c'
    → c'.status_flags ≡ c.status_flags
    → get_active_creditor creditor_id db' ≡ some c'
unfolding get_active_creditor
active_again creditor_id db db' c c' active found found' same =
    ap keep_active found'
    ∙ keep_active-yes c' (
        is_active-flags c c' same ∙ kept_active-is_active c c (sym (ap keep_active found) ∙ active))

create_runs :
    (host : Host) (ts : Timestamp) (creditor_id : CreditorId) (debtor_id : DebtorId) (db : Db)
    (c : Creditor)
    → get_active_creditor creditor_id db ≡ some c
    → has_account creditor_id debtor_id db ≡ false
    → create_new_account host ts creditor_id debtor_id db
      ≡ ok (
        tt,
        add_signal
            (configure_account (record {
              creditor_id = creditor_id;
              debtor_id = debtor_id;
              ts = ts;
              seqnum = 0;
              negligible_amount = host.floats.to_real (huge_negligible_amount host.floats);
              config_data = "";
              config_flags = default_config_flags;
            }))
            (insert_account host c debtor_id ts db),
      )
unfolding create_new_account
create_runs host ts creditor_id debtor_id db c active free = rw (active, free) refl

-- When the account of an active creditor may be deleted, with its row and its display there and no
-- other account pegged to it, then its deletion, at any time, commits, the creation of the account
-- after it commits too, and the first entry that the new ledger will get has an ID greater than that
-- of any entry of the deleted ledger: the new last entry ID is greater than the old one.
pub recreated_above :
    (host : Host) (ts ts' : Timestamp) (creditor_id : CreditorId) (debtor_id : DebtorId) (db : Db)
    (c : Creditor) (a : AccountData) (display : AccountDisplay)
    → get_active_creditor creditor_id db ≡ some c
    → get_creditor creditor_id db ≡ some c
    → get_account_data creditor_id debtor_id db ≡ some a
    → is_deletion_allowed a display ≡ true
    → get_account_display creditor_id debtor_id db ≡ some display
    → any_row (is_pegged_to creditor_id debtor_id) db.account_exchanges ≡ false
    → (db1 db2 : Db) × (a' : AccountData) × (delete_account host ts creditor_id debtor_id db
        ≡ ok (tt, db1))
      × (create_new_account host ts' creditor_id debtor_id db1 ≡ ok (tt, db2))
      × (get_account_data creditor_id debtor_id db2 ≡ some a')
      × (a.ledger_last_entry_id < a'.ledger_last_entry_id)
unfolding delete_account get_creditor get_account_data add_signal
recreated_above host ts ts' creditor_id debtor_id db c a display active ec ea allowed ed no_peg =
    let db1 =
      log_account_deletion host (keep_historic a c) debtor_id ts
        (delete_account_rows creditor_id debtor_id db) in
    let d = deletion-Deleted host ts creditor_id debtor_id db a c ec in
    let key = find_row_sound (has_creditor_id creditor_id) db1.creditors d.creditor' d.stored in
    let created =
      create_runs host ts' creditor_id debtor_id db1 d.creditor'
        (active_again creditor_id db db1 c d.creditor' active ec d.stored d.flags_are)
        d.no_account in
    let (a', found, above) =
      insert_account-data host ts' creditor_id debtor_id d.creditor' db1
        ((==_iff d.creditor'.creditor_id creditor_id).0 key) d.no_data in
    (
      db1,
      _,
      a',
      rw (ec, ea, ed, allowed, no_peg),
      created,
      found,
      omega (arith, above, d.above_account),
    )
