-- ===== src/Procedures/AccountUpdates/Steps.antt =====
-- About the steps of `process_account_update_signal` after its tests (procedures/account_updates.py).
use swpt_creditors.Base.{
  ℕ, ◌≡◌, refl, ◌∙◌, ap, inl, inr, ◌||◌, Bool, true, false, Option, none, some, arith,
}
use swpt_creditors.Base.Int.{ℤ, pos, int_laws}
use swpt_creditors.Base.Tests.{Bool-cases, if◌then◌else◌}
use swpt_creditors.Models.Common.{CreditorId, DebtorId, Timestamp, Host}
use swpt_creditors.Models.Log.{BaseLogEntry}
use swpt_creditors.Models.Account.{AccountData}
use swpt_creditors.Models.Db.{
  Db, Tx, ok, err, ◌>>=◌, ◌>>◌, pure, modify, next_uid, add_signal, add_pending_log_entry,
}
use swpt_creditors.Procedures.Accounts.{insert_info_update_pending_log_entry}
use swpt_creditors.Procedures.TransferSignals.{ensure_pending_ledger_update}
use swpt_creditors.Procedures.Ledger.Chain.{IsInt64}
use swpt_creditors.Procedures.Ledger.Update.{sub_zero, update_ledger-Updates}
use swpt_creditors.Procedures.AccountUpdates.{
  add_ledger_entries, announce_ledger, next_uid_if, reset_ledger, update_info, reset_and_ensure,
  reset_if,
}

-- A step of the transaction commits, keeps the account's key and event, and leaves the table of
-- accounts to the flush.
pub record Step (t : Tx AccountData) (d : AccountData) (db : Db) : Type 0 where
  pub account : AccountData
  pub database : Db
  pub runs : t db ≡ ok (account, database)
  pub creditor_is : account.creditor_id ≡ d.creditor_id
  pub debtor_is : account.debtor_id ≡ d.debtor_id
  pub date_is : account.creation_date ≡ d.creation_date
  pub ts_is : account.last_change_ts ≡ d.last_change_ts
  pub seqnum_is : account.last_change_seqnum ≡ d.last_change_seqnum
  pub still_fits : IsInt64 d.ledger_principal → IsInt64 account.ledger_principal
  pub rows_are : database.account_data ≡ db.account_data

pub bind_ok :
    {A B : Type 0} (t : Tx A) (f : A → Tx B) (db db' : Db) (a : A)
    → t db ≡ ok (a, db')
    → (t >>= f) db ≡ f a db'
bind_ok t f db db' a e = ap (λ r. elim r [ ok (x, db1) ↦ f x db1 | err k ↦ err k ]) e

announce_ledger-data :
    (ts : Timestamp) (d : AccountData) (p : ℤ) (n : ℕ) (e : Option BaseLogEntry) (db : Db)
    → (announce_ledger ts d p n e db).account_data ≡ db.account_data
unfolding announce_ledger add_signal add_pending_log_entry
announce_ledger-data ts d p n none db = refl
announce_ledger-data ts d p n (some e) db = refl

next_uid_if-data :
    (host : Host) (e : Option BaseLogEntry) (db : Db)
    → (next_uid_if host e db).account_data ≡ db.account_data
unfolding next_uid_if next_uid
next_uid_if-data host none db = refl
next_uid_if-data host (some e) db = refl

ensure-data :
    (c : CreditorId) (di : DebtorId) (db : Db)
    → (ensure_pending_ledger_update c di db).account_data ≡ db.account_data
unfolding ensure_pending_ledger_update
ensure-data c di db = ground arith

pub update_info-Step :
    (host : Host) (now : Timestamp) (b : Bool) (d : AccountData) (db : Db)
    → Step (update_info host now b d) d db
unfolding update_info insert_info_update_pending_log_entry add_pending_log_entry next_uid
update_info-Step host now false d db = record {
  account = d;
  database = db;
  runs = refl;
  creditor_is = refl;
  debtor_is = refl;
  date_is = refl;
  ts_is = refl;
  seqnum_is = refl;
  rows_are = refl;
  still_fits = λ h. h;
}
update_info-Step host now true d db = record {
  account = (insert_info_update_pending_log_entry host now d db).0;
  database = (insert_info_update_pending_log_entry host now d db).1;
  runs = refl;
  creditor_is = refl;
  debtor_is = refl;
  date_is = refl;
  ts_is = refl;
  seqnum_is = refl;
  rows_are = refl;
  still_fits = λ h. h;
}

-- The ledger of the row that a new server account gets, or that a changed account ID keeps.
start_principal : Bool → AccountData → ℤ
start_principal is_new d = if is_new then pos 0 else d.ledger_principal

zero_fits : IsInt64 (pos 0)
zero_fits = (omega int_laws, omega int_laws)

start_principal-IsInt64 :
    (is_new : Bool) (d : AccountData)
    → IsInt64 d.ledger_principal
    → IsInt64 (start_principal is_new d)
unfolding start_principal
start_principal-IsInt64 true d h = zero_fits
start_principal-IsInt64 false d h = h

reset_ledger-Step :
    (host : Host) (now : Timestamp) (is_new : Bool) (d : AccountData) (db : Db)
    → IsInt64 d.ledger_principal
    → Step (reset_ledger host now is_new d) d db
unfolding reset_ledger start_principal add_ledger_entries
reset_ledger-Step host now is_new d db h =
    let p = start_principal is_new d in
    let d' = record d {
      ledger_pending_transfer_ts = if is_new then none else d.ledger_pending_transfer_ts;
    } in
    let n = if is_new then 0 else d.ledger_last_transfer_number in
    let hp = start_principal-IsInt64 is_new d h in
    let (u, e, w) =
      update_ledger-Updates d' n (pos 0) p now true h zero_fits hp (rw (sub_zero p) hp) in
    record {
      account = u.account;
      database =
          next_uid_if host u.log_entry
            (announce_ledger now u.account p n u.log_entry (add_ledger_entries u db));
      runs = rw e refl;
      creditor_is = ap (λ a. a.creditor_id) w.untouched;
      debtor_is = ap (λ a. a.debtor_id) w.untouched;
      date_is = ap (λ a. a.creation_date) w.untouched;
      ts_is = ap (λ a. a.last_change_ts) w.untouched;
      seqnum_is = ap (λ a. a.last_change_seqnum) w.untouched;
      still_fits = λ _. rw w.at_principal hp;
      rows_are =
          next_uid_if-data host u.log_entry _
          ∙ announce_ledger-data now u.account p n u.log_entry _;
    }

reset_and_ensure-Step :
    (host : Host) (now : Timestamp) (is_new : Bool) (d : AccountData) (db : Db)
    → IsInt64 d.ledger_principal
    → Step (reset_and_ensure host now is_new d) d db
unfolding reset_and_ensure
reset_and_ensure-Step host now is_new d db h =
    let r = reset_ledger-Step host now is_new d db h in
    record {
      account = r.account;
      database = ensure_pending_ledger_update r.account.creditor_id r.account.debtor_id r.database;
      runs =
          bind_ok (reset_ledger host now is_new d)
            (λ d'. modify (ensure_pending_ledger_update d'.creditor_id d'.debtor_id) >> pure d') db
            r.database r.account r.runs;
      creditor_is = r.creditor_is;
      debtor_is = r.debtor_is;
      date_is = r.date_is;
      ts_is = r.ts_is;
      seqnum_is = r.seqnum_is;
      still_fits = r.still_fits;
      rows_are = ensure-data r.account.creditor_id r.account.debtor_id r.database ∙ r.rows_are;
    }

pub reset_if-Step :
    (host : Host) (now : Timestamp) (is_new changed : Bool) (d : AccountData) (db : Db)
    → IsInt64 d.ledger_principal
    → Step (reset_if host now is_new changed d) d db
unfolding reset_if
reset_if-Step host now is_new changed d db h = elim (Bool-cases (is_new || changed)) [
  | inr f ↦ rw f (record {
    account = d;
    database = db;
    runs = refl;
    creditor_is = refl;
    debtor_is = refl;
    date_is = refl;
    ts_is = refl;
    seqnum_is = refl;
    rows_are = refl;
    still_fits = λ h. h;
  })
  | inl t ↦ rw t (reset_and_ensure-Step host now is_new d db h)
]
