-- ===== src/Procedures/AccountUpdates/Redelivery.antt =====
-- About `process_account_update_signal` for an account that exists, and a second delivery of the same
-- message (procedures/account_updates.py).
use swpt_creditors.Base.{ℕ, ◌≡◌, refl, ◌∙◌, ap, inl, inr, not, true, false, some, List, arith}
use swpt_creditors.Base.Lists.{find_row, put_row}
use swpt_creditors.Base.Rows.{find_row_sound, find_row-put_row_by}
use swpt_creditors.Base.Tests.{ltb, str_eq, ==_refl, Bool-cases, if◌then◌else◌}
use swpt_creditors.Models.Common.{CreditorId, DebtorId, Timestamp, Host, assertion_error}
use swpt_creditors.Models.Account.{AccountData}
use swpt_creditors.Models.Db.{Db, is_key, Tx, Result, ok, ◌>>=◌, ◌>>◌, modify, raise_if}
use swpt_creditors.Procedures.Accounts.{data_key, get_account_data, put_account_data}
use swpt_creditors.Procedures.Ledger.Chain.{IsInt64}
use swpt_creditors.Procedures.AccountUpdates.{
  AccountUpdate, is_expired, is_old_event, beat, apply_account_update, is_info_updated, update_info,
  reset_if, perform_account_update, update_found, process_account_update_signal,
}
use swpt_creditors.Procedures.AccountUpdates.Steps.{bind_ok, update_info-Step, reset_if-Step}

put-found :
    (c : CreditorId) (di : DebtorId) (rows : List AccountData) (d a : AccountData)
    → find_row (data_key c di) rows ≡ some d
    → a.creditor_id ≡ d.creditor_id
    → a.debtor_id ≡ d.debtor_id
    → find_row (data_key c di) (put_row (data_key a.creditor_id a.debtor_id) a rows) ≡ some a
put-found c di rows d a found ec ed =
    find_row-put_row_by (data_key a.creditor_id a.debtor_id) (data_key c di) a rows d
      (rw (ec, ed) (find_row_sound (data_key c di) rows d found))
      (rw (ec, ed, ==_refl d.creditor_id, ==_refl d.debtor_id) refl) found

-- The message is not newer than the row.
old_when_equal :
    (host : Host) (m : AccountUpdate) (d : AccountData)
    → host.seqnum_eq m.last_change_seqnum m.last_change_seqnum ≡ true
    → d.creation_date ≡ m.creation_date
    → d.last_change_ts ≡ m.last_change_ts
    → d.last_change_seqnum ≡ m.last_change_seqnum
    → is_old_event host m d ≡ true
unfolding is_old_event
old_when_equal host m d same ed et es =
    rw (ed, et, es, ==_refl m.creation_date, ==_refl m.last_change_ts, same) refl

-- What the message has made of the account's row.
pub record Delivered (host : Host) (m : AccountUpdate) (db : Db) (r : Result (Unit {0} × Db))
    : Type 0 where
  pub database : Db
  pub runs : r ≡ ok (tt, database)
  pub account : AccountData
  pub stored : get_account_data m.creditor_id m.debtor_id database ≡ some account
  pub is_old : is_old_event host m account ≡ true
  pub same_creditor : account.creditor_id ≡ m.creditor_id
  pub rows_are :
      database.account_data
      ≡ put_row (data_key account.creditor_id account.debtor_id) account db.account_data

creditor_of_key : (c di a b : ℕ) → is_key c di a b ≡ true → a ≡ c
creditor_of_key c di a b h = ground arith

found_creditor :
    (m : AccountUpdate) (db : Db) (d : AccountData)
    → get_account_data m.creditor_id m.debtor_id db ≡ some d
    → d.creditor_id ≡ m.creditor_id
unfolding get_account_data
found_creditor m db d found =
    creditor_of_key m.creditor_id m.debtor_id d.creditor_id d.debtor_id
      (find_row_sound (data_key m.creditor_id m.debtor_id) db.account_data d found)

perform-Delivered :
    (host : Host) (now : Timestamp) (m : AccountUpdate) (d d0 : AccountData) (db : Db)
    → host.seqnum_eq m.last_change_seqnum m.last_change_seqnum ≡ true
    → get_account_data m.creditor_id m.debtor_id db ≡ some d0
    → d.creditor_id ≡ d0.creditor_id
    → d.debtor_id ≡ d0.debtor_id
    → IsInt64 d.ledger_principal
    → ltb m.creation_date d.creation_date ≡ false
    → Delivered host m db (perform_account_update host now m d db)
unfolding perform_account_update get_account_data put_account_data apply_account_update
perform-Delivered host now m d d0 db same found ec ed h le =
    let s1 =
      update_info-Step host now (is_info_updated host m d) (apply_account_update host m d) db in
    let s2 =
      reset_if-Step host now (ltb d.creation_date m.creation_date)
        (not (str_eq m.account_id d.account_id)) s1.account s1.database (s1.still_fits h) in
    record {
      database = put_account_data s2.account s2.database;
      runs =
          ap (λ b. (raise_if b assertion_error >> update) db) le
          ∙ bind_ok
              (update_info host now (is_info_updated host m d) (apply_account_update host m d))
              after_info db s1.database s1.account s1.runs
          ∙ bind_ok (reset s1.account) (λ d'. modify (put_account_data d')) s1.database s2.database
              s2.account s2.runs;
      account = s2.account;
      stored =
          rw (s2.rows_are, s1.rows_are)
            (put-found m.creditor_id m.debtor_id db.account_data d0 s2.account found
              (s2.creditor_is ∙ s1.creditor_is ∙ ec) (s2.debtor_is ∙ s1.debtor_is ∙ ed));
      is_old =
          old_when_equal host m s2.account same (s2.date_is ∙ s1.date_is) (s2.ts_is ∙ s1.ts_is)
            (s2.seqnum_is ∙ s1.seqnum_is);
      same_creditor = s2.creditor_is ∙ s1.creditor_is ∙ ec ∙ found_creditor m db d0 found;
      rows_are = rw (s2.rows_are, s1.rows_are) refl;
    }
  where
    reset : AccountData → Tx AccountData
    reset =
        reset_if host now (ltb d.creation_date m.creation_date)
          (not (str_eq m.account_id d.account_id))

    after_info : AccountData → Tx (Unit {0})
    after_info d1 = reset d1 >>= λ d'. modify (put_account_data d')

    update : Tx (Unit {0})
    update =
        update_info host now (is_info_updated host m d) (apply_account_update host m d)
        >>= after_info

-- An account that a message is new to has no later creation date.
not_later :
    (host : Host) (m : AccountUpdate) (d : AccountData)
    → is_old_event host m d ≡ false
    → ltb m.creation_date d.creation_date ≡ false
unfolding is_old_event
not_later host m d h = ground arith

-- A heartbeat changes nothing else.
beat_same :
    (now : Timestamp) (m : AccountUpdate) (d : AccountData)
    → beat now m d ≡ record d { last_heartbeat_ts = (beat now m d).last_heartbeat_ts }
unfolding beat
beat_same now m d = ground arith

beat-is_old_event :
    (host : Host) (now : Timestamp) (m : AccountUpdate) (d : AccountData)
    → is_old_event host m (beat now m d) ≡ is_old_event host m d
unfolding is_old_event
beat-is_old_event host now m d = ap (is_old_event host m) (beat_same now m d)

update_found-Delivered :
    (host : Host) (now : Timestamp) (m : AccountUpdate) (d : AccountData) (db : Db)
    → host.seqnum_eq m.last_change_seqnum m.last_change_seqnum ≡ true
    → get_account_data m.creditor_id m.debtor_id db ≡ some d
    → IsInt64 d.ledger_principal
    → Delivered host m db (update_found host now m (some d) db)
unfolding update_found get_account_data put_account_data
update_found-Delivered host now m d db same found h =
    let b = beat now m d in
    let ec = ap (λ a. a.creditor_id) (beat_same now m d) in
    let ed = ap (λ a. a.debtor_id) (beat_same now m d) in
    elim (Bool-cases (is_old_event host m b)) [
      | inl old ↦ rw old (record {
        database = put_account_data b db;
        runs = refl;
        account = b;
        stored = put-found m.creditor_id m.debtor_id db.account_data d b found ec ed;
        is_old = old;
        same_creditor = ec ∙ found_creditor m db d found;
        rows_are = refl;
      })
      | inr new ↦ rw new (
          perform-Delivered host now m b d db same found ec ed
            (rw (ap (λ a. a.ledger_principal) (beat_same now m d)) h) (not_later host m b new))
    ]

-- A message about an account that is there, with the ledger's principal within 64 bits, that has not
-- expired, where a sequence number equals itself: its processing commits, so that no assertion
-- fails, the account's row is still there, the message is not newer than it, and of the accounts' data
-- only this row has changed.
pub process_account_update_signal-Delivered :
    (host : Host) (now : Timestamp) (m : AccountUpdate) (d : AccountData) (db : Db)
    → host.seqnum_eq m.last_change_seqnum m.last_change_seqnum ≡ true
    → is_expired now m ≡ false
    → get_account_data m.creditor_id m.debtor_id db ≡ some d
    → IsInt64 d.ledger_principal
    → Delivered host m db (process_account_update_signal host now m db)
unfolding process_account_update_signal
process_account_update_signal-Delivered host now m d db same fresh found h =
    rw (fresh, found) (update_found-Delivered host now m d db same found h)

-- A message that is not newer than the account's row, as any message is that was processed before,
-- changes nothing but the row's heartbeat, and not even that when it has expired.
pub old_update_is_ignored :
    (host : Host) (now : Timestamp) (m : AccountUpdate) (d : AccountData) (db : Db)
    → get_account_data m.creditor_id m.debtor_id db ≡ some d
    → is_old_event host m d ≡ true
    → process_account_update_signal host now m db
      ≡ ok (tt, if is_expired now m then db else put_account_data (beat now m d) db)
unfolding process_account_update_signal update_found
old_update_is_ignored host now m d db found old = elim (Bool-cases (is_expired now m)) [
  | inl t ↦ rw t refl
  | inr f ↦ rw (f, found, beat-is_old_event host now m d, old) refl
]

-- A second delivery, at any time, of a message about an account that is there, with the ledger's
-- principal within 64 bits, when the first one had not expired and a sequence number equals itself:
-- it commits, and it changes nothing but the heartbeat of the row that the first one left.
pub redelivery :
    (host : Host) (now now' : Timestamp) (m : AccountUpdate) (d : AccountData) (db : Db)
    → host.seqnum_eq m.last_change_seqnum m.last_change_seqnum ≡ true
    → is_expired now m ≡ false
    → get_account_data m.creditor_id m.debtor_id db ≡ some d
    → IsInt64 d.ledger_principal
    → (db1 : Db) × (d1 : AccountData) × (process_account_update_signal host now m db ≡ ok (tt, db1))
      × (get_account_data m.creditor_id m.debtor_id db1 ≡ some d1)
      × (process_account_update_signal host now' m db1
          ≡ ok (tt, if is_expired now' m then db1 else put_account_data (beat now' m d1) db1))
redelivery host now now' m d db same fresh found h =
    let v = process_account_update_signal-Delivered host now m d db same fresh found h in
    (
      v.database,
      v.account,
      v.runs,
      v.stored,
      old_update_is_ignored host now' m v.account v.database v.stored v.is_old,
    )
