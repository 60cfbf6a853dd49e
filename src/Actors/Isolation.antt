-- ===== src/Actors/Isolation.antt =====
-- The handlers of actors.py and the data of the accounts of other creditors.
use swpt_creditors.Base.{
  ℕ, ◌+◌, ◌≡◌, ◌≢◌, ap, sym, ◌∙◌, refl, inl, inr, ◌&&◌, ◌||◌, not, Bool, true, false, Option, none,
  some, String, List, [], ◌∷◌, arith,
}
use mathlib.Core.Path.{subst}
use swpt_creditors.Base.Int.{ℤ, pos}
use swpt_creditors.Base.Lists.{All, find_row, rows_where, put_row}
use swpt_creditors.Base.Rows.{find_row_sound, All-find_row}
use swpt_creditors.Base.Tests.{◌==◌, str_eq, leb, Bool-cases, Option-cases, if◌then◌else◌}
use swpt_creditors.Models.Common.{CreditorId, DebtorId, Timestamp, Date, Float, Host, runtime_error}
use swpt_creditors.Models.Account.{AccountData}
use swpt_creditors.Models.Db.{
  Db, ◌>>◌, pure, modify, raise_if, Result, ok, err, is_key, next_uid, add_pending_log_entry,
  add_signal,
}
use swpt_creditors.Procedures.Accounts.{
  data_key, get_account_data, put_account_data, insert_info_update_pending_log_entry,
}
use swpt_creditors.Models.Transfer.{CommittedTransfer, RunningTransfer, is_finalized}
use swpt_creditors.Procedures.Creditors.{
  put_creditor, get_creditor, str_of_id, activate_inactive, activate_creditor,
}
use swpt_creditors.Models.Creditor.{Creditor, is_activated, is_deactivated}
use swpt_creditors.Procedures.Transfers.{finalize_running_transfer, put_running_transfer}
use swpt_creditors.Procedures.TransferSignals.{
  RequestKey, reject_found, prepared_found, finalized_found, process_account_transfer_signal,
  record_transfer, insert_committed_transfer, ensure_pending_ledger_update, is_data_key,
}
use swpt_creditors.Procedures.Ledger.Chain.{IsInt64}
use swpt_creditors.Procedures.AccountUpdates.{
  AccountUpdate, is_expired, is_already_discarded, discard_orphaned_account, update_found,
  process_account_update_signal,
}
use swpt_creditors.Procedures.AccountUpdates.Redelivery.{process_account_update_signal-Delivered}
use swpt_creditors.Actors.{
  pass_invalid, on_rejected_config_signal, on_account_purge_signal, on_account_transfer_signal,
  ct_direct, on_rejected_direct_transfer_signal, on_prepared_direct_transfer_signal,
  on_finalized_direct_transfer_signal, on_configure_account_signal, on_activate_creditor_signal,
  on_account_update_signal, Actor, actor, MessageType, Content, creditor_id_of,
}
use swpt_creditors.Procedures.AccountConfigs.{
  RejectedConfig, is_rejected, flush_info, reject_config, process_rejected_config_signal, is_purged,
  purge_found, process_account_purge_signal,
}

-- The data of a creditor's accounts.
abbrev pub account_data_of : CreditorId → Db → List AccountData
account_data_of creditor_id db = rows_where (λ d. d.creditor_id == creditor_id) db.account_data

rows_where-put_row_other {ℓ} :
    {A : Type ℓ} (q p : A → Bool) (v : A) (xs : List A)
    → q v ≡ false
    → ((x : A) → p x ≡ true → q x ≡ false)
    → rows_where q (put_row p v xs) ≡ rows_where q xs
rows_where-put_row_other q p v [] qv apart = refl
rows_where-put_row_other q p v (x ∷ xs) qv apart =
    ground (arith, apart x, rows_where-put_row_other q p v xs qv apart)

apart_key : (c di a b c' : ℕ) → a ≢ c' → is_key a b c di ≡ true → (c == c') ≡ false
apart_key c di a b c' ne h = ground arith

apart_self : (a c' : ℕ) → a ≢ c' → (a == c') ≡ false
apart_self a c' ne = ground arith

-- A row of one creditor is written.
put-other :
    (c : CreditorId) (a : AccountData) (rows : List AccountData)
    → a.creditor_id ≢ c
    → rows_where (λ d. d.creditor_id == c) (put_row (data_key a.creditor_id a.debtor_id) a rows)
      ≡ rows_where (λ d. d.creditor_id == c) rows
put-other c a rows ne =
    rows_where-put_row_other (λ d. d.creditor_id == c) (data_key a.creditor_id a.debtor_id) a rows
      (apart_self a.creditor_id c ne)
      (λ x h. apart_key x.creditor_id x.debtor_id a.creditor_id a.debtor_id c ne h)

flush_info-other :
    (c : CreditorId) (host : Host) (now : Timestamp) (d : AccountData) (db : Db)
    → d.creditor_id ≢ c
    → account_data_of c (flush_info host now d db) ≡ account_data_of c db
unfolding flush_info insert_info_update_pending_log_entry put_account_data next_uid
    add_pending_log_entry
flush_info-other c host now d db ne =
    put-other c
      (record d {
        info_latest_update_id = d.info_latest_update_id + 1;
        info_latest_update_ts = now;
      })
      db.account_data ne

rejected_creditor :
    (host : Host) (m : RejectedConfig) (d : AccountData)
    → is_rejected host m d ≡ true
    → d.creditor_id ≡ m.creditor_id
unfolding is_rejected
rejected_creditor host m d h = ground arith

purged_creditor :
    (creditor_id : CreditorId) (debtor_id : DebtorId) (date : Date) (d : AccountData)
    → is_purged creditor_id debtor_id date d ≡ true
    → d.creditor_id ≡ creditor_id
unfolding is_purged
purged_creditor creditor_id debtor_id date d h = ground arith

rejected_config-other :
    (c : CreditorId) (host : Host) (now : Timestamp) (m : RejectedConfig) (db : Db)
    → m.creditor_id ≢ c
    → account_data_of c (process_rejected_config_signal host now m db) ≡ account_data_of c db
unfolding process_rejected_config_signal reject_config
rejected_config-other c host now m db ne =
    elim (Option-cases (find_row (is_rejected host m) db.account_data)) [
      | inl missing ↦ rw missing refl
      | inr (d, found) ↦
          let same =
            rejected_creditor host m d
              (find_row_sound (is_rejected host m) db.account_data d found) in
          rw found (
            flush_info-other c host now (record d { config_error = some m.rejection_code }) db
              (λ e. ne (sym same ∙ e)))
    ]

purge-other :
    (c : CreditorId) (host : Host) (now : Timestamp) (debtor_id : DebtorId)
    (creditor_id : CreditorId) (creation_date : Date) (db : Db)
    → creditor_id ≢ c
    → account_data_of c
        (process_account_purge_signal host now debtor_id creditor_id creation_date db)
      ≡ account_data_of c db
unfolding process_account_purge_signal purge_found
purge-other c host now debtor_id creditor_id creation_date db ne =
    elim (Option-cases (find_row (is_purged creditor_id debtor_id creation_date) db.account_data)) [
      | inl missing ↦ rw missing refl
      | inr (d, found) ↦
          let same = purged_creditor creditor_id debtor_id creation_date d (
            find_row_sound (is_purged creditor_id debtor_id creation_date) db.account_data d
              found) in
          rw found (
            flush_info-other c host now
              (record d {
                has_server_account = false;
                principal = pos 0;
                interest = host.floats.decimal 0 0;
              })
              db (λ e. ne (sym same ∙ e)))
    ]

-- The messages about transfers, and activation, write no account data.
finalize-data :
    (now : Timestamp) (rt : RunningTransfer) (error_code : Option String)
    (total_locked_amount : Option ℤ) (db : Db)
    → (finalize_running_transfer now rt error_code total_locked_amount db).account_data
      ≡ db.account_data
unfolding finalize_running_transfer put_running_transfer add_pending_log_entry
finalize-data now rt error_code total_locked_amount db = elim (Bool-cases (is_finalized rt)) [
  | inl t ↦ rw t refl
  | inr f ↦ rw f refl
]

rejected_transfer-data :
    (now : Timestamp) (key : RequestKey) (status_code : String) (total : ℤ)
    (found : Option RunningTransfer) (db : Db)
    → (reject_found now key status_code total found db).account_data ≡ db.account_data
unfolding reject_found
rejected_transfer-data now key status_code total none db = refl
rejected_transfer-data now key status_code total (some rt) db = ground (arith, finalize-data now rt)

prepared_transfer-data :
    (key : RequestKey) (transfer_id locked_amount : ℤ) (recipient : String)
    (found : Option RunningTransfer) (db : Db)
    → (prepared_found key transfer_id locked_amount recipient found db).account_data
      ≡ db.account_data
unfolding prepared_found add_signal put_running_transfer
prepared_transfer-data key transfer_id locked_amount recipient none db = refl
prepared_transfer-data key transfer_id locked_amount recipient (some rt) db = ground arith

finalized_transfer-data :
    (now : Timestamp) (key : RequestKey) (transfer_id committed_amount : ℤ) (status_code : String)
    (total : ℤ) (found : Option RunningTransfer) (db : Db)
    → (finalized_found now key transfer_id committed_amount status_code total found db).account_data
      ≡ db.account_data
unfolding finalized_found
finalized_transfer-data now key transfer_id committed_amount status_code total none db = refl
finalized_transfer-data now key transfer_id committed_amount status_code total (some rt) db =
    ground (arith, finalize-data now rt)

record_transfer-data :
    (now : Timestamp) (t : CommittedTransfer) (found : Option AccountData) (db : Db)
    → (record_transfer now t found db).account_data ≡ db.account_data
unfolding record_transfer insert_committed_transfer ensure_pending_ledger_update
    add_pending_log_entry
record_transfer-data now t none db = refl
record_transfer-data now t (some d) db = ground arith

transfer-data :
    (now ts retention_interval : Timestamp) (t : CommittedTransfer) (db : Db)
    → (process_account_transfer_signal now t ts retention_interval db).account_data
      ≡ db.account_data
unfolding process_account_transfer_signal
transfer-data now ts retention_interval t db = ground (
  arith,
  record_transfer-data now t (find_row (is_data_key t.creditor_id t.debtor_id) db.account_data) db,
)

-- What a handler leaves, if it does not raise.
abbrev KeepsData : {A : Type 0} → Db → Result (A × Db) → Type 0
KeepsData db (ok (_, db')) = db'.account_data ≡ db.account_data
KeepsData db (err e) = Unit

activate_inactive-data :
    (now : Timestamp) (creditor_id : CreditorId) (reservation_id : String) (c : Creditor) (db : Db)
    → KeepsData db (activate_inactive now creditor_id reservation_id c db)
unfolding activate_inactive put_creditor
activate_inactive-data now creditor_id reservation_id c db =
    elim (Bool-cases
      (not (str_eq reservation_id (str_of_id c.reservation_id)) || is_deactivated c)) [
        | inl wrong ↦ rw wrong tt
        | inr right ↦ rw right refl
      ]

activate-data :
    (now : Timestamp) (creditor_id : CreditorId) (reservation_id : String) (db : Db)
    → KeepsData db (activate_creditor now creditor_id reservation_id db)
unfolding activate_creditor
activate-data now creditor_id reservation_id db =
    elim (Option-cases (get_creditor creditor_id db)) [
      | inl missing ↦ rw missing tt
      | inr (c, found) ↦ rw found (either c (is_activated c))
    ]
  where
    either :
        (c : Creditor) (b : Bool)
        → KeepsData db
            ((if b then pure c else activate_inactive now creditor_id reservation_id c) db)
    either c true = refl
    either c false = activate_inactive-data now creditor_id reservation_id c db

on_activate-data :
    (db : Db) (r : Result (Creditor × Db)) → KeepsData db r → KeepsData db (pass_invalid db r)
on_activate-data db (ok (c, db')) h = h
on_activate-data db (err e) h = ground arith

-- A handler leaves the account data of the creditor c, if it does not raise.
abbrev pub KeepsOther : CreditorId → Db → Result (Unit {0} × Db) → Type 0
KeepsOther c db (ok (_, db')) = account_data_of c db' ≡ account_data_of c db
KeepsOther c db (err e) = Unit

kept : (c : CreditorId) (db : Db) (r : Result (Unit {0} × Db)) → KeepsData db r → KeepsOther c db r
kept c db (ok (_, db')) h = ap (rows_where (λ d. d.creditor_id == c)) h
kept c db (err e) h = tt

discard-data :
    (host : Host) (now : Timestamp) (c : CreditorId) (di : DebtorId) (flags : ℕ) (amount : Float)
    (db : Db)
    → (discard_orphaned_account host now c di flags amount db).account_data ≡ db.account_data
unfolding discard_orphaned_account add_signal
discard-data host now c di flags amount db =
    elim (Bool-cases (is_already_discarded host flags amount)) [
      | inl t ↦ rw t refl
      | inr f ↦ rw f refl
    ]

late_update :
    (c : CreditorId) (host : Host) (now : Timestamp) (m : AccountUpdate) (db : Db)
    → is_expired now m ≡ true
    → KeepsOther c db (process_account_update_signal host now m db)
unfolding process_account_update_signal
late_update c host now m db late = rw late refl

orphaned_update :
    (c : CreditorId) (host : Host) (now : Timestamp) (m : AccountUpdate) (db : Db)
    → is_expired now m ≡ false
    → get_account_data m.creditor_id m.debtor_id db ≡ none
    → KeepsOther c db (process_account_update_signal host now m db)
unfolding process_account_update_signal update_found
orphaned_update c host now m db fresh missing =
    rw (fresh, missing)
      (ap (rows_where (λ d. d.creditor_id == c))
        (discard-data host now m.creditor_id m.debtor_id m.config_flags m.negligible_amount db))

-- A new state of an account, where the ledger principals fit 64 bits.
update-other :
    (c : CreditorId) (host : Host) (now : Timestamp) (m : AccountUpdate) (db : Db)
    → host.seqnum_eq m.last_change_seqnum m.last_change_seqnum ≡ true
    → All (λ d. IsInt64 d.ledger_principal) db.account_data
    → m.creditor_id ≢ c
    → KeepsOther c db (process_account_update_signal host now m db)
unfolding get_account_data
update-other c host now m db same fits ne = elim (Bool-cases (is_expired now m)) [
  | inl late ↦ late_update c host now m db late
  | inr fresh ↦ elim (Option-cases (get_account_data m.creditor_id m.debtor_id db)) [
    | inl missing ↦ orphaned_update c host now m db fresh missing
    | inr (d, found) ↦
        let v =
          process_account_update_signal-Delivered host now m d db same fresh found
            (All-find_row _ (data_key m.creditor_id m.debtor_id) db.account_data d fits found) in
        subst (KeepsOther c db) (sym v.runs) (
          ap (rows_where (λ d. d.creditor_id == c)) v.rows_are
          ∙ put-other c v.account db.account_data (λ e. ne (sym v.same_creditor ∙ e)))
  ]
]

guarded :
    (c : CreditorId) (db : Db) (unexpected : Bool) (f : Db → Db)
    → (f db).account_data ≡ db.account_data
    → KeepsOther c db ((raise_if unexpected runtime_error >> modify f) db)
guarded c db true f h = tt
guarded c db false f h = ap (rows_where (λ d. d.creditor_id == c)) h

in_range :
    (c : CreditorId) (db : Db) (b : Bool) (f : Db → Db)
    → (f db).account_data ≡ db.account_data
    → KeepsOther c db ((if b then modify f else pure tt) db)
in_range c db true f h = ap (rows_where (λ d. d.creditor_id == c)) h
in_range c db false f h = refl

-- A handler of a message about one creditor, if it raises no exception, leaves the data of the
-- accounts of every other creditor as it was, where a sequence number equals itself and the ledger
-- principals fit 64 bits.
pub actor-KeepsOther :
    (a : Actor) (t : MessageType) (m : Content t) (c : CreditorId) (db : Db)
    → ((n : ℕ) → a.host.seqnum_eq n n ≡ true)
    → All (λ d. IsInt64 d.ledger_principal) db.account_data
    → creditor_id_of t m ≢ c
    → KeepsOther c db (actor a t m db)
unfolding actor on_rejected_config_signal on_account_purge_signal on_account_transfer_signal
    on_rejected_direct_transfer_signal on_prepared_direct_transfer_signal
    on_finalized_direct_transfer_signal on_configure_account_signal on_activate_creditor_signal
    on_account_update_signal
actor-KeepsOther a MessageType.rejected_config m c db same fits ne =
    rejected_config-other c a.host a.current_ts m db ne
actor-KeepsOther a MessageType.account_update m c db same fits ne =
    update-other c a.host a.current_ts _ db (same _) fits ne
actor-KeepsOther a MessageType.account_purge m c db same fits ne =
    purge-other c a.host a.current_ts m.debtor_id m.creditor_id m.creation_date db ne
actor-KeepsOther a MessageType.account_transfer m c db same fits ne =
    ap (rows_where (λ d. d.creditor_id == c))
      (transfer-data a.current_ts m.ts a.config.log_retention_interval m.transfer db)
actor-KeepsOther a MessageType.rejected_transfer m c db same fits ne =
    guarded c db (not (str_eq m.coordinator_type ct_direct)) _
      (rejected_transfer-data a.current_ts m.key m.status_code m.total_locked_amount _ db)
actor-KeepsOther a MessageType.prepared_transfer m c db same fits ne =
    guarded c db (not (str_eq m.coordinator_type ct_direct)) _
      (prepared_transfer-data m.key m.transfer_id m.locked_amount m.recipient _ db)
actor-KeepsOther a MessageType.finalized_transfer m c db same fits ne =
    guarded c db (not (str_eq m.coordinator_type ct_direct)) _ (
      finalized_transfer-data a.current_ts m.key m.transfer_id m.committed_amount m.status_code
        m.total_locked_amount _ db)
actor-KeepsOther a MessageType.activate_creditor_message m c db same fits ne =
    kept c db _
      (on_activate-data db _ (activate-data a.current_ts m.creditor_id m.reservation_id db))
actor-KeepsOther a MessageType.configure_account m c db same fits ne =
    in_range c db
      (leb a.config.min_creditor_id m.creditor_id && leb m.creditor_id a.config.max_creditor_id) _
      refl
