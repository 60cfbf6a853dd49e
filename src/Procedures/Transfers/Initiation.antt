-- ===== src/Procedures/Transfers/Initiation.antt =====
-- `initiate_running_transfer`: its first call for a transfer, and the calls after it.
use swpt_creditors.Base.{
  ℕ, ◌≡◌, refl, ◌∙◌, ap, inl, inr, true, false, Option, none, some, [], ◌∷◌, ◌++◌,
}
use text.Mathlib.TextPositions.{eq_refl}
use swpt_creditors.Base.Int.{eq_ℤ_iff}
use swpt_creditors.Base.Lists.{find_row}
use swpt_creditors.Base.Rows.{find_row-append}
use swpt_creditors.Base.Tests.{◌==◌, opt_eq, ==_refl, Bool-cases, if◌then◌else◌}
use swpt_creditors.Models.Common.{
  CreditorId, Timestamp, Uuid, Host, transfer_exists, update_conflict,
}
use swpt_creditors.Models.Creditor.{Creditor}
use swpt_creditors.Models.Transfer.{TransferData, RunningTransfer, is_finalized}
use swpt_creditors.Models.Signal.{Signal}
use swpt_creditors.Models.Db.{Db, Result, ok, err, add_pending_log_entry, add_signal}
use swpt_creditors.Procedures.Creditors.{
  get_creditor, keep_active, has_creditor_id, get_active_creditor,
}
use swpt_creditors.Procedures.Transfers.{
  has_uuid, get_running_transfer, same_transfer_data, insert_running_transfer, new_running_transfer,
  initiate_running_transfer,
}

opt_eq_refl : (o : Option ℕ) → opt_eq ◌==◌ o o ≡ true
opt_eq_refl none = refl
opt_eq_refl (some x) = ==_refl x

pub same_transfer_data_refl : (w : TransferData) → same_transfer_data w w ≡ true
unfolding same_transfer_data
same_transfer_data_refl w =
    rw
      (
        ==_refl w.debtor_id,
        (eq_ℤ_iff w.amount w.amount).1 refl,
        eq_refl,
        eq_refl,
        eq_refl,
        eq_refl,
        opt_eq_refl w.deadline,
        ==_refl w.final_interest_rate_ts,
        (eq_ℤ_iff w.locked_amount w.locked_amount).1 refl,
      )
      refl

-- A call for a transfer that is there.
pub initiate_existing :
    (host : Host) (now : Timestamp) (creditor_id : CreditorId) (uuid : Uuid) (wanted : TransferData)
    (db : Db) (c : Creditor) (rt : RunningTransfer)
    → get_active_creditor creditor_id db ≡ some c
    → get_running_transfer creditor_id uuid db ≡ some rt
    → initiate_running_transfer host now creditor_id uuid wanted db
      ≡ err
          (if same_transfer_data rt.transfer_data wanted then transfer_exists else update_conflict)
unfolding initiate_running_transfer
initiate_existing host now creditor_id uuid wanted db c rt ec found =
    elim (Bool-cases (same_transfer_data rt.transfer_data wanted)) [
      | inl t ↦ rw (ec, found, t) refl
      | inr f ↦ rw (ec, found, f) refl
    ]

-- What the first call leaves.
pub record Initiated (creditor_id : CreditorId) (uuid : Uuid) (wanted : TransferData) (db : Db)
    (r : Result (RunningTransfer × Db)) : Type 0 where
  pub transfer : RunningTransfer
  pub database : Db
  pub runs : r ≡ ok (transfer, database)
  pub stored : get_running_transfer creditor_id uuid database ≡ some transfer
  pub data_is : transfer.transfer_data ≡ wanted
  pub unfinished : is_finalized transfer ≡ false
  pub creditors_are : database.creditors ≡ db.creditors
  pub message : Signal
  pub signals_are : database.signals ≡ db.signals ++ message ∷ []

insert-Initiated :
    (host : Host) (now : Timestamp) (creditor_id : CreditorId) (uuid : Uuid) (wanted : TransferData)
    (db : Db)
    → get_running_transfer creditor_id uuid db ≡ none
    → Initiated creditor_id uuid wanted db
        (insert_running_transfer host now creditor_id uuid wanted db)
unfolding insert_running_transfer new_running_transfer get_running_transfer add_pending_log_entry
    add_signal is_finalized
insert-Initiated host now creditor_id uuid wanted db free = record {
  transfer = _;
  database = _;
  runs = refl;
  stored =
      find_row-append (has_uuid creditor_id uuid) db.running_transfers _ free
        (rw (==_refl creditor_id, ==_refl uuid) refl);
  data_is = refl;
  unfinished = refl;
  creditors_are = refl;
  message = _;
  signals_are = refl;
}

-- For an active creditor and a transfer UUID that it has not used: the first call, at any time,
-- commits, the transfer that it returns is stored, unfinished and with the wanted data, and exactly
-- one message is sent; a call for the same UUID after it, at any time and with any data, raises an
-- exception and so changes nothing: the one for a transfer that exists when the data are
-- the same, attribute by attribute, which they are for the wanted data itself, and the one for a
-- conflict otherwise.
pub initiate_twice :
    (host : Host) (now now' : Timestamp) (creditor_id : CreditorId) (uuid : Uuid)
    (wanted wanted' : TransferData) (db : Db) (c : Creditor)
    → get_active_creditor creditor_id db ≡ some c
    → get_running_transfer creditor_id uuid db ≡ none
    → (i : Initiated creditor_id uuid wanted db
        (initiate_running_transfer host now creditor_id uuid wanted db))
      × (initiate_running_transfer host now' creditor_id uuid wanted' i.database
          ≡ err (if same_transfer_data wanted wanted' then transfer_exists else update_conflict))
      × (same_transfer_data wanted wanted ≡ true)
unfolding initiate_running_transfer get_active_creditor get_creditor
initiate_twice host now now' creditor_id uuid wanted wanted' db c ec free =
    let i = insert-Initiated host now creditor_id uuid wanted db free in
    let first : initiate_running_transfer host now creditor_id uuid wanted db
        ≡ insert_running_transfer host now creditor_id uuid wanted db =
      rw (ec, free) refl in
    let again =
      initiate_existing host now' creditor_id uuid wanted' i.database c i.transfer
        (ap (λ cs. keep_active (find_row (has_creditor_id creditor_id) cs)) i.creditors_are ∙ ec)
        i.stored in
    (
      record {
        transfer = i.transfer;
        database = i.database;
        runs = first ∙ i.runs;
        stored = i.stored;
        data_is = i.data_is;
        unfinished = i.unfinished;
        creditors_are = i.creditors_are;
        message = i.message;
        signals_are = i.signals_are;
      },
      again
          ∙ ap
              (λ d. err (if same_transfer_data d wanted' then transfer_exists else update_conflict))
              i.data_is,
      same_transfer_data_refl wanted,
    )
