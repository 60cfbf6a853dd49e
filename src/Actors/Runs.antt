-- ===== src/Actors/Runs.antt =====
-- What the messages of actors.py are, and which procedure the handler of each type runs.
use text.Mathlib.TextEquality.{path_by_compare}
use swpt_creditors.Base.{
  ◌≡◌, ap, sym, ◌∙◌, refl, ◌⊎◌, inl, inr, ◌&&◌, not, Bool, true, false, Option, some, String, arith,
}
use swpt_creditors.Base.Tests.{Bool-cases, str_eq, leb, if◌then◌else◌}
use swpt_creditors.Models.Common.{Error, Bytes, Json, invalid_reservation_id}
use swpt_creditors.Models.Creditor.{Creditor}
use swpt_creditors.Models.Db.{Db, Result, ok, err, ◌>>◌, pure, modify, raise_if}
use swpt_creditors.Procedures.Creditors.{activate_creditor}
use swpt_creditors.Procedures.AccountConfigs.{
  process_rejected_config_signal, process_account_purge_signal,
}
use swpt_creditors.Procedures.AccountUpdates.{process_account_update_signal}
use swpt_creditors.Procedures.TransferSignals.{
  process_account_transfer_signal, process_rejected_direct_transfer_signal,
  process_prepared_direct_transfer_signal, process_finalized_direct_transfer_signal,
  process_configure_account_signal,
}
use swpt_creditors.Actors.{
  MessageType, Content, Actor, actor, message_type, or_none, pass_invalid,
  on_rejected_config_signal, on_account_update_signal, on_account_purge_signal,
  on_account_transfer_signal, on_rejected_direct_transfer_signal,
  on_prepared_direct_transfer_signal, on_finalized_direct_transfer_signal,
  on_activate_creditor_signal, on_configure_account_signal,
}

-- The names of the types in the Swaptacular messaging protocol.
abbrev pub name_of : MessageType → String
name_of MessageType.rejected_config = "RejectedConfig"
name_of MessageType.account_update = "AccountUpdate"
name_of MessageType.account_purge = "AccountPurge"
name_of MessageType.account_transfer = "AccountTransfer"
name_of MessageType.rejected_transfer = "RejectedTransfer"
name_of MessageType.prepared_transfer = "PreparedTransfer"
name_of MessageType.finalized_transfer = "FinalizedTransfer"
name_of MessageType.activate_creditor_message = "ActivateCreditor"
name_of MessageType.configure_account = "ConfigureAccount"

-- The message is a valid one of the type t, with the content m.
pub record Reads (a : Actor) (content_type massage_type : Option String) (body : Bytes)
    (t : MessageType) (m : Content t) : Type 0 where
  pub is_json : content_type ≡ some "application/json"
  pub named : massage_type ≡ some (name_of t)
  pub document : Json
  pub parsed : a.schemas.json_loads body ≡ some document
  pub valid : a.schemas.load t document ≡ some m

-- The change that a message of the type makes, by the procedure that it is meant for.
abbrev pub Runs : Actor → (t : MessageType) → Content t → Db → Db → Type 0
Runs a MessageType.rejected_config m db db' =
    db' ≡ process_rejected_config_signal a.host a.current_ts m db
Runs a MessageType.account_update m db db' =
    process_account_update_signal a.host a.current_ts
      (record (m.update) {
        debtor_info_iri = or_none m.debtor_info_iri;
        debtor_info_content_type = or_none m.debtor_info_content_type;
        debtor_info_sha256 = or_none (a.schemas.b16decode m.debtor_info_sha256);
      })
      db
    ≡ ok (tt, db')
Runs a MessageType.account_purge m db db' =
    db'
    ≡ process_account_purge_signal a.host a.current_ts m.debtor_id m.creditor_id m.creation_date db
Runs a MessageType.account_transfer m db db' =
    db'
    ≡ process_account_transfer_signal a.current_ts m.transfer m.ts a.config.log_retention_interval
        db
Runs a MessageType.rejected_transfer m db db' =
    (str_eq m.coordinator_type "direct" ≡ true)
    × (db'
        ≡ process_rejected_direct_transfer_signal a.current_ts m.key m.status_code
            m.total_locked_amount db)
Runs a MessageType.prepared_transfer m db db' =
    (str_eq m.coordinator_type "direct" ≡ true)
    × (db'
        ≡ process_prepared_direct_transfer_signal m.key m.transfer_id m.locked_amount m.recipient
            db)
Runs a MessageType.finalized_transfer m db db' =
    (str_eq m.coordinator_type "direct" ≡ true)
    × (db'
        ≡ process_finalized_direct_transfer_signal a.current_ts m.key m.transfer_id
            m.committed_amount m.status_code m.total_locked_amount db)
Runs a MessageType.activate_creditor_message m db db' =
    ((c : Creditor) × (activate_creditor a.current_ts m.creditor_id m.reservation_id db
        ≡ ok (c, db')))
    ⊎ ((activate_creditor a.current_ts m.creditor_id m.reservation_id db
          ≡ err invalid_reservation_id)
        × (db' ≡ db))
Runs a MessageType.configure_account m db db' =
    ((leb a.config.min_creditor_id m.creditor_id && leb m.creditor_id a.config.max_creditor_id
        ≡ true)
      × (db'
          ≡ process_configure_account_signal a.host.floats m.debtor_id m.creditor_id m.ts m.seqnum
              m.negligible_amount m.config_flags m.config_data db))
    ⊎ ((leb a.config.min_creditor_id m.creditor_id && leb m.creditor_id a.config.max_creditor_id
          ≡ false)
        × (db' ≡ db))

pub text-path : (s t : String) → str_eq s t ≡ true → s ≡ t
text-path s t h = path_by_compare s t (ground arith)

pub message_type-name_of : (t : MessageType) → message_type (name_of t) ≡ some t
unfolding message_type
message_type-name_of MessageType.rejected_config = refl
message_type-name_of MessageType.account_update = refl
message_type-name_of MessageType.account_purge = refl
message_type-name_of MessageType.account_transfer = refl
message_type-name_of MessageType.rejected_transfer = refl
message_type-name_of MessageType.prepared_transfer = refl
message_type-name_of MessageType.finalized_transfer = refl
message_type-name_of MessageType.activate_creditor_message = refl
message_type-name_of MessageType.configure_account = refl

some_inj : (t u : MessageType) → some t ≡ some u → t ≡ u
some_inj t u h = cc

-- One test of the name, and the tests after it.
next_name :
    (name : String) (t u : MessageType) (rest : Option MessageType)
    → (if str_eq name (name_of t) then some t else rest) ≡ some u
    → (rest ≡ some u → name ≡ name_of u)
    → name ≡ name_of u
next_name name t u rest h otherwise = elim (Bool-cases (str_eq name (name_of t))) [
  | inl same ↦ text-path name (name_of t) same ∙ ap name_of (some_inj t u (rw same at h))
  | inr other ↦ otherwise (rw other at h)
]

pub named_type : (name : String) (t : MessageType) → message_type name ≡ some t → name ≡ name_of t
unfolding message_type
named_type name t h = next_name name MessageType.rejected_config t _ h λ h.
    next_name name MessageType.account_update t _ h λ h.
      next_name name MessageType.account_purge t _ h λ h.
        next_name name MessageType.account_transfer t _ h λ h.
          next_name name MessageType.rejected_transfer t _ h λ h.
            next_name name MessageType.prepared_transfer t _ h λ h.
              next_name name MessageType.finalized_transfer t _ h λ h.
                next_name name MessageType.activate_creditor_message t _ h
                  λ h. next_name name MessageType.configure_account t _ h λ h. absurd cc

database_of : Db → Result (Unit {0} × Db) → Db
database_of db (ok (_, db')) = db'
database_of db (err e) = db

same_database : (x y : Db) → ◌≡◌ {A = Result (Unit {0} × Db)} (ok (tt, x)) (ok (tt, y)) → y ≡ x
unfolding database_of
same_database x y h = sym (ap (database_of x) h)

-- A change that is made under a test, the exception being raised otherwise.
guarded :
    (b : Bool) (e : Error) (f : Db → Db) (db db' : Db)
    → (raise_if (not b) e >> modify f) db ≡ ok (tt, db')
    → (b ≡ true) × (db' ≡ f db)
guarded true e f db db' h = (refl, same_database (f db) db' h)
guarded false e f db db' h = absurd cc

-- A change that is made under a test, or nothing.
either_way :
    (b : Bool) (f : Db → Db) (db db' : Db)
    → (if b then modify f else pure tt) db ≡ ok (tt, db')
    → ((b ≡ true) × (db' ≡ f db)) ⊎ ((b ≡ false) × (db' ≡ db))
either_way true f db db' h = inl (refl, same_database (f db) db' h)
either_way false f db db' h = inr (refl, same_database db db' h)

passed :
    (r : Result (Creditor × Db)) (db db' : Db)
    → pass_invalid db r ≡ ok (tt, db')
    → ((c : Creditor) × (r ≡ ok (c, db'))) ⊎ ((r ≡ err invalid_reservation_id) × (db' ≡ db))
passed (ok (c, x)) db db' h = inl (c, ap (λ y. ok (c, y)) (sym (same_database x db' h)))
passed (err invalid_reservation_id) db db' h = inr (refl, same_database db db' h)
passed (err e) db db' h = absurd cc

pub actor-Runs :
    (a : Actor) (t : MessageType) (m : Content t) (db db' : Db)
    → actor a t m db ≡ ok (tt, db')
    → Runs a t m db db'
unfolding actor on_rejected_config_signal on_account_update_signal on_account_purge_signal
    on_account_transfer_signal on_rejected_direct_transfer_signal on_prepared_direct_transfer_signal
    on_finalized_direct_transfer_signal on_activate_creditor_signal on_configure_account_signal
actor-Runs a MessageType.rejected_config m db db' h = same_database _ db' h
actor-Runs a MessageType.account_update m db db' h = h
actor-Runs a MessageType.account_purge m db db' h = same_database _ db' h
actor-Runs a MessageType.account_transfer m db db' h = same_database _ db' h
actor-Runs a MessageType.rejected_transfer m db db' h = guarded _ _ _ db db' h
actor-Runs a MessageType.prepared_transfer m db db' h = guarded _ _ _ db db' h
actor-Runs a MessageType.finalized_transfer m db db' h = guarded _ _ _ db db' h
actor-Runs a MessageType.activate_creditor_message m db db' h = passed _ db db' h
actor-Runs a MessageType.configure_account m db db' h = either_way _ _ db db' h
