-- ===== src/Procedures/Pins.antt =====
-- The operations on a creditor's PIN of procedures/creditors.py. An attempt that fails is
-- committed before the exception is raised.
pub mod Lockout
use swpt_creditors.Base.{ℕ, ◌+◌, Bool, true, false, not, Option, some, String}
use swpt_creditors.Base.Tests.{◌==◌, if◌then◌else◌, is_some}
use swpt_creditors.Models.Common.{
  CreditorId, Timestamp, Host, creditor_does_not_exist, update_conflict, value_error,
  wrong_pin_value, integrity_error,
}
use swpt_creditors.Models.Log.{blank_entry, ObjectType, ObjectUri}
use swpt_creditors.Models.PinInfo.{
  PinInfo, on, status_of_name, Attempt, result, fails, try_value, set_value,
}
use swpt_creditors.Models.Db.{
  Db, Result, ok, err, Tx, ◌>>=◌, ◌>>◌, pure, raise, gets, modify, or_raise, raise_if,
  add_pending_log_entry,
}
use swpt_creditors.Procedures.Creditors.{get_pin_info, put_pin_info}

-- The flush checks the table's constraint: a PIN that is on has a hash.
abbrev pub on_has_hash : PinInfo → Bool
on_has_hash p = elim p.status [ on ↦ is_some p.pin_hmac | _ ↦ true ]

-- The branch where the current PIN is right, or is not asked for.
change_pin :
    Host
    → Timestamp
    → String
    → CreditorId
    → String
    → String
    → Option String
    → ℕ
    → PinInfo
    → Tx (Bool × PinInfo)
unfolding status_of_name set_value put_pin_info add_pending_log_entry
change_pin host now salt creditor_id secret status_name new_pin_value latest_update_id p = do
  status ← or_raise (status_of_name status_name) value_error
  let changed = record (set_value host salt new_pin_value secret (record p { status = status })) {
    latest_update_id = latest_update_id;
    latest_update_ts = now;
  }
  raise_if (not (on_has_hash changed)) integrity_error
  modify (put_pin_info changed)
  modify (
      add_pending_log_entry creditor_id (record (blank_entry now) {
        object_type = some ObjectType.pin_info;
        object_uri = some (ObjectUri.pin_info creditor_id);
        object_update_id = some latest_update_id;
      }))
  pure (true, changed)

-- What follows `try_value`: its changes to the row are kept, whatever its result.
after_attempt : Attempt → (PinInfo → Tx (Bool × PinInfo)) → Tx (Bool × PinInfo)
unfolding put_pin_info
after_attempt (fails e) change = raise e
after_attempt (result true p) change = change p
after_attempt (result false p) change = do modify (put_pin_info p); pure (false, p)

unfoldable pub update_pin_info_helper :
    Host
    → Timestamp
    → String
    → CreditorId
    → String
    → String
    → Option String
    → ℕ
    → Bool
    → Option String
    → Timestamp
    → Tx (Bool × PinInfo)
unfolding get_pin_info try_value after_attempt change_pin
update_pin_info_helper host now salt creditor_id status_name secret new_pin_value latest_update_id
      pin_reset_mode pin_value pin_failures_reset_interval =
    do
      p ← or_raise (← gets (get_pin_info creditor_id)) creditor_does_not_exist
      raise_if (not (latest_update_id == p.latest_update_id + 1)) update_conflict
      let attempt =
          if pin_reset_mode
          then result true p
          else try_value host pin_value secret now pin_failures_reset_interval p
      after_attempt attempt
          (change_pin host now salt creditor_id secret status_name new_pin_value latest_update_id)

-- A call outside a transaction: the exception or the result, and the database that it leaves.
abbrev pub Call : Type 0 → Type 0
Call A = Db → Result A × Db

-- The result of a transaction, taken apart: a wrong PIN is raised after the commit.
abbrev pub raise_wrong_pin : {A : Type 0} → Db → Result ((Bool × A) × Db) → Result A × Db
raise_wrong_pin db (ok ((true, a), db')) = (ok a, db')
raise_wrong_pin db (ok ((false, a), db')) = (err wrong_pin_value, db')
raise_wrong_pin db (err e) = (err e, db)

unfoldable pub update_pin_info :
    Host
    → Timestamp
    → String
    → CreditorId
    → String
    → String
    → Option String
    → ℕ
    → Bool
    → Option String
    → Timestamp
    → Call PinInfo
unfolding update_pin_info_helper
update_pin_info host now salt creditor_id status_name secret new_pin_value latest_update_id
      pin_reset_mode pin_value pin_failures_reset_interval db =
    raise_wrong_pin db (
      update_pin_info_helper host now salt creditor_id status_name secret new_pin_value
        latest_update_id pin_reset_mode pin_value pin_failures_reset_interval db)

-- The row is flushed after an attempt.
flush_attempt : Attempt → Tx (Bool × Unit {0})
unfolding put_pin_info
flush_attempt (fails e) = raise e
flush_attempt (result is_ok p) = do modify (put_pin_info p); pure (is_ok, tt)

unfoldable pub verify_pin_value_helper :
    Host → Timestamp → CreditorId → String → Option String → Timestamp → Tx (Bool × Unit {0})
unfolding get_pin_info try_value flush_attempt
verify_pin_value_helper host now creditor_id secret pin_value pin_failures_reset_interval = do
  p ← or_raise (← gets (get_pin_info creditor_id)) creditor_does_not_exist
  flush_attempt (try_value host pin_value secret now pin_failures_reset_interval p)

unfoldable pub verify_pin_value :
    Host → Timestamp → CreditorId → String → Option String → Timestamp → Call (Unit {0})
unfolding verify_pin_value_helper
verify_pin_value host now creditor_id secret pin_value pin_failures_reset_interval db =
    raise_wrong_pin db
      (verify_pin_value_helper host now creditor_id secret pin_value pin_failures_reset_interval db)
