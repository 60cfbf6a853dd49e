-- ===== src/Procedures/AccountParts.antt =====
-- procedures/accounts.py: the updates of the parts of an account by its owner. Each is guarded by
-- `allow_update`; an update that is already in place changes nothing. This file has what they share,
-- and the update of the configuration.
pub mod Config
pub mod Display
pub mod Exchange
pub mod Knowledge
pub mod Pegs
use swpt_creditors.Base.{ℕ, max, ◌||◌, not, Bool, true, false, some, String}
use swpt_creditors.Base.Tests.{str_eq, bool_eq}
use swpt_creditors.Models.Common.{
  CreditorId, DebtorId, Timestamp, Host, Float, already_up_to_date, account_does_not_exist,
  assertion_error,
}
use swpt_creditors.Models.Log.{BaseLogEntry, blank_entry, ObjectType, ObjectUri}
use swpt_creditors.Models.Account.{
  AccountData, is_scheduled_for_deletion, set_scheduled_for_deletion, is_deletion_safe,
}
use swpt_creditors.Models.Signal.{configure_account, updated_flags}
use swpt_creditors.Models.Db.{
  Db, Result, ok, err, Tx, ◌>>=◌, ◌>>◌, pure, raise, gets, modify, or_raise, raise_if,
  add_pending_log_entry, add_signal, next_uid,
}
use swpt_creditors.Procedures.Common.{Update, allow_update}
use swpt_creditors.Procedures.Accounts.{
  get_account_data, put_account_data, insert_info_update_pending_log_entry,
}

-- `try: perform_update = allow_update(…) except AlreadyUpToDate: return obj`
abbrev pub when_allowed : {A : Type 0} → A → Result (A → A) → ((A → A) → Tx A) → Tx A
when_allowed obj (ok perform_update) k = k perform_update
when_allowed obj (err already_up_to_date) k = pure obj
when_allowed obj (err e) k = raise e

-- The entry about a part of an account that its owner has changed.
abbrev pub part_entry : Timestamp → ObjectType → ObjectUri → ℕ → BaseLogEntry
part_entry current_ts object_type object_uri latest_update_id = record (blank_entry current_ts) {
  object_type = some object_type;
  object_uri = some object_uri;
  object_update_id = some latest_update_id;
}

pub record ConfigUpdate : Type 0 where
  pub is_scheduled_for_deletion : Bool
  pub negligible_amount : Float
  pub allow_unsafe_deletion : Bool
  pub config_data : String

unfoldable pub config_update : Host → ConfigUpdate → Update AccountData
unfolding is_scheduled_for_deletion set_scheduled_for_deletion
config_update host c = record {
  has_changes = λ d.
      not (bool_eq (is_scheduled_for_deletion d) c.is_scheduled_for_deletion)
      || not (host.floats.eq d.negligible_amount c.negligible_amount)
      || not (bool_eq d.allow_unsafe_deletion c.allow_unsafe_deletion)
      || not (str_eq d.config_data c.config_data);
  set_values = λ d. record (set_scheduled_for_deletion c.is_scheduled_for_deletion d) {
    negligible_amount = host.floats.to_real c.negligible_amount;
    allow_unsafe_deletion = c.allow_unsafe_deletion;
    config_data = c.config_data;
  };
}

abbrev set_config_update_id : ℕ → AccountData → AccountData
set_config_update_id n d = record d { config_latest_update_id = n }

-- The fields that a new configuration sets beside the update itself.
unfoldable pub reconfigure : Host → Timestamp → AccountData → AccountData
reconfigure host current_ts d = record d {
  config_latest_update_ts = current_ts;
  last_config_ts = max current_ts d.last_config_ts;
  last_config_seqnum = host.increment_seqnum d.last_config_seqnum;
  is_config_effectual = false;
}

-- The change of the info, if the deletion of the account was safe before.
log_unsafe : Host → Timestamp → Bool → AccountData → Db → AccountData × Db
unfolding insert_info_update_pending_log_entry
log_unsafe host current_ts false d db = (d, db)
log_unsafe host current_ts true d db = insert_info_update_pending_log_entry host current_ts d db

perform_config_update :
    Host
    → Timestamp
    → CreditorId
    → DebtorId
    → ℕ
    → AccountData
    → (AccountData → AccountData)
    → Tx AccountData
unfolding reconfigure is_deletion_safe add_signal add_pending_log_entry next_uid log_unsafe
    put_account_data
perform_config_update host current_ts creditor_id debtor_id latest_update_id d perform_update = do
  let d' = reconfigure host current_ts (perform_update d)
  modify (
      add_signal (
        updated_flags (record {
          creditor_id = creditor_id;
          debtor_id = debtor_id;
          update_id = latest_update_id;
          config_flags = d'.config_flags;
          ts = current_ts;
        })))
  modify (
      add_pending_log_entry creditor_id (
        part_entry current_ts ObjectType.account_config
          (ObjectUri.account_config creditor_id debtor_id) latest_update_id))
  modify (next_uid host)
  raise_if (is_deletion_safe d') assertion_error
  d'' ← λ db. ok (log_unsafe host current_ts (is_deletion_safe d) d' db)
  modify (put_account_data d'')
  modify (
      add_signal (
        configure_account (record {
          creditor_id = creditor_id;
          debtor_id = debtor_id;
          ts = d''.last_config_ts;
          seqnum = d''.last_config_seqnum;
          negligible_amount = d''.negligible_amount;
          config_data = d''.config_data;
          config_flags = d''.config_flags;
        })))
  pure d''

unfoldable pub update_account_config :
    Host → Timestamp → CreditorId → DebtorId → ConfigUpdate → ℕ → Tx AccountData
unfolding get_account_data allow_update config_update perform_config_update
update_account_config host current_ts creditor_id debtor_id c latest_update_id = do
  d ← or_raise (← gets (get_account_data creditor_id debtor_id)) account_does_not_exist
  when_allowed d
      (allow_update d (λ o. o.config_latest_update_id) set_config_update_id latest_update_id
        (config_update host c))
      (perform_config_update host current_ts creditor_id debtor_id latest_update_id d)
