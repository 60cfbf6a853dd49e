-- ===== src/Procedures/AccountUpdates.antt =====
-- The messages with the state of an account, `process_account_update_signal` of
-- procedures/account_updates.py. The functions on the ledger are in Ledger, their use on the database
-- in LedgerUpdates.
pub mod Steps
pub mod Redelivery
use swpt_creditors.Base.{
  ℕ, ◌+◌, ◌*◌, ◌%◌, min, ◌&&◌, ◌||◌, not, Bool, true, false, Option, none, some, ◌++◌, String,
}
use swpt_creditors.Base.Int.{ℤ, pos}
use swpt_creditors.Base.Tests.{◌==◌, ltb, str_eq, opt_eq, if◌then◌else◌}
use swpt_creditors.Models.Common.{
  CreditorId, DebtorId, Timestamp, Date, Bytes, Float, Host, microseconds, is_close, is_apart,
  assertion_error,
}
use swpt_creditors.Models.Log.{BaseLogEntry}
use swpt_creditors.Models.Account.{
  AccountData, huge_negligible_amount, default_config_flags, is_deletion_safe,
}
use swpt_creditors.Models.Signal.{configure_account, updated_ledger}
use swpt_creditors.Models.Db.{
  Db, ok, Tx, ◌>>=◌, ◌>>◌, pure, lift, gets, modify, raise_if, add_pending_log_entry, add_signal,
  next_uid,
}
use swpt_creditors.Procedures.Accounts.{
  get_account_data, put_account_data, insert_info_update_pending_log_entry,
}
use swpt_creditors.Procedures.TransferSignals.{ensure_pending_ledger_update}
use swpt_creditors.Procedures.Ledger.{LedgerUpdate, update_ledger}

-- The message `AccountUpdate`.
pub record AccountUpdate : Type 0 where
  pub debtor_id : DebtorId
  pub creditor_id : CreditorId
  pub creation_date : Date
  pub last_change_ts : Timestamp
  pub last_change_seqnum : ℕ
  pub principal : ℤ
  pub interest : Float
  pub interest_rate : Float
  pub last_interest_rate_change_ts : Timestamp
  pub transfer_note_max_bytes : ℕ
  pub last_config_ts : Timestamp
  pub last_config_seqnum : ℕ
  pub negligible_amount : Float
  pub config_flags : ℕ
  pub config_data : String
  pub account_id : String
  pub debtor_info_iri : Option String
  pub debtor_info_content_type : Option String
  pub debtor_info_sha256 : Option Bytes
  pub last_transfer_number : ℕ
  pub last_transfer_committed_at : Timestamp
  pub ts : Timestamp
  pub ttl : ℕ

-- `(current_ts - ts).total_seconds() > ttl`
unfoldable pub is_expired : Timestamp → AccountUpdate → Bool
is_expired current_ts m = ltb (m.ts + m.ttl * microseconds) current_ts

-- `this_event <= prev_event`: tuples compare by the first components that differ.
unfoldable pub is_old_event : Host → AccountUpdate → AccountData → Bool
is_old_event host m d =
    if not (m.creation_date == d.creation_date)
    then ltb m.creation_date d.creation_date
    else if not (m.last_change_ts == d.last_change_ts)
    then ltb m.last_change_ts d.last_change_ts
    else if not (host.seqnum_eq m.last_change_seqnum d.last_change_seqnum)
    then host.seqnum_le m.last_change_seqnum d.last_change_seqnum
    else true

-- `if ts > data.last_heartbeat_ts: data.last_heartbeat_ts = min(ts, current_ts)`
unfoldable pub beat : Timestamp → AccountUpdate → AccountData → AccountData
beat current_ts m d =
    if ltb d.last_heartbeat_ts m.ts then record d { last_heartbeat_ts = min m.ts current_ts } else d

unfoldable pub is_effectual : Host → AccountUpdate → AccountData → Bool
unfolding is_close
is_effectual host m d =
    m.last_config_ts == d.last_config_ts
    && m.last_config_seqnum == d.last_config_seqnum
    && m.config_flags == d.config_flags
    && str_eq m.config_data d.config_data
    && is_close host.floats d.negligible_amount m.negligible_amount

unfoldable pub new_config_error : Host → AccountUpdate → AccountData → Option String
unfolding is_effectual
new_config_error host m d = if is_effectual host m d then none else d.config_error

unfoldable pub is_info_updated : Host → AccountUpdate → AccountData → Bool
unfolding is_deletion_safe is_apart new_config_error
is_info_updated host m d =
    is_deletion_safe d
    || not (str_eq d.account_id m.account_id)
    || is_apart host.floats d.interest_rate m.interest_rate
    || not (d.last_interest_rate_change_ts == m.last_interest_rate_change_ts)
    || not (d.transfer_note_max_bytes == m.transfer_note_max_bytes)
    || not (opt_eq str_eq d.debtor_info_iri m.debtor_info_iri)
    || not (opt_eq str_eq d.debtor_info_content_type m.debtor_info_content_type)
    || not (opt_eq str_eq d.debtor_info_sha256 m.debtor_info_sha256)
    || not (opt_eq str_eq d.config_error (new_config_error host m d))

-- The assignments to the row.
unfoldable pub apply_account_update : Host → AccountUpdate → AccountData → AccountData
unfolding is_effectual new_config_error
apply_account_update host m d = record d {
  has_server_account = true;
  creation_date = m.creation_date;
  last_change_ts = m.last_change_ts;
  last_change_seqnum = m.last_change_seqnum;
  principal = m.principal;
  interest = m.interest;
  interest_rate = host.floats.to_real m.interest_rate;
  last_interest_rate_change_ts = m.last_interest_rate_change_ts;
  transfer_note_max_bytes = m.transfer_note_max_bytes;
  account_id = m.account_id;
  debtor_info_iri = m.debtor_info_iri;
  debtor_info_content_type = m.debtor_info_content_type;
  debtor_info_sha256 = m.debtor_info_sha256;
  last_transfer_number = m.last_transfer_number;
  last_transfer_committed_at = m.last_transfer_committed_at;
  is_config_effectual = is_effectual host m d;
  config_error = new_config_error host m d;
}

-- `1e30`, but for the rounding of a single-precision column: `(1 - EPS) * HUGE_NEGLIGIBLE_AMOUNT`
unfoldable pub is_already_discarded : Host → ℕ → Float → Bool
unfolding huge_negligible_amount
is_already_discarded host config_flags negligible_amount =
    config_flags % 2 == 1
    && host.floats.le
        (host.floats.mul (host.floats.sub (host.floats.decimal 1 0) (host.floats.decimal 1 5))
          (huge_negligible_amount host.floats))
        negligible_amount

-- `DEFAULT_CONFIG_FLAGS | scheduled_for_deletion_flag` is 1.
unfoldable pub discard_orphaned_account :
    Host → Timestamp → CreditorId → DebtorId → ℕ → Float → Db → Db
unfolding is_already_discarded add_signal huge_negligible_amount
discard_orphaned_account host now creditor_id debtor_id config_flags negligible_amount db =
    if is_already_discarded host config_flags negligible_amount
    then db
    else add_signal
        (configure_account (record {
          creditor_id = creditor_id;
          debtor_id = debtor_id;
          ts = now;
          seqnum = 0;
          negligible_amount = host.floats.to_real (huge_negligible_amount host.floats);
          config_data = "";
          config_flags = default_config_flags + 1;
        }))
        db

-- The account's new rows of a ledger update.
unfoldable pub add_ledger_entries : LedgerUpdate → Db → Db
add_ledger_entries u db = record db { ledger_entries = db.ledger_entries ++ u.entries }

-- The signal and the log entry of a ledger update, if it has one.
unfoldable pub announce_ledger : Timestamp → AccountData → ℤ → ℕ → Option BaseLogEntry → Db → Db
unfolding add_signal add_pending_log_entry
announce_ledger current_ts d principal last_transfer_number none db = db
announce_ledger current_ts d principal last_transfer_number (some entry) db =
    add_pending_log_entry d.creditor_id entry (
      add_signal
        (updated_ledger (record {
          creditor_id = d.creditor_id;
          debtor_id = d.debtor_id;
          update_id = d.ledger_latest_update_id;
          account_id = d.account_id;
          creation_date = d.creation_date;
          principal = principal;
          last_transfer_number = last_transfer_number;
          ts = current_ts;
        }))
        db)

-- `if log_entry: …`
next_uid_if : Host → Option BaseLogEntry → Db → Db
unfolding next_uid
next_uid_if host none db = db
next_uid_if host (some _) db = next_uid host db

-- A new server account starts from an empty ledger; a new account ID is announced only.
reset_ledger : Host → Timestamp → Bool → AccountData → Tx AccountData
unfolding update_ledger add_ledger_entries announce_ledger next_uid_if
reset_ledger host current_ts is_new_server_account d = do
  let d' = record d {
    ledger_pending_transfer_ts =
        if is_new_server_account then none else d.ledger_pending_transfer_ts;
  }
  let ledger_principal = if is_new_server_account then pos 0 else d.ledger_principal
  let number = if is_new_server_account then 0 else d.ledger_last_transfer_number
  u ← lift (update_ledger d' number (pos 0) ledger_principal current_ts true)
  modify (add_ledger_entries u)
  modify (announce_ledger current_ts u.account ledger_principal number u.log_entry)
  modify (next_uid_if host u.log_entry)
  pure u.account

-- `if is_info_updated: …`
unfoldable pub update_info : Host → Timestamp → Bool → AccountData → Tx AccountData
unfolding insert_info_update_pending_log_entry
update_info host current_ts false d = pure d
update_info host current_ts true d =
    λ db. ok (insert_info_update_pending_log_entry host current_ts d db)

-- The reset, and the request for an update of the ledger.
reset_and_ensure : Host → Timestamp → Bool → AccountData → Tx AccountData
unfolding reset_ledger ensure_pending_ledger_update
reset_and_ensure host current_ts is_new_server_account d = do
  d' ← reset_ledger host current_ts is_new_server_account d
  modify (ensure_pending_ledger_update d'.creditor_id d'.debtor_id)
  pure d'

-- `if is_new_server_account or is_account_id_changed: …`
unfoldable pub reset_if : Host → Timestamp → Bool → Bool → AccountData → Tx AccountData
unfolding reset_and_ensure
reset_if host current_ts is_new_server_account is_account_id_changed d =
    if is_new_server_account || is_account_id_changed
    then reset_and_ensure host current_ts is_new_server_account d
    else pure d

-- What follows the test `this_event <= prev_event`.
perform_account_update : Host → Timestamp → AccountUpdate → AccountData → Tx (Unit {0})
unfolding is_info_updated apply_account_update update_info reset_if put_account_data
perform_account_update host current_ts m d = do
  raise_if (ltb m.creation_date d.creation_date) assertion_error
  d' ← update_info host current_ts (is_info_updated host m d) (apply_account_update host m d)
  d'' ←
      reset_if host current_ts (ltb d.creation_date m.creation_date)
        (not (str_eq m.account_id d.account_id)) d'
  modify (put_account_data d'')

-- With the account's row, if there is one.
unfoldable pub update_found : Host → Timestamp → AccountUpdate → Option AccountData → Tx (Unit {0})
unfolding discard_orphaned_account beat is_old_event put_account_data perform_account_update
update_found host current_ts m none = modify (
    discard_orphaned_account host current_ts m.creditor_id m.debtor_id m.config_flags
      m.negligible_amount)
update_found host current_ts m (some d) =
    let d' : AccountData = beat current_ts m d in
    if is_old_event host m d'
    then modify (put_account_data d')
    else perform_account_update host current_ts m d'

unfoldable pub process_account_update_signal : Host → Timestamp → AccountUpdate → Tx (Unit {0})
unfolding is_expired get_account_data update_found
process_account_update_signal host current_ts m =
    if is_expired current_ts m
    then pure tt
    else gets (get_account_data m.creditor_id m.debtor_id) >>= update_found host current_ts m
