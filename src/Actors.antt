-- ===== src/Actors.antt =====
-- actors.py: the consumer of messages and the handlers that it calls. Reading a JSON document, its
-- validation by a Marshmallow schema, and the decoding of hexadecimal texts belong to other
-- libraries; they are the fields of `Schemas`.
pub mod Runs
pub mod Dispatch
pub mod Isolation
pub mod Bounce
use swpt_creditors.Base.{◌&&◌, not, Bool, true, false, Option, none, some, String}
use swpt_creditors.Base.Int.{ℤ}
use swpt_creditors.Base.Tests.{leb, str_eq, if◌then◌else◌}
use swpt_creditors.Models.Common.{
  CreditorId, DebtorId, Timestamp, Date, Bytes, Json, Host, invalid_reservation_id, runtime_error,
}
use swpt_creditors.Models.Transfer.{CommittedTransfer}
use swpt_creditors.Models.Signal.{ConfigureAccountSignal}
use swpt_creditors.Models.Db.{Db, Result, ok, err, Tx, ◌>>=◌, ◌>>◌, pure, modify, raise_if}
use swpt_creditors.Procedures.Creditors.{activate_creditor}
use swpt_creditors.Procedures.AccountConfigs.{
  RejectedConfig, process_rejected_config_signal, process_account_purge_signal,
}
use swpt_creditors.Procedures.AccountUpdates.{AccountUpdate, process_account_update_signal}
use swpt_creditors.Procedures.TransferSignals.{
  RequestKey, process_account_transfer_signal, process_rejected_direct_transfer_signal,
  process_prepared_direct_transfer_signal, process_finalized_direct_transfer_signal,
  process_configure_account_signal,
}
use swpt_creditors.Scanners.{Config, is_valid_creditor_id}

-- The keys of `_MESSAGE_TYPES`.
pub data MessageType : Type 0 where
  rejected_config account_update account_purge account_transfer : MessageType
  rejected_transfer prepared_transfer finalized_transfer : MessageType
  activate_creditor_message configure_account : MessageType

-- The content of an `AccountUpdate` message: the texts of the debtor's info may be empty.
pub record AccountUpdateContent : Type 0 where
  pub update : AccountUpdate
  pub debtor_info_iri : String
  pub debtor_info_content_type : String
  pub debtor_info_sha256 : String

pub record AccountPurgeContent : Type 0 where
  pub debtor_id : DebtorId
  pub creditor_id : CreditorId
  pub creation_date : Date

pub record AccountTransferContent : Type 0 where
  pub transfer : CommittedTransfer
  pub ts : Timestamp

pub record RejectedTransferContent : Type 0 where
  pub key : RequestKey
  pub coordinator_type : String
  pub status_code : String
  pub total_locked_amount : ℤ

pub record PreparedTransferContent : Type 0 where
  pub key : RequestKey
  pub coordinator_type : String
  pub transfer_id : ℤ
  pub locked_amount : ℤ
  pub recipient : String

pub record FinalizedTransferContent : Type 0 where
  pub key : RequestKey
  pub coordinator_type : String
  pub transfer_id : ℤ
  pub committed_amount : ℤ
  pub status_code : String
  pub total_locked_amount : ℤ

pub record ActivateCreditorContent : Type 0 where
  pub creditor_id : CreditorId
  pub reservation_id : String

-- What the schema of a type loads.
abbrev pub Content : MessageType → Type 0
Content MessageType.rejected_config = RejectedConfig
Content MessageType.account_update = AccountUpdateContent
Content MessageType.account_purge = AccountPurgeContent
Content MessageType.account_transfer = AccountTransferContent
Content MessageType.rejected_transfer = RejectedTransferContent
Content MessageType.prepared_transfer = PreparedTransferContent
Content MessageType.finalized_transfer = FinalizedTransferContent
Content MessageType.activate_creditor_message = ActivateCreditorContent
Content MessageType.configure_account = ConfigureAccountSignal

pub record Schemas : Type 0 where
  -- `json.loads(body.decode("utf8"))`, or one of its two errors
  pub json_loads : Bytes → Option Json
  -- `schema.load(obj)`, or a `ValidationError`
  pub load : (t : MessageType) → Json → Option (Content t)
  -- `b16decode(text, casefold=True)`
  pub b16decode : String → Bytes

-- What the handlers take from outside.
pub record Actor : Type 0 where
  pub host : Host
  pub schemas : Schemas
  pub config : Config
  pub current_ts : Timestamp

-- `text or None`
abbrev pub or_none : String → Option String
or_none text = if str_eq text "" then none else some text

unfoldable pub on_rejected_config_signal : Actor → RejectedConfig → Tx (Unit {0})
unfolding process_rejected_config_signal
on_rejected_config_signal a m = modify (process_rejected_config_signal a.host a.current_ts m)

unfoldable pub on_account_purge_signal : Actor → AccountPurgeContent → Tx (Unit {0})
unfolding process_account_purge_signal
on_account_purge_signal a m =
    modify
      (process_account_purge_signal a.host a.current_ts m.debtor_id m.creditor_id m.creation_date)

unfoldable pub on_account_transfer_signal : Actor → AccountTransferContent → Tx (Unit {0})
unfolding process_account_transfer_signal
on_account_transfer_signal a m =
    modify
      (process_account_transfer_signal a.current_ts m.transfer m.ts a.config.log_retention_interval)

unfoldable pub on_account_update_signal : Actor → AccountUpdateContent → Tx (Unit {0})
unfolding process_account_update_signal
on_account_update_signal a m =
    process_account_update_signal a.host a.current_ts (record (m.update) {
      debtor_info_iri = or_none m.debtor_info_iri;
      debtor_info_content_type = or_none m.debtor_info_content_type;
      debtor_info_sha256 = or_none (a.schemas.b16decode m.debtor_info_sha256);
    })

-- `CT_DIRECT`
abbrev pub ct_direct : String
ct_direct = "direct"

unfoldable pub on_rejected_direct_transfer_signal : Actor → RejectedTransferContent → Tx (Unit {0})
unfolding process_rejected_direct_transfer_signal
on_rejected_direct_transfer_signal a m = do
  raise_if (not (str_eq m.coordinator_type ct_direct)) runtime_error
  modify (
      process_rejected_direct_transfer_signal a.current_ts m.key m.status_code
        m.total_locked_amount)

unfoldable pub on_prepared_direct_transfer_signal : Actor → PreparedTransferContent → Tx (Unit {0})
unfolding process_prepared_direct_transfer_signal
on_prepared_direct_transfer_signal a m = do
  raise_if (not (str_eq m.coordinator_type ct_direct)) runtime_error
  modify (process_prepared_direct_transfer_signal m.key m.transfer_id m.locked_amount m.recipient)

unfoldable pub on_finalized_direct_transfer_signal :
    Actor → FinalizedTransferContent → Tx (Unit {0})
unfolding process_finalized_direct_transfer_signal
on_finalized_direct_transfer_signal a m = do
  raise_if (not (str_eq m.coordinator_type ct_direct)) runtime_error
  modify (
      process_finalized_direct_transfer_signal a.current_ts m.key m.transfer_id m.committed_amount
        m.status_code m.total_locked_amount)

-- `except InvalidReservationId: pass`
abbrev pub pass_invalid : {A : Type 0} → Db → Result (A × Db) → Result (Unit {0} × Db)
pass_invalid db (ok (_, db')) = ok (tt, db')
pass_invalid db (err invalid_reservation_id) = ok (tt, db)
pass_invalid db (err e) = err e

unfoldable pub on_activate_creditor_signal : Actor → ActivateCreditorContent → Tx (Unit {0})
unfolding activate_creditor
on_activate_creditor_signal a m db =
    pass_invalid db (activate_creditor a.current_ts m.creditor_id m.reservation_id db)

-- The ID may be one of another shard, so that only its range is tested.
unfoldable pub on_configure_account_signal : Actor → ConfigureAccountSignal → Tx (Unit {0})
unfolding process_configure_account_signal
on_configure_account_signal a m =
    if leb a.config.min_creditor_id m.creditor_id && leb m.creditor_id a.config.max_creditor_id
    then modify (
        process_configure_account_signal a.host.floats m.debtor_id m.creditor_id m.ts m.seqnum
          m.negligible_amount m.config_flags m.config_data)
    else pure tt

-- `_MESSAGE_TYPES[massage_type]`: the handler of each type.
unfoldable pub actor : Actor → (t : MessageType) → Content t → Tx (Unit {0})
unfolding on_rejected_config_signal on_account_update_signal on_account_purge_signal
    on_account_transfer_signal on_rejected_direct_transfer_signal on_prepared_direct_transfer_signal
    on_finalized_direct_transfer_signal on_activate_creditor_signal on_configure_account_signal
actor a MessageType.rejected_config m = on_rejected_config_signal a m
actor a MessageType.account_update m = on_account_update_signal a m
actor a MessageType.account_purge m = on_account_purge_signal a m
actor a MessageType.account_transfer m = on_account_transfer_signal a m
actor a MessageType.rejected_transfer m = on_rejected_direct_transfer_signal a m
actor a MessageType.prepared_transfer m = on_prepared_direct_transfer_signal a m
actor a MessageType.finalized_transfer m = on_finalized_direct_transfer_signal a m
actor a MessageType.activate_creditor_message m = on_activate_creditor_signal a m
actor a MessageType.configure_account m = on_configure_account_signal a m

-- `_MESSAGE_TYPES[massage_type]`, or a `KeyError`
unfoldable pub message_type : String → Option MessageType
message_type name =
    if str_eq name "RejectedConfig"
    then some MessageType.rejected_config
    else if str_eq name "AccountUpdate"
    then some MessageType.account_update
    else if str_eq name "AccountPurge"
    then some MessageType.account_purge
    else if str_eq name "AccountTransfer"
    then some MessageType.account_transfer
    else if str_eq name "RejectedTransfer"
    then some MessageType.rejected_transfer
    else if str_eq name "PreparedTransfer"
    then some MessageType.prepared_transfer
    else if str_eq name "FinalizedTransfer"
    then some MessageType.finalized_transfer
    else if str_eq name "ActivateCreditor"
    then some MessageType.activate_creditor_message
    else if str_eq name "ConfigureAccount"
    then some MessageType.configure_account
    else none

-- `message_content["creditor_id"]`
abbrev pub creditor_id_of : (t : MessageType) → Content t → CreditorId
creditor_id_of MessageType.rejected_config m = m.creditor_id
creditor_id_of MessageType.account_update m = m.update.creditor_id
creditor_id_of MessageType.account_purge m = m.creditor_id
creditor_id_of MessageType.account_transfer m = m.transfer.creditor_id
creditor_id_of MessageType.rejected_transfer m = m.key.creditor_id
creditor_id_of MessageType.prepared_transfer m = m.key.creditor_id
creditor_id_of MessageType.finalized_transfer m = m.key.creditor_id
creditor_id_of MessageType.activate_creditor_message m = m.creditor_id
creditor_id_of MessageType.configure_account m = m.creditor_id

abbrev pub is_configure_account : MessageType → Bool
is_configure_account MessageType.configure_account = true
is_configure_account _ = false

-- With the content of the message, if it is valid.
unfoldable pub handle : Actor → (t : MessageType) → Option (Content t) → Tx Bool
unfolding is_valid_creditor_id actor
handle a t none = pure false
handle a t (some m) = do
  raise_if
      (not (is_configure_account t)
        && not (is_valid_creditor_id a.config (creditor_id_of t m) false))
      runtime_error
  actor a t m
  pure true

unfoldable pub handle_json : Actor → MessageType → Option Json → Tx Bool
unfolding handle
handle_json a t none = pure false
handle_json a t (some obj) = handle a t (a.schemas.load t obj)

unfoldable pub handle_type : Actor → Option MessageType → Bytes → Tx Bool
unfolding handle_json
handle_type a none body = pure false
handle_type a (some t) body = handle_json a t (a.schemas.json_loads body)

abbrev pub is_json : Option String → Bool
is_json none = false
is_json (some content_type) = str_eq content_type "application/json"

-- A message whose `type` is None has no key in the table.
unfoldable pub type_of : Option String → Option MessageType
unfolding message_type
type_of none = none
type_of (some name) = message_type name

-- `process_message`: the answer says whether the message was accepted.
unfoldable pub process_message : Actor → Option String → Option String → Bytes → Tx Bool
unfolding handle_type type_of
process_message a content_type massage_type body =
    if is_json content_type then handle_type a (type_of massage_type) body else pure false
