-- ===== src/Procedures/Transfers.antt =====
-- procedures/transfers.py. The clock is an argument of each operation.
pub mod Initiation
use swpt_creditors.Base.{
  ℕ, ◌+◌, ◌-◌, ◌/◌, min, Bool, true, ◌&&◌, Option, none, some, List, [], ◌∷◌, ◌++◌, String,
}
use swpt_creditors.Base.Int.{ℤ, eq_ℤ}
use swpt_creditors.Base.Lists.{find_row, rows_where, delete_where, put_row, take}
use swpt_creditors.Base.Sort.{sort_by}
use swpt_creditors.Base.Tests.{◌==◌, ltb, str_eq, opt_eq, if◌then◌else◌, is_none}
use swpt_creditors.Models.Common.{
  CreditorId, DebtorId, Timestamp, Date, Uuid, Host, microseconds, max_int32,
  creditor_does_not_exist, update_conflict, transfer_exists, transfer_does_not_exist,
  forbidden_transfer_cancellation,
}
use swpt_creditors.Models.Log.{blank_entry, oth_transfer}
use swpt_creditors.Models.Transfer.{
  TransferData, RunningTransfer, CommittedTransfer, is_finalized, is_settled,
  sc_canceled_by_the_sender,
}
use swpt_creditors.Models.Signal.{prepare_transfer}
use swpt_creditors.Models.Db.{
  Db, Tx, ◌>>=◌, ◌>>◌, pure, gets, modify, or_raise, raise_if, raise, is_key, add_pending_log_entry,
  add_signal,
}
use swpt_creditors.Procedures.Creditors.{get_active_creditor}

abbrev pub has_uuid : CreditorId → Uuid → RunningTransfer → Bool
has_uuid creditor_id transfer_uuid rt =
    rt.creditor_id == creditor_id && rt.transfer_uuid == transfer_uuid

unfoldable pub get_running_transfer : CreditorId → Uuid → Db → Option RunningTransfer
get_running_transfer creditor_id transfer_uuid db =
    find_row (has_uuid creditor_id transfer_uuid) db.running_transfers

-- The flush of a changed transfer.
unfoldable pub put_running_transfer : RunningTransfer → Db → Db
put_running_transfer rt db = record db {
  running_transfers = put_row (has_uuid rt.creditor_id rt.transfer_uuid) rt db.running_transfers;
}

abbrev pub has_request_id : CreditorId → ℕ → RunningTransfer → Bool
has_request_id coordinator_id coordinator_request_id rt =
    rt.creditor_id == coordinator_id && rt.coordinator_request_id == coordinator_request_id

unfoldable pub find_running_transfer : CreditorId → ℕ → Db → Option RunningTransfer
find_running_transfer coordinator_id coordinator_request_id db =
    find_row (has_request_id coordinator_id coordinator_request_id) db.running_transfers

abbrev is_transfer_number : CreditorId → DebtorId → Date → ℕ → CommittedTransfer → Bool
is_transfer_number creditor_id debtor_id creation_date transfer_number t =
    is_key creditor_id debtor_id t.creditor_id t.debtor_id
    && t.creation_date == creation_date
    && t.transfer_number == transfer_number

unfoldable pub get_committed_transfer :
    CreditorId → DebtorId → Date → ℕ → Db → Option CommittedTransfer
get_committed_transfer creditor_id debtor_id creation_date transfer_number db =
    find_row (is_transfer_number creditor_id debtor_id creation_date transfer_number)
      db.committed_transfers

-- `max(0, min(seconds, MAX_INT32))`: a deadline that has passed leaves 0 seconds.
unfoldable pub calc_max_commit_delay : Timestamp → Option Timestamp → ℕ
calc_max_commit_delay current_ts none = max_int32
calc_max_commit_delay current_ts (some deadline) =
    min ((deadline - current_ts) / microseconds) max_int32

-- `getattr(rt, attr) == value` for each of the attributes.
unfoldable pub same_transfer_data : TransferData → TransferData → Bool
same_transfer_data a b =
    a.debtor_id == b.debtor_id
    && eq_ℤ a.amount b.amount
    && str_eq a.recipient_uri b.recipient_uri
    && str_eq a.recipient b.recipient
    && str_eq a.transfer_note_format b.transfer_note_format
    && str_eq a.transfer_note b.transfer_note
    && opt_eq ◌==◌ a.deadline b.deadline
    && a.final_interest_rate_ts == b.final_interest_rate_ts
    && eq_ℤ a.locked_amount b.locked_amount

new_running_transfer : CreditorId → Uuid → TransferData → Timestamp → ℕ → RunningTransfer
new_running_transfer creditor_id transfer_uuid wanted current_ts request_id = record {
  creditor_id = creditor_id;
  transfer_uuid = transfer_uuid;
  transfer_data = wanted;
  initiated_at = current_ts;
  finalized_at = none;
  error_code = none;
  total_locked_amount = none;
  coordinator_request_id = request_id;
  transfer_id = none;
  latest_update_id = 1;
  latest_update_ts = current_ts;
}

-- The part of `initiate_running_transfer` that inserts.
insert_running_transfer : Host → Timestamp → CreditorId → Uuid → TransferData → Tx RunningTransfer
unfolding new_running_transfer add_pending_log_entry add_signal calc_max_commit_delay
insert_running_transfer host current_ts creditor_id transfer_uuid wanted = do
  request_id ← gets (λ db. host.next_value db.coordinator_request_id_seq)
  let rt = new_running_transfer creditor_id transfer_uuid wanted current_ts request_id
  modify (λ db. record db {
    running_transfers = db.running_transfers ++ rt ∷ [];
    coordinator_request_id_seq = request_id;
  })
  modify (
      add_pending_log_entry creditor_id (record (blank_entry current_ts) {
        object_type_hint = some oth_transfer;
        transfer_uuid = some transfer_uuid;
        object_update_id = some 1;
      }))
  modify (
      add_signal (
        prepare_transfer (record {
          creditor_id = creditor_id;
          coordinator_request_id = request_id;
          debtor_id = wanted.debtor_id;
          recipient = wanted.recipient;
          locked_amount = wanted.locked_amount;
          final_interest_rate_ts = wanted.final_interest_rate_ts;
          max_commit_delay = calc_max_commit_delay current_ts wanted.deadline;
          inserted_at = current_ts;
        })))
  pure rt

-- `if rt: …`
abbrev refuse_existing : Option RunningTransfer → TransferData → Tx (Unit {0})
refuse_existing none wanted = pure tt
refuse_existing (some rt) wanted =
    if same_transfer_data rt.transfer_data wanted
    then raise transfer_exists
    else raise update_conflict

unfoldable pub initiate_running_transfer :
    Host → Timestamp → CreditorId → Uuid → TransferData → Tx RunningTransfer
unfolding get_active_creditor get_running_transfer same_transfer_data insert_running_transfer
initiate_running_transfer host current_ts creditor_id transfer_uuid wanted = do
  creditor ← or_raise (← gets (get_active_creditor creditor_id)) creditor_does_not_exist
  rt ← gets (get_running_transfer creditor_id transfer_uuid)
  refuse_existing rt wanted
  insert_running_transfer host current_ts creditor_id transfer_uuid wanted

-- The row's fields after a finalization.
unfoldable pub finalized : Timestamp → Option String → Option ℤ → RunningTransfer → RunningTransfer
finalized current_ts error_code total_locked_amount rt = record rt {
  latest_update_id = rt.latest_update_id + 1;
  latest_update_ts = current_ts;
  finalized_at = some current_ts;
  error_code = error_code;
  total_locked_amount = total_locked_amount;
}

unfoldable pub finalize_running_transfer :
    Timestamp → RunningTransfer → Option String → Option ℤ → Db → Db
unfolding is_finalized finalized put_running_transfer add_pending_log_entry
finalize_running_transfer current_ts rt error_code total_locked_amount db =
    if is_finalized rt
    then db
    else add_pending_log_entry rt.creditor_id
        (record (blank_entry current_ts) {
          object_type_hint = some oth_transfer;
          transfer_uuid = some rt.transfer_uuid;
          object_update_id = some (rt.latest_update_id + 1);
          data_finalized_at = some current_ts;
          data_error_code = error_code;
        })
        (put_running_transfer (finalized current_ts error_code total_locked_amount rt) db)

unfoldable pub cancel_running_transfer : Timestamp → CreditorId → Uuid → Tx (Unit {0})
unfolding get_running_transfer is_settled finalize_running_transfer
cancel_running_transfer now creditor_id transfer_uuid = do
  rt ← or_raise (← gets (get_running_transfer creditor_id transfer_uuid)) transfer_does_not_exist
  raise_if (is_settled rt) forbidden_transfer_cancellation
  modify (finalize_running_transfer now rt (some sc_canceled_by_the_sender) none)

unfoldable pub delete_running_transfer : Timestamp → CreditorId → Uuid → Tx (Unit {0})
unfolding get_running_transfer add_pending_log_entry
delete_running_transfer now creditor_id transfer_uuid = do
  raise_if (is_none (← gets (get_running_transfer creditor_id transfer_uuid)))
      transfer_does_not_exist
  modify (λ db. record db {
    running_transfers = delete_where (has_uuid creditor_id transfer_uuid) db.running_transfers;
  })
  modify (
      add_pending_log_entry creditor_id (record (blank_entry now) {
        object_type_hint = some oth_transfer;
        transfer_uuid = some transfer_uuid;
        is_deleted = some true;
      }))

is_uuid_after : CreditorId → Option Uuid → RunningTransfer → Bool
is_uuid_after creditor_id none rt = rt.creditor_id == creditor_id
is_uuid_after creditor_id (some prev) rt =
    rt.creditor_id == creditor_id && ltb prev rt.transfer_uuid

abbrev uuids_of : List RunningTransfer → List Uuid
uuids_of [] = []
uuids_of (rt ∷ rts) = rt.transfer_uuid ∷ uuids_of rts

unfoldable pub get_creditor_transfer_uuids : CreditorId → ℕ → Option Uuid → Db → List Uuid
unfolding is_uuid_after
get_creditor_transfer_uuids creditor_id count prev db = uuids_of (
    take count (
      sort_by (λ rt. rt.transfer_uuid)
        (rows_where (is_uuid_after creditor_id prev) db.running_transfers)))
