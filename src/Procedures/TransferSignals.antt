-- ===== src/Procedures/TransferSignals.antt =====
-- The operations of procedures/transfers.py that answer messages, `process_…_signal`.
pub mod Machine
pub mod Safety
pub mod Prepared
use swpt_creditors.Base.{ℕ, ◌+◌, min, Bool, not, ◌&&◌, Option, none, some, [], ◌∷◌, ◌++◌, String}
use swpt_creditors.Base.Int.{ℤ, pos, eq_ℤ, leb_ℤ}
use swpt_creditors.Base.Lists.{find_row, any_row}
use swpt_creditors.Base.Tests.{◌==◌, ltb, str_eq, opt_eq, if◌then◌else◌, is_none, is_some}
use swpt_creditors.Models.Common.{Floats, CreditorId, DebtorId, Timestamp, Float}
use swpt_creditors.Models.Log.{blank_entry, oth_committed_transfer}
use swpt_creditors.Models.Account.{AccountData}
use swpt_creditors.Models.Transfer.{
  RunningTransfer, CommittedTransfer, PendingLedgerUpdate, is_finalized, sc_ok, sc_unexpected_error,
}
use swpt_creditors.Models.Signal.{finalize_transfer, rejected_config, FinalizeTransferSignal}
use swpt_creditors.Models.Db.{Db, is_key, add_pending_log_entry, add_signal}
use swpt_creditors.Procedures.Transfers.{
  get_committed_transfer, find_running_transfer, put_running_transfer, finalize_running_transfer,
}

-- `INSERT … ON CONFLICT DO NOTHING`
unfoldable pub ensure_pending_ledger_update : CreditorId → DebtorId → Db → Db
ensure_pending_ledger_update creditor_id debtor_id db =
    if any_row (λ (p : PendingLedgerUpdate). is_key creditor_id debtor_id p.creditor_id p.debtor_id)
      db.pending_ledger_updates
    then db
    else record db {
      pending_ledger_updates =
          db.pending_ledger_updates
          ++ record { creditor_id = creditor_id; debtor_id = debtor_id } ∷ [];
    }

-- What the message of a committed transfer says: the row to insert, and the message's time.
unfoldable pub is_too_old : Timestamp → Timestamp → Timestamp → Timestamp → Bool
is_too_old current_ts ts committed_at retention_interval =
    ltb (min ts committed_at + retention_interval) current_ts

unfoldable pub insert_committed_transfer : Timestamp → CommittedTransfer → Db → Db
unfolding add_pending_log_entry
insert_committed_transfer current_ts t db =
    add_pending_log_entry t.creditor_id
      (record (blank_entry current_ts) {
        object_type_hint = some oth_committed_transfer;
        debtor_id = some t.debtor_id;
        creation_date = some t.creation_date;
        transfer_number = some t.transfer_number;
      })
      (record db { committed_transfers = db.committed_transfers ++ t ∷ [] })

abbrev pub is_data_key : CreditorId → DebtorId → AccountData → Bool
is_data_key creditor_id debtor_id d = is_key creditor_id debtor_id d.creditor_id d.debtor_id

-- With the ledger's account, if there is one.
unfoldable pub record_transfer : Timestamp → CommittedTransfer → Option AccountData → Db → Db
unfolding insert_committed_transfer ensure_pending_ledger_update
record_transfer current_ts t none db = db
record_transfer current_ts t (some account) db =
    let db' : Db = insert_committed_transfer current_ts t db in
    if t.creation_date == account.creation_date
      && t.previous_transfer_number == account.ledger_last_transfer_number
    then ensure_pending_ledger_update t.creditor_id t.debtor_id db'
    else db'

unfoldable pub process_account_transfer_signal :
    Timestamp → CommittedTransfer → Timestamp → Timestamp → Db → Db
unfolding is_too_old get_committed_transfer record_transfer
process_account_transfer_signal current_ts t ts retention_interval db =
    if is_too_old current_ts ts t.committed_at retention_interval
    then db
    else if is_some
        (get_committed_transfer t.creditor_id t.debtor_id t.creation_date t.transfer_number db)
    then db
    else record_transfer current_ts t
        (find_row (is_data_key t.creditor_id t.debtor_id) db.account_data) db

-- The fields that the answers about a direct transfer share.
pub record RequestKey : Type 0 where
  pub debtor_id : DebtorId
  pub creditor_id : CreditorId
  pub coordinator_id : CreditorId
  pub coordinator_request_id : ℕ

abbrev is_ok : String → Bool
is_ok status_code = str_eq status_code sc_ok

-- `rt and not rt.is_finalized`
unfoldable pub reject_found : Timestamp → RequestKey → String → ℤ → Option RunningTransfer → Db → Db
unfolding is_finalized finalize_running_transfer
reject_found now key status_code total_locked_amount none db = db
reject_found now key status_code total_locked_amount (some rt) db =
    if is_finalized rt
    then db
    else if not (is_ok status_code)
        && rt.debtor_id == key.debtor_id
        && rt.creditor_id == key.creditor_id
    then finalize_running_transfer now rt (some status_code) (some total_locked_amount) db
    else finalize_running_transfer now rt (some sc_unexpected_error) none db

unfoldable pub process_rejected_direct_transfer_signal :
    Timestamp → RequestKey → String → ℤ → Db → Db
unfolding find_running_transfer reject_found
process_rejected_direct_transfer_signal now key status_code total_locked_amount db =
    reject_found now key status_code total_locked_amount
      (find_running_transfer key.coordinator_id key.coordinator_request_id db) db

unfoldable pub dismissal : RequestKey → ℤ → FinalizeTransferSignal
dismissal key transfer_id = record {
  creditor_id = key.creditor_id;
  debtor_id = key.debtor_id;
  transfer_id = transfer_id;
  coordinator_id = key.coordinator_id;
  coordinator_request_id = key.coordinator_request_id;
  committed_amount = pos 0;
  transfer_note_format = "";
  transfer_note = "";
}

unfoldable pub commitment : RequestKey → ℤ → RunningTransfer → FinalizeTransferSignal
commitment key transfer_id rt = record {
  creditor_id = key.creditor_id;
  debtor_id = rt.debtor_id;
  transfer_id = transfer_id;
  coordinator_id = key.coordinator_id;
  coordinator_request_id = key.coordinator_request_id;
  committed_amount = rt.amount;
  transfer_note_format = rt.transfer_note_format;
  transfer_note = rt.transfer_note;
}

unfoldable pub matches_prepared : RequestKey → ℤ → String → RunningTransfer → Bool
matches_prepared key locked_amount recipient rt =
    rt.debtor_id == key.debtor_id
    && rt.creditor_id == key.creditor_id
    && str_eq rt.recipient recipient
    && leb_ℤ rt.locked_amount locked_amount

-- `if not rt.is_finalized and rt.transfer_id is None: rt.transfer_id = transfer_id`
unfoldable pub settle : ℤ → RunningTransfer → RunningTransfer
unfolding is_finalized
settle transfer_id rt =
    if not (is_finalized rt) && is_none rt.transfer_id
    then record rt { transfer_id = some transfer_id }
    else rt

-- The answer to a prepared transfer, and the running transfer's row, if it matches.
unfoldable pub prepared_found : RequestKey → ℤ → ℤ → String → Option RunningTransfer → Db → Db
unfolding matches_prepared settle commitment dismissal put_running_transfer add_signal
prepared_found key transfer_id locked_amount recipient none db =
    add_signal (finalize_transfer (dismissal key transfer_id)) db
prepared_found key transfer_id locked_amount recipient (some rt) db =
    if matches_prepared key locked_amount recipient rt
    then (let rt' : RunningTransfer = settle transfer_id rt in
        if opt_eq eq_ℤ rt'.transfer_id (some transfer_id)
        then add_signal (finalize_transfer (commitment key transfer_id rt'))
            (put_running_transfer rt' db)
        else add_signal (finalize_transfer (dismissal key transfer_id))
            (put_running_transfer rt' db))
    else add_signal (finalize_transfer (dismissal key transfer_id)) db

unfoldable pub process_prepared_direct_transfer_signal : RequestKey → ℤ → ℤ → String → Db → Db
unfolding find_running_transfer prepared_found
process_prepared_direct_transfer_signal key transfer_id locked_amount recipient db =
    prepared_found key transfer_id locked_amount recipient
      (find_running_transfer key.coordinator_id key.coordinator_request_id db) db

unfoldable pub matches_finalized : RequestKey → ℤ → RunningTransfer → Bool
matches_finalized key transfer_id rt =
    rt.debtor_id == key.debtor_id
    && rt.creditor_id == key.creditor_id
    && opt_eq eq_ℤ rt.transfer_id (some transfer_id)

unfoldable pub finalized_found :
    Timestamp → RequestKey → ℤ → ℤ → String → ℤ → Option RunningTransfer → Db → Db
unfolding matches_finalized finalize_running_transfer
finalized_found now key transfer_id committed_amount status_code total_locked_amount none db = db
finalized_found now key transfer_id committed_amount status_code total_locked_amount (some rt) db =
    if not (matches_finalized key transfer_id rt)
    then db
    else if is_ok status_code && eq_ℤ committed_amount rt.amount
    then finalize_running_transfer now rt none none db
    else if not (is_ok status_code) && eq_ℤ committed_amount (pos 0)
    then finalize_running_transfer now rt (some status_code) (some total_locked_amount) db
    else finalize_running_transfer now rt (some sc_unexpected_error) none db

unfoldable pub process_finalized_direct_transfer_signal :
    Timestamp → RequestKey → ℤ → ℤ → String → ℤ → Db → Db
unfolding find_running_transfer finalized_found
process_finalized_direct_transfer_signal now key transfer_id committed_amount status_code
      total_locked_amount db =
    finalized_found now key transfer_id committed_amount status_code total_locked_amount
      (find_running_transfer key.coordinator_id key.coordinator_request_id db) db

unfoldable pub process_configure_account_signal :
    Floats → DebtorId → CreditorId → Timestamp → ℕ → Float → ℕ → String → Db → Db
unfolding add_signal
process_configure_account_signal floats debtor_id creditor_id ts seqnum negligible_amount
      config_flags config_data =
    add_signal (
      rejected_config (record {
        creditor_id = creditor_id;
        debtor_id = debtor_id;
        config_ts = ts;
        config_seqnum = seqnum;
        config_flags = config_flags;
        config_data = config_data;
        negligible_amount = floats.to_real negligible_amount;
        rejection_code = "NO_CONNECTION_TO_DEBTOR";
      }))
