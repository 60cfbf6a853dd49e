-- ===== src/Models/Transfer.antt =====
-- models/transfers.py.
use swpt_creditors.Base.{ℕ, Bool, Option, String}
use swpt_creditors.Base.Int.{ℤ}
use swpt_creditors.Base.Tests.{is_some}
use swpt_creditors.Models.Common.{CreditorId, DebtorId, Timestamp, Date, Uuid}

abbrev pub sc_ok : String
sc_ok = "OK"

abbrev pub sc_unexpected_error : String
sc_unexpected_error = "UNEXPECTED_ERROR"

abbrev pub sc_canceled_by_the_sender : String
sc_canceled_by_the_sender = "CANCELED_BY_THE_SENDER"

pub record CommittedTransfer : Type 0 where
  pub creditor_id : CreditorId
  pub debtor_id : DebtorId
  pub creation_date : Date
  pub transfer_number : ℕ
  pub acquired_amount : ℤ
  pub principal : ℤ
  pub committed_at : Timestamp
  pub previous_transfer_number : ℕ
  pub coordinator_type : String
  pub sender : String
  pub recipient : String
  pub transfer_note_format : String
  pub transfer_note : String

pub record PendingLedgerUpdate : Type 0 where
  pub creditor_id : CreditorId
  pub debtor_id : DebtorId

-- What the creditor asks for, as `initiate_running_transfer` compares it.
pub record TransferData : Type 0 where
  pub debtor_id : DebtorId
  pub amount : ℤ
  pub recipient_uri : String
  pub recipient : String
  pub transfer_note_format : String
  pub transfer_note : String
  pub deadline : Option Timestamp
  pub final_interest_rate_ts : Timestamp
  pub locked_amount : ℤ

pub record RunningTransfer : Type 0 where
  pub creditor_id : CreditorId
  pub transfer_uuid : Uuid
  pub transfer_data : TransferData
  pub open transfer_data use *
  pub initiated_at : Timestamp
  pub finalized_at : Option Timestamp
  pub error_code : Option String
  pub total_locked_amount : Option ℤ
  pub coordinator_request_id : ℕ
  pub transfer_id : Option ℤ
  pub latest_update_id : ℕ
  pub latest_update_ts : Timestamp

unfoldable pub is_finalized : RunningTransfer → Bool
is_finalized rt = is_some rt.finalized_at

unfoldable pub is_settled : RunningTransfer → Bool
is_settled rt = is_some rt.transfer_id
