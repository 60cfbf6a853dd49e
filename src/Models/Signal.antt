-- ===== src/Models/Signal.antt =====
-- models/signals.py: the messages that a transaction leaves in the outbox. What a signal's columns
-- get by default is written out; `inserted_at` is the time of the insertion.
use swpt_creditors.Base.{ℕ, Option, String}
use swpt_creditors.Base.Int.{ℤ}
use swpt_creditors.Models.Common.{CreditorId, DebtorId, Timestamp, Date, Float}

pub record ConfigureAccountSignal : Type 0 where
  pub creditor_id : CreditorId
  pub debtor_id : DebtorId
  pub ts : Timestamp
  pub seqnum : ℕ
  pub negligible_amount : Float
  pub config_data : String
  pub config_flags : ℕ

pub record PrepareTransferSignal : Type 0 where
  pub creditor_id : CreditorId
  pub coordinator_request_id : ℕ
  pub debtor_id : DebtorId
  pub recipient : String
  pub locked_amount : ℤ
  pub final_interest_rate_ts : Timestamp
  pub max_commit_delay : ℕ
  pub inserted_at : Timestamp

pub record FinalizeTransferSignal : Type 0 where
  pub creditor_id : CreditorId
  pub debtor_id : DebtorId
  pub transfer_id : ℤ
  pub coordinator_id : CreditorId
  pub coordinator_request_id : ℕ
  pub committed_amount : ℤ
  pub transfer_note_format : String
  pub transfer_note : String

pub record UpdatedLedgerSignal : Type 0 where
  pub creditor_id : CreditorId
  pub debtor_id : DebtorId
  pub update_id : ℕ
  pub account_id : String
  pub creation_date : Date
  pub principal : ℤ
  pub last_transfer_number : ℕ
  pub ts : Timestamp

pub record UpdatedPolicySignal : Type 0 where
  pub creditor_id : CreditorId
  pub debtor_id : DebtorId
  pub update_id : ℕ
  pub policy_name : Option String
  pub min_principal : ℤ
  pub max_principal : ℤ
  pub peg_exchange_rate : Option Float
  pub peg_debtor_id : Option DebtorId
  pub ts : Timestamp

pub record UpdatedFlagsSignal : Type 0 where
  pub creditor_id : CreditorId
  pub debtor_id : DebtorId
  pub update_id : ℕ
  pub config_flags : ℕ
  pub ts : Timestamp

pub record RejectedConfigSignal : Type 0 where
  pub creditor_id : CreditorId
  pub debtor_id : DebtorId
  pub config_ts : Timestamp
  pub config_seqnum : ℕ
  pub config_flags : ℕ
  pub config_data : String
  pub negligible_amount : Float
  pub rejection_code : String

pub data Signal : Type 0 where
  configure_account : ConfigureAccountSignal → Signal
  prepare_transfer : PrepareTransferSignal → Signal
  finalize_transfer : FinalizeTransferSignal → Signal
  updated_ledger : UpdatedLedgerSignal → Signal
  updated_policy : UpdatedPolicySignal → Signal
  updated_flags : UpdatedFlagsSignal → Signal
  rejected_config : RejectedConfigSignal → Signal
