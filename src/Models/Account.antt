-- ===== src/Models/Account.antt =====
-- models/accounts.py: the rows of an account and of its parts.
use swpt_creditors.Base.{ℕ, ◌+◌, ◌-◌, ◌%◌, Bool, not, ◌&&◌, Option, String}
use swpt_creditors.Base.Int.{ℤ}
use swpt_creditors.Base.Tests.{◌==◌, if◌then◌else◌}
use swpt_creditors.Models.Common.{CreditorId, DebtorId, Timestamp, Date, Bytes, Json, Float, Floats}

pub record Account : Type 0 where
  pub creditor_id : CreditorId
  pub debtor_id : DebtorId
  pub created_at : Timestamp
  pub latest_update_id : ℕ
  pub latest_update_ts : Timestamp

pub record AccountData : Type 0 where
  pub creditor_id : CreditorId
  pub debtor_id : DebtorId
  pub creation_date : Date
  pub last_change_ts : Timestamp
  pub last_change_seqnum : ℕ
  pub principal : ℤ
  pub interest : Float
  pub last_transfer_number : ℕ
  pub last_transfer_committed_at : Timestamp
  pub last_heartbeat_ts : Timestamp
  -- `AccountConfig` data
  pub last_config_ts : Timestamp
  pub last_config_seqnum : ℕ
  -- `REAL`, as is `interest_rate`: in the table the floats are rounded
  pub negligible_amount : Float
  pub config_flags : ℕ
  pub config_data : String
  pub is_config_effectual : Bool
  pub allow_unsafe_deletion : Bool
  pub has_server_account : Bool
  pub config_error : Option String
  pub config_latest_update_id : ℕ
  pub config_latest_update_ts : Timestamp
  -- `AccountInfo` data
  pub interest_rate : Float
  pub last_interest_rate_change_ts : Timestamp
  pub transfer_note_max_bytes : ℕ
  pub account_id : String
  pub debtor_info_iri : Option String
  pub debtor_info_content_type : Option String
  pub debtor_info_sha256 : Option Bytes
  pub info_latest_update_id : ℕ
  pub info_latest_update_ts : Timestamp
  -- `AccountLedger` data
  pub ledger_principal : ℤ
  pub ledger_last_entry_id : ℕ
  pub ledger_last_transfer_number : ℕ
  pub ledger_pending_transfer_ts : Option Timestamp
  pub ledger_latest_update_id : ℕ
  pub ledger_latest_update_ts : Timestamp

-- `HUGE_NEGLIGIBLE_AMOUNT = 1e30`, also `DEFAULT_NEGLIGIBLE_AMOUNT`
unfoldable pub huge_negligible_amount : Floats → Float
huge_negligible_amount f = f.decimal (Prim.Native.Nat.◌^◌ 10 30) 0

abbrev pub default_config_flags : ℕ
default_config_flags = 0

-- `config_flags & CONFIG_SCHEDULED_FOR_DELETION_FLAG`, the flag being 1. Flags are 32-bit patterns.
unfoldable pub is_scheduled_for_deletion : AccountData → Bool
is_scheduled_for_deletion data' = data'.config_flags % 2 == 1

-- The setter: the bit is set or cleared, the others stay.
unfoldable pub set_scheduled_for_deletion : Bool → AccountData → AccountData
set_scheduled_for_deletion value data' =
    let others : ℕ = data'.config_flags - data'.config_flags % 2 in
    record data' { config_flags = if value then others + 1 else others }

unfoldable pub is_deletion_safe : AccountData → Bool
unfolding is_scheduled_for_deletion
is_deletion_safe data' =
    not data'.has_server_account && is_scheduled_for_deletion data' && data'.is_config_effectual

pub record AccountKnowledge : Type 0 where
  pub creditor_id : CreditorId
  pub debtor_id : DebtorId
  pub knowledge : Json
  pub latest_update_id : ℕ
  pub latest_update_ts : Timestamp

pub record AccountExchange : Type 0 where
  pub creditor_id : CreditorId
  pub debtor_id : DebtorId
  pub policy : Option String
  pub min_principal : ℤ
  pub max_principal : ℤ
  pub peg_exchange_rate : Option Float
  pub peg_debtor_id : Option DebtorId
  pub latest_update_id : ℕ
  pub latest_update_ts : Timestamp

pub record AccountDisplay : Type 0 where
  pub creditor_id : CreditorId
  pub debtor_id : DebtorId
  pub debtor_name : Option String
  pub amount_divisor : Float
  pub decimal_places : ℤ
  pub unit : Option String
  pub known_debtor : Bool
  pub latest_update_id : ℕ
  pub latest_update_ts : Timestamp

pub record LedgerEntry : Type 0 where
  pub creditor_id : CreditorId
  pub debtor_id : DebtorId
  pub entry_id : ℕ
  pub creation_date : Option Date
  pub transfer_number : Option ℕ
  pub acquired_amount : ℤ
  pub principal : ℤ
  pub added_at : Timestamp
