-- ===== src/Models/Log.antt =====
-- `BaseLogEntry`, `PendingLogEntry` and `LogEntry` of models/creditors.py, and the names of the
-- types and of the paths that the log mentions (schemas/common.py, routes/common.py).
use swpt_creditors.Base.{ℕ, Bool, true, false, not, ◌&&◌, String, Option, none, some}
use swpt_creditors.Base.Tests.{◌==◌}
use swpt_creditors.Base.Int.{ℤ}
use swpt_creditors.Models.Common.{CreditorId, DebtorId, Timestamp, Date, Uuid, Json}

-- The entries of `type_registry` that the log uses, and the word "object".
pub data ObjectType : Type 0 where
  creditor pin_info accounts_list account account_info account_config account_display : ObjectType
  account_exchange account_knowledge account_ledger transfers_list transfer : ObjectType
  committed_transfer object : ObjectType

-- `object_type == types.transfer`
abbrev pub is_transfer : ObjectType → Bool
is_transfer ObjectType.transfer = true
is_transfer _ = false

-- A path that `path_builder` makes, with its arguments; `blank` is the empty text.
pub data ObjectUri : Type 0 where
  creditor pin_info accounts_list transfers_list : CreditorId → ObjectUri
  account account_info account_config account_display : CreditorId → DebtorId → ObjectUri
  account_exchange account_knowledge account_ledger : CreditorId → DebtorId → ObjectUri
  transfer : CreditorId → Uuid → ObjectUri
  committed_transfer : CreditorId → DebtorId → Date → ℕ → ObjectUri
  blank : ObjectUri

-- The values of the column `object_type_hint`, `OTH_TRANSFER` (1) to `OTH_ACCOUNT_LEDGER` (4).
pub data Hint : Type 0 where
  oth_transfer oth_transfers_list oth_committed_transfer oth_account_ledger : Hint

pub record BaseLogEntry : Type 0 where
  pub added_at : Timestamp
  pub object_type : Option ObjectType
  pub object_uri : Option ObjectUri
  pub object_update_id : Option ℕ
  pub is_deleted : Option Bool
  -- the column `data`
  pub json_data : Option Json
  pub object_type_hint : Option Hint
  pub debtor_id : Option DebtorId
  pub creation_date : Option Date
  pub transfer_number : Option ℕ
  pub transfer_uuid : Option Uuid
  pub data_principal : Option ℤ
  pub data_next_entry_id : Option ℕ
  pub data_finalized_at : Option Timestamp
  pub data_error_code : Option String

-- An entry of which only `added_at` is given.
abbrev pub blank_entry : Timestamp → BaseLogEntry
blank_entry added_at = record {
  added_at = added_at;
  object_type = none;
  object_uri = none;
  object_update_id = none;
  is_deleted = none;
  json_data = none;
  object_type_hint = none;
  debtor_id = none;
  creation_date = none;
  transfer_number = none;
  transfer_uuid = none;
  data_principal = none;
  data_next_entry_id = none;
  data_finalized_at = none;
  data_error_code = none;
}

pub record PendingLogEntry : Type 0 where
  pub creditor_id : CreditorId
  pub pending_entry_id : ℕ
  pub entry : BaseLogEntry

pub record LogEntry : Type 0 where
  pub creditor_id : CreditorId
  pub entry_id : ℕ
  pub entry : BaseLogEntry

-- `bool(self.is_deleted)`: NULL has the same meaning as FALSE.
abbrev pub truthy : Option Bool → Bool
truthy none = false
truthy (some b) = b

-- `self.object_update_id in [1, None]`
abbrev pub is_first_update : Option ℕ → Bool
is_first_update none = true
is_first_update (some n) = n == 1

unfoldable pub is_created : BaseLogEntry → Bool
is_created e = not (truthy e.is_deleted) && is_first_update e.object_update_id

abbrev type_of_hint : Option Hint → ObjectType
type_of_hint none = ObjectType.object
type_of_hint (some oth_transfer) = ObjectType.transfer
type_of_hint (some oth_transfers_list) = ObjectType.transfers_list
type_of_hint (some oth_committed_transfer) = ObjectType.committed_transfer
type_of_hint (some oth_account_ledger) = ObjectType.account_ledger

unfoldable pub get_object_type : BaseLogEntry → ObjectType
get_object_type e = elim e.object_type [ some t ↦ t | none ↦ type_of_hint e.object_type_hint ]

-- The three columns of a committed transfer's path, which may be NULL.
abbrev committed_transfer_uri : CreditorId → Option DebtorId → Option Date → Option ℕ → ObjectUri
committed_transfer_uri c (some d) (some date) (some n) = ObjectUri.committed_transfer c d date n
committed_transfer_uri c _ _ _ = ObjectUri.blank

abbrev account_ledger_uri : CreditorId → Option DebtorId → ObjectUri
account_ledger_uri c none = ObjectUri.blank
account_ledger_uri c (some d) = ObjectUri.account_ledger c d

abbrev transfer_uri : CreditorId → Option Uuid → ObjectUri
transfer_uri c none = ObjectUri.blank
transfer_uri c (some u) = ObjectUri.transfer c u

abbrev uri_of_hint : CreditorId → BaseLogEntry → Option Hint → ObjectUri
uri_of_hint c e none = ObjectUri.blank
uri_of_hint c e (some oth_transfer) = transfer_uri c e.transfer_uuid
uri_of_hint c e (some oth_transfers_list) = ObjectUri.transfers_list c
uri_of_hint c e (some oth_committed_transfer) =
    committed_transfer_uri c e.debtor_id e.creation_date e.transfer_number
uri_of_hint c e (some oth_account_ledger) = account_ledger_uri c e.debtor_id

unfoldable pub get_object_uri : CreditorId → BaseLogEntry → ObjectUri
get_object_uri c e = elim e.object_uri [
  | some uri ↦ uri
  | none ↦ uri_of_hint c e e.object_type_hint
]
