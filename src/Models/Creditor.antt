-- ===== src/Models/Creditor.antt =====
-- The class `Creditor` of models/creditors.py.
use swpt_creditors.Base.{ℕ, ◌+◌, ◌/◌, ◌%◌, Bool, Option, none, some}
use swpt_creditors.Base.Tests.{◌==◌, if◌then◌else◌}
use swpt_creditors.Models.Common.{CreditorId, Timestamp, Date, Host}

pub record Creditor : Type 0 where
  pub creditor_id : CreditorId
  -- bit 0: is activated, bit 1: is deactivated
  pub status_flags : ℕ
  pub created_at : Timestamp
  pub reservation_id : Option ℕ
  pub last_log_entry_id : ℕ
  pub largest_historic_ledger_entry_id : ℕ
  pub creditor_latest_update_id : ℕ
  pub creditor_latest_update_ts : Timestamp
  pub accounts_list_latest_update_id : ℕ
  pub accounts_list_latest_update_ts : Timestamp
  pub transfers_list_latest_update_id : ℕ
  pub transfers_list_latest_update_ts : Timestamp
  pub deactivation_date : Option Date

-- The defaults of the columns.
abbrev pub new_creditor : CreditorId → ℕ → Timestamp → Creditor
new_creditor creditor_id reservation_id now = record {
  creditor_id = creditor_id;
  status_flags = 0;
  created_at = now;
  reservation_id = some reservation_id;
  last_log_entry_id = 0;
  largest_historic_ledger_entry_id = 0;
  creditor_latest_update_id = 1;
  creditor_latest_update_ts = now;
  accounts_list_latest_update_id = 1;
  accounts_list_latest_update_ts = now;
  transfers_list_latest_update_id = 1;
  transfers_list_latest_update_ts = now;
  deactivation_date = none;
}

-- `bool(self.status_flags & STATUS_IS_ACTIVATED_FLAG)`, the flag being 1
unfoldable pub is_activated : Creditor → Bool
is_activated c = c.status_flags % 2 == 1

-- `bool(self.status_flags & STATUS_IS_DEACTIVATED_FLAG)`, the flag being 2
unfoldable pub is_deactivated : Creditor → Bool
is_deactivated c = c.status_flags / 2 % 2 == 1

-- `self.status_flags |= STATUS_IS_ACTIVATED_FLAG`: the bit is added where it is not set.
unfoldable pub activate : Creditor → Creditor
unfolding is_activated
activate c = record c {
  status_flags = if is_activated c then c.status_flags else c.status_flags + 1;
  reservation_id = none;
}

unfoldable pub deactivate : Host → Timestamp → Creditor → Creditor
unfolding is_deactivated
deactivate host now c = record c {
  status_flags = if is_deactivated c then c.status_flags else c.status_flags + 2;
  deactivation_date = some (host.date_of now);
}

-- The new value of `last_log_entry_id` is also the method's result.
unfoldable pub generate_log_entry_id : Creditor → Creditor × ℕ
generate_log_entry_id c =
    (record c { last_log_entry_id = c.last_log_entry_id + 1 }, c.last_log_entry_id + 1)
