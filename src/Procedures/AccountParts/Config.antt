-- ===== src/Procedures/AccountParts/Config.antt =====
-- `update_account_config`: its first call with a new configuration, and the calls that repeat it.
use swpt_creditors.Base.{ℕ, ◌+◌, ◌-◌, ◌%◌, ◌≤◌, ◌≡◌, Bool, true, false, some, arith}
use swpt_creditors.Base.Tests.{◌==◌, if◌then◌else◌}
use swpt_creditors.Models.Common.{CreditorId, DebtorId, Timestamp, Host}
use swpt_creditors.Models.Account.{
  AccountData, is_scheduled_for_deletion, set_scheduled_for_deletion,
}
use swpt_creditors.Models.Db.{Db, Result, ok}
use swpt_creditors.Procedures.Accounts.{get_account_data}
use swpt_creditors.Procedures.AccountParts.{
  ConfigUpdate, config_update, reconfigure, set_config_update_id,
}

scheduled_bit : (n : ℕ) (b : Bool) → (((if b then n - n % 2 + 1 else n - n % 2) % 2) == 1) ≡ b
scheduled_bit n true = ground arith
scheduled_bit n false = ground arith

-- The flag that was set is read.
pub is_scheduled-set_scheduled :
    (b : Bool) (d : AccountData) → is_scheduled_for_deletion (set_scheduled_for_deletion b d) ≡ b
unfolding is_scheduled_for_deletion set_scheduled_for_deletion
is_scheduled-set_scheduled b d = scheduled_bit d.config_flags b

-- The row has the configuration u, as the columns keep it, under the update ID n, not yet in force.
pub record HasConfig (host : Host) (u : ConfigUpdate) (n : ℕ) (d : AccountData) : Type 0 where
  pub id_is : d.config_latest_update_id ≡ n
  pub scheduled_is : is_scheduled_for_deletion d ≡ u.is_scheduled_for_deletion
  pub amount_is : d.negligible_amount ≡ host.floats.to_real u.negligible_amount
  pub unsafe_is : d.allow_unsafe_deletion ≡ u.allow_unsafe_deletion
  pub data_is : d.config_data ≡ u.config_data

-- Whether the column of single precision keeps the wanted amount.
abbrev pub is_kept : Host → ConfigUpdate → Bool
is_kept host u = host.floats.eq (host.floats.to_real u.negligible_amount) u.negligible_amount

-- What a call has made of the account's row d.
pub record Configured (host : Host) (c : CreditorId) (di : DebtorId) (u : ConfigUpdate) (n : ℕ)
    (d : AccountData) (r : Result (AccountData × Db)) : Type 0 where
  pub account : AccountData
  pub database : Db
  pub runs : r ≡ ok (account, database)
  pub stored : get_account_data c di database ≡ some account
  pub has_config : HasConfig host u n account
  pub not_effectual : account.is_config_effectual ≡ false
  pub not_earlier : d.last_config_ts ≤ account.last_config_ts

-- The row after the update, but for its info.
abbrev new_row : Host → Timestamp → ConfigUpdate → ℕ → AccountData → AccountData
new_row host now u n d =
    reconfigure host now ((config_update host u).set_values (set_config_update_id n d))
