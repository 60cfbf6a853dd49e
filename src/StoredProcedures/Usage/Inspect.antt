-- ===== src/StoredProcedures/Usage/Inspect.antt =====
-- inspect_ops.py: the operations that are counted against a creditor's limits. `ForbiddenOperation`
-- is the exception `forbidden_operation`.
use swpt_creditors.Base.{Bool, true, false, List}
use swpt_creditors.Base.Int.{ℤ}
use swpt_creditors.Models.Common.{CreditorId, DebtorId, Timestamp, forbidden_operation}
use swpt_creditors.Models.UsageStats.{UsageStats}
use swpt_creditors.Models.Db.{Db, Result, ok, err}
use swpt_creditors.StoredProcedures.Usage.{
  is_account_creation_allowed_sp, is_account_reconfig_allowed_sp, is_transfer_creation_allowed_sp,
  register_account_creation_sp, register_account_reconfig_sp, register_transfer_creation_sp,
  increment_account_number_sp, decrement_account_number_sp, increment_transfer_number_sp,
  decrement_transfer_number_sp,
}

-- The values of the app's configuration that are used; the last one is rounded up.
pub record UsageLimits : Type 0 where
  pub app_max_creditor_accounts : ℤ
  pub app_max_creditor_reconfigs : ℤ
  pub app_max_creditor_transfers : ℤ
  pub app_max_creditor_initiations : ℤ
  pub app_creditor_dos_stats_clear_hours : ℤ

abbrev pub forbid_unless : Bool → Result (Unit {0})
forbid_unless true = ok tt
forbid_unless false = err forbidden_operation

-- A call that only reads, and a call that writes.
abbrev pub Reads : Type 0
Reads = List UsageStats → Result (Unit {0})

abbrev pub Writes : Type 0
Writes = List UsageStats → Result (List UsageStats)

module _ (limits : UsageLimits) (now : Timestamp) where
  unfoldable pub allow_pin_change : CreditorId → Reads
  unfolding is_account_reconfig_allowed_sp
  allow_pin_change creditor_id stats =
      forbid_unless
        (is_account_reconfig_allowed_sp now creditor_id limits.app_max_creditor_reconfigs stats)

  unfoldable pub allow_account_creation : CreditorId → DebtorId → Reads
  unfolding is_account_creation_allowed_sp
  allow_account_creation creditor_id debtor_id stats = forbid_unless (
      is_account_creation_allowed_sp now creditor_id limits.app_max_creditor_accounts
        limits.app_max_creditor_reconfigs stats)

  unfoldable pub allow_transfer_creation : CreditorId → DebtorId → Reads
  unfolding is_transfer_creation_allowed_sp
  allow_transfer_creation creditor_id debtor_id stats = forbid_unless (
      is_transfer_creation_allowed_sp now creditor_id limits.app_max_creditor_transfers
        limits.app_max_creditor_initiations stats)

  unfoldable pub allow_account_reconfig : CreditorId → DebtorId → Reads
  unfolding is_account_reconfig_allowed_sp
  allow_account_reconfig creditor_id debtor_id stats =
      forbid_unless
        (is_account_reconfig_allowed_sp now creditor_id limits.app_max_creditor_reconfigs stats)

  module _ (db : Db) where
    unfoldable pub register_pin_change : CreditorId → Writes
    unfolding register_account_reconfig_sp
    register_pin_change creditor_id =
        register_account_reconfig_sp db now creditor_id limits.app_creditor_dos_stats_clear_hours

    unfoldable pub register_account_creation : CreditorId → DebtorId → Writes
    unfolding register_account_creation_sp
    register_account_creation creditor_id debtor_id =
        register_account_creation_sp db now creditor_id limits.app_creditor_dos_stats_clear_hours

    unfoldable pub register_transfer_creation : CreditorId → DebtorId → Writes
    unfolding register_transfer_creation_sp
    register_transfer_creation creditor_id debtor_id =
        register_transfer_creation_sp db now creditor_id limits.app_creditor_dos_stats_clear_hours

    unfoldable pub register_account_reconfig : CreditorId → DebtorId → Writes
    unfolding register_account_reconfig_sp
    register_account_reconfig creditor_id debtor_id =
        register_account_reconfig_sp db now creditor_id limits.app_creditor_dos_stats_clear_hours

module _ (db : Db) where
  unfoldable pub increment_account_number : CreditorId → DebtorId → Writes
  unfolding increment_account_number_sp
  increment_account_number creditor_id debtor_id = increment_account_number_sp db creditor_id

  unfoldable pub decrement_account_number : CreditorId → DebtorId → Writes
  unfolding decrement_account_number_sp
  decrement_account_number creditor_id debtor_id = decrement_account_number_sp db creditor_id

  unfoldable pub increment_transfer_number : CreditorId → DebtorId → Writes
  unfolding increment_transfer_number_sp
  increment_transfer_number creditor_id debtor_id = increment_transfer_number_sp db creditor_id

  unfoldable pub decrement_transfer_number : CreditorId → DebtorId → Writes
  unfolding decrement_transfer_number_sp
  decrement_transfer_number creditor_id debtor_id = decrement_transfer_number_sp db creditor_id
