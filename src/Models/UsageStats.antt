-- ===== src/Models/UsageStats.antt =====
-- The table of usage statistics (`UsageStats` of models/creditors.py).
use swpt_creditors.Base.Int.{ℤ, pos}
use swpt_creditors.Models.Common.{CreditorId}

-- The two times are hours since 1970.
pub record UsageStats : Type 0 where
  pub creditor_id : CreditorId
  pub accounts_count : ℤ
  pub transfers_count : ℤ
  pub reconfigs_count : ℤ
  pub reconfigs_reset_at : ℤ
  pub initiations_count : ℤ
  pub initiations_reset_at : ℤ

-- An inserted row, with the columns' server defaults.
abbrev pub new_usage_stats : CreditorId → UsageStats
new_usage_stats creditor_id = record {
  creditor_id = creditor_id;
  accounts_count = pos 0;
  transfers_count = pos 0;
  reconfigs_count = pos 0;
  reconfigs_reset_at = pos 0;
  initiations_count = pos 0;
  initiations_reset_at = pos 0;
}
