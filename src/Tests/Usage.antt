-- ===== src/Tests/Usage.antt =====
-- The usage statistics at concrete inputs.
use swpt_creditors.Base.{◌+◌, ◌*◌, ◌≡◌, refl, List, [], ◌∷◌, arith}
use swpt_creditors.Base.Int.{pos, negsuc, ◌≤ℤ◌, ◌+ℤ◌, ◌-ℤ◌}
use swpt_creditors.Base.Lists.{All}
use swpt_creditors.Models.Common.{Timestamp, ts0, forbidden_operation}
use swpt_creditors.Models.UsageStats.{UsageStats, new_usage_stats}
use swpt_creditors.Models.Db.{err}
use swpt_creditors.StoredProcedures.Usage.{is_account_reconfig_allowed_sp, count_up, count_down}
use swpt_creditors.StoredProcedures.Usage.Inspect.{UsageLimits, allow_pin_change}
use swpt_creditors.StoredProcedures.Usage.Storable.{IsStorable}
use swpt_creditors.StoredProcedures.Usage.Bounds.{
  Write, registered_pin_change, registered_account_creation, decremented_transfers, writes,
  writes-IsStorable,
}
use swpt_creditors.StoredProcedures.Usage.Rate.{
  Inspected, pin_change, account_reconfig, transfer_creation, passed, reconfigs_limited,
}
use swpt_creditors.Procedures.Creditors.{get_creditor}
use swpt_creditors.Tests.Data.{db}

abbrev limits : UsageLimits
limits = record {
  app_max_creditor_accounts = pos 2;
  app_max_creditor_reconfigs = pos 1;
  app_max_creditor_transfers = pos 2;
  app_max_creditor_initiations = pos 2;
  app_creditor_dos_stats_clear_hours = pos 168;
}

-- 400000 hours after 1970.
abbrev now : Timestamp
now = ts0 + 400_000 * 3_600_000_000

-- The creditor 7, whose counts stand at the ends of their range.
abbrev row : UsageStats
row = record (new_usage_stats 7) {
  accounts_count = pos 32767;
  transfers_count = negsuc 32767;
  reconfigs_count = pos 1;
  reconfigs_reset_at = pos 500000;
}

abbrev calls : List (Timestamp × Write)
calls =
    (now, registered_account_creation 7 3)
    ∷ (now, decremented_transfers 7 3)
    ∷ (now, registered_pin_change 8)
    ∷ []

row_stored : All (IsStorable db) (row ∷ [])
unfolding get_creditor
row_stored = (
  record {
    fits = record {
      accounts = (omega arith, omega arith);
      transfers = (omega arith, omega arith);
      reconfigs = (omega arith, omega arith);
      reconfigs_reset = (omega arith, omega arith);
      initiations = (omega arith, omega arith);
      initiations_reset = (omega arith, omega arith);
    };
    owner = refl;
  },
  tt,
)

writes-IsStorable_example : All (IsStorable db) (writes limits db calls (row ∷ []))
writes-IsStorable_example = writes-IsStorable limits db calls (row ∷ []) row_stored

-- The creditor's count is one below its limit.
abbrev free_row : UsageStats
free_row = record row { reconfigs_count = pos 0 }

abbrev operations : List (Timestamp × Inspected)
operations =
    (now, pin_change 7)
    ∷ (now, transfer_creation 7 3)
    ∷ (now + 1000, account_reconfig 7 3)
    ∷ (now + 1000, pin_change 8)
    ∷ []

reconfigs_limited_example : pos (passed limits db 7 operations (free_row ∷ [])) +ℤ pos 0 ≤ℤ pos 1
unfolding ◌-ℤ◌
reconfigs_limited_example =
    reconfigs_limited limits db 7 operations (free_row ∷ []) free_row (omega arith) refl
      (refl, (refl, (refl, (refl, tt)))) (omega arith)

-- The next change of a PIN before the reset is forbidden.
forbidden_example : allow_pin_change limits now 7 (row ∷ []) ≡ err forbidden_operation
unfolding allow_pin_change is_account_reconfig_allowed_sp ◌-ℤ◌
forbidden_example = refl

count_up_example : count_up (pos 32767) ≡ pos 32767
unfolding count_up ◌+ℤ◌
count_up_example = refl

count_down_example : count_down (negsuc 32767) ≡ negsuc 32767
unfolding count_down ◌-ℤ◌
count_down_example = refl
