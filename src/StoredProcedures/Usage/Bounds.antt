-- ===== src/StoredProcedures/Usage/Bounds.antt =====
-- About the columns of `UsageStats` (models/creditors.py), and about its foreign key, under the
-- operations of inspect_ops.py that write.
use swpt_creditors.Base.{refl, List, [], ◌∷◌, arith}
use swpt_creditors.Base.Int.{ℤ, pos, negsuc}
use swpt_creditors.Base.Lists.{All}
use swpt_creditors.Models.Common.{CreditorId, DebtorId, Timestamp}
use swpt_creditors.Models.UsageStats.{UsageStats, new_usage_stats}
use swpt_creditors.Models.Db.{Db, ok}
use swpt_creditors.StoredProcedures.Usage.{
  current_epoch, count_up, count_down, upsert_usage, register_account_creation_sp,
  register_account_reconfig_sp, register_transfer_creation_sp, increment_account_number_sp,
  decrement_account_number_sp, increment_transfer_number_sp, decrement_transfer_number_sp,
}
use swpt_creditors.StoredProcedures.Usage.Inspect
use swpt_creditors.StoredProcedures.Usage.Storable.{
  IsSmallInt, IsStorable, kept, count_up-IsSmallInt, count_down-IsSmallInt, add_integer-GoodTime,
  upsert_usage-IsStorable, with_reset_at-Good, reconfigured-Good, initiated-Good, with_accounts,
  with_transfers, small, new-Fits, new_reconfigs, new_initiations,
}

-- The calls that write, by creditor and debtor.
pub data Write : Type 0 where
  registered_pin_change : CreditorId → Write
  registered_account_creation registered_transfer_creation : CreditorId → DebtorId → Write
  registered_account_reconfig incremented_accounts : CreditorId → DebtorId → Write
  decremented_accounts incremented_transfers decremented_transfers : CreditorId → DebtorId → Write

module _ (limits : Inspect.UsageLimits) (db : Db) where
  -- One call at `now`.
  unfoldable pub write : Timestamp → Write → Inspect.Writes
  unfolding Inspect.register_pin_change
  write now (registered_pin_change c) = Inspect.register_pin_change limits now db c
  write now (registered_account_creation c d) = Inspect.register_account_creation limits now db c d
  write now (registered_transfer_creation c d) =
      Inspect.register_transfer_creation limits now db c d
  write now (registered_account_reconfig c d) = Inspect.register_account_reconfig limits now db c d
  write now (incremented_accounts c d) = Inspect.increment_account_number db c d
  write now (decremented_accounts c d) = Inspect.decrement_account_number db c d
  write now (incremented_transfers c d) = Inspect.increment_transfer_number db c d
  write now (decremented_transfers c d) = Inspect.decrement_transfer_number db c d

  -- Calls in order, each with its time.
  unfoldable pub writes : List (Timestamp × Write) → List UsageStats → List UsageStats
  unfolding write
  writes [] stats = stats
  writes ((now, w) ∷ ws) stats = writes ws (kept stats (write now w stats))

module _ (limits : Inspect.UsageLimits) (db : Db) (now : Timestamp) (stats : List UsageStats) where
  -- The state before the call.
  module _ (h : All (IsStorable db) stats) where
    accounts_step :
        (cid : CreditorId) (f : ℤ → ℤ) (n : ℤ)
        → ((m : ℤ) → IsSmallInt m → IsSmallInt (f m))
        → IsSmallInt n
        → All (IsStorable db) (
            kept stats (
              upsert_usage db cid
                (λ r. ok (record r { accounts_count = f r.accounts_count }))
                (ok (record (new_usage_stats cid) { accounts_count = n }))
                stats))
    accounts_step cid f n step first =
        upsert_usage-IsStorable db cid _ _ stats
          (λ r fits key.
            (with_accounts r (f r.accounts_count) (step r.accounts_count fits.accounts) fits, key))
          (with_accounts (new_usage_stats cid) n first (new-Fits cid), refl) h

    transfers_step :
        (cid : CreditorId) (f : ℤ → ℤ) (n : ℤ)
        → ((m : ℤ) → IsSmallInt m → IsSmallInt (f m))
        → IsSmallInt n
        → All (IsStorable db) (
            kept stats (
              upsert_usage db cid
                (λ r. ok (record r { transfers_count = f r.transfers_count }))
                (ok (record (new_usage_stats cid) { transfers_count = n }))
                stats))
    transfers_step cid f n step first =
        upsert_usage-IsStorable db cid _ _ stats
          (λ r fits key. (
            with_transfers r (f r.transfers_count) (step r.transfers_count fits.transfers) fits,
            key,
          ))
          (with_transfers (new_usage_stats cid) n first (new-Fits cid), refl) h

    reconfig_step :
        (cid : CreditorId) (hours : ℤ)
        → All (IsStorable db) (kept stats (register_account_reconfig_sp db now cid hours stats))
    unfolding register_account_reconfig_sp
    reconfig_step cid hours =
        upsert_usage-IsStorable db cid _ _ stats (reconfigured-Good cid now hours)
          (with_reset_at-Good cid _ _ (add_integer-GoodTime (current_epoch now) hours)
            λ n small_n. (new_reconfigs (new_usage_stats cid) n small_n (new-Fits cid), refl))
          h

    account_step :
        (cid : CreditorId) (hours : ℤ)
        → All (IsStorable db) (kept stats (register_account_creation_sp db now cid hours stats))
    unfolding register_account_creation_sp
    account_step cid hours =
        upsert_usage-IsStorable db cid _ _ stats
          (λ r fits key.
            reconfigured-Good cid now hours
              (record r { accounts_count = count_up r.accounts_count })
              (with_accounts r _ (count_up-IsSmallInt r.accounts_count fits.accounts) fits) key)
          (with_reset_at-Good cid _ _ (add_integer-GoodTime (current_epoch now) hours) λ n small_n.
            (
              new_reconfigs _ n small_n (
                  with_accounts (new_usage_stats cid) (pos 1) (small 1 (omega arith))
                    (new-Fits cid)),
              refl,
            ))
          h

    transfer_step :
        (cid : CreditorId) (hours : ℤ)
        → All (IsStorable db) (kept stats (register_transfer_creation_sp db now cid hours stats))
    unfolding register_transfer_creation_sp
    transfer_step cid hours =
        upsert_usage-IsStorable db cid _ _ stats
          (λ r fits key.
            initiated-Good cid now hours (record r { transfers_count = count_up r.transfers_count })
              (with_transfers r _ (count_up-IsSmallInt r.transfers_count fits.transfers) fits) key)
          (with_reset_at-Good cid _ _ (add_integer-GoodTime (current_epoch now) hours) λ n small_n.
            (
              new_initiations _ n small_n (
                  with_transfers (new_usage_stats cid) (pos 1) (small 1 (omega arith))
                    (new-Fits cid)),
              refl,
            ))
          h

    write-IsStorable : (w : Write) → All (IsStorable db) (kept stats (write limits db now w stats))
    unfolding write increment_account_number_sp decrement_account_number_sp
        increment_transfer_number_sp decrement_transfer_number_sp Inspect.register_pin_change
        Inspect.register_account_creation Inspect.register_transfer_creation
        Inspect.register_account_reconfig Inspect.increment_account_number
        Inspect.decrement_account_number Inspect.increment_transfer_number
        Inspect.decrement_transfer_number
    write-IsStorable (registered_pin_change c) = reconfig_step c _
    write-IsStorable (registered_account_creation c d) = account_step c _
    write-IsStorable (registered_transfer_creation c d) = transfer_step c _
    write-IsStorable (registered_account_reconfig c d) = reconfig_step c _
    write-IsStorable (incremented_accounts c d) =
        accounts_step c count_up (pos 1) count_up-IsSmallInt (small 1 (omega arith))
    write-IsStorable (decremented_accounts c d) =
        accounts_step c count_down (negsuc 0) count_down-IsSmallInt (omega arith, omega arith)
    write-IsStorable (incremented_transfers c d) =
        transfers_step c count_up (pos 1) count_up-IsSmallInt (small 1 (omega arith))
    write-IsStorable (decremented_transfers c d) =
        transfers_step c count_down (negsuc 0) count_down-IsSmallInt (omega arith, omega arith)

-- When each row's numbers fit in their columns (two bytes for a count, four for a time) and its
-- creditor exists, the same holds of each row after any sequence of the eight calls of inspect_ops.py
-- that write, at any times and with the same creditors throughout, where a call that raises
-- (PostgreSQL's error for a number out of range) is rolled back.
pub writes-IsStorable :
    (limits : Inspect.UsageLimits) (db : Db) (ws : List (Timestamp × Write))
    (stats : List UsageStats)
    → All (IsStorable db) stats
    → All (IsStorable db) (writes limits db ws stats)
unfolding writes
writes-IsStorable limits db [] stats h = h
writes-IsStorable limits db ((now, w) ∷ ws) stats h =
    writes-IsStorable limits db ws (kept stats (write limits db now w stats))
      (write-IsStorable limits db now stats h w)
