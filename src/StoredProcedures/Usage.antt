-- ===== src/StoredProcedures/Usage.antt =====
-- The procedures that count a creditor's accounts, transfers and reconfigurations, of
-- migrations/versions/54696121695a_create_stored_procedures.py. The table of usage statistics is a
-- list of rows beside the database; the transaction's `CURRENT_TIMESTAMP` is the argument `now`.
pub mod Inspect
pub mod Storable
pub mod Bounds
pub mod Became
pub mod Rate
use swpt_creditors.Base.{◌/◌, Bool, true, false, ◌&&◌, ◌||◌, none, some, List, [], ◌∷◌, ◌++◌}
use swpt_creditors.Base.Int.{ℤ, pos, negsuc, ◌+ℤ◌, ◌-ℤ◌, ltb_ℤ, leb_ℤ}
use swpt_creditors.Base.Lists.{find_row, any_row, put_row}
use swpt_creditors.Base.Tests.{◌==◌, if◌then◌else◌, is_some}
use swpt_creditors.Models.Common.{CreditorId, Timestamp, ts0, numeric_value_out_of_range}
use swpt_creditors.Models.UsageStats.{UsageStats, new_usage_stats}
use swpt_creditors.Models.Db.{Db, Result, ok, err}
use swpt_creditors.Procedures.Creditors.{get_creditor}

-- `WHERE creditor_id=cid`
abbrev pub has_usage : CreditorId → UsageStats → Bool
has_usage cid r = r.creditor_id == cid

-- `floor(EXTRACT(EPOCH FROM CURRENT_TIMESTAMP) / 3600.0)`
abbrev pub current_epoch : Timestamp → ℤ
current_epoch now = pos (now / 3_600_000_000) -ℤ pos (ts0 / 3_600_000_000)

-- `LEAST(count + 1, 32767)` and `GREATEST(count - 1, -32768)`
unfoldable pub count_up : ℤ → ℤ
count_up n = if leb_ℤ (n +ℤ pos 1) (pos 32767) then n +ℤ pos 1 else pos 32767

unfoldable pub count_down : ℤ → ℤ
count_down n = if leb_ℤ (negsuc 32767) (n -ℤ pos 1) then n -ℤ pos 1 else negsuc 32767

-- `CASE WHEN current_epoch < reset_at THEN count ELSE 0 END`
abbrev pub live_count : ℤ → ℤ → ℤ → ℤ
live_count epoch reset_at count = if ltb_ℤ epoch reset_at then count else pos 0

-- `CASE WHEN current_epoch < reset_at THEN LEAST(count + 1, 32767) ELSE 1 END`
unfoldable pub next_count : ℤ → ℤ → ℤ → ℤ
unfolding count_up
next_count epoch reset_at count = if ltb_ℤ epoch reset_at then count_up count else pos 1

-- A sum of two `INTEGER`s.
unfoldable pub add_integer : ℤ → ℤ → Result ℤ
add_integer a b =
    if leb_ℤ (negsuc 2147483647) (a +ℤ b) && leb_ℤ (a +ℤ b) (pos 2147483647)
    then ok (a +ℤ b)
    else err numeric_value_out_of_range

-- `CASE WHEN current_epoch < reset_at THEN reset_at ELSE current_epoch + clear_hours END`
unfoldable pub next_reset_at : ℤ → ℤ → ℤ → Result ℤ
unfolding add_integer
next_reset_at epoch clear_hours reset_at =
    if ltb_ℤ epoch reset_at then ok reset_at else add_integer epoch clear_hours

-- A row whose computation may fail.
abbrev pub with_reset_at : Result ℤ → (ℤ → UsageStats) → Result UsageStats
with_reset_at (ok reset_at) row = ok (row reset_at)
with_reset_at (err e) row = err e

abbrev pub put_usage : CreditorId → Result UsageStats → List UsageStats → Result (List UsageStats)
put_usage cid (ok row) stats = ok (put_row (has_usage cid) row stats)
put_usage cid (err e) stats = err e

-- The values are computed before the foreign key is checked.
abbrev pub insert_usage : Bool → Result UsageStats → List UsageStats → Result (List UsageStats)
insert_usage true (ok row) stats = ok (stats ++ row ∷ [])
insert_usage false (ok row) stats = ok stats
insert_usage is_creditor (err e) stats = err e

-- `UPDATE … SET change WHERE creditor_id=cid`, and, `IF NOT FOUND`, `INSERT … VALUES fresh`, which is
-- given up when there is no such creditor.
unfoldable pub upsert_usage :
    Db
    → CreditorId
    → (UsageStats → Result UsageStats)
    → Result UsageStats
    → List UsageStats
    → Result (List UsageStats)
unfolding get_creditor
upsert_usage db cid change fresh stats = elim (find_row (has_usage cid) stats) [
  | some row ↦ put_usage cid (change row) stats
  | none ↦ insert_usage (is_some (get_creditor cid db)) fresh stats
]

-- `SELECT FALSE INTO allowed … WHERE test`, then `COALESCE(allowed, otherwise)`.
abbrev pub unless_row : (UsageStats → Bool) → Bool → List UsageStats → Bool
unless_row test otherwise stats = if any_row test stats then false else otherwise

unfoldable pub is_account_creation_allowed_sp :
    Timestamp → CreditorId → ℤ → ℤ → List UsageStats → Bool
is_account_creation_allowed_sp now cid max_accounts max_reconfigs =
    unless_row
      (λ r.
        has_usage cid r
        && (leb_ℤ max_accounts r.accounts_count
            || leb_ℤ max_reconfigs
                (live_count (current_epoch now) r.reconfigs_reset_at r.reconfigs_count)))
      (ltb_ℤ (pos 0) max_accounts && ltb_ℤ (pos 0) max_reconfigs)

unfoldable pub is_account_reconfig_allowed_sp : Timestamp → CreditorId → ℤ → List UsageStats → Bool
is_account_reconfig_allowed_sp now cid max_reconfigs =
    unless_row
      (λ r.
        has_usage cid r
        && leb_ℤ max_reconfigs
            (live_count (current_epoch now) r.reconfigs_reset_at r.reconfigs_count))
      (ltb_ℤ (pos 0) max_reconfigs)

unfoldable pub is_transfer_creation_allowed_sp :
    Timestamp → CreditorId → ℤ → ℤ → List UsageStats → Bool
is_transfer_creation_allowed_sp now cid max_transfers max_initiations =
    unless_row
      (λ r.
        has_usage cid r
        && (leb_ℤ max_transfers r.transfers_count
            || leb_ℤ max_initiations
                (live_count (current_epoch now) r.initiations_reset_at r.initiations_count)))
      (ltb_ℤ (pos 0) max_transfers && ltb_ℤ (pos 0) max_initiations)

-- What the `UPDATE`s set of the reconfigurations, and of the initiations.
unfoldable pub reconfigured : Timestamp → ℤ → UsageStats → Result UsageStats
unfolding next_count next_reset_at
reconfigured now clear_hours r =
    with_reset_at (next_reset_at (current_epoch now) clear_hours r.reconfigs_reset_at) λ at.
      record r {
        reconfigs_count = next_count (current_epoch now) r.reconfigs_reset_at r.reconfigs_count;
        reconfigs_reset_at = at;
      }

unfoldable pub initiated : Timestamp → ℤ → UsageStats → Result UsageStats
unfolding next_count next_reset_at
initiated now clear_hours r =
    with_reset_at (next_reset_at (current_epoch now) clear_hours r.initiations_reset_at) λ at.
      record r {
        initiations_count =
            next_count (current_epoch now) r.initiations_reset_at r.initiations_count;
        initiations_reset_at = at;
      }

unfoldable pub register_account_creation_sp :
    Db → Timestamp → CreditorId → ℤ → List UsageStats → Result (List UsageStats)
unfolding upsert_usage count_up add_integer reconfigured
register_account_creation_sp db now cid clear_hours =
    upsert_usage db cid
      (λ r. reconfigured now clear_hours (record r { accounts_count = count_up r.accounts_count }))
      (with_reset_at (add_integer (current_epoch now) clear_hours) λ at.
        record (new_usage_stats cid) {
          accounts_count = pos 1;
          reconfigs_count = pos 1;
          reconfigs_reset_at = at;
        })

unfoldable pub register_account_reconfig_sp :
    Db → Timestamp → CreditorId → ℤ → List UsageStats → Result (List UsageStats)
unfolding upsert_usage add_integer reconfigured
register_account_reconfig_sp db now cid clear_hours =
    upsert_usage db cid (reconfigured now clear_hours) (
      with_reset_at (add_integer (current_epoch now) clear_hours)
        λ at. record (new_usage_stats cid) { reconfigs_count = pos 1; reconfigs_reset_at = at })

unfoldable pub register_transfer_creation_sp :
    Db → Timestamp → CreditorId → ℤ → List UsageStats → Result (List UsageStats)
unfolding upsert_usage count_up add_integer initiated
register_transfer_creation_sp db now cid clear_hours =
    upsert_usage db cid
      (λ r. initiated now clear_hours (record r { transfers_count = count_up r.transfers_count }))
      (with_reset_at (add_integer (current_epoch now) clear_hours) λ at.
        record (new_usage_stats cid) {
          transfers_count = pos 1;
          initiations_count = pos 1;
          initiations_reset_at = at;
        })

unfoldable pub increment_account_number_sp :
    Db → CreditorId → List UsageStats → Result (List UsageStats)
unfolding upsert_usage count_up
increment_account_number_sp db cid =
    upsert_usage db cid (λ r. ok (record r { accounts_count = count_up r.accounts_count }))
      (ok (record (new_usage_stats cid) { accounts_count = pos 1 }))

unfoldable pub decrement_account_number_sp :
    Db → CreditorId → List UsageStats → Result (List UsageStats)
unfolding upsert_usage count_down
decrement_account_number_sp db cid =
    upsert_usage db cid (λ r. ok (record r { accounts_count = count_down r.accounts_count }))
      (ok (record (new_usage_stats cid) { accounts_count = negsuc 0 }))

unfoldable pub increment_transfer_number_sp :
    Db → CreditorId → List UsageStats → Result (List UsageStats)
unfolding upsert_usage count_up
increment_transfer_number_sp db cid =
    upsert_usage db cid (λ r. ok (record r { transfers_count = count_up r.transfers_count }))
      (ok (record (new_usage_stats cid) { transfers_count = pos 1 }))

unfoldable pub decrement_transfer_number_sp :
    Db → CreditorId → List UsageStats → Result (List UsageStats)
unfolding upsert_usage count_down
decrement_transfer_number_sp db cid =
    upsert_usage db cid (λ r. ok (record r { transfers_count = count_down r.transfers_count }))
      (ok (record (new_usage_stats cid) { transfers_count = negsuc 0 }))
