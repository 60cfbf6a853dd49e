-- ===== src/Procedures/Common.antt =====
-- procedures/common.py.
use swpt_creditors.Base.{ℕ, ◌+◌, ◌-◌, Bool, not, ◌&&◌}
use swpt_creditors.Base.Int.{ℤ, negsuc, leb_ℤ, ltb_ℤ}
use swpt_creditors.Base.Tests.{◌==◌, if◌then◌else◌}
use swpt_creditors.Models.Common.{min_int64, max_int64, update_conflict, already_up_to_date}
use swpt_creditors.Models.Db.{Result, ok, err}

-- An update of an object: whether some field differs from its new value, and the assignment.
pub record Update (A : Type 0) : Type 0 where
  pub has_changes : A → Bool
  pub set_values : A → A

-- `latest` and `set_latest` read and write the field `update_id_field_name`. The result is the
-- function that performs the update.
unfoldable pub allow_update :
    {A : Type 0} → A → (A → ℕ) → (ℕ → A → A) → ℕ → Update A → Result (A → A)
allow_update obj latest set_latest update_id update =
    if update_id == latest obj && not (update.has_changes obj)
    then err already_up_to_date
    else if update_id == latest obj + 1
    then ok (λ o. update.set_values (set_latest update_id o))
    else err update_conflict

unfoldable pub contain_principal_overflow : ℤ → ℤ
contain_principal_overflow value =
    if leb_ℤ value min_int64
    then negsuc (pos_max - 1)
    else if ltb_ℤ max_int64 value
    then max_int64
    else value
  where
    pos_max : ℕ
    pos_max = Prim.Native.Nat.◌^◌ 2 63 - 1
