-- ===== src/StoredProcedures/Usage/Storable.antt =====
-- The rows of `UsageStats` (models/creditors.py) that fit in their columns and refer to a creditor:
-- what the parts of the stored procedures keep of them.
use swpt_creditors.Base.{ℕ, ◌≡◌, refl, inl, inr, Bool, true, false, List, [], ◌∷◌, ◌≤◌, arith}
use swpt_creditors.Base.Int.{ℤ, pos, negsuc, ◌≤ℤ◌, ◌+ℤ◌, ◌-ℤ◌, +ℤ_parts, -ℤ_parts, parts_excl}
use swpt_creditors.Base.Lists.{find_row, All}
use swpt_creditors.Base.Rows.{All-put_row, All-append, All-find_row, find_row_sound}
use swpt_creditors.Base.Tests.{is_some, Option-cases, ==_iff}
use swpt_creditors.Models.Common.{CreditorId, Timestamp}
use swpt_creditors.Models.UsageStats.{UsageStats, new_usage_stats}
use swpt_creditors.Models.Db.{Db, Result, ok, err}
use swpt_creditors.Procedures.Creditors.{get_creditor}
use swpt_creditors.StoredProcedures.Usage.{
  has_usage, current_epoch, with_reset_at, reconfigured, initiated, count_up, count_down,
  next_count, add_integer, next_reset_at, insert_usage, put_usage, upsert_usage,
}

abbrev pub IsSmallInt : ℤ → Type 0
IsSmallInt n = (negsuc 32767 ≤ℤ n) × (n ≤ℤ pos 32767)

abbrev IsInteger : ℤ → Type 0
IsInteger n = (negsuc 2147483647 ≤ℤ n) × (n ≤ℤ pos 2147483647)

-- The row's numbers fit in their columns.
pub record Fits (r : UsageStats) : Type 0 where
  pub accounts : IsSmallInt r.accounts_count
  pub transfers : IsSmallInt r.transfers_count
  pub reconfigs : IsSmallInt r.reconfigs_count
  pub reconfigs_reset : IsInteger r.reconfigs_reset_at
  pub initiations : IsSmallInt r.initiations_count
  pub initiations_reset : IsInteger r.initiations_reset_at

-- The row fits, and refers to a creditor.
pub record IsStorable (db : Db) (r : UsageStats) : Type 0 where
  pub fits : Fits r
  pub owner : is_some (get_creditor r.creditor_id db) ≡ true

-- The table after a call: one that raises is rolled back.
abbrev pub kept : List UsageStats → Result (List UsageStats) → List UsageStats
kept stats (ok stats') = stats'
kept stats (err e) = stats

-- A row that was computed fits, and keeps the creditor's key.
abbrev Good : CreditorId → Result UsageStats → Type 0
Good cid (ok r) = Fits r × (r.creditor_id ≡ cid)
Good cid (err e) = Unit {0}

abbrev GoodTime : Result ℤ → Type 0
GoodTime (ok n) = IsInteger n
GoodTime (err e) = Unit {0}

pub count_up-IsSmallInt : (n : ℤ) → IsSmallInt n → IsSmallInt (count_up n)
unfolding count_up
count_up-IsSmallInt n h = ground (arith, +ℤ_parts n (pos 1), parts_excl n, parts_excl (n +ℤ pos 1))

pub count_down-IsSmallInt : (n : ℤ) → IsSmallInt n → IsSmallInt (count_down n)
unfolding count_down
count_down-IsSmallInt n h =
    ground (arith, -ℤ_parts n (pos 1), parts_excl n, parts_excl (n -ℤ pos 1))

next_count-IsSmallInt : (epoch at n : ℤ) → IsSmallInt n → IsSmallInt (next_count epoch at n)
unfolding next_count
next_count-IsSmallInt epoch at n h = ground (arith, count_up-IsSmallInt n h)

pub add_integer-GoodTime : (a b : ℤ) → GoodTime (add_integer a b)
unfolding add_integer
add_integer-GoodTime a b = ground arith

next_reset_at-GoodTime :
    (epoch hours at : ℤ) → IsInteger at → GoodTime (next_reset_at epoch hours at)
unfolding next_reset_at
next_reset_at-GoodTime epoch hours at h = ground (arith, add_integer-GoodTime epoch hours)

put_usage-IsStorable :
    (db : Db) (cid : CreditorId) (row : Result UsageStats) (stats : List UsageStats)
    → Good cid row
    → is_some (get_creditor cid db) ≡ true
    → All (IsStorable db) stats
    → All (IsStorable db) (kept stats (put_usage cid row stats))
put_usage-IsStorable db cid (err e) stats good owner h = h
put_usage-IsStorable db cid (ok r) stats good owner h =
    All-put_row (IsStorable db) (has_usage cid) r stats
      (record { fits = good.0; owner = rw good.1 owner }) h

insert_usage-IsStorable :
    (db : Db) (cid : CreditorId) (row : Result UsageStats) (stats : List UsageStats) (b : Bool)
    → Good cid row
    → is_some (get_creditor cid db) ≡ b
    → All (IsStorable db) stats
    → All (IsStorable db) (kept stats (insert_usage b row stats))
insert_usage-IsStorable db cid (err e) stats true good owner h = h
insert_usage-IsStorable db cid (err e) stats false good owner h = h
insert_usage-IsStorable db cid (ok r) stats false good owner h = h
insert_usage-IsStorable db cid (ok r) stats true good owner h =
    All-append (IsStorable db) stats (r ∷ []) h
      (record { fits = good.0; owner = rw good.1 owner }, tt)

pub upsert_usage-IsStorable :
    (db : Db) (cid : CreditorId) (change : UsageStats → Result UsageStats)
    (fresh : Result UsageStats) (stats : List UsageStats)
    → ((r : UsageStats) → Fits r → r.creditor_id ≡ cid → Good cid (change r))
    → Good cid fresh
    → All (IsStorable db) stats
    → All (IsStorable db) (kept stats (upsert_usage db cid change fresh stats))
unfolding upsert_usage
upsert_usage-IsStorable db cid change fresh stats changed added h =
    elim (Option-cases (find_row (has_usage cid) stats)) [
      | inl missing ↦
          rw (upsert_usage, missing) (insert_usage-IsStorable db cid fresh stats _ added refl h)
      | inr (r, found) ↦
          let key : r.creditor_id ≡ cid =
            (==_iff r.creditor_id cid).0 (find_row_sound (has_usage cid) stats r found) in
          let row : IsStorable db r =
            All-find_row (IsStorable db) (has_usage cid) stats r h found in
          rw (upsert_usage, found)
            (put_usage-IsStorable db cid (change r) stats (changed r row.fits key)
              (rw (← key) row.owner) h)
    ]

pub with_reset_at-Good :
    (cid : CreditorId) (at : Result ℤ) (row : ℤ → UsageStats)
    → GoodTime at
    → ((n : ℤ) → IsInteger n → Good cid (ok (row n)))
    → Good cid (with_reset_at at row)
with_reset_at-Good cid (ok n) row h good = good n h
with_reset_at-Good cid (err e) row h good = tt

pub reconfigured-Good :
    (cid : CreditorId) (now : Timestamp) (hours : ℤ) (r : UsageStats)
    → Fits r
    → r.creditor_id ≡ cid
    → Good cid (reconfigured now hours r)
unfolding reconfigured next_reset_at
reconfigured-Good cid now hours r f key =
    with_reset_at-Good cid (next_reset_at (current_epoch now) hours r.reconfigs_reset_at) _
      (next_reset_at-GoodTime (current_epoch now) hours r.reconfigs_reset_at f.reconfigs_reset)
      λ n h. (
        record {
          accounts = f.accounts;
          transfers = f.transfers;
          reconfigs =
              next_count-IsSmallInt (current_epoch now) r.reconfigs_reset_at r.reconfigs_count
                f.reconfigs;
          reconfigs_reset = h;
          initiations = f.initiations;
          initiations_reset = f.initiations_reset;
        },
        key,
      )

pub initiated-Good :
    (cid : CreditorId) (now : Timestamp) (hours : ℤ) (r : UsageStats)
    → Fits r
    → r.creditor_id ≡ cid
    → Good cid (initiated now hours r)
unfolding initiated next_reset_at
initiated-Good cid now hours r f key =
    with_reset_at-Good cid (next_reset_at (current_epoch now) hours r.initiations_reset_at) _
      (next_reset_at-GoodTime (current_epoch now) hours r.initiations_reset_at f.initiations_reset)
      λ n h. (
        record {
          accounts = f.accounts;
          transfers = f.transfers;
          reconfigs = f.reconfigs;
          reconfigs_reset = f.reconfigs_reset;
          initiations =
              next_count-IsSmallInt (current_epoch now) r.initiations_reset_at r.initiations_count
                f.initiations;
          initiations_reset = h;
        },
        key,
      )

pub with_accounts :
    (r : UsageStats) (n : ℤ) → IsSmallInt n → Fits r → Fits (record r { accounts_count = n })
with_accounts r n h f = record {
  accounts = h;
  transfers = f.transfers;
  reconfigs = f.reconfigs;
  reconfigs_reset = f.reconfigs_reset;
  initiations = f.initiations;
  initiations_reset = f.initiations_reset;
}

pub with_transfers :
    (r : UsageStats) (n : ℤ) → IsSmallInt n → Fits r → Fits (record r { transfers_count = n })
with_transfers r n h f = record {
  accounts = f.accounts;
  transfers = h;
  reconfigs = f.reconfigs;
  reconfigs_reset = f.reconfigs_reset;
  initiations = f.initiations;
  initiations_reset = f.initiations_reset;
}

-- The rows that are inserted.
pub small : (n : ℕ) → n ≤ 1 → IsSmallInt (pos n)
small n h = (omega arith, omega arith)

pub new-Fits : (cid : CreditorId) → Fits (new_usage_stats cid)
new-Fits cid = record {
  accounts = small 0 (omega arith);
  transfers = small 0 (omega arith);
  reconfigs = small 0 (omega arith);
  reconfigs_reset = (omega arith, omega arith);
  initiations = small 0 (omega arith);
  initiations_reset = (omega arith, omega arith);
}

pub new_reconfigs :
    (r : UsageStats) (n : ℤ)
    → IsInteger n
    → Fits r
    → Fits (record r { reconfigs_count = pos 1; reconfigs_reset_at = n })
new_reconfigs r n h f = record {
  accounts = f.accounts;
  transfers = f.transfers;
  reconfigs = small 1 (omega arith);
  reconfigs_reset = h;
  initiations = f.initiations;
  initiations_reset = f.initiations_reset;
}

pub new_initiations :
    (r : UsageStats) (n : ℤ)
    → IsInteger n
    → Fits r
    → Fits (record r { initiations_count = pos 1; initiations_reset_at = n })
new_initiations r n h f = record {
  accounts = f.accounts;
  transfers = f.transfers;
  reconfigs = f.reconfigs;
  reconfigs_reset = f.reconfigs_reset;
  initiations = small 1 (omega arith);
  initiations_reset = h;
}
