-- ===== src/StoredProcedures/Usage/Became.antt =====
-- What becomes of a row of `UsageStats` (models/creditors.py) under the parts of the stored procedures
-- that register an operation, of its own creditor or of another.
use swpt_creditors.Base.{
  ◌≡◌, refl, sym, ◌∙◌, ◌⊎◌, inl, inr, Bool, true, false, ◌&&◌, none, some, List, [], ◌∷◌, ◌++◌,
  arith,
}
use swpt_creditors.Base.Int.{ℤ, ltb_ℤ}
use swpt_creditors.Base.Lists.{find_row, any_row}
use swpt_creditors.Base.Rows.{find_row-put_row, find_row-put_row_other, find_row_sound}
use swpt_creditors.Base.Tests.{◌==◌, is_some, if◌then◌else◌, Option-cases, Bool-cases, ==_iff}
use swpt_creditors.Models.Common.{CreditorId, Timestamp}
use swpt_creditors.Models.UsageStats.{UsageStats}
use swpt_creditors.Models.Db.{Db, Result, ok, err}
use swpt_creditors.Procedures.Creditors.{get_creditor}
use swpt_creditors.StoredProcedures.Usage.{
  has_usage, with_reset_at, next_count, next_reset_at, put_usage, insert_usage, current_epoch,
  count_up, upsert_usage, reconfigured, initiated,
}

module _ {ℓ} {A : Type ℓ} where
  find_row-append_found :
      (p : A → Bool) (xs ys : List A) (x : A)
      → find_row p xs ≡ some x
      → find_row p (xs ++ ys) ≡ some x
  find_row-append_found p [] ys x h = cc
  find_row-append_found p (y ∷ xs) ys x h = ground (arith, find_row-append_found p xs ys x)

  -- A found row is among the rows that another test is asked of.
  pub any_row-found :
      (p q : A → Bool) (xs : List A) (x : A)
      → find_row p xs ≡ some x
      → any_row (λ y. p y && q y) xs ≡ false
      → q x ≡ false
  any_row-found p q [] x h none_is = cc
  any_row-found p q (y ∷ xs) x h none_is = ground (arith, any_row-found p q xs x)

ok_inj : {A : Type 0} {x y : A} → ok x ≡ ok y → x ≡ y
ok_inj h = cc

upsert_usage-of_found :
    (db : Db) (cid : CreditorId) (change : UsageStats → Result UsageStats)
    (fresh : Result UsageStats) (stats : List UsageStats) (r : UsageStats)
    → find_row (has_usage cid) stats ≡ some r
    → upsert_usage db cid change fresh stats ≡ put_usage cid (change r) stats
unfolding upsert_usage
upsert_usage-of_found db cid change fresh stats r found = rw (upsert_usage, found) refl

upsert_usage-of_missing :
    (db : Db) (cid : CreditorId) (change : UsageStats → Result UsageStats)
    (fresh : Result UsageStats) (stats : List UsageStats)
    → find_row (has_usage cid) stats ≡ none
    → upsert_usage db cid change fresh stats
      ≡ insert_usage (is_some (get_creditor cid db)) fresh stats
unfolding upsert_usage
upsert_usage-of_missing db cid change fresh stats missing = rw (upsert_usage, missing) refl

inserted_other :
    (cid : CreditorId) (fresh : Result UsageStats) (stats stats' : List UsageStats) (r : UsageStats)
    (b : Bool)
    → find_row (has_usage cid) stats ≡ some r
    → insert_usage b fresh stats ≡ ok stats'
    → find_row (has_usage cid) stats' ≡ some r
inserted_other cid (err e) stats stats' r true found h = cc
inserted_other cid (err e) stats stats' r false found h = cc
inserted_other cid (ok x) stats stats' r false found h = rw (← (ok_inj h)) found
inserted_other cid (ok x) stats stats' r true found h =
    rw (← (ok_inj h)) (find_row-append_found (has_usage cid) stats (x ∷ []) r found)

-- What became of the row: the change of its own creditor's operation, or nothing.
abbrev Became :
    CreditorId
    → CreditorId
    → (UsageStats → Result UsageStats)
    → UsageStats
    → List UsageStats
    → Type 0
Became cid c change r stats' =
    (r' : UsageStats) × (find_row (has_usage cid) stats' ≡ some r')
    × (((c == cid) ≡ true) × (change r ≡ ok r') ⊎ ((c == cid) ≡ false) × (r' ≡ r))

put_found :
    (cid : CreditorId) (stats stats' : List UsageStats) (r : UsageStats) (row : Result UsageStats)
    → find_row (has_usage cid) stats ≡ some r
    → ((x' : UsageStats) → row ≡ ok x' → x'.creditor_id ≡ r.creditor_id)
    → put_usage cid row stats ≡ ok stats'
    → (r' : UsageStats) × (find_row (has_usage cid) stats' ≡ some r') × (row ≡ ok r')
put_found cid stats stats' r (err e) found keeps h = absurd cc
put_found cid stats stats' r (ok r') found keeps h = (
  r',
  rw (← (ok_inj h)) (
      find_row-put_row (has_usage cid) r' stats r
        (rw (keeps r' refl) (find_row_sound (has_usage cid) stats r found)) found),
  refl,
)

put_other :
    (cid c : CreditorId) (stats stats' : List UsageStats) (r x : UsageStats)
    (row : Result UsageStats)
    → find_row (has_usage cid) stats ≡ some r
    → (c == cid) ≡ false
    → x.creditor_id ≡ c
    → ((x' : UsageStats) → row ≡ ok x' → x'.creditor_id ≡ x.creditor_id)
    → put_usage c row stats ≡ ok stats'
    → find_row (has_usage cid) stats' ≡ some r
put_other cid c stats stats' r x (err e) found apart key keeps h = cc
put_other cid c stats stats' r x (ok x') found apart key keeps h =
    rw
      (
        ← (ok_inj h),
        find_row-put_row_other (has_usage c) (has_usage cid) x' stats
            (ground (arith, keeps x' refl)) (λ y is_c. ground arith),
      )
      found

upsert_usage-Became :
    (db : Db) (cid c : CreditorId) (change : UsageStats → Result UsageStats)
    (fresh : Result UsageStats) (stats stats' : List UsageStats) (r : UsageStats)
    → find_row (has_usage cid) stats ≡ some r
    → ((x x' : UsageStats) → change x ≡ ok x' → x'.creditor_id ≡ x.creditor_id)
    → upsert_usage db c change fresh stats ≡ ok stats'
    → Became cid c change r stats'
upsert_usage-Became db cid c change fresh stats stats' r found keeps h =
    elim (Bool-cases (c == cid)) [
      | inl same ↦
          let is_cid : c ≡ cid = (==_iff c cid).0 same in
          let own : find_row (has_usage c) stats ≡ some r = rw is_cid found in
          let (r', found', changed) =
            put_found c stats stats' r (change r) own (keeps r)
              (sym (upsert_usage-of_found db c change fresh stats r own) ∙ h) in
          (r', rw (← is_cid) found', inl (same, changed))
      | inr apart ↦ (r, other apart, inr (apart, refl))
    ]
  where
    other : (c == cid) ≡ false → find_row (has_usage cid) stats' ≡ some r
    other apart = elim (Option-cases (find_row (has_usage c) stats)) [
      | inl missing ↦
          inserted_other cid fresh stats stats' r _ found
            (sym (upsert_usage-of_missing db c change fresh stats missing) ∙ h)
      | inr (x, its) ↦
          put_other cid c stats stats' r x (change x) found apart
            ((==_iff x.creditor_id c).0 (find_row_sound (has_usage c) stats x its)) (keeps x)
            (sym (upsert_usage-of_found db c change fresh stats x its) ∙ h)
    ]

with_reset_at-keeps :
    {B : Type 0} (f : UsageStats → B) (k : B) (at : Result ℤ) (row : ℤ → UsageStats)
    (r' : UsageStats)
    → ((n : ℤ) → f (row n) ≡ k)
    → with_reset_at at row ≡ ok r'
    → f r' ≡ k
with_reset_at-keeps f k (err e) row r' keeps h = absurd cc
with_reset_at-keeps f k (ok n) row r' keeps h = rw (← (ok_inj h)) (keeps n)

reconfigured-live :
    (now : Timestamp) (hours : ℤ) (r : UsageStats)
    → ltb_ℤ (current_epoch now) r.reconfigs_reset_at ≡ true
    → reconfigured now hours r ≡ ok (record r { reconfigs_count = count_up r.reconfigs_count })
unfolding reconfigured next_count next_reset_at
reconfigured-live now hours r live = rw (reconfigured, next_reset_at, next_count, live) refl

-- The row after an operation before its reset, which counted as a reconfiguration or did not.
abbrev pub Advanced : CreditorId → Bool → UsageStats → List UsageStats → Type 0
Advanced cid b r stats' =
    (r' : UsageStats) × (find_row (has_usage cid) stats' ≡ some r')
    × (r'.reconfigs_reset_at ≡ r.reconfigs_reset_at)
    × (r'.reconfigs_count ≡ (if b then count_up r.reconfigs_count else r.reconfigs_count))

pub reconfig-Advanced :
    (db : Db) (now : Timestamp) (hours : ℤ) (cid c : CreditorId) (g : UsageStats → UsageStats)
    (fresh : Result UsageStats) (stats stats' : List UsageStats) (r : UsageStats)
    → ((x : UsageStats) → (g x).creditor_id ≡ x.creditor_id)
    → ((x : UsageStats) → (g x).reconfigs_reset_at ≡ x.reconfigs_reset_at)
    → ((x : UsageStats) → (g x).reconfigs_count ≡ x.reconfigs_count)
    → find_row (has_usage cid) stats ≡ some r
    → ltb_ℤ (current_epoch now) r.reconfigs_reset_at ≡ true
    → upsert_usage db c (λ x. reconfigured now hours (g x)) fresh stats ≡ ok stats'
    → Advanced cid (c == cid) r stats'
unfolding reconfigured
reconfig-Advanced db now hours cid c g fresh stats stats' r same_id same_at same_count found live
      h =
    let (r', found', became) =
      upsert_usage-Became db cid c (λ x. reconfigured now hours (g x)) fresh stats stats' r found
        (λ x x' e. with_reset_at-keeps (λ y. y.creditor_id) x.creditor_id _ _ x' (λ n. same_id x) e)
        h in
    elim became [
      | inl (own, changed) ↦
          let is_row : record (g r) { reconfigs_count = count_up (g r).reconfigs_count } ≡ r' =
            ok_inj (sym (reconfigured-live now hours (g r) (rw (same_at r) live)) ∙ changed) in
          (r', found', rw (← is_row) (same_at r), rw (← is_row, own, same_count r) refl)
      | inr (other, is_row) ↦ (r', found', rw is_row refl, rw (is_row, other) refl)
    ]

pub transfer-Advanced :
    (db : Db) (now : Timestamp) (hours : ℤ) (cid c : CreditorId) (fresh : Result UsageStats)
    (stats stats' : List UsageStats) (r : UsageStats)
    → find_row (has_usage cid) stats ≡ some r
    → upsert_usage db c
        (λ x. initiated now hours (record x { transfers_count = count_up x.transfers_count }))
        fresh
        stats
      ≡ ok stats'
    → Advanced cid false r stats'
unfolding initiated
transfer-Advanced db now hours cid c fresh stats stats' r found h =
    let (r', found', became) =
      upsert_usage-Became db cid c
        (λ x. initiated now hours (record x { transfers_count = count_up x.transfers_count })) fresh
        stats stats' r found
        (λ x x' e. with_reset_at-keeps (λ y. y.creditor_id) x.creditor_id _ _ x' (λ n. refl) e) h in
    elim became [
      | inl (own, changed) ↦ (
        r',
        found',
        with_reset_at-keeps (λ y. y.reconfigs_reset_at) r.reconfigs_reset_at _ _ r' (λ n. refl)
            changed,
        with_reset_at-keeps (λ y. y.reconfigs_count) r.reconfigs_count _ _ r' (λ n. refl) changed,
      )
      | inr (other, is_row) ↦ (r', found', rw is_row refl, rw is_row refl)
    ]
