-- ===== src/StoredProcedures/Usage/Rate.antt =====
-- About the limit on reconfigurations: sequences of the operations of inspect_ops.py in which each
-- one is allowed before it is registered, as the routes call them.
use swpt_creditors.Base.{
  ℕ, ◌+◌, ◌≡◌, refl, ◌∙◌, Bool, true, false, ◌||◌, some, List, [], ◌∷◌, arith,
}
use swpt_creditors.Base.Int.{ℤ, pos, ◌≤ℤ◌, ◌+ℤ◌, ltb_ℤ, leb_ℤ, +ℤ_parts, parts_excl}
use swpt_creditors.Base.Lists.{find_row, any_row, All}
use swpt_creditors.Base.Tests.{◌==◌, if◌then◌else◌, ==_iff}
use swpt_creditors.Models.Common.{CreditorId, DebtorId, Timestamp}
use swpt_creditors.Models.UsageStats.{UsageStats}
use swpt_creditors.Models.Db.{Db, Result, ok, err}
use swpt_creditors.StoredProcedures.Usage.{
  has_usage, current_epoch, live_count, unless_row, count_up, is_account_creation_allowed_sp,
  is_account_reconfig_allowed_sp, register_account_reconfig_sp, register_account_creation_sp,
  register_transfer_creation_sp,
}
use swpt_creditors.StoredProcedures.Usage.Inspect
use swpt_creditors.StoredProcedures.Usage.Became.{
  any_row-found, Advanced, reconfig-Advanced, transfer-Advanced,
}

-- The operations that are inspected.
pub data Inspected : Type 0 where
  pin_change : CreditorId → Inspected
  account_creation account_reconfig transfer_creation : CreditorId → DebtorId → Inspected

abbrev pub after : Result (Unit {0}) → Result (List UsageStats) → Result (List UsageStats)
after (ok _) r = r
after (err e) r = err e

-- Whether the operation counts as a reconfiguration by the creditor.
abbrev pub is_reconfig_by : CreditorId → Inspected → Bool
is_reconfig_by cid (pin_change c) = c == cid
is_reconfig_by cid (account_creation c d) = c == cid
is_reconfig_by cid (account_reconfig c d) = c == cid
is_reconfig_by cid (transfer_creation c d) = false

module _ (limits : Inspect.UsageLimits) (db : Db) where
  unfoldable pub inspect : Timestamp → Inspected → Inspect.Writes
  unfolding Inspect.allow_pin_change Inspect.register_pin_change
  inspect now (pin_change c) stats =
      after (Inspect.allow_pin_change limits now c stats)
        (Inspect.register_pin_change limits now db c stats)
  inspect now (account_creation c d) stats =
      after (Inspect.allow_account_creation limits now c d stats)
        (Inspect.register_account_creation limits now db c d stats)
  inspect now (account_reconfig c d) stats =
      after (Inspect.allow_account_reconfig limits now c d stats)
        (Inspect.register_account_reconfig limits now db c d stats)
  inspect now (transfer_creation c d) stats =
      after (Inspect.allow_transfer_creation limits now c d stats)
        (Inspect.register_transfer_creation limits now db c d stats)

  -- How many of the operations are reconfigurations by the creditor that are not forbidden.
  unfoldable pub passed : CreditorId → List (Timestamp × Inspected) → List UsageStats → ℕ
  unfolding inspect
  passed cid [] stats = 0
  passed cid ((now, op) ∷ ops) stats = elim (inspect now op stats) [
    | ok stats' ↦
        let rest : ℕ = passed cid ops stats' in if is_reconfig_by cid op then 1 + rest else rest
    | err e ↦ passed cid ops stats
  ]

after_ok :
    (a : Result (Unit {0})) (b : Result (List UsageStats)) {stats : List UsageStats}
    → after a b ≡ ok stats
    → b ≡ ok stats
after_ok (ok _) b h = h
after_ok (err e) b h = absurd cc

after_allowed :
    (b : Bool) (k : Result (List UsageStats)) {stats : List UsageStats}
    → after (Inspect.forbid_unless b) k ≡ ok stats
    → b ≡ true
after_allowed true k h = refl
after_allowed false k h = absurd cc

-- No row passed the test.
unless_row-none :
    (test : UsageStats → Bool) (otherwise : Bool) (stats : List UsageStats)
    → unless_row test otherwise stats ≡ true
    → any_row test stats ≡ false
unless_row-none test otherwise stats h = ground arith

module _ (limits : Inspect.UsageLimits) (db : Db) (now : Timestamp) (cid : CreditorId)
    (stats stats' : List UsageStats) (r : UsageStats) where
  module _ (found : find_row (has_usage cid) stats ≡ some r)
      (live : ltb_ℤ (current_epoch now) r.reconfigs_reset_at ≡ true) where
    inspect-Advanced :
        (op : Inspected)
        → inspect limits db now op stats ≡ ok stats'
        → Advanced cid (is_reconfig_by cid op) r stats'
    unfolding inspect Inspect.register_pin_change Inspect.register_account_creation
        Inspect.register_account_reconfig Inspect.register_transfer_creation
        register_account_reconfig_sp register_account_creation_sp register_transfer_creation_sp
    inspect-Advanced (pin_change c) h =
        reconfig-Advanced db now _ cid c (λ x. x) _ stats stats' r (λ x. refl) (λ x. refl)
          (λ x. refl) found live (after_ok _ _ h)
    inspect-Advanced (account_reconfig c d) h =
        reconfig-Advanced db now _ cid c (λ x. x) _ stats stats' r (λ x. refl) (λ x. refl)
          (λ x. refl) found live (after_ok _ _ h)
    inspect-Advanced (account_creation c d) h =
        reconfig-Advanced db now _ cid c
          (λ x. record x { accounts_count = count_up x.accounts_count }) _ stats stats' r
          (λ x. refl) (λ x. refl) (λ x. refl) found live (after_ok _ _ h)
    inspect-Advanced (transfer_creation c d) h =
        transfer-Advanced db now _ cid c _ stats stats' r found (after_ok _ _ h)

    module _ (c : CreditorId) (own : (c == cid) ≡ true) where
      found_by : find_row (has_usage c) stats ≡ some r
      found_by = rw ((==_iff c cid).0 own) found

      reconfig_below :
          is_account_reconfig_allowed_sp now c limits.app_max_creditor_reconfigs stats ≡ true
          → leb_ℤ limits.app_max_creditor_reconfigs r.reconfigs_count ≡ false
      unfolding is_account_reconfig_allowed_sp
      reconfig_below h =
          rw_live (any_row-found (has_usage c) _ stats r found_by (unless_row-none _ _ stats h))
        where
          rw_live :
              leb_ℤ limits.app_max_creditor_reconfigs
                  (live_count (current_epoch now) r.reconfigs_reset_at r.reconfigs_count)
                ≡ false
              → leb_ℤ limits.app_max_creditor_reconfigs r.reconfigs_count ≡ false
          rw_live e = ground arith

      account_below :
          is_account_creation_allowed_sp now c limits.app_max_creditor_accounts
              limits.app_max_creditor_reconfigs stats
            ≡ true
          → leb_ℤ limits.app_max_creditor_reconfigs r.reconfigs_count ≡ false
      unfolding is_account_creation_allowed_sp
      account_below h =
          rw_live (any_row-found (has_usage c) _ stats r found_by (unless_row-none _ _ stats h))
        where
          rw_live :
              (leb_ℤ limits.app_max_creditor_accounts r.accounts_count
                  || leb_ℤ limits.app_max_creditor_reconfigs
                      (live_count (current_epoch now) r.reconfigs_reset_at r.reconfigs_count))
                ≡ false
              → leb_ℤ limits.app_max_creditor_reconfigs r.reconfigs_count ≡ false
          rw_live e = ground arith

    -- A reconfiguration that passed was below the limit.
    inspect-below :
        (op : Inspected)
        → inspect limits db now op stats ≡ ok stats'
        → is_reconfig_by cid op ≡ true
        → leb_ℤ limits.app_max_creditor_reconfigs r.reconfigs_count ≡ false
    unfolding inspect Inspect.allow_pin_change Inspect.allow_account_reconfig
        Inspect.allow_account_creation
    inspect-below (pin_change c) h own = reconfig_below c own (after_allowed _ _ h)
    inspect-below (account_reconfig c d) h own = reconfig_below c own (after_allowed _ _ h)
    inspect-below (account_creation c d) h own = account_below c own (after_allowed _ _ h)
    inspect-below (transfer_creation c d) h own = absurd cc

count_up-next : (n max : ℤ) → leb_ℤ max n ≡ false → max ≤ℤ pos 32767 → count_up n ≡ n +ℤ pos 1
unfolding count_up
count_up-next n max below small = ground (arith, +ℤ_parts n (pos 1), parts_excl n)

next-le : (n max : ℤ) → leb_ℤ max n ≡ false → (n +ℤ pos 1) ≤ℤ max
next-le n max below = ground (arith, +ℤ_parts n (pos 1), parts_excl n)

sum-le : (p : ℕ) (n max : ℤ) → pos p +ℤ (n +ℤ pos 1) ≤ℤ max → pos (1 + p) +ℤ n ≤ℤ max
sum-le p n max h =
    ground (arith, +ℤ_parts n (pos 1), +ℤ_parts (pos p) (n +ℤ pos 1), +ℤ_parts (pos (1 + p)) n)

count_step :
    (b : Bool) (p : ℕ) (n n' max : ℤ)
    → n' ≡ (if b then count_up n else n)
    → (b ≡ true → leb_ℤ max n ≡ false)
    → max ≤ℤ pos 32767
    → n ≤ℤ max
    → (n' ≤ℤ max → pos p +ℤ n' ≤ℤ max)
    → pos (if b then 1 + p else p) +ℤ n ≤ℤ max
count_step true p n n' max is_next below small h rest =
    let e : n' ≡ n +ℤ pos 1 = is_next ∙ count_up-next n max (below refl) small in
    sum-le p n max (rw (← e) (rest (rw e (next-le n max (below refl)))))
count_step false p n n' max is_next below small h rest = rw (← is_next) (rest (rw is_next h))

-- The times of the operations lie before the reset.
abbrev AllBefore : ℤ → List (Timestamp × Inspected) → Type 0
AllBefore reset_at ops = All (λ op. ltb_ℤ (current_epoch (op.0)) reset_at ≡ true) ops

module _ (limits : Inspect.UsageLimits) (db : Db) (cid : CreditorId) where
  -- The bound at a row of the creditor before its reset.
  abbrev Bounded : ℤ → List (Timestamp × Inspected) → Type 0
  Bounded reset_at ops =
      (stats : List UsageStats) (r : UsageStats)
      → find_row (has_usage cid) stats ≡ some r
      → r.reconfigs_reset_at ≡ reset_at
      → r.reconfigs_count ≤ℤ limits.app_max_creditor_reconfigs
      → pos (passed limits db cid ops stats) +ℤ r.reconfigs_count
        ≤ℤ limits.app_max_creditor_reconfigs

  module _ (small : limits.app_max_creditor_reconfigs ≤ℤ pos 32767) (reset_at : ℤ) where
    passed-step :
        (now : Timestamp) (op : Inspected) (ops : List (Timestamp × Inspected))
        (stats : List UsageStats) (r : UsageStats) (res : Result (List UsageStats))
        → inspect limits db now op stats ≡ res
        → ltb_ℤ (current_epoch now) reset_at ≡ true
        → Bounded reset_at ops
        → find_row (has_usage cid) stats ≡ some r
        → r.reconfigs_reset_at ≡ reset_at
        → r.reconfigs_count ≤ℤ limits.app_max_creditor_reconfigs
        → pos (passed limits db cid ((now, op) ∷ ops) stats) +ℤ r.reconfigs_count
          ≤ℤ limits.app_max_creditor_reconfigs
    unfolding passed
    passed-step now op ops stats r (err e) is_res before ih found at h =
        rw (passed, is_res) (ih stats r found at h)
    passed-step now op ops stats r (ok stats') is_res before ih found at h =
        let live : ltb_ℤ (current_epoch now) r.reconfigs_reset_at ≡ true = rw at before in
        let (r', found', same_at, count) =
          inspect-Advanced limits db now cid stats stats' r found live op is_res in
        rw (passed, is_res)
          (count_step (is_reconfig_by cid op) (passed limits db cid ops stats') r.reconfigs_count
            r'.reconfigs_count limits.app_max_creditor_reconfigs count
            (inspect-below limits db now cid stats stats' r found live op is_res) small h
            (ih stats' r' found' (same_at ∙ at)))

    passed-Bounded :
        (ops : List (Timestamp × Inspected)) → AllBefore reset_at ops → Bounded reset_at ops
    unfolding passed
    passed-Bounded [] before stats r found at h = ground (arith, +ℤ_parts (pos 0) r.reconfigs_count)
    passed-Bounded ((now, op) ∷ ops) before stats r found at h =
        passed-step now op ops stats r (inspect limits db now op stats) refl before.0
          (passed-Bounded ops before.1) found at h

-- When the limit fits in two bytes and a creditor's count of reconfigurations is not above it, then,
-- over any sequence of operations of any creditors of a database that stays the same, each of which
-- is allowed before it is registered and happens before the creditor's count is reset, the number of
-- the creditor's reconfigurations that pass and the count at the start are together at most the limit.
pub reconfigs_limited :
    (limits : Inspect.UsageLimits) (db : Db) (cid : CreditorId) (ops : List (Timestamp × Inspected))
    (stats : List UsageStats) (r : UsageStats)
    → limits.app_max_creditor_reconfigs ≤ℤ pos 32767
    → find_row (has_usage cid) stats ≡ some r
    → AllBefore r.reconfigs_reset_at ops
    → r.reconfigs_count ≤ℤ limits.app_max_creditor_reconfigs
    → pos (passed limits db cid ops stats) +ℤ r.reconfigs_count ≤ℤ limits.app_max_creditor_reconfigs
reconfigs_limited limits db cid ops stats r small found before h =
    passed-Bounded limits db cid small r.reconfigs_reset_at ops before stats r found refl h
