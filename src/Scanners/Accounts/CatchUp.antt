-- ===== src/Scanners/Accounts/CatchUp.antt =====
-- `AccountScanner` (table_scanners.py) together with `process_pending_ledger_update`
-- (procedures/account_updates.py), for an account whose ledger has missed its last transfers.
use swpt_creditors.Base.{
  ℕ, ◌-◌, ◌≤◌, ◌<◌, ◌≡◌, ap, sym, ◌∙◌, refl, inl, inr, Bool, true, false, ◌&&◌, Option, none, some,
  List, [], ◌∷◌, arith,
}
use swpt_creditors.Base.Int.{pos}
use swpt_creditors.Base.Lists.{All, take, rows_where, any_row, length}
use swpt_creditors.Base.Rows.{any_row-find_row, any_row-append}
use swpt_creditors.Base.Sort.{sort_by}
use swpt_creditors.Base.Tests.{Bool-cases, is_none, ltb}
use swpt_creditors.Models.Common.{CreditorId, DebtorId, Timestamp, Host}
use swpt_creditors.Models.Account.{AccountData}
use swpt_creditors.Models.Transfer.{CommittedTransfer}
use swpt_creditors.Models.Db.{Db, Result, ok, err}
use swpt_creditors.Procedures.Accounts.{data_key, pending_key, get_account_data}
use swpt_creditors.Procedures.TransferSignals.{ensure_pending_ledger_update}
use swpt_creditors.Procedures.Ledger.{
  LedgerUpdate, no_update, update_ledger, fix_missing_last_transfer_if_necessary,
}
use swpt_creditors.Procedures.Ledger.Chain.{IsInt64}
use swpt_creditors.Procedures.LedgerUpdates.{
  add_transfers, must_wait, then_update, repair_if_done, bring_up_to_date,
  get_sorted_pending_transfers, is_pending_transfer, delete_pending_ledger_update, flush_ledger,
  process_pending_ledger_update,
}
use swpt_creditors.Procedures.LedgerUpdates.Progress.{
  IsSound, Progress, no_update-Progress, add_transfers-Progress, repair-Progress, bring_runs, done,
}
use swpt_creditors.Procedures.LedgerUpdates.Order.{
  Absorbs, exhausted, waits, enters, add_transfers-Absorbs, Result-cases, update_ledger_number,
  broke_of, no_lu,
}
use swpt_creditors.Procedures.LedgerUpdates.Database.{
  pending-IsSound, runs, flush_ledger-data, delete_pending-same, flushed-account,
}
use swpt_creditors.Scanners.{Config, is_valid_creditor_id}
use swpt_creditors.Scanners.Accounts.{
  needs_repair, ensure_each, schedule_ledger_repairs_if_necessary,
}

-- All the transfers were committed before the cutoff.
abbrev pub AreOld : Timestamp → List CommittedTransfer → Type 0
AreOld cutoff ts = All (λ t. t.committed_at < cutoff) ts

-- The loop waits for no old transfer.
no_wait :
    {cutoff : Timestamp} {n m : ℕ} {broke : Bool} (ts : List CommittedTransfer)
    → Absorbs cutoff n ts broke m
    → AreOld cutoff ts
    → broke ≡ false
no_wait _ exhausted old = refl
no_wait _ (waits t ts h k) old = absurd (omega (arith, old.0))
no_wait _ (enters t ts h a) old = no_wait ts a old.1

-- When the loop is not left early no transfer is waited for.
unbroken-unmarked :
    (cutoff now : Timestamp) (ts : List CommittedTransfer) (u v : LedgerUpdate)
    → add_transfers cutoff now ts u ≡ ok (false, v)
    → v.account.ledger_pending_transfer_ts ≡ none
unfolding add_transfers
unbroken-unmarked cutoff now [] u v e =
    sym (ap (λ r. (no_lu u r).account.ledger_pending_transfer_ts) e)
unbroken-unmarked cutoff now (t ∷ ts) u v e = elim (Bool-cases (must_wait cutoff u.account t)) [
  | inl wait ↦ cc (ap broke_of (rw (wait, add_transfers) at e))
  | inr go ↦
      elim (Result-cases
        (update_ledger u.account t.transfer_number t.acquired_amount t.principal now false)) [
          | inl (w, k) ↦
              unbroken-unmarked cutoff now ts (then_update u w) v (rw (go, k, add_transfers) at e)
          | inr (x, k) ↦ cc (rw (go, k, add_transfers) at e)
        ]
]

abbrev number_in : Result LedgerUpdate → ℕ
number_in (ok v) = v.account.ledger_last_transfer_number
number_in (err e) = 0

behind_test :
    (o : Option Timestamp) (a b c d : ℕ)
    → o ≡ none
    → c < d
    → (is_none o && ltb a b && ltb c d) ≡ ltb a b
behind_test none a b c d e h = ground arith
behind_test (some x) a b c d e h = cc e

level_le : (a b : ℕ) → ltb a b ≡ false → b ≤ a
level_le a b h = ground arith

-- The repair of a ledger that waits for nothing, and whose last transfer is old.
repaired :
    (max_delay now : Timestamp) (u v : LedgerUpdate)
    → u.account.ledger_pending_transfer_ts ≡ none
    → u.account.last_transfer_committed_at < now - max_delay
    → repair_if_done true max_delay now u ≡ ok v
    → u.account.last_transfer_number ≤ v.account.ledger_last_transfer_number
unfolding repair_if_done fix_missing_last_transfer_if_necessary then_update
repaired max_delay now u v unmarked old e =
    let test =
      behind_test u.account.ledger_pending_transfer_ts u.account.ledger_last_transfer_number
        u.account.last_transfer_number u.account.last_transfer_committed_at (now - max_delay)
        unmarked old in
    elim (Bool-cases (ltb u.account.ledger_last_transfer_number u.account.last_transfer_number)) [
      | inl behind ↦
          elim (Result-cases (
            update_ledger u.account u.account.last_transfer_number (pos 0) u.account.principal now
              false)) [
                | inl (w, k) ↦ omega (
                  arith,
                  ap number_in (
                      rw (test ∙ behind, repair_if_done, fix_missing_last_transfer_if_necessary, k)
                        at e),
                  update_ledger_number u.account u.account.last_transfer_number (pos 0)
                      u.account.principal now false w k,
                )
                | inr (x, k) ↦ cc (
                    rw (test ∙ behind, repair_if_done, fix_missing_last_transfer_if_necessary, k) at
                      e)
              ]
      | inr level ↦ omega (
        arith,
        ap number_in
            (rw (test ∙ level, repair_if_done, fix_missing_last_transfer_if_necessary) at e),
        level_le u.account.ledger_last_transfer_number u.account.last_transfer_number level,
      )
    ]

pub caught_up :
    (ts : List CommittedTransfer) (burst_count : ℕ) (max_delay now : Timestamp) (d : AccountData)
    → All IsSound ts
    → IsInt64 d.ledger_principal
    → IsInt64 d.principal
    → AreOld (now - max_delay) ts
    → d.last_transfer_committed_at < now - max_delay
    → length ts < burst_count
    → (u : LedgerUpdate) × (bring_up_to_date ts burst_count max_delay now d ≡ ok (true, u))
      × Progress d u
      × (d.last_transfer_number ≤ u.account.ledger_last_transfer_number)
caught_up ts burst_count max_delay now d sound hl hp old stale few =
    let (broke, u, e, h) =
      add_transfers-Progress (now - max_delay) now d ts (no_update d) sound
        (no_update-Progress d hl) in
    let unbroken =
      no_wait ts (add_transfers-Absorbs (now - max_delay) now ts (no_update d) broke u e) old in
    let (v, e', k) = repair-Progress true max_delay now d u hp h in
    (
      v,
      bring_runs ts burst_count max_delay now d broke u v e (done broke (length ts) burst_count few)
          e',
      k,
      omega (
        arith,
        ap {A = AccountData} (λ a. a.last_transfer_number) h.untouched,
        repaired max_delay now u v
            (unbroken-unmarked (now - max_delay) now ts (no_update d) u
              (e ∙ ap (λ b. ok (b, u)) unbroken))
            (omega (arith, ap {A = AccountData} (λ a. a.last_transfer_committed_at) h.untouched))
            e',
      ),
    )

-- The scanner leaves the account and the transfers as they are, and a pending update for the account.
scheduled :
    (config : Config) (now : Timestamp) (d : AccountData) (db : Db)
    → needs_repair (now - config.max_transfer_delay) d ≡ true
    → is_valid_creditor_id config d.creditor_id false ≡ true
    → get_account_data d.creditor_id d.debtor_id db ≡ some d
    → (schedule_ledger_repairs_if_necessary config (d ∷ []) now db
        ≡ ok (tt, ensure_pending_ledger_update d.creditor_id d.debtor_id db))
unfolding schedule_ledger_repairs_if_necessary get_account_data
scheduled config now d db needs valid found =
    rw
      (
        needs,
        valid,
        any_row-find_row (data_key d.creditor_id d.debtor_id) db.account_data d found,
        ensure_each,
      )
      refl

module _ (c : CreditorId) (di : DebtorId) (db : Db) where
  ensured :
      any_row (pending_key c di) (ensure_pending_ledger_update c di db).pending_ledger_updates
      ≡ true
  unfolding ensure_pending_ledger_update
  ensured = elim (Bool-cases (any_row (pending_key c di) db.pending_ledger_updates)) [
    | inl before ↦ rw before before
    | inr none_before ↦
        rw none_before
          (any_row-append (pending_key c di) db.pending_ledger_updates _ (ground arith))
  ]

  ensured-account :
      get_account_data c di (ensure_pending_ledger_update c di db) ≡ get_account_data c di db
  unfolding ensure_pending_ledger_update get_account_data
  ensured-account = elim (Bool-cases (any_row (pending_key c di) db.pending_ledger_updates)) [
    | inl before ↦ rw before refl
    | inr none_before ↦ rw none_before refl
  ]

  ensured-transfers :
      (ensure_pending_ledger_update c di db).committed_transfers ≡ db.committed_transfers
  unfolding ensure_pending_ledger_update
  ensured-transfers = elim (Bool-cases (any_row (pending_key c di) db.pending_ledger_updates)) [
    | inl before ↦ rw before refl
    | inr none_before ↦ rw none_before refl
  ]

-- The two transactions, one after the other: the accounts that they leave.
pub record CaughtUp (host : Host) (config : Config) (now : Timestamp) (burst_count : ℕ)
    (d : AccountData) (db : Db) : Type 0 where
  pub db1 : Db
  pub db2 : Db
  pub update : LedgerUpdate
  pub schedules : schedule_ledger_repairs_if_necessary config (d ∷ []) now db ≡ ok (tt, db1)
  pub processes :
      process_pending_ledger_update host now d.creditor_id d.debtor_id burst_count
        config.max_transfer_delay db1
      ≡ ok (true, db2)
  pub stored : get_account_data d.creditor_id d.debtor_id db2 ≡ some update.account
  pub progress : Progress d update
  pub reached : d.last_transfer_number ≤ update.account.ledger_last_transfer_number

-- Where an account needs a repair, its last transfer and all the transfers that its ledger does not
-- have yet are older than the longest delay and are fewer than a burst, the amounts fit 64 bits, and
-- the creditor's ID is valid: the scanner, given the account's row, and the next processing of
-- its pending update both succeed; the ledger then has at least the account's last transfer number,
-- its new entries leave no gap, and nothing else of the account changes.
pub schedule_ledger_repairs_if_necessary-CaughtUp :
    (host : Host) (config : Config) (now : Timestamp) (burst_count : ℕ) (d : AccountData) (db : Db)
    → needs_repair (now - config.max_transfer_delay) d ≡ true
    → is_valid_creditor_id config d.creditor_id false ≡ true
    → get_account_data d.creditor_id d.debtor_id db ≡ some d
    → config.max_transfer_delay ≤ now
    → All IsSound db.committed_transfers
    → IsInt64 d.ledger_principal
    → IsInt64 d.principal
    → AreOld (now - config.max_transfer_delay) (get_sorted_pending_transfers d burst_count db)
    → d.last_transfer_committed_at < now - config.max_transfer_delay
    → length (get_sorted_pending_transfers d burst_count db) < burst_count
    → CaughtUp host config now burst_count d db
unfolding get_account_data get_sorted_pending_transfers
schedule_ledger_repairs_if_necessary-CaughtUp host config now burst_count d db needs valid found le
      sound hl hp old stale few =
    let c = d.creditor_id in
    let di = d.debtor_id in
    let db1 = ensure_pending_ledger_update c di db in
    let (u, e, p, reached) =
      caught_up (get_sorted_pending_transfers d burst_count db) burst_count
        config.max_transfer_delay now d (pending-IsSound d burst_count db sound) hl hp old stale
        few in
    let db' = delete_pending_ledger_update true c di db1 in
    record {
      db1 = db1;
      db2 = flush_ledger host now u db';
      update = u;
      schedules = scheduled config now d db needs valid found;
      processes =
          runs host now c di burst_count config.max_transfer_delay db1 d true u (ensured c di db)
            (ensured-account c di db ∙ found) le
            (ap
                (λ ts.
                  bring_up_to_date
                    (take burst_count
                      (sort_by (λ t. t.transfer_number) (rows_where (is_pending_transfer d) ts)))
                    burst_count config.max_transfer_delay now d)
                (ensured-transfers c di db)
              ∙ e);
      stored =
          rw (flush_ledger-data host now u db', (delete_pending-same true c di db1).1)
            (flushed-account c di db1.account_data d u.account (ensured-account c di db ∙ found)
              (ap {A = AccountData} (λ a. a.creditor_id) p.untouched)
              (ap {A = AccountData} (λ a. a.debtor_id) p.untouched));
      progress = p;
      reached = reached;
    }
