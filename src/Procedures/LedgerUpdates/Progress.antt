-- ===== src/Procedures/LedgerUpdates/Progress.antt =====
-- About the loop of `process_pending_ledger_update` and the ledger entries that it makes
-- (procedures/account_updates.py).
use swpt_creditors.Base.{
  ℕ, ◌-◌, ◌≤◌, ◌<◌, ◌≡◌, ap, refl, inl, inr, Bool, true, false, ◌||◌, ◌&&◌, List, [], ◌∷◌, ◌++◌,
  Option, none, some, arith,
}
use swpt_creditors.Base.Int.{ℤ, pos, ◌-ℤ◌}
use swpt_creditors.Base.Lists.{length, not_empty, All}
use swpt_creditors.Base.Rows.{All-append}
use swpt_creditors.Base.Tests.{Bool-cases, is_some, is_none, ltb}
use swpt_creditors.Models.Common.{Timestamp}
use swpt_creditors.Models.Log.{BaseLogEntry}
use swpt_creditors.Models.Account.{AccountData, LedgerEntry}
use swpt_creditors.Models.Transfer.{CommittedTransfer}
use swpt_creditors.Models.Db.{ok}
use swpt_creditors.Procedures.Ledger.{
  LedgerUpdate, no_update, fix_missing_last_transfer_if_necessary,
}
use swpt_creditors.Procedures.Ledger.Chain.{Chain, IsInt64, Fits, Chain-append}
use swpt_creditors.Procedures.Ledger.Update.{sub_zero, OnlyLedger, Updates, update_ledger-Updates}
use swpt_creditors.Procedures.LedgerUpdates.{
  add_transfers, must_wait, then_update, or_entry, repair_if_done, conclude, bring_up_to_date,
}

-- A transfer whose amount, principal and previous principal fit 64 bits.
abbrev pub IsSound : CommittedTransfer → Type 0
IsSound t =
    IsInt64 t.acquired_amount × IsInt64 t.principal × IsInt64 (t.principal -ℤ t.acquired_amount)

-- Nothing but the ledger's fields and the mark of a waiting transfer differs.
abbrev pub OnlyLedgerOrWaiting : AccountData → AccountData → Type 0
OnlyLedgerOrWaiting a b = b ≡ record a {
  ledger_principal = b.ledger_principal;
  ledger_last_entry_id = b.ledger_last_entry_id;
  ledger_last_transfer_number = b.ledger_last_transfer_number;
  ledger_pending_transfer_ts = b.ledger_pending_transfer_ts;
  ledger_latest_update_id = b.ledger_latest_update_id;
  ledger_latest_update_ts = b.ledger_latest_update_ts;
}

-- What has been done to the account d so far.
pub record Progress (d : AccountData) (u : LedgerUpdate) : Type 0 where
  pub chain :
      Chain d.ledger_principal d.ledger_last_entry_id u.entries u.account.ledger_principal
        u.account.ledger_last_entry_id
  pub fits : All Fits u.entries
  pub in_range : IsInt64 u.account.ledger_principal
  pub logged : is_some u.log_entry ≡ not_empty u.entries
  pub untouched : OnlyLedgerOrWaiting d u.account
  pub counted : d.ledger_latest_update_id ≤ u.account.ledger_latest_update_id

pub no_update-Progress : (d : AccountData) → IsInt64 d.ledger_principal → Progress d (no_update d)
no_update-Progress d h = record {
  chain = (refl, refl);
  fits = tt;
  in_range = h;
  logged = refl;
  untouched = refl;
  counted = omega arith;
}

-- A log entry goes with new ledger entries.
then-logged :
    (xs ys : List LedgerEntry) (a b : Option BaseLogEntry)
    → is_some a ≡ not_empty xs
    → is_some b ≡ not_empty ys || false
    → is_some (or_entry b a) ≡ not_empty (xs ++ ys)
then-logged [] ys a b h k = ground arith
then-logged (x ∷ xs) ys a b h k = ground arith

OnlyLedgerOrWaiting-trans :
    (a b c : AccountData) → OnlyLedgerOrWaiting a b → OnlyLedger b c → OnlyLedgerOrWaiting a c
OnlyLedgerOrWaiting-trans a b c h k = ground arith

-- One more update.
pub then_update-Progress :
    (d : AccountData) (u v : LedgerUpdate) (number : ℕ) (principal : ℤ)
    → IsInt64 principal
    → Progress d u
    → Updates u.account number principal false v
    → Progress d (then_update u v)
unfolding then_update
then_update-Progress d u v number principal hp h k = record {
  chain = Chain-append _ _ _ _ _ _ u.entries v.entries h.chain k.chain;
  fits = All-append Fits u.entries v.entries h.fits k.fits;
  in_range = rw k.at_principal hp;
  logged = then-logged u.entries v.entries u.log_entry v.log_entry h.logged k.logged;
  untouched = OnlyLedgerOrWaiting-trans d u.account v.account h.untouched k.untouched;
  counted = omega (arith, h.counted, k.counted);
}

-- The mark of a waiting transfer is set or cleared.
pub mark-Progress :
    (d : AccountData) (u : LedgerUpdate) (ts : Option Timestamp)
    → Progress d u
    → Progress d (record u { account = record (u.account) { ledger_pending_transfer_ts = ts } })
mark-Progress d u ts h = record {
  chain = h.chain;
  fits = h.fits;
  in_range = h.in_range;
  logged = h.logged;
  untouched =
      ap {A = AccountData} {B = AccountData} (λ a. record a { ledger_pending_transfer_ts = ts })
        h.untouched;
  counted = h.counted;
}

-- The loop, over sound transfers, ends normally and makes progress.
pub add_transfers-Progress :
    (cutoff now : Timestamp) (d : AccountData) (ts : List CommittedTransfer) (u : LedgerUpdate)
    → All IsSound ts
    → Progress d u
    → (broke : Bool) × (v : LedgerUpdate) × (add_transfers cutoff now ts u ≡ ok (broke, v))
      × Progress d v
unfolding add_transfers
add_transfers-Progress cutoff now d [] u sound h = (false, _, refl, mark-Progress d u none h)
add_transfers-Progress cutoff now d (t ∷ ts) u sound h =
    elim (Bool-cases (must_wait cutoff u.account t)) [
      | inl wait ↦ (true, _, rw (wait, add_transfers), mark-Progress d u (some t.committed_at) h)
      | inr go ↦
          let (v, e, k) =
            update_ledger-Updates u.account t.transfer_number t.acquired_amount t.principal now
              false h.in_range sound.0.0 sound.0.1 sound.0.2 in
          let (broke, w, e', k') =
            add_transfers-Progress cutoff now d ts (then_update u v) sound.1
              (then_update-Progress d u v t.transfer_number t.principal sound.0.1 h k) in
          (broke, w, rw (go, e, add_transfers) e', k')
    ]

pub no_repair-Progress :
    (d : AccountData) (u : LedgerUpdate)
    → Progress d u
    → Progress d (then_update u (no_update u.account))
unfolding then_update
no_repair-Progress d u h = record {
  chain = Chain-append _ _ _ _ _ _ u.entries [] h.chain (refl, refl);
  fits = All-append Fits u.entries [] h.fits tt;
  in_range = h.in_range;
  logged = then-logged u.entries [] u.log_entry none h.logged refl;
  untouched = h.untouched;
  counted = h.counted;
}

pub same_principal : (d e : AccountData) → OnlyLedgerOrWaiting d e → e.principal ≡ d.principal
same_principal d e h = ap (λ a. a.principal) h

-- The repair skips lost transfers, and keeps the ledger a chain.
pub repair-Progress :
    (is_done : Bool) (max_delay now : Timestamp) (d : AccountData) (u : LedgerUpdate)
    → IsInt64 d.principal
    → Progress d u
    → (v : LedgerUpdate) × (repair_if_done is_done max_delay now u ≡ ok v) × Progress d v
unfolding repair_if_done fix_missing_last_transfer_if_necessary
repair-Progress false max_delay now d u hp h = (u, refl, h)
repair-Progress true max_delay now d u hp h = elim (Bool-cases must_repair) [
  | inl repair ↦
      let (v, e, k) =
        update_ledger-Updates u.account u.account.last_transfer_number (pos 0) u.account.principal
          now false h.in_range (omega arith) hp' (rw sub_zero hp') in
      (
        _,
        rw (repair, repair_if_done, fix_missing_last_transfer_if_necessary, e),
        then_update-Progress d u v _ u.account.principal hp' h k,
      )
  | inr keep ↦ (
    _,
    rw (keep, repair_if_done, fix_missing_last_transfer_if_necessary),
    no_repair-Progress d u h,
  )
]
  where
    hp' : IsInt64 u.account.principal
    hp' = rw (same_principal d u.account h.untouched) hp

    must_repair : Bool
    must_repair =
        is_none u.account.ledger_pending_transfer_ts
        && ltb u.account.ledger_last_transfer_number u.account.last_transfer_number
        && ltb u.account.last_transfer_committed_at (now - max_delay)

pub done : (broke : Bool) (n k : ℕ) → n < k → (broke || ltb n k) ≡ true
done broke n k h = ground arith

-- With a burst that is not reached, the repair follows.
pub bring_runs :
    (ts : List CommittedTransfer) (burst_count : ℕ) (max_delay now : Timestamp) (d : AccountData)
    (broke : Bool) (u v : LedgerUpdate)
    → add_transfers (now - max_delay) now ts (no_update d) ≡ ok (broke, u)
    → (broke || ltb (length ts) burst_count) ≡ true
    → repair_if_done true max_delay now u ≡ ok v
    → bring_up_to_date ts burst_count max_delay now d ≡ ok (true, v)
unfolding bring_up_to_date
bring_runs ts burst_count max_delay now d broke u v e h f =
    rw (e, h, f, conclude, bring_up_to_date) (ap (λ b. ok (b, v)) h)

-- Over sound transfers, and an account whose principals fit 64 bits, the work on a pending ledger
-- update ends without a failed assertion: the new entries lead from the old ledger principal and
-- entry ID to the new ones with no gap, their amounts fit 64 bits, only the ledger's fields change,
-- and there is a log entry exactly when there are new ledger entries.
pub bring_up_to_date-Progress :
    (ts : List CommittedTransfer) (burst_count : ℕ) (max_delay now : Timestamp) (d : AccountData)
    → All IsSound ts
    → IsInt64 d.ledger_principal
    → IsInt64 d.principal
    → (is_done : Bool) × (u : LedgerUpdate) × (bring_up_to_date ts burst_count max_delay now d
        ≡ ok (is_done, u))
      × Progress d u
unfolding bring_up_to_date
bring_up_to_date-Progress ts burst_count max_delay now d sound hl hp =
    let (broke, u, e, h) =
      add_transfers-Progress (now - max_delay) now d ts (no_update d) sound
        (no_update-Progress d hl) in
    let (v, e', k) =
      repair-Progress (broke || ltb (length ts) burst_count) max_delay now d u hp h in
    (broke || ltb (length ts) burst_count, v, rw (e, e', conclude, bring_up_to_date), k)
