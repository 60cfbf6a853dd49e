-- ===== src/StoredProcedures/LedgerRun/Whole.antt =====
-- The stored procedure `process_pending_ledger_update` on the database, and the function of
-- procedures/account_updates.py that it stands for.
use swpt_creditors.Base.{
  ℕ, ◌-◌, ◌<◌, ◌≡◌, ap, sym, ◌∙◌, refl, inl, inr, Bool, true, ◌&&◌, Option, none, some, List, [],
  arith,
}
use mathlib.Core.List.{append-nil}
use swpt_creditors.Base.Int.{ℤ, pos}
use swpt_creditors.Base.Lists.{All, length}
use swpt_creditors.Base.Tests.{Bool-cases, is_none, ltb}
use swpt_creditors.Models.Common.{Timestamp}
use swpt_creditors.Models.Account.{AccountData}
use swpt_creditors.Models.Transfer.{CommittedTransfer}
use swpt_creditors.Models.Db.{ok}
use swpt_creditors.Procedures.Ledger.{
  LedgerUpdate, no_update, fix_missing_last_transfer_if_necessary,
}
use swpt_creditors.Procedures.Ledger.Chain.{IsInt64}
use swpt_creditors.Procedures.Ledger.Update.{sub_zero}
use swpt_creditors.Procedures.LedgerUpdates.{then_update, repair_if_done, bring_up_to_date}
use swpt_creditors.Procedures.LedgerUpdates.Progress.{
  bring_runs, done, IsSound, Progress, no_repair-Progress, same_principal, no_update-Progress,
}
use swpt_creditors.StoredProcedures.Ledger.{
  AccountLedgerData, UpdateLedgerResult, select_ledger_data, update_ledger_sp,
}
use swpt_creditors.StoredProcedures.Ledger.Agrees.{sp_row, py_row}
use swpt_creditors.StoredProcedures.LedgerRun.{is_behind_sp, then_update_sp, fix_missing_sp, run_sp}
use swpt_creditors.StoredProcedures.LedgerRun.Agrees.{
  marked_data, Ends, update-Agrees, add_transfers-Agrees,
}

-- The condition of `_fix_missing_last_transfer_if_necessary`.
abbrev is_behind : Timestamp → AccountData → Bool
is_behind cutoff d =
    is_none d.ledger_pending_transfer_ts
    && ltb d.ledger_last_transfer_number d.last_transfer_number
    && ltb d.last_transfer_committed_at cutoff

is_behind_agrees :
    (cutoff : Timestamp) (d : AccountData) (data' : AccountLedgerData)
    → data' ≡ marked_data d
    → is_behind_sp cutoff data' ≡ is_behind cutoff d
unfolding is_behind_sp marked_data select_ledger_data
is_behind_agrees cutoff d data' e = rw e refl

none_of {ℓ} : {A : Type ℓ} (o : Option A) → is_none o ≡ true → o ≡ none
none_of none h = refl
none_of (some a) h = cc h

-- Without a waiting transfer, the mark is the one that was selected.
unmarked :
    (d : AccountData) → d.ledger_pending_transfer_ts ≡ none → marked_data d ≡ select_ledger_data d
unfolding marked_data select_ledger_data
unmarked d h = rw h refl

behind_facts :
    (cutoff : Timestamp) (d : AccountData)
    → is_behind cutoff d ≡ true
    → d.ledger_pending_transfer_ts ≡ none
behind_facts cutoff d h = none_of d.ledger_pending_transfer_ts (ground arith)

fix_missing_runs :
    (cutoff now : Timestamp) (r s : UpdateLedgerResult) (number : ℕ) (principal : ℤ)
    → is_behind_sp cutoff r.data' ≡ true
    → r.data'.last_transfer_number ≡ number
    → r.data'.principal ≡ principal
    → update_ledger_sp r.data' number (pos 0) principal now ≡ ok s
    → fix_missing_sp cutoff now r ≡ ok (then_update_sp r s)
unfolding fix_missing_sp
fix_missing_runs cutoff now r s number principal behind en ep e =
    let e' =
      ap (λ n. update_ledger_sp r.data' n (pos 0) r.data'.principal now) en
      ∙ ap (λ p. update_ledger_sp r.data' number (pos 0) p now) ep
      ∙ e in
    rw (behind, e', fix_missing_sp) refl

-- The repair of a ledger that has lost its last transfers, on both sides.
repair_agrees :
    (max_delay now : Timestamp) (d : AccountData) (u : LedgerUpdate) (r : UpdateLedgerResult)
    → IsInt64 d.principal
    → Progress d u
    → Ends u r
    → (v : LedgerUpdate) × (s : UpdateLedgerResult) × (repair_if_done true max_delay now u ≡ ok v)
      × (fix_missing_sp (now - max_delay) now r ≡ ok s)
      × Ends v s
      × Progress d v
unfolding repair_if_done fix_missing_sp fix_missing_last_transfer_if_necessary marked_data
    select_ledger_data then_update
repair_agrees max_delay now d u r hp p h =
    let same = is_behind_agrees (now - max_delay) u.account r.data' h.same_data in
    elim (Bool-cases (is_behind (now - max_delay) u.account)) [
      | inl repair ↦
          let unwaiting = behind_facts (now - max_delay) u.account repair in
          let selected = h.same_data ∙ unmarked u.account unwaiting in
          let hp' : IsInt64 u.account.principal = rw (same_principal d u.account p.untouched) hp in
          let (v, s, e, e', only, h', p') =
            update-Agrees d u r u.account.last_transfer_number (pos 0) u.account.principal now p
              (record {
                same_data = selected;
                same_entries = h.same_entries;
                same_row = h.same_row;
              })
              (omega arith, omega arith) hp' (rw sub_zero hp') in
          (
            _,
            _,
            rw (repair, repair_if_done, fix_missing_last_transfer_if_necessary, e) refl,
            fix_missing_runs (now - max_delay) now r s _ _ (same ∙ repair)
                (ap {A = AccountLedgerData} (λ a. a.last_transfer_number) selected)
                (ap {A = AccountLedgerData} (λ a. a.principal) selected) e',
            record {
              same_data =
                  h'.same_data
                  ∙ sym (
                      unmarked v.account (
                        ap {A = AccountData} (λ a. a.ledger_pending_transfer_ts) only ∙ unwaiting));
              same_entries = h'.same_entries;
              same_row = h'.same_row;
            },
            p',
          )
      | inr keep ↦ (
        _,
        _,
        rw (keep, repair_if_done, fix_missing_last_transfer_if_necessary) refl,
        rw (same ∙ keep, fix_missing_sp) refl,
        record {
          same_data = h.same_data;
          same_entries = h.same_entries ∙ sym (append-nil u.entries);
          same_row = h.same_row;
        },
        no_repair-Progress d u p,
      )
    ]

-- All that is done to the account, with a burst that is not reached.
pub run_agrees :
    (ts : List CommittedTransfer) (burst_count : ℕ) (max_delay now : Timestamp) (d : AccountData)
    → All IsSound ts
    → IsInt64 d.ledger_principal
    → IsInt64 d.principal
    → length ts < burst_count
    → (u : LedgerUpdate) × (r : UpdateLedgerResult) × (bring_up_to_date ts burst_count max_delay now
          d
        ≡ ok (true, u))
      × (run_sp now max_delay ts (select_ledger_data d) ≡ ok r)
      × Ends u r
      × Progress d u
unfolding run_sp sp_row py_row
run_agrees ts burst_count max_delay now d sound hl hp few =
    let (broke, u, r, e, e', h, p) =
      add_transfers-Agrees (now - max_delay) now d ts (no_update d) start sound
        (no_update-Progress d hl)
        (record { same_data = refl; same_entries = refl; same_row = refl }) in
    let (v, s, f, f', h', p') = repair_agrees max_delay now d u r hp p h in
    (
      v,
      s,
      bring_runs ts burst_count max_delay now d broke u v e (done broke (length ts) burst_count few)
          f,
      rw (e', run_sp) f',
      h',
      p',
    )
  where
    start : UpdateLedgerResult
    start = record { data' = select_ledger_data d; log_entry = none; entries = [] }
