-- ===== src/Scanners/Accounts/Ledger.antt =====
-- `_update_ledger` of `AccountScanner` (table_scanners.py): the ledger that it leaves.
use swpt_creditors.Base.{
  ℕ, zero, suc, ◌≡◌, ◌≢◌, ap, sym, ◌∙◌, refl, inl, inr, Bool, true, false, arith,
}
use mathlib.Core.Path.{subst}
use swpt_creditors.Base.Int.{ℤ, pos, ◌+ℤ◌, ◌-ℤ◌, eq_ℤ, eq_ℤ_iff, nat_abs}
use swpt_creditors.Base.Lists.{not_empty}
use swpt_creditors.Base.Tests.{Bool-cases}
use swpt_creditors.Models.Common.{Timestamp}
use swpt_creditors.Models.Account.{AccountData}
use swpt_creditors.Models.Db.{ok}
use swpt_creditors.Procedures.Ledger.{
  Correction, correct_once, correct_all, start_correction, LedgerUpdate,
}
use swpt_creditors.Procedures.Ledger.Chain.{IsInt64}
use swpt_creditors.Procedures.Ledger.Correct.{
  correct_all-Corrects, correct_all_ends, correct_all-length,
}
use swpt_creditors.Procedures.Ledger.Update.{
  Corrected, Corrects-Corrected, start-Corrects, three_rounds, Chain-empty, Updates, sub_add,
  add_zero,
}
use swpt_creditors.Scanners.Accounts.{
  LedgerLoop, correct_step, correct_steps, start_loop, finish_scan, scan_update_ledger,
}

-- The variables of the loop, as those of the loop of `_make_correcting_ledger_entry_if_necessary`.
unfoldable in_correction : AccountData → Bool → LedgerLoop → Correction
in_correction d made s = record {
  account = record d { ledger_last_entry_id = s.ledger_last_entry_id };
  ledger_principal = s.ledger_principal;
  correction_amount = s.correction_amount;
  entries = s.entries;
  made_correcting_ledger_entry = made;
}

-- The two loops make the same entries.
same_loop :
    (d : AccountData) (ts : Timestamp) (fuel : ℕ) (made : Bool) (s : LedgerLoop)
    → (made' : Bool) × (correct_all fuel ts (in_correction d made s)
        ≡ in_correction d made' (correct_steps d ts fuel s))
unfolding in_correction correct_all correct_steps correct_once correct_step
same_loop d ts zero made s = (made, refl)
same_loop d ts (suc fuel) made s = elim (Bool-cases (eq_ℤ s.correction_amount (pos 0))) [
  | inl done ↦ (made, rw (done, correct_all, correct_steps) refl)
  | inr more ↦
      let (made', e) = same_loop d ts fuel true (correct_step d ts s) in
      (made', rw (more, correct_all, correct_steps) e)
]

zero_difference : (a b : ℤ) → b -ℤ a ≡ pos 0 → a ≡ b
zero_difference a b h = sym (add_zero a) ∙ ap (λ x. a +ℤ x) (sym h) ∙ sub_add b a

module _ (d : AccountData) (ts : Timestamp) (hl : IsInt64 d.ledger_principal)
    (hp : IsInt64 d.principal) where
  -- The loop leads to the account's principal.
  scan_loop-Corrected :
      (made : Bool) × Corrected d d.principal 3 (
        in_correction d made
          (correct_steps d ts (nat_abs (start_loop d).correction_amount) (start_loop d)))
  unfolding in_correction start_loop start_correction
  scan_loop-Corrected =
      let s = start_correction d d.principal in
      let fuel = nat_abs s.correction_amount in
      let (made, e) = same_loop d ts fuel false (start_loop d) in
      (
        made,
        subst (Corrected d d.principal 3) e (
            Corrects-Corrected d _ 3 (correct_all fuel ts s)
              (correct_all-Corrects d _ ts fuel s hp (start-Corrects d _ hl))
              (correct_all_ends ts fuel s (omega arith))
              (correct_all-length ts fuel 3 s (three_rounds d.principal d.ledger_principal hp hl))),
      )

  some_entries :
      (made : Bool) (s : LedgerLoop)
      → d.ledger_principal ≢ d.principal
      → Corrected d d.principal 3 (in_correction d made s)
      → not_empty s.entries ≡ true
  unfolding in_correction
  some_entries made s differs h = elim (Bool-cases (not_empty s.entries)) [
    | inl filled ↦ filled
    | inr empty ↦ absurd (differs (Chain-empty _ _ _ _ s.entries h.chain empty))
  ]

  finish_scan-Updates :
      (made : Bool) (s : LedgerLoop)
      → not_empty s.entries ≡ true
      → Corrected d d.principal 3 (in_correction d made s)
      → Updates d d.ledger_last_transfer_number d.principal false (finish_scan d ts s)
  unfolding finish_scan in_correction
  finish_scan-Updates made s filled h = record {
    chain = h.chain;
    at_principal = refl;
    at_number = refl;
    fits = h.fits;
    few = omega (arith, h.few);
    untouched = refl;
    logged = rw filled refl;
    counted = rw filled refl;
  }

  not_done :
      d.ledger_principal ≢ d.principal → eq_ℤ (d.principal -ℤ d.ledger_principal) (pos 0) ≡ false
  not_done differs = elim (Bool-cases (eq_ℤ (d.principal -ℤ d.ledger_principal) (pos 0))) [
    | inr more ↦ more
    | inl done ↦
        absurd
          (differs (zero_difference d.ledger_principal d.principal ((eq_ℤ_iff _ (pos 0)).0 done)))
  ]

  -- Where the ledger's principal differs from the account's, and both fit 64 bits, the scanner's
  -- update of the ledger ends with no failed assertion: its entries follow one another from the
  -- ledger's principal and entry ID to the account's principal, with no gap, there are at most four,
  -- all fit 64 bits; nothing but the ledger's fields changes, and the update is logged.
  pub scan_update_ledger-Updates :
      d.ledger_principal ≢ d.principal
      → (u : LedgerUpdate) × (scan_update_ledger d ts ≡ ok u)
        × Updates d d.ledger_last_transfer_number d.principal false u
  unfolding scan_update_ledger start_loop
  scan_update_ledger-Updates differs =
      let (made, h) = scan_loop-Corrected in
      (_, rw (not_done differs) refl, finish_scan-Updates made _ (some_entries made _ differs h) h)
