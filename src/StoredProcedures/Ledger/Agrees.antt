-- ===== src/StoredProcedures/Ledger/Agrees.antt =====
-- About the stored procedures that change a ledger, and the functions of
-- procedures/account_updates.py that they stand for.
use swpt_creditors.Base.{
  ℕ, zero, suc, ◌≡◌, ap, refl, inl, inr, Bool, true, false, ◌||◌, Option, none, some, arith,
}
use swpt_creditors.Base.Int.{ℤ, pos, ◌+ℤ◌, ◌-ℤ◌, eq_ℤ}
use swpt_creditors.Base.Tests.{Bool-cases, if◌then◌else◌}
use swpt_creditors.Models.Common.{CreditorId, Timestamp, is_int64, assertion_error}
use swpt_creditors.Models.Log.{BaseLogEntry}
use swpt_creditors.Models.Account.{AccountData}
use swpt_creditors.Models.Db.{ok, err}
use swpt_creditors.Procedures.Common.{contain_principal_overflow}
use swpt_creditors.Procedures.Ledger.{
  Correction, correct_once, correct_all, start_correction,
  make_correcting_ledger_entry_if_necessary, transfer_entry, add_transfer_entry, finish_update,
  LedgerUpdate, update_ledger,
}
use swpt_creditors.Procedures.Ledger.Chain.{IsInt64}
use swpt_creditors.Procedures.Ledger.Correct.{step_in_range, regroup}
use swpt_creditors.Procedures.Ledger.Update.{sub_add, is_int64_of}
use swpt_creditors.StoredProcedures.Ledger.{
  PendingLogEntryResult, select_ledger_data, log_row, contain_principal_overflow_sp, CorrectionSp,
  correct_once_sp, correct_all_sp, start_correction_sp,
  make_correcting_ledger_entry_if_necessary_sp, UpdateLedgerResult, add_transfer_entry_sp,
  finish_update_sp, update_ledger_sp,
}

-- The two ways to write the bounds are the same.
contain_agrees : (c : ℤ) → contain_principal_overflow_sp c ≡ contain_principal_overflow c
unfolding contain_principal_overflow_sp contain_principal_overflow
contain_agrees c = ground arith

-- The variables of the one loop, from those of the other.
unfoldable in_sp : Correction → CorrectionSp
unfolding select_ledger_data
in_sp s = record {
  data' = select_ledger_data s.account;
  ledger_principal = s.ledger_principal;
  correction_amount = s.correction_amount;
  entries = s.entries;
  made_correcting_ledger_entry = s.made_correcting_ledger_entry;
}

-- A round that stays in the 64-bit range.
correct_once_agrees :
    (ts : Timestamp) (s : Correction)
    → IsInt64 (s.ledger_principal +ℤ contain_principal_overflow s.correction_amount)
    → correct_once_sp ts (in_sp s) ≡ ok (in_sp (correct_once ts s))
unfolding correct_once_sp correct_once select_ledger_data in_sp
correct_once_agrees ts s h = rw (contain_agrees s.correction_amount, is_int64_of _ h) refl

module _ (ts : Timestamp) where
  -- The loop, from a principal in the range to another one.
  correct_all_agrees :
      (fuel : ℕ) (s : Correction)
      → IsInt64 s.ledger_principal
      → IsInt64 (s.ledger_principal +ℤ s.correction_amount)
      → correct_all_sp fuel ts (in_sp s) ≡ ok (in_sp (correct_all fuel ts s))
  unfolding correct_all_sp correct_all correct_once in_sp
  correct_all_agrees zero s hl ht = refl
  correct_all_agrees (suc fuel) s hl ht = elim (Bool-cases (eq_ℤ s.correction_amount (pos 0))) [
    | inl done ↦ rw (done, correct_all_sp, correct_all) refl
    | inr more ↦
        let step = step_in_range s.ledger_principal s.correction_amount hl ht in
        rw (more, correct_all_sp, correct_all, correct_once_agrees ts s step)
          (correct_all_agrees fuel (correct_once ts s) step
            (rw (regroup s.ledger_principal s.correction_amount _) ht))
  ]

  in_range_of : (x : ℤ) → is_int64 x ≡ true → IsInt64 x
  in_range_of x h = ground arith

  make_correcting_agrees :
      (d : AccountData) (acquired_amount principal : ℤ)
      → IsInt64 d.ledger_principal
      → make_correcting_ledger_entry_if_necessary_sp
          (select_ledger_data d)
          acquired_amount
          principal
          ts
        ≡ ok (in_sp (make_correcting_ledger_entry_if_necessary d acquired_amount principal ts))
  unfolding make_correcting_ledger_entry_if_necessary_sp make_correcting_ledger_entry_if_necessary
      start_correction start_correction_sp select_ledger_data in_sp
  make_correcting_agrees d acquired_amount principal hl =
      elim (Bool-cases (is_int64 (principal -ℤ acquired_amount))) [
        | inl fits ↦ rw fits (
            correct_all_agrees _ (start_correction d (principal -ℤ acquired_amount)) hl
              (rw (sub_add (principal -ℤ acquired_amount) d.ledger_principal) (in_range_of _ fits)))
        | inr beyond ↦ rw beyond refl
      ]

  add_transfer_agrees :
      (s : Correction) (number : ℕ) (acquired_amount principal : ℤ)
      → add_transfer_entry_sp (in_sp s) number acquired_amount principal ts
        ≡ in_sp (add_transfer_entry s number acquired_amount principal ts)
  unfolding add_transfer_entry_sp add_transfer_entry select_ledger_data transfer_entry in_sp
  add_transfer_agrees s number acquired_amount principal =
      elim (Bool-cases (eq_ℤ acquired_amount (pos 0))) [
        | inl nothing ↦ rw nothing refl
        | inr something ↦ rw something refl
      ]

-- What is inserted in the table of pending log entries, if anything: the creditor and the row.
unfoldable pub sp_row : Option PendingLogEntryResult → Option (CreditorId × BaseLogEntry)
unfolding log_row
sp_row none = none
sp_row (some e) = some (e.creditor_id, log_row e)

unfoldable pub py_row : CreditorId → Option BaseLogEntry → Option (CreditorId × BaseLogEntry)
py_row c none = none
py_row c (some e) = some (c, e)

-- The two sides of an update: the same values of the account, the same new ledger entries, and the
-- same new row in the table of pending log entries.
pub record Agrees (u : LedgerUpdate) (r : UpdateLedgerResult) : Type 0 where
  pub same_data : r.data' ≡ select_ledger_data u.account
  pub same_entries : r.entries ≡ u.entries
  pub same_row : sp_row r.log_entry ≡ py_row u.account.creditor_id u.log_entry

finish-Agrees :
    (s : Correction) (number : ℕ) (principal : ℤ) (ts : Timestamp)
    → Agrees
        (finish_update s number principal ts false)
        (finish_update_sp (in_sp s) number principal ts)
unfolding finish_update_sp finish_update select_ledger_data log_row in_sp sp_row py_row
finish-Agrees s number principal ts = elim (Bool-cases s.made_correcting_ledger_entry) [
  | inl made ↦ rw made (record { same_data = refl; same_entries = refl; same_row = refl })
  | inr unmade ↦ rw unmade (record { same_data = refl; same_entries = refl; same_row = refl })
]

-- What a test that raises lets through.
result_of :
    {u v : LedgerUpdate} (holds : Bool)
    → (if holds then ok u else err assertion_error) ≡ ok v
    → u ≡ v
result_of true e = ground arith
result_of false e = cc e

-- Where the ledger's principal fits 64 bits and `_update_ledger` ends normally, the stored procedure
-- ends normally too, with the same result.
pub update_ledger-Agrees :
    (d : AccountData) (number : ℕ) (acquired_amount principal : ℤ) (ts : Timestamp)
    (v : LedgerUpdate)
    → IsInt64 d.ledger_principal
    → update_ledger d number acquired_amount principal ts false ≡ ok v
    → (r : UpdateLedgerResult) × (update_ledger_sp
          (select_ledger_data d)
          number
          acquired_amount
          principal
          ts
        ≡ ok r)
      × Agrees v r
unfolding update_ledger_sp update_ledger
update_ledger-Agrees d number acquired_amount principal ts v hl e = (
  finish_update_sp (in_sp s) number principal ts,
  rw (make_correcting_agrees ts d acquired_amount principal hl, update_ledger_sp)
      (ap (λ x. ok (finish_update_sp x number principal ts))
        (add_transfer_agrees ts _ number acquired_amount principal)),
  rw (← result_of (s.made_correcting_ledger_entry || eq_ℤ s.account.ledger_principal principal) e)
      (finish-Agrees s number principal ts),
)
  where
    s : Correction
    s =
        add_transfer_entry
          (make_correcting_ledger_entry_if_necessary d acquired_amount principal ts) number
          acquired_amount principal ts
