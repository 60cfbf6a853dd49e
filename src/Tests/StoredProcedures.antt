-- ===== src/Tests/StoredProcedures.antt =====
-- The stored procedures at concrete inputs.
use swpt_creditors.Base.{◌≡◌, refl, true, false, some, [], ◌∷◌, arith}
use swpt_creditors.Base.Int.{int_laws}
use swpt_creditors.Base.Sort.{sort_by}
use swpt_creditors.Models.Log.{blank_entry, oth_transfer}
use swpt_creditors.Models.Account.{AccountData}
use swpt_creditors.Models.Creditor.{Creditor}
use swpt_creditors.Models.Db.{Db}
use swpt_creditors.Procedures.Accounts.{get_account_data}
use swpt_creditors.Procedures.Creditors.{get_creditor}
use swpt_creditors.Procedures.Log.{pending_of}
use swpt_creditors.Procedures.Ledger.Chain.{IsInt64}
use swpt_creditors.Procedures.LedgerUpdates.Progress.{IsSound}
use swpt_creditors.StoredProcedures.LedgerRun.{call_process_pending_ledger_update}
use swpt_creditors.StoredProcedures.LedgerRun.Database.{IsOnly, stored_procedure_agrees}
use swpt_creditors.StoredProcedures.Log.{scanned, call_process_pending_log_entries}
use swpt_creditors.StoredProcedures.Log.Agrees.{IsOnlyCreditor, log_stored_procedure_agrees}
use swpt_creditors.Tests.Data.{host, account, third_transfer, creditor, db}
use mathlib.Core.Path.{subst}
use mathlib.Core.Option.{some-injective}

third-IsSound : IsSound third_transfer
third-IsSound = (
  (omega int_laws, omega int_laws),
  (omega int_laws, omega int_laws),
  (omega int_laws, omega int_laws),
)

account-rows :
    (d : AccountData)
    → some account ≡ some d
    → IsInt64 d.ledger_principal × IsInt64 d.principal × IsOnly d (account ∷ [])
account-rows d e =
    let same = some-injective _ _ e in
    subst (λ x. IsInt64 x.ledger_principal × IsInt64 x.principal × IsOnly x (account ∷ [])) same
      ((omega arith, omega arith), (omega arith, omega arith), (λ h. refl, tt))

stored_procedure_agrees_example :
    call_process_pending_ledger_update true host 1000 7 3 10 500 db
    ≡ call_process_pending_ledger_update false host 1000 7 3 10 500 db
unfolding get_account_data
stored_procedure_agrees_example =
    stored_procedure_agrees host 1000 7 3 10 500 db (omega arith) (omega arith) (third-IsSound, tt)
      account-rows

-- A transfer that was created, logged before a change of another creditor.
abbrev logging : Db
logging = record db {
  pending_log_entries =
      record {
        creditor_id = 7;
        pending_entry_id = 2;
        entry = record (blank_entry 90) { object_type_hint = some oth_transfer };
      }
      ∷ record { creditor_id = 8; pending_entry_id = 1; entry = blank_entry 80 }
      ∷ record { creditor_id = 7; pending_entry_id = 1; entry = blank_entry 80 }
      ∷ [];
}

creditor-rows : (c : Creditor) → some creditor ≡ some c → IsOnlyCreditor c (creditor ∷ [])
creditor-rows c e =
    subst (λ x. IsOnlyCreditor x (creditor ∷ [])) (some-injective _ _ e) (λ h. refl, tt)

log_stored_procedure_agrees_example :
    call_process_pending_log_entries true (sort_by (λ p. p.pending_entry_id)) 7 logging
    ≡ call_process_pending_log_entries false (sort_by (λ p. p.pending_entry_id)) 7 logging
unfolding scanned pending_of get_creditor
log_stored_procedure_agrees_example =
    log_stored_procedure_agrees (sort_by (λ p. p.pending_entry_id)) 7 logging refl creditor-rows
