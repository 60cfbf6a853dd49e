-- ===== src/StoredProcedures/LedgerRun/Agrees.antt =====
-- About the loop of the stored procedure `process_pending_ledger_update`, and the function of
-- procedures/account_updates.py that it stands for.
use swpt_creditors.Base.{
  ℕ, ◌≡◌, ap, sym, ◌∙◌, refl, inl, inr, Bool, true, false, Option, none, some, List, [], ◌∷◌,
}
use swpt_creditors.Base.Int.{ℤ, ◌-ℤ◌}
use swpt_creditors.Base.Lists.{All}
use swpt_creditors.Base.Tests.{Bool-cases}
use swpt_creditors.Models.Common.{CreditorId, Timestamp}
use swpt_creditors.Models.Log.{BaseLogEntry}
use swpt_creditors.Models.Account.{AccountData}
use swpt_creditors.Models.Transfer.{CommittedTransfer}
use swpt_creditors.Models.Db.{ok}
use swpt_creditors.Procedures.Ledger.{LedgerUpdate, update_ledger}
use swpt_creditors.Procedures.Ledger.Chain.{IsInt64}
use swpt_creditors.Procedures.Ledger.Update.{OnlyLedger, update_ledger-Updates}
use swpt_creditors.Procedures.LedgerUpdates.{add_transfers, must_wait, then_update, or_entry}
use swpt_creditors.Procedures.LedgerUpdates.Progress.{
  IsSound, Progress, then_update-Progress, mark-Progress,
}
use swpt_creditors.StoredProcedures.Ledger.{
  AccountLedgerData, PendingLogEntryResult, UpdateLedgerResult, select_ledger_data,
  update_ledger_sp,
}
use swpt_creditors.StoredProcedures.Ledger.Agrees.{sp_row, py_row, Agrees, update_ledger-Agrees}
use swpt_creditors.StoredProcedures.LedgerRun.{
  coalesce, must_wait_sp, then_update_sp, add_transfers_sp,
}

-- The account's values, with the mark of a waiting transfer.
unfoldable pub marked_data : AccountData → AccountLedgerData
unfolding select_ledger_data
marked_data d = record (select_ledger_data d) {
  ledger_pending_transfer_ts = d.ledger_pending_transfer_ts;
}

-- The two sides after the loop.
pub record Ends (u : LedgerUpdate) (r : UpdateLedgerResult) : Type 0 where
  pub same_data : r.data' ≡ marked_data u.account
  pub same_entries : r.entries ≡ u.entries
  pub same_row : sp_row r.log_entry ≡ py_row u.account.creditor_id u.log_entry

-- The later of two log entries.
later_row :
    (a b : Option PendingLogEntryResult) (x y : Option BaseLogEntry) (c c' : CreditorId)
    → c ≡ c'
    → sp_row a ≡ py_row c x
    → sp_row b ≡ py_row c' y
    → sp_row (coalesce b a) ≡ py_row c' (or_entry y x)
unfolding sp_row py_row
later_row a none x none c c' e h k = rw (← e) h
later_row a none x (some y) c c' e h k = cc k
later_row a (some b) x none c c' e h k = cc k
later_row a (some b) x (some y) c c' e h k = k

then_update-Agrees :
    (u v : LedgerUpdate) (r s : UpdateLedgerResult)
    → OnlyLedger u.account v.account
    → r.entries ≡ u.entries
    → sp_row r.log_entry ≡ py_row u.account.creditor_id u.log_entry
    → Agrees v s
    → Agrees (then_update u v) (then_update_sp r s)
unfolding then_update then_update_sp
then_update-Agrees u v r s only entries row h = record {
  same_data = h.same_data;
  same_entries = rw (entries, h.same_entries) refl;
  same_row =
      later_row r.log_entry s.log_entry u.log_entry v.log_entry _ _
        (sym (ap {A = AccountData} (λ a. a.creditor_id) only)) row h.same_row;
}

must_wait_agrees :
    (cutoff : Timestamp) (d : AccountData) (data' : AccountLedgerData) (t : CommittedTransfer)
    → data' ≡ select_ledger_data d
    → must_wait_sp cutoff data' t ≡ must_wait cutoff d t
unfolding must_wait_sp must_wait select_ledger_data
must_wait_agrees cutoff d data' t e = rw e refl

abbrev AfterLoop :
    Timestamp
    → Timestamp
    → AccountData
    → List CommittedTransfer
    → LedgerUpdate
    → UpdateLedgerResult
    → Type 0
AfterLoop cutoff now d ts u r =
    (broke : Bool) × (v : LedgerUpdate) × (s : UpdateLedgerResult) × (add_transfers cutoff now ts u
      ≡ ok (broke, v))
    × (add_transfers_sp cutoff now ts r ≡ ok s)
    × Ends v s
    × Progress d v

-- The update of a transfer, on both sides.
module _ (d : AccountData) (u : LedgerUpdate) (r : UpdateLedgerResult) (number : ℕ)
    (acquired_amount principal : ℤ) (now : Timestamp) (p : Progress d u) (h : Agrees u r)
    (ha : IsInt64 acquired_amount) (hp : IsInt64 principal)
    (hd : IsInt64 (principal -ℤ acquired_amount)) where
  pub update-Agrees :
      (v : LedgerUpdate) × (s : UpdateLedgerResult) × (update_ledger u.account number
          acquired_amount principal now false
        ≡ ok v)
      × (update_ledger_sp r.data' number acquired_amount principal now ≡ ok s)
      × OnlyLedger u.account v.account
      × Agrees (then_update u v) (then_update_sp r s)
      × Progress d (then_update u v)
  update-Agrees =
      let (v, e, k) =
        update_ledger-Updates u.account number acquired_amount principal now false p.in_range ha hp
          hd in
      let (s, e', k') =
        update_ledger-Agrees u.account number acquired_amount principal now v p.in_range e in
      (
        v,
        s,
        e,
        rw h.same_data e',
        k.untouched,
        then_update-Agrees u v r s k.untouched h.same_entries h.same_row k',
        then_update-Progress d u v number principal hp p k,
      )

-- The two loops, over sound transfers.
pub add_transfers-Agrees :
    (cutoff now : Timestamp) (d : AccountData) (ts : List CommittedTransfer) (u : LedgerUpdate)
    (r : UpdateLedgerResult)
    → All IsSound ts
    → Progress d u
    → Agrees u r
    → AfterLoop cutoff now d ts u r
unfolding add_transfers add_transfers_sp marked_data select_ledger_data
add_transfers-Agrees cutoff now d [] u r sound p h = (
  false,
  _,
  _,
  refl,
  refl,
  record { same_data = h.same_data; same_entries = h.same_entries; same_row = h.same_row },
  mark-Progress d u none p,
)
add_transfers-Agrees cutoff now d (t ∷ ts) u r sound p h =
    let same = must_wait_agrees cutoff u.account r.data' t h.same_data in
    elim (Bool-cases (must_wait cutoff u.account t)) [
      | inl wait ↦ (
        true,
        _,
        _,
        rw (wait, add_transfers) refl,
        rw (same ∙ wait, add_transfers_sp) refl,
        record {
          same_data =
              ap {A = AccountLedgerData} {B = AccountLedgerData}
                (λ a. record a { ledger_pending_transfer_ts = some t.committed_at }) h.same_data;
          same_entries = h.same_entries;
          same_row = h.same_row;
        },
        mark-Progress d u (some t.committed_at) p,
      )
      | inr go ↦
          let (v, s, e, e', only, h', p') =
            update-Agrees d u r t.transfer_number t.acquired_amount t.principal now p h sound.0.0
              sound.0.1 sound.0.2 in
          let (broke, w, q, f, f', ends, p'') =
            add_transfers-Agrees cutoff now d ts (then_update u v) (then_update_sp r s) sound.1 p'
              h' in
          (
            broke,
            w,
            q,
            rw (go, e, add_transfers) f,
            rw (same ∙ go, e', add_transfers_sp) f',
            ends,
            p'',
          )
    ]
