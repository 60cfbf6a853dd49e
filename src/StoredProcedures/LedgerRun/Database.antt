-- ===== src/StoredProcedures/LedgerRun/Database.antt =====
-- The two branches of `process_pending_ledger_update` (procedures/account_updates.py): the stored
-- procedure, and the program's own code.
use swpt_creditors.Base.{
  ℕ, zero, suc, ◌≤◌, ◌<◌, ◌≡◌, ap, sym, ◌∙◌, refl, inl, inr, Bool, true, false, Option, none, some,
  List, ◌++◌, arith,
}
use mathlib.Core.Path.{subst, subst₂}
use swpt_creditors.Base.Lists.{
  All, any_row, length, rows_where, update_where, put_row, delete_where,
}
use swpt_creditors.Base.Rows.{
  All-map, find_row_sound, length-rows_where-le, take_all, update_where-put_row,
}
use swpt_creditors.Base.Sort.{sort_by, length-sort_by}
use swpt_creditors.Base.Tests.{Bool-cases, Option-cases}
use swpt_creditors.Models.Common.{CreditorId, DebtorId, Timestamp, Host, Error, no_result_found}
use swpt_creditors.Models.Log.{BaseLogEntry}
use swpt_creditors.Models.Account.{AccountData, LedgerEntry}
use swpt_creditors.Models.Transfer.{CommittedTransfer}
use swpt_creditors.Models.Db.{Db, Result, ok, err, add_pending_log_entry, add_signal}
use swpt_creditors.Procedures.Accounts.{data_key, pending_key, get_account_data, put_account_data}
use swpt_creditors.Procedures.AccountUpdates.{add_ledger_entries, announce_ledger}
use swpt_creditors.Procedures.Ledger.{LedgerUpdate}
use swpt_creditors.Procedures.Ledger.Chain.{IsInt64}
use swpt_creditors.Procedures.LedgerUpdates.{
  get_sorted_pending_transfers, is_pending_transfer, delete_pending_ledger_update, flush_ledger,
  bring_up_to_date, catch_up, catch_up_if, update_pending, process_pending_ledger_update,
}
use swpt_creditors.Procedures.LedgerUpdates.Progress.{IsSound, OnlyLedgerOrWaiting}
use swpt_creditors.Procedures.LedgerUpdates.Database.{pending-IsSound, key_eq, runs}
use swpt_creditors.StoredProcedures.Ledger.{
  PendingLogEntryResult, UpdateLedgerResult, select_ledger_data, log_row,
}
use swpt_creditors.StoredProcedures.Ledger.Agrees.{sp_row, py_row}
use swpt_creditors.StoredProcedures.LedgerRun.{
  select_transfers, advance_sequence, announce_sp, set_ledger_data, write_sp, run_sp,
  update_pending_sp, process_pending_ledger_update_sp, call_process_pending_ledger_update,
}
use swpt_creditors.StoredProcedures.LedgerRun.Agrees.{marked_data, Ends}
use swpt_creditors.StoredProcedures.LedgerRun.Whole.{run_agrees}

sequence_agrees :
    (host : Host) (fuel target n : ℕ)
    → advance_sequence host fuel target n ≡ catch_up host fuel target n
unfolding advance_sequence catch_up
sequence_agrees host zero target n = refl
sequence_agrees host (suc fuel) target n =
    ground (arith, sequence_agrees host fuel target (host.next_value n))

-- The assignment of the ledger's fields to the row that they were computed from.
set_agrees : (d a : AccountData) → OnlyLedgerOrWaiting d a → set_ledger_data (marked_data a) d ≡ a
unfolding set_ledger_data marked_data select_ledger_data
set_agrees d a h = sym h

few_rows :
    (p : CommittedTransfer → Bool) (ts : List CommittedTransfer) (n : ℕ)
    → length ts < n
    → length (sort_by (λ t. t.transfer_number) (rows_where p ts)) < n
few_rows p ts n h =
    omega
      (arith, length-sort_by (λ t. t.transfer_number) (rows_where p ts), length-rows_where-le p ts)

-- With a burst that is larger than the table, both queries give the same transfers.
select_agrees :
    (d : AccountData) (burst_count : ℕ) (db : Db)
    → length db.committed_transfers < burst_count
    → (get_sorted_pending_transfers d burst_count db ≡ select_transfers (select_ledger_data d) db)
      × (length (select_transfers (select_ledger_data d) db) < burst_count)
unfolding get_sorted_pending_transfers is_pending_transfer select_transfers select_ledger_data
select_agrees d burst_count db h =
    let few = few_rows (is_pending_transfer d) db.committed_transfers burst_count h in
    (take_all burst_count _ (omega (arith, few)), few)

some_row :
    (x : PendingLogEntryResult) (c : CreditorId) (y : BaseLogEntry)
    → sp_row (some x) ≡ py_row c (some y)
    → (x.creditor_id ≡ c) × (log_row x ≡ y)
unfolding sp_row py_row
some_row x c y h = (ap (λ o. (row_of o).0) h, ap (λ o. (row_of o).1) h)
  where
    row_of : Option (CreditorId × BaseLogEntry) → CreditorId × BaseLogEntry
    row_of none = (c, y)
    row_of (some r) = r

-- The writes, once the log entries are known to be the same.
module _ (host : Host) (now : Timestamp) (a : AccountData) (es : List LedgerEntry) (db : Db)
    (rows : update_where
        (data_key a.creditor_id a.debtor_id)
        (set_ledger_data (marked_data a))
        db.account_data
      ≡ put_row (data_key a.creditor_id a.debtor_id) a db.account_data) where
  write_agrees :
      (y : Option BaseLogEntry) (x : Option PendingLogEntryResult)
      → sp_row x ≡ py_row a.creditor_id y
      → write_sp host now a.creditor_id a.debtor_id
          (record { data' = marked_data a; log_entry = x; entries = es })
          db
        ≡ flush_ledger host now
            (record { account = a; entries = es; log_entry = y })
            (delete_pending_ledger_update true a.creditor_id a.debtor_id db)
  unfolding write_sp announce_sp flush_ledger delete_pending_ledger_update put_account_data
      add_ledger_entries announce_ledger catch_up_if marked_data select_ledger_data
      add_pending_log_entry add_signal sp_row py_row
  write_agrees none none row =
      ap {B = Db}
        (λ rs. record db {
          ledger_entries = db.ledger_entries ++ es;
          account_data = rs;
          pending_ledger_updates =
              delete_where (pending_key a.creditor_id a.debtor_id) db.pending_ledger_updates;
        })
        rows
  write_agrees (some y) none row = cc
  write_agrees none (some x) row = cc
  write_agrees (some y) (some x) row =
      let (ec, ey) = some_row x a.creditor_id y row in rw (ec, ey, rows, sequence_agrees host) refl

-- The account's row, which is the only one with its key.
abbrev pub IsOnly : AccountData → List AccountData → Type 0
IsOnly d rows = All (λ r. data_key d.creditor_id d.debtor_id r ≡ true → r ≡ d) rows

set_only :
    (d a : AccountData) (rows : List AccountData)
    → OnlyLedgerOrWaiting d a
    → IsOnly d rows
    → update_where (data_key d.creditor_id d.debtor_id) (set_ledger_data (marked_data a)) rows
      ≡ put_row (data_key d.creditor_id d.debtor_id) a rows
set_only d a rows only h =
    update_where-put_row (data_key d.creditor_id d.debtor_id) (set_ledger_data (marked_data a)) a
      rows
      (All-map rows
        (λ r same k. ap (set_ledger_data (marked_data a)) (same k) ∙ set_agrees d a only) h)

-- The writes of the two sides.
writes_agree :
    (host : Host) (now : Timestamp) (d : AccountData) (u : LedgerUpdate) (r : UpdateLedgerResult)
    (db : Db)
    → OnlyLedgerOrWaiting d u.account
    → IsOnly d db.account_data
    → Ends u r
    → write_sp host now d.creditor_id d.debtor_id r db
      ≡ flush_ledger host now u (delete_pending_ledger_update true d.creditor_id d.debtor_id db)
writes_agree host now d u r db only lone h =
    let ec = ap {A = AccountData} (λ a. a.creditor_id) only in
    let ed = ap {A = AccountData} (λ a. a.debtor_id) only in
    rw (← ec, ← ed)
      (ap (λ r. write_sp host now u.account.creditor_id u.account.debtor_id r db)
          (λ i. record {
            data' = h.same_data i;
            log_entry = r.log_entry;
            entries = h.same_entries i;
          })
        ∙ write_agrees host now u.account u.entries db
            (subst₂
              (λ x y.
                update_where (data_key x y) (set_ledger_data (marked_data u.account))
                  db.account_data
                ≡ put_row (data_key x y) u.account db.account_data)
              (sym ec) (sym ed) (set_only d u.account db.account_data only lone))
            u.log_entry r.log_entry h.same_row)

-- The transaction of the stored procedure, step by step.
runs_sp :
    (host : Host) (now : Timestamp) (c : CreditorId) (di : DebtorId) (max_delay : Timestamp)
    (db : Db) (d : AccountData) (r : UpdateLedgerResult)
    → any_row (pending_key c di) db.pending_ledger_updates ≡ true
    → get_account_data c di db ≡ some d
    → run_sp now max_delay (select_transfers (select_ledger_data d) db) (select_ledger_data d)
      ≡ ok r
    → process_pending_ledger_update_sp host now c di max_delay db
      ≡ ok (tt, write_sp host now c di r db)
unfolding process_pending_ledger_update_sp
runs_sp host now c di max_delay db d r pending found e =
    rw (pending, found, e, update_pending_sp) refl

-- Without the account's row the query for it raises.
stops_sp :
    (host : Host) (now : Timestamp) (c : CreditorId) (di : DebtorId) (max_delay : Timestamp)
    (db : Db)
    → any_row (pending_key c di) db.pending_ledger_updates ≡ true
    → get_account_data c di db ≡ none
    → process_pending_ledger_update_sp host now c di max_delay db ≡ err no_result_found
unfolding process_pending_ledger_update_sp
stops_sp host now c di max_delay db pending missing = rw (pending, missing, update_pending_sp) refl

stops :
    (host : Host) (now : Timestamp) (c : CreditorId) (di : DebtorId) (burst_count : ℕ)
    (max_delay : Timestamp) (db : Db)
    → any_row (pending_key c di) db.pending_ledger_updates ≡ true
    → get_account_data c di db ≡ none
    → process_pending_ledger_update host now c di burst_count max_delay db ≡ err no_result_found
unfolding process_pending_ledger_update
stops host now c di burst_count max_delay db pending missing =
    rw (pending, missing, update_pending) refl

-- `return True` after the call.
abbrev answered : Result (Unit {0} × Db) → Result (Bool × Db)
answered (ok (_, db)) = ok (true, db)
answered (err e) = err e

module _ (host : Host) (now : Timestamp) (c : CreditorId) (di : DebtorId) (burst_count : ℕ)
    (max_delay : Timestamp) (db : Db) where
  both_end :
      (x y : Db)
      → process_pending_ledger_update_sp host now c di max_delay db ≡ ok (tt, x)
      → process_pending_ledger_update host now c di burst_count max_delay db ≡ ok (true, y)
      → x ≡ y
      → call_process_pending_ledger_update true host now c di burst_count max_delay db
        ≡ call_process_pending_ledger_update false host now c di burst_count max_delay db
  unfolding call_process_pending_ledger_update
  both_end x y e f same = ap answered e ∙ ap (λ z. ok (true, z)) same ∙ sym f

  both_raise :
      (x : Error)
      → process_pending_ledger_update_sp host now c di max_delay db ≡ err x
      → process_pending_ledger_update host now c di burst_count max_delay db ≡ err x
      → call_process_pending_ledger_update true host now c di burst_count max_delay db
        ≡ call_process_pending_ledger_update false host now c di burst_count max_delay db
  unfolding call_process_pending_ledger_update
  both_raise x e f = ap answered e ∙ sym f

  -- Without a pending update nothing is done.
  idle_sp :
      any_row (pending_key c di) db.pending_ledger_updates ≡ false
      → process_pending_ledger_update_sp host now c di max_delay db ≡ ok (tt, db)
  unfolding process_pending_ledger_update_sp
  idle_sp nothing = rw nothing refl

  idle :
      any_row (pending_key c di) db.pending_ledger_updates ≡ false
      → process_pending_ledger_update host now c di burst_count max_delay db ≡ ok (true, db)
  unfolding process_pending_ledger_update
  idle nothing = rw nothing refl

found_key :
    (c : CreditorId) (di : DebtorId) (db : Db) (d : AccountData)
    → get_account_data c di db ≡ some d
    → (d.creditor_id ≡ c) × (d.debtor_id ≡ di)
unfolding get_account_data
found_key c di db d found =
    key_eq c di d.creditor_id d.debtor_id (find_row_sound (data_key c di) db.account_data d found)

-- With a burst that is larger than the table of committed transfers, a delay that is not longer than
-- the calendar, committed transfers whose amounts, principals and previous principals fit 64 bits,
-- and an account, if there is one, whose two principals fit 64 bits and whose row is the only one
-- with its key: the stored procedure and the program's own code give the same result and leave the
-- same database, whatever is pending.
pub stored_procedure_agrees :
    (host : Host) (now : Timestamp) (c : CreditorId) (di : DebtorId) (burst_count : ℕ)
    (max_delay : Timestamp) (db : Db)
    → max_delay ≤ now
    → length db.committed_transfers < burst_count
    → All IsSound db.committed_transfers
    → ((d : AccountData)
        → get_account_data c di db ≡ some d
        → IsInt64 d.ledger_principal × IsInt64 d.principal × IsOnly d db.account_data)
    → call_process_pending_ledger_update true host now c di burst_count max_delay db
      ≡ call_process_pending_ledger_update false host now c di burst_count max_delay db
stored_procedure_agrees host now c di burst_count max_delay db le few sound rows =
    let end = both_end host now c di burst_count max_delay db in
    elim (Bool-cases (any_row (pending_key c di) db.pending_ledger_updates)) [
      | inr nothing ↦
          end db db (idle_sp host now c di burst_count max_delay db nothing)
            (idle host now c di burst_count max_delay db nothing) refl
      | inl pending ↦ elim (Option-cases (get_account_data c di db)) [
        | inl missing ↦
            both_raise host now c di burst_count max_delay db no_result_found
              (stops_sp host now c di max_delay db pending missing)
              (stops host now c di burst_count max_delay db pending missing)
        | inr (d, found) ↦
            let (hl, hp, lone) = rows d found in
            let (kc, kd) = found_key c di db d found in
            let (same, fewer) = select_agrees d burst_count db few in
            let (u, r, e, e', h, p) =
              run_agrees (select_transfers (select_ledger_data d) db) burst_count max_delay now d
                (subst (All IsSound) same (pending-IsSound d burst_count db sound)) hl hp fewer in
            end _ _ (runs_sp host now c di max_delay db d r pending found e')
              (runs host now c di burst_count max_delay db d true u pending found le
                (ap (λ ts. bring_up_to_date ts burst_count max_delay now d) same ∙ e))
              (rw (← kc, ← kd) (writes_agree host now d u r db p.untouched lone h))
      ]
    ]
