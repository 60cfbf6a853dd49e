-- ===== src/StoredProcedures/LedgerRun.antt =====
-- `process_pending_ledger_update` of migrations/versions/dd24bce84ed1_processing_procedures.py.
pub mod Agrees
pub mod Whole
pub mod Database
use swpt_creditors.Base.{
  ℕ, zero, suc, ◌-◌, ◌&&◌, not, Bool, true, false, Option, none, some, List, [], ◌∷◌, ◌++◌,
}
use swpt_creditors.Base.Int.{pos}
use swpt_creditors.Base.Lists.{rows_where, any_row, update_where, delete_where}
use swpt_creditors.Base.Sort.{sort_by}
use swpt_creditors.Base.Tests.{◌==◌, ltb, leb, is_none, if◌then◌else◌}
use swpt_creditors.Models.Common.{CreditorId, DebtorId, Timestamp, Host, no_result_found}
use swpt_creditors.Models.Account.{AccountData}
use swpt_creditors.Models.Signal.{updated_ledger}
use swpt_creditors.Models.Transfer.{CommittedTransfer}
use swpt_creditors.Models.Db.{
  Db, Result, ok, err, Tx, ◌>>=◌, ◌>>◌, pure, lift, gets, modify, or_raise, is_key,
  add_pending_log_entry, add_signal,
}
use swpt_creditors.Procedures.Accounts.{data_key, pending_key, get_account_data}
use swpt_creditors.Procedures.LedgerUpdates.{process_pending_ledger_update}
use swpt_creditors.StoredProcedures.Ledger.{
  AccountLedgerData, UpdateLedgerResult, select_ledger_data, log_row, update_ledger_sp,
}

-- The query that the loop runs over.
unfoldable pub select_transfers : AccountLedgerData → Db → List CommittedTransfer
select_transfers data' db =
    sort_by (λ ct. ct.transfer_number)
      (rows_where
        (λ ct.
          is_key data'.creditor_id data'.debtor_id ct.creditor_id ct.debtor_id
          && ct.creation_date == data'.creation_date
          && ltb data'.ledger_last_transfer_number ct.transfer_number)
        db.committed_transfers)

-- `COALESCE(a, b)`
abbrev pub coalesce {ℓ} : {A : Type ℓ} → Option A → Option A → Option A
coalesce none b = b
coalesce (some a) b = some a

-- `ulr := update_ledger(…); data := ulr.data; log_entry := COALESCE(ulr.log_entry, log_entry)`
unfoldable pub then_update_sp : UpdateLedgerResult → UpdateLedgerResult → UpdateLedgerResult
then_update_sp r ulr = record {
  data' = ulr.data';
  log_entry = coalesce ulr.log_entry r.log_entry;
  entries = r.entries ++ ulr.entries;
}

-- `previous_transfer_number != data.ledger_last_transfer_number AND …`
unfoldable pub must_wait_sp : Timestamp → AccountLedgerData → CommittedTransfer → Bool
must_wait_sp committed_at_cutoff data' ct =
    not (ct.previous_transfer_number == data'.ledger_last_transfer_number)
    && leb committed_at_cutoff ct.committed_at

-- The loop over the transfers.
unfoldable pub add_transfers_sp :
    Timestamp → Timestamp → List CommittedTransfer → UpdateLedgerResult → Result UpdateLedgerResult
unfolding must_wait_sp update_ledger_sp then_update_sp
add_transfers_sp committed_at_cutoff current_ts [] r = ok r
add_transfers_sp committed_at_cutoff current_ts (ct ∷ cts) r =
    elim (must_wait_sp committed_at_cutoff r.data' ct) [
      | true ↦ ok (record r {
        data' = record (r.data') { ledger_pending_transfer_ts = some ct.committed_at };
      })
      | false ↦
          elim (update_ledger_sp r.data' ct.transfer_number ct.acquired_amount ct.principal
            current_ts) [
              | ok ulr ↦ add_transfers_sp committed_at_cutoff current_ts cts (then_update_sp r ulr)
              | err e ↦ err e
            ]
    ]

-- The condition for the "catch-up" entry.
unfoldable pub is_behind_sp : Timestamp → AccountLedgerData → Bool
is_behind_sp committed_at_cutoff data' =
    is_none data'.ledger_pending_transfer_ts
    && ltb data'.ledger_last_transfer_number data'.last_transfer_number
    && ltb data'.last_transfer_committed_at committed_at_cutoff

-- What follows the loop.
unfoldable pub fix_missing_sp :
    Timestamp → Timestamp → UpdateLedgerResult → Result UpdateLedgerResult
unfolding is_behind_sp update_ledger_sp then_update_sp
fix_missing_sp committed_at_cutoff current_ts r = elim (is_behind_sp committed_at_cutoff r.data') [
  | true ↦
      elim (update_ledger_sp r.data' r.data'.last_transfer_number (pos 0) r.data'.principal
        current_ts) [ ok ulr ↦ ok (then_update_sp r ulr) | err e ↦ err e ]
  | false ↦ ok r
]

-- `LOOP EXIT WHEN nextval('object_update_id_seq') >= data.ledger_latest_update_id; END LOOP`
unfoldable pub advance_sequence : Host → ℕ → ℕ → ℕ → ℕ
advance_sequence host zero target n = n
advance_sequence host (suc fuel) target n = elim (leb target (host.next_value n)) [
  | true ↦ host.next_value n
  | false ↦ advance_sequence host fuel target (host.next_value n)
]

-- `IF log_entry IS NOT NULL THEN …`. Each value of the sequence is larger than the one before it, so
-- that as many steps as the target are enough.
unfoldable pub announce_sp : Host → Timestamp → CreditorId → DebtorId → UpdateLedgerResult → Db → Db
unfolding log_row advance_sequence
announce_sp host current_ts cid did r db = elim r.log_entry [
  | none ↦ db
  | some log_entry ↦
      let db' : Db = add_pending_log_entry log_entry.creditor_id (log_row log_entry) db in
      let db'' : Db =
        add_signal
          (updated_ledger (record {
            creditor_id = cid;
            debtor_id = did;
            update_id = r.data'.ledger_latest_update_id;
            account_id = r.data'.account_id;
            creation_date = r.data'.creation_date;
            principal = r.data'.ledger_principal;
            last_transfer_number = r.data'.ledger_last_transfer_number;
            ts = current_ts;
          }))
          db' in
      record db'' {
        uid_seq =
            advance_sequence host (suc r.data'.ledger_latest_update_id)
              r.data'.ledger_latest_update_id db''.uid_seq;
      }
]

-- `UPDATE account_data SET …`
unfoldable pub set_ledger_data : AccountLedgerData → AccountData → AccountData
set_ledger_data data' d = record d {
  ledger_principal = data'.ledger_principal;
  ledger_last_entry_id = data'.ledger_last_entry_id;
  ledger_last_transfer_number = data'.ledger_last_transfer_number;
  ledger_latest_update_id = data'.ledger_latest_update_id;
  ledger_latest_update_ts = data'.ledger_latest_update_ts;
  ledger_pending_transfer_ts = data'.ledger_pending_transfer_ts;
}

-- The writes at the end. The ledger entries were inserted before.
unfoldable pub write_sp : Host → Timestamp → CreditorId → DebtorId → UpdateLedgerResult → Db → Db
unfolding announce_sp set_ledger_data
write_sp host current_ts cid did r db =
    let db' : Db =
      announce_sp host current_ts cid did r
        (record db { ledger_entries = db.ledger_entries ++ r.entries }) in
    record db' {
      account_data = update_where (data_key cid did) (set_ledger_data r.data') db'.account_data;
      pending_ledger_updates = delete_where (pending_key cid did) db'.pending_ledger_updates;
    }

-- A cutoff before the least time is that time: no row is older than either.
unfoldable pub run_sp :
    Timestamp → Timestamp → List CommittedTransfer → AccountLedgerData → Result UpdateLedgerResult
unfolding add_transfers_sp fix_missing_sp
run_sp current_ts max_delay cts data' =
    elim (add_transfers_sp (current_ts - max_delay) current_ts cts
      (record { data' = data'; log_entry = none; entries = [] })) [
        | ok r ↦ fix_missing_sp (current_ts - max_delay) current_ts r
        | err e ↦ err e
      ]

unfoldable pub update_pending_sp :
    Host → Timestamp → CreditorId → DebtorId → Timestamp → Tx (Unit {0})
unfolding get_account_data select_ledger_data select_transfers run_sp write_sp
update_pending_sp host current_ts cid did max_delay = do
  d ← or_raise (← gets (get_account_data cid did)) no_result_found
  cts ← gets (select_transfers (select_ledger_data d))
  r ← lift (run_sp current_ts max_delay cts (select_ledger_data d))
  modify (write_sp host current_ts cid did r)

unfoldable pub process_pending_ledger_update_sp :
    Host → Timestamp → CreditorId → DebtorId → Timestamp → Tx (Unit {0})
unfolding update_pending_sp
process_pending_ledger_update_sp host current_ts cid did max_delay = do
  found ← gets (λ db. any_row (pending_key cid did) db.pending_ledger_updates)
  if found then update_pending_sp host current_ts cid did max_delay else pure tt

-- `process_pending_ledger_update` of procedures/account_updates.py with both of its branches: the
-- flag is `APP_USE_PGPLSQL_FUNCTIONS`.
unfoldable pub call_process_pending_ledger_update :
    Bool → Host → Timestamp → CreditorId → DebtorId → ℕ → Timestamp → Tx Bool
call_process_pending_ledger_update true host current_ts creditor_id debtor_id burst_count
      max_delay =
    do process_pending_ledger_update_sp host current_ts creditor_id debtor_id max_delay; pure true
call_process_pending_ledger_update false host current_ts creditor_id debtor_id burst_count
      max_delay =
    process_pending_ledger_update host current_ts creditor_id debtor_id burst_count max_delay
