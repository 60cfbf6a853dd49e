-- ===== src/Procedures/LedgerUpdates.antt =====
-- `process_pending_ledger_update` of procedures/account_updates.py, as it is without the stored
-- procedures of PostgreSQL.
pub mod Progress
pub mod Order
pub mod Database
use swpt_creditors.Base.{
  ℕ, zero, suc, ◌-◌, ◌&&◌, ◌||◌, not, Bool, true, false, Option, none, some, List, [], ◌∷◌, ◌++◌,
}
use swpt_creditors.Base.Lists.{rows_where, any_row, delete_where, take, length}
use swpt_creditors.Base.Sort.{sort_by}
use swpt_creditors.Base.Tests.{◌==◌, ltb, leb, if◌then◌else◌}
use swpt_creditors.Models.Common.{
  CreditorId, DebtorId, Timestamp, Host, overflow_error, no_result_found,
}
use swpt_creditors.Models.Log.{BaseLogEntry}
use swpt_creditors.Models.Account.{AccountData}
use swpt_creditors.Models.Transfer.{CommittedTransfer}
use swpt_creditors.Models.Db.{
  Db, Result, ok, err, Tx, ◌>>=◌, ◌>>◌, pure, lift, gets, modify, or_raise, raise_if, is_key,
}
use swpt_creditors.Procedures.Accounts.{get_account_data, put_account_data, pending_key}
use swpt_creditors.Procedures.Ledger.{
  LedgerUpdate, update_ledger, no_update, fix_missing_last_transfer_if_necessary,
}
use swpt_creditors.Procedures.AccountUpdates.{add_ledger_entries, announce_ledger}

-- The committed transfers of the account's current incarnation that the ledger does not have yet.
unfoldable pub is_pending_transfer : AccountData → CommittedTransfer → Bool
is_pending_transfer d t =
    is_key d.creditor_id d.debtor_id t.creditor_id t.debtor_id
    && t.creation_date == d.creation_date
    && ltb d.ledger_last_transfer_number t.transfer_number

unfoldable pub get_sorted_pending_transfers : AccountData → ℕ → Db → List CommittedTransfer
unfolding is_pending_transfer
get_sorted_pending_transfers d max_count db =
    take max_count
      (sort_by (λ t. t.transfer_number) (rows_where (is_pending_transfer d) db.committed_transfers))

-- `e or log_entry`
abbrev pub or_entry : Option BaseLogEntry → Option BaseLogEntry → Option BaseLogEntry
or_entry none before = before
or_entry (some e) before = some e

-- An update after another one: the entries of both, and the later log entry.
unfoldable pub then_update : LedgerUpdate → LedgerUpdate → LedgerUpdate
then_update u v = record {
  account = v.account;
  entries = u.entries ++ v.entries;
  log_entry = or_entry v.log_entry u.log_entry;
}

-- A preceding transfer is missing, and may still arrive.
unfoldable pub must_wait : Timestamp → AccountData → CommittedTransfer → Bool
must_wait cutoff d t =
    not (t.previous_transfer_number == d.ledger_last_transfer_number) && leb cutoff t.committed_at

-- The loop with its `else`: the result says whether the loop was left by `break`.
unfoldable pub add_transfers :
    Timestamp → Timestamp → List CommittedTransfer → LedgerUpdate → Result (Bool × LedgerUpdate)
unfolding must_wait update_ledger then_update
add_transfers cutoff current_ts [] u =
    ok (false, record u { account = record (u.account) { ledger_pending_transfer_ts = none } })
add_transfers cutoff current_ts (t ∷ ts) u = elim (must_wait cutoff u.account t) [
  | true ↦ ok (
    true,
    record u { account = record (u.account) { ledger_pending_transfer_ts = some t.committed_at } },
  )
  | false ↦
      elim (update_ledger u.account t.transfer_number t.acquired_amount t.principal current_ts
        false) [ ok v ↦ add_transfers cutoff current_ts ts (then_update u v) | err e ↦ err e ]
]

-- `while db.session.scalar(uid_seq) < data.ledger_latest_update_id: pass`
unfoldable pub catch_up : Host → ℕ → ℕ → ℕ → ℕ
catch_up host zero target n = n
catch_up host (suc fuel) target n = elim (ltb (host.next_value n) target) [
  | true ↦ catch_up host fuel target (host.next_value n)
  | false ↦ host.next_value n
]

-- Each value of the sequence is larger than the one before it, so that as many steps as the target
-- are enough.
unfoldable pub catch_up_if : Host → LedgerUpdate → Db → Db
unfolding catch_up
catch_up_if host u db = elim u.log_entry [
  | none ↦ db
  | some _ ↦ record db {
    uid_seq =
        catch_up host (suc u.account.ledger_latest_update_id) u.account.ledger_latest_update_id
          db.uid_seq;
  }
]

-- `if is_done: …`
unfoldable pub repair_if_done : Bool → Timestamp → Timestamp → LedgerUpdate → Result LedgerUpdate
unfolding fix_missing_last_transfer_if_necessary then_update
repair_if_done false max_delay current_ts u = ok u
repair_if_done true max_delay current_ts u =
    elim (fix_missing_last_transfer_if_necessary u.account max_delay current_ts) [
      | ok v ↦ ok (then_update u v)
      | err e ↦ err e
    ]

unfoldable pub delete_pending_ledger_update : Bool → CreditorId → DebtorId → Db → Db
delete_pending_ledger_update false creditor_id debtor_id db = db
delete_pending_ledger_update true creditor_id debtor_id db = record db {
  pending_ledger_updates =
      delete_where (pending_key creditor_id debtor_id) db.pending_ledger_updates;
}

-- What follows the loop.
unfoldable pub conclude : Bool → Timestamp → Timestamp → LedgerUpdate → Result (Bool × LedgerUpdate)
unfolding repair_if_done
conclude is_done max_delay current_ts u = elim (repair_if_done is_done max_delay current_ts u) [
  | ok v ↦ ok (is_done, v)
  | err e ↦ err e
]

-- All that the transaction does to the account: the update, and whether it is done.
unfoldable pub bring_up_to_date :
    List CommittedTransfer → ℕ → Timestamp → Timestamp → AccountData → Result (Bool × LedgerUpdate)
unfolding add_transfers conclude
bring_up_to_date transfers burst_count max_delay current_ts d =
    elim (add_transfers (current_ts - max_delay) current_ts transfers (no_update d)) [
      | err e ↦ err e
      | ok (broke, u) ↦
          conclude (broke || ltb (length transfers) burst_count) max_delay current_ts u
    ]

-- The flush: the account, the new entries, the signal and the log entry.
unfoldable pub flush_ledger : Host → Timestamp → LedgerUpdate → Db → Db
unfolding put_account_data add_ledger_entries announce_ledger catch_up_if
flush_ledger host current_ts u db = catch_up_if host u (
    announce_ledger current_ts u.account u.account.ledger_principal
      u.account.ledger_last_transfer_number u.log_entry
      (add_ledger_entries u (put_account_data u.account db)))

unfoldable pub update_pending : Host → Timestamp → CreditorId → DebtorId → ℕ → Timestamp → Tx Bool
unfolding get_account_data get_sorted_pending_transfers bring_up_to_date
    delete_pending_ledger_update flush_ledger
update_pending host current_ts creditor_id debtor_id burst_count max_delay = do
  d ← or_raise (← gets (get_account_data creditor_id debtor_id)) no_result_found
  raise_if (ltb current_ts max_delay) overflow_error
  transfers ← gets (get_sorted_pending_transfers d burst_count)
  r ← lift (bring_up_to_date transfers burst_count max_delay current_ts d)
  modify (delete_pending_ledger_update r.0 creditor_id debtor_id)
  modify (flush_ledger host current_ts r.1)
  pure r.0

unfoldable pub process_pending_ledger_update :
    Host → Timestamp → CreditorId → DebtorId → ℕ → Timestamp → Tx Bool
unfolding update_pending
process_pending_ledger_update host current_ts creditor_id debtor_id burst_count max_delay = do
  pending ← gets (λ db. any_row (pending_key creditor_id debtor_id) db.pending_ledger_updates)
  if pending
      then update_pending host current_ts creditor_id debtor_id burst_count max_delay
      else pure true
