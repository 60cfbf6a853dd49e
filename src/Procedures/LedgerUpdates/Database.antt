-- ===== src/Procedures/LedgerUpdates/Database.antt =====
-- `process_pending_ledger_update` on the database: what its transaction writes.
use swpt_creditors.Base.{
  ℕ, zero, suc, ◌+◌, ◌≤◌, ◌<◌, ◌≡◌, ap, ◌∙◌, refl, Bool, true, false, List, [], ◌∷◌, ◌++◌, some,
  arith,
}
use swpt_creditors.Base.Lists.{All, any_row, take, rows_where, find_row, put_row}
use swpt_creditors.Base.Rows.{find_row_sound, find_row-put_row}
use swpt_creditors.Base.Sort.{sort_by-All}
use swpt_creditors.Base.Tests.{ltb}
use swpt_creditors.Models.Common.{CreditorId, DebtorId, Timestamp, Host}
use swpt_creditors.Models.Account.{AccountData, LedgerEntry}
use swpt_creditors.Models.Db.{Db, ok, is_key}
use swpt_creditors.Procedures.Accounts.{data_key, pending_key, get_account_data}
use swpt_creditors.Procedures.Ledger.{LedgerUpdate}
use swpt_creditors.Procedures.Ledger.Chain.{IsInt64}
use swpt_creditors.Procedures.LedgerUpdates.{
  bring_up_to_date, get_sorted_pending_transfers, delete_pending_ledger_update, flush_ledger,
  catch_up, update_pending, process_pending_ledger_update,
}
use swpt_creditors.Procedures.LedgerUpdates.Progress.{IsSound, Progress, bring_up_to_date-Progress}

-- If each value of the sequence is larger than the one before it, and the fuel together with the last
-- value given out is greater than the target, the loop ends at a value that is not below the target.
pub catch_up_reaches :
    (host : Host) (fuel target n : ℕ)
    → ((k : ℕ) → k < host.next_value k)
    → target < n + fuel
    → target ≤ catch_up host fuel target n
unfolding catch_up
catch_up_reaches host zero target n grows h = omega arith
catch_up_reaches host (suc fuel) target n grows h =
    ground (arith, grows n, catch_up_reaches host fuel target (host.next_value n) grows)

All-take {ℓ κ} : {A : Type ℓ} (P : A → Type κ) (k : ℕ) (xs : List A) → All P xs → All P (take k xs)
All-take P zero xs h = tt
All-take P (suc k) [] h = tt
All-take P (suc k) (x ∷ xs) h = (h.0, All-take P k xs h.1)

All-rows_where {ℓ κ} :
    {A : Type ℓ} (P : A → Type κ) (p : A → Bool) (xs : List A) → All P xs → All P (rows_where p xs)
All-rows_where P p [] h = tt
All-rows_where P p (x ∷ xs) h = ground (arith, All-rows_where P p xs h.1)

pub pending-IsSound :
    (d : AccountData) (burst_count : ℕ) (db : Db)
    → All IsSound db.committed_transfers
    → All IsSound (get_sorted_pending_transfers d burst_count db)
unfolding get_sorted_pending_transfers
pending-IsSound d burst_count db h =
    All-take IsSound burst_count _ (sort_by-All _ IsSound _ (All-rows_where IsSound _ _ h))

flush_ledger-entries :
    (host : Host) (now : Timestamp) (u : LedgerUpdate) (db : Db)
    → (flush_ledger host now u db).ledger_entries ≡ db.ledger_entries ++ u.entries
unfolding flush_ledger
flush_ledger-entries host now u db = ground arith

pub flush_ledger-data :
    (host : Host) (now : Timestamp) (u : LedgerUpdate) (db : Db)
    → (flush_ledger host now u db).account_data
      ≡ put_row (data_key u.account.creditor_id u.account.debtor_id) u.account db.account_data
unfolding flush_ledger
flush_ledger-data host now u db = ground arith

pub delete_pending-same :
    (is_done : Bool) (c : CreditorId) (d : DebtorId) (db : Db)
    → ((delete_pending_ledger_update is_done c d db).ledger_entries ≡ db.ledger_entries)
      × ((delete_pending_ledger_update is_done c d db).account_data ≡ db.account_data)
unfolding delete_pending_ledger_update
delete_pending-same true c d db = (refl, refl)
delete_pending-same false c d db = (refl, refl)

not_before : (a b : ℕ) → a ≤ b → ltb b a ≡ false
not_before a b h = ground arith

-- The transaction, step by step: its result, once its parts are known.
pub runs :
    (host : Host) (now : Timestamp) (c : CreditorId) (di : DebtorId) (burst_count : ℕ)
    (max_delay : Timestamp) (db : Db) (d : AccountData) (is_done : Bool) (u : LedgerUpdate)
    → any_row (pending_key c di) db.pending_ledger_updates ≡ true
    → get_account_data c di db ≡ some d
    → max_delay ≤ now
    → bring_up_to_date (get_sorted_pending_transfers d burst_count db) burst_count max_delay now d
      ≡ ok (is_done, u)
    → process_pending_ledger_update host now c di burst_count max_delay db
      ≡ ok (is_done, flush_ledger host now u (delete_pending_ledger_update is_done c di db))
unfolding process_pending_ledger_update
runs host now c di burst_count max_delay db d is_done u pending found le e =
    rw (pending, found, not_before max_delay now le, e, update_pending)

pub key_eq : (c di a b : ℕ) → is_key c di a b ≡ true → (a ≡ c) × (b ≡ di)
key_eq c di a b h = ground arith

key_of_eq : (c di a b : ℕ) → a ≡ c → b ≡ di → is_key c di a b ≡ true
key_of_eq c di a b h k = ground arith

found-put :
    (c di c' di' : ℕ) (rows : List AccountData) (d : AccountData) (a : AccountData)
    → c' ≡ c
    → di' ≡ di
    → data_key c di a ≡ true
    → find_row (data_key c di) rows ≡ some d
    → find_row (data_key c di) (put_row (data_key c' di') a rows) ≡ some a
found-put c di c' di' rows d a ec ed k found =
    rw (ec, ed) (find_row-put_row (data_key c di) a rows d k found)

-- The account's row after the flush.
pub flushed-account :
    (c : CreditorId) (di : DebtorId) (rows : List AccountData) (d : AccountData) (a : AccountData)
    → find_row (data_key c di) rows ≡ some d
    → a.creditor_id ≡ d.creditor_id
    → a.debtor_id ≡ d.debtor_id
    → find_row (data_key c di) (put_row (data_key a.creditor_id a.debtor_id) a rows) ≡ some a
flushed-account c di rows d a found ec ed =
    let (kc, kd) =
      key_eq c di d.creditor_id d.debtor_id (find_row_sound (data_key c di) rows d found) in
    found-put c di a.creditor_id a.debtor_id rows d a (ec ∙ kc) (ed ∙ kd)
      (key_of_eq c di a.creditor_id a.debtor_id (ec ∙ kc) (ed ∙ kd)) found

-- With a pending ledger update, an account that is there and whose two principals fit 64 bits, a
-- delay that is not longer than the calendar, and committed transfers whose amounts, principals and
-- previous principals fit 64 bits, the transaction succeeds: no assertion fails. The ledger's new
-- entries are added behind the others, fit 64 bits, and lead with no gap from the account's old ledger
-- principal and entry ID to the new ones, which the account's row has in the end, and which fit
-- 64 bits; nothing but the fields of the ledger changes in the row, its update ID does not fall, and
-- the update has a log entry exactly when there are new entries.
pub process_pending_ledger_update-Progress :
    (host : Host) (now : Timestamp) (c : CreditorId) (di : DebtorId) (burst_count : ℕ)
    (max_delay : Timestamp) (db : Db) (d : AccountData)
    → any_row (pending_key c di) db.pending_ledger_updates ≡ true
    → get_account_data c di db ≡ some d
    → max_delay ≤ now
    → All IsSound db.committed_transfers
    → IsInt64 d.ledger_principal
    → IsInt64 d.principal
    → (is_done : Bool) × (u : LedgerUpdate) × (db' : Db) × (process_pending_ledger_update host now c
          di burst_count max_delay db
        ≡ ok (is_done, db'))
      × Progress d u
      × (db'.ledger_entries ≡ db.ledger_entries ++ u.entries)
      × (get_account_data c di db' ≡ some u.account)
unfolding get_account_data
process_pending_ledger_update-Progress host now c di burst_count max_delay db d pending found le
      sound hl hp =
    let (is_done, u, e, h) =
      bring_up_to_date-Progress (get_sorted_pending_transfers d burst_count db) burst_count
        max_delay now d (pending-IsSound d burst_count db sound) hl hp in
    let db1 : Db = delete_pending_ledger_update is_done c di db in
    let (same_entries, same_data) = delete_pending-same is_done c di db in
    (
      is_done,
      u,
      flush_ledger host now u db1,
      runs host now c di burst_count max_delay db d is_done u pending found le e,
      h,
      flush_ledger-entries host now u db1
          ∙ ap (λ (x : List LedgerEntry). x ++ u.entries) same_entries,
      rw (flush_ledger-data host now u db1, same_data)
          (flushed-account c di db.account_data d u.account found
            (ap (λ a. a.creditor_id) h.untouched) (ap (λ a. a.debtor_id) h.untouched)),
    )
