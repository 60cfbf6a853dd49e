-- ===== src/StoredProcedures/Log/Agrees.antt =====
-- The two branches of `process_pending_log_entries` (procedures/creditors.py): the stored procedure,
-- and the program's own code.
use swpt_creditors.Base.{
  ◌≡◌, ap, sym, ◌∙◌, refl, inl, inr, true, false, Option, none, some, List, [], ◌∷◌, ◌++◌, arith,
}
use mathlib.Core.Path.{subst}
use swpt_creditors.Base.Lists.{All, delete_where, update_where, put_row}
use swpt_creditors.Base.Rows.{All-map, find_row_sound, update_where-put_row}
use swpt_creditors.Base.Tests.{==_iff, Bool-cases, Option-cases}
use swpt_creditors.Models.Common.{CreditorId}
use swpt_creditors.Models.Log.{BaseLogEntry, PendingLogEntry, is_created, get_object_type}
use swpt_creditors.Models.Creditor.{Creditor, generate_log_entry_id}
use swpt_creditors.Models.Db.{Db, Result, ok}
use swpt_creditors.Procedures.Creditors.{has_creditor_id, get_creditor, put_creditor}
use swpt_creditors.Procedures.Log.{
  LogState, add_log_entry, add_transfers_list_update_log_entry, changes_transfers_list,
  process_pending_log_entry, process_all, pending_of, delete_pending, log_for,
  process_pending_log_entries,
}
use swpt_creditors.StoredProcedures.Log.Deletions.{is_entry_of, deletions_agree}
use swpt_creditors.StoredProcedures.Log.{
  changes_transfers_list_sp, process_entry_sp, process_entries_sp, delete_entries_sp, set_creditor,
  log_for_sp, scanned, process_pending_log_entries_sp, call_process_pending_log_entries,
}

-- The two conditions for an entry of the list of transfers are the same.
changes_agrees : (e : BaseLogEntry) → changes_transfers_list_sp e ≡ changes_transfers_list e
unfolding changes_transfers_list_sp changes_transfers_list is_created get_object_type
changes_agrees e = ground arith

process_entry_agrees :
    (s : LogState) (p : PendingLogEntry) → process_entry_sp s p ≡ process_pending_log_entry s p
unfolding process_entry_sp process_pending_log_entry add_log_entry generate_log_entry_id
    add_transfers_list_update_log_entry
process_entry_agrees s p = elim (Bool-cases (changes_transfers_list p.entry)) [
  | inl t ↦ rw (changes_agrees p.entry ∙ t, t) refl
  | inr f ↦ rw (changes_agrees p.entry ∙ f, f) refl
]

process_entries_agrees :
    (s : LogState) (ps : List PendingLogEntry) → process_entries_sp s ps ≡ process_all s ps
unfolding process_entries_sp process_all
process_entries_agrees s [] = refl
process_entries_agrees s (p ∷ ps) =
    ap (λ r. process_entries_sp r ps) (process_entry_agrees s p)
    ∙ process_entries_agrees (process_pending_log_entry s p) ps

-- The loop changes three fields of the creditor.
one_only :
    (s : LogState) (p : PendingLogEntry)
    → set_creditor (process_pending_log_entry s p).creditor s.creditor
      ≡ (process_pending_log_entry s p).creditor
unfolding set_creditor process_pending_log_entry add_log_entry generate_log_entry_id
    add_transfers_list_update_log_entry
one_only s p = elim (Bool-cases (changes_transfers_list p.entry)) [
  | inl t ↦ rw t refl
  | inr f ↦ rw f refl
]

set_twice : (a b c : Creditor) → set_creditor a (set_creditor b c) ≡ set_creditor a c
unfolding set_creditor
set_twice a b c = refl

set_self : (c : Creditor) → set_creditor c c ≡ c
unfolding set_creditor
set_self c = refl

all_only :
    (s : LogState) (ps : List PendingLogEntry)
    → set_creditor (process_all s ps).creditor s.creditor ≡ (process_all s ps).creditor
unfolding process_all
all_only s [] = set_self s.creditor
all_only s (p ∷ ps) =
    sym (set_twice _ (process_pending_log_entry s p).creditor s.creditor)
    ∙ ap (set_creditor (process_all (process_pending_log_entry s p) ps).creditor) (one_only s p)
    ∙ all_only (process_pending_log_entry s p) ps

-- The creditor's row, which is the only one with its ID.
abbrev pub IsOnlyCreditor : Creditor → List Creditor → Type 0
IsOnlyCreditor c rows = All (λ r. has_creditor_id c.creditor_id r ≡ true → r ≡ c) rows

same_id :
    (s : LogState) (ps : List PendingLogEntry)
    → s.creditor.creditor_id ≡ (process_all s ps).creditor.creditor_id
unfolding set_creditor
same_id s ps = ap {A = Creditor} (λ c. c.creditor_id) (all_only s ps)

-- The creditor's row after the loop.
put_agrees :
    (c : Creditor) (ps : List PendingLogEntry) (rows : List Creditor)
    → IsOnlyCreditor c rows
    → let c' = (process_all (record { creditor = c; added = [] }) ps).creditor in
      update_where (has_creditor_id c.creditor_id) (set_creditor c') rows
      ≡ put_row (has_creditor_id c'.creditor_id) c' rows
put_agrees c ps rows h =
    update_where-put_row (has_creditor_id c.creditor_id) (set_creditor s.creditor) s.creditor rows
      (All-map rows (λ r same k. ap (set_creditor s.creditor) (same k) ∙ all_only start ps) h)
    ∙ ap (λ id. put_row (has_creditor_id id) s.creditor rows) (same_id start ps)
  where
    start : LogState
    start = record { creditor = c; added = [] }

    s : LogState
    s = process_all start ps

log_agrees :
    (c : Creditor) (ps : List PendingLogEntry) (db : Db)
    → IsOnlyCreditor c db.creditors
    → log_for_sp c.creditor_id (some c) ps db ≡ log_for (some c) ps db
unfolding log_for_sp log_for put_creditor
log_agrees c ps db h = rw (process_entries_agrees (record { creditor = c; added = [] }) ps) (
    ap {B = Db}
      (λ rows. record db {
        creditors = rows;
        log_entries =
            db.log_entries ++ (process_all (record { creditor = c; added = [] }) ps).added;
      })
      (put_agrees c ps db.creditors h))

found_id :
    (cid : CreditorId) (db : Db) (c : Creditor) → get_creditor cid db ≡ some c → c.creditor_id ≡ cid
unfolding get_creditor
found_id cid db c found =
    (==_iff c.creditor_id cid).0 (find_row_sound (has_creditor_id cid) db.creditors c found)

logs_agree :
    (cid : CreditorId) (ps : List PendingLogEntry) (db : Db)
    → ((c : Creditor) → get_creditor cid db ≡ some c → IsOnlyCreditor c db.creditors)
    → log_for_sp cid (get_creditor cid db) ps db ≡ log_for (get_creditor cid db) ps db
unfolding log_for_sp log_for
logs_agree cid ps db only = elim (Option-cases (get_creditor cid db)) [
  | inl missing ↦ rw missing refl
  | inr (c, found) ↦ rw found (
      subst (λ id. log_for_sp id (some c) ps db ≡ log_for (some c) ps db) (found_id cid db c found)
        (log_agrees c ps db (only c found)))
]

pending_kept :
    (cid : CreditorId) (o : Option Creditor) (ps : List PendingLogEntry) (db : Db)
    → (log_for o ps db).pending_log_entries ≡ db.pending_log_entries
unfolding log_for put_creditor
pending_kept cid none ps db = refl
pending_kept cid (some c) ps db = refl

-- Where the database returns the creditor's pending entries in the order of their IDs, and the row
-- of the creditor, if there is one, is the only one with its ID, the stored procedure and the
-- program's own code give the same result and leave the same database.
pub log_stored_procedure_agrees :
    (scan : List PendingLogEntry → List PendingLogEntry) (cid : CreditorId) (db : Db)
    → scanned scan cid db ≡ pending_of cid db
    → ((c : Creditor) → get_creditor cid db ≡ some c → IsOnlyCreditor c db.creditors)
    → call_process_pending_log_entries true scan cid db
      ≡ call_process_pending_log_entries false scan cid db
unfolding call_process_pending_log_entries process_pending_log_entries_sp
    process_pending_log_entries delete_pending pending_of
log_stored_procedure_agrees scan cid db order only =
    ap (λ ps. end (log_for_sp cid (get_creditor cid db) ps db) ps) order
    ∙ ap (λ d. end d ps) (logs_agree cid ps db only)
    ∙ ap (λ rows. ok (tt, record logged { pending_log_entries = rows }))
        (subst (λ rows. delete_entries_sp ps rows ≡ delete_where (is_entry_of cid) rows)
          (sym (pending_kept cid (get_creditor cid db) ps db))
          (deletions_agree cid db.pending_log_entries))
  where
    ps : List PendingLogEntry
    ps = pending_of cid db

    logged : Db
    logged = log_for (get_creditor cid db) ps db

    end : Db → List PendingLogEntry → Result (Unit {0} × Db)
    end d entries =
        ok (tt, record d { pending_log_entries = delete_entries_sp entries d.pending_log_entries })
