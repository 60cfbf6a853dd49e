-- ===== src/Procedures/Log/Numbering.antt =====
-- The numbers of the entries that `process_pending_log_entries` adds to a creditor's log.
use swpt_creditors.Base.{
  ℕ, ◌+◌, ◌≡◌, refl, sym, ◌∙◌, ap, inl, inr, not, Bool, none, some, List, [], ◌∷◌, ◌++◌, arith,
}
use swpt_creditors.Base.Lists.{length, find_row, rows_where, delete_where, put_row}
use swpt_creditors.Base.Rows.{find_row_sound, find_row-put_row_by, find_row-delete_where}
use swpt_creditors.Base.Tests.{◌==◌, ==_iff, Bool-cases, if◌then◌else◌}
use swpt_creditors.Models.Common.{CreditorId, Timestamp}
use swpt_creditors.Models.Log.{BaseLogEntry, PendingLogEntry, LogEntry}
use swpt_creditors.Models.Creditor.{Creditor}
use swpt_creditors.Models.Db.{Db, ok}
use swpt_creditors.Procedures.Creditors.{get_creditor, put_creditor, has_creditor_id}
use swpt_creditors.Procedures.Log.{
  LogState, add_log_entry, add_transfers_list_update_log_entry, process_pending_log_entry,
  process_all, process_pending_log_entries, changes_transfers_list, pending_of, delete_pending,
  log_for,
}

-- The entries of one creditor, with the IDs that follow n, none left out.
abbrev pub Numbered : CreditorId → ℕ → List LogEntry → Type 0
Numbered creditor_id n [] = Unit
Numbered creditor_id n (e ∷ es) =
    (e.creditor_id ≡ creditor_id) × (e.entry_id ≡ n + 1) × Numbered creditor_id (n + 1) es

Numbered-append :
    (c : CreditorId) (n m : ℕ) (es : List LogEntry) (e : LogEntry)
    → Numbered c n es
    → m ≡ n + length es
    → e.creditor_id ≡ c
    → e.entry_id ≡ m + 1
    → Numbered c n (es ++ e ∷ [])
Numbered-append c n m [] e h hm hc he = (hc, omega arith, tt)
Numbered-append c n m (x ∷ es) e (hx, hn, h) hm hc he =
    (hx, hn, Numbered-append c (n + 1) m es e h (omega arith) hc he)

length-snoc : (es : List LogEntry) (e : LogEntry) → length (es ++ e ∷ []) ≡ length es + 1
length-snoc [] e = refl
length-snoc (x ∷ es) e = omega (arith, length-snoc es e)

-- What holds between two entries: the added ones are numbered from the ID n on, and the creditor's
-- row knows the last of them.
pub record Logging (c : CreditorId) (n : ℕ) (s : LogState) : Type 0 where
  pub creditor_is : s.creditor.creditor_id ≡ c
  pub last_is : s.creditor.last_log_entry_id ≡ n + length s.added
  pub numbered : Numbered c n s.added

add_log_entry-Logging :
    (c : CreditorId) (n : ℕ) (entry : BaseLogEntry) (s : LogState)
    → Logging c n s
    → Logging c n (add_log_entry entry s)
unfolding add_log_entry
add_log_entry-Logging c n entry s l = record {
  creditor_is = l.creditor_is;
  last_is = omega (
    arith,
    l.last_is,
    length-snoc s.added (record {
      creditor_id = s.creditor.creditor_id;
      entry_id = s.creditor.last_log_entry_id + 1;
      entry = entry;
    }),
  );
  numbered =
      Numbered-append c n s.creditor.last_log_entry_id s.added _ l.numbered l.last_is l.creditor_is
        refl;
}

list_update-Logging :
    (c : CreditorId) (n : ℕ) (added_at : Timestamp) (s : LogState)
    → Logging c n s
    → Logging c n (add_transfers_list_update_log_entry added_at s)
unfolding add_transfers_list_update_log_entry
list_update-Logging c n added_at s l =
    add_log_entry-Logging c n _ _
      (record { creditor_is = l.creditor_is; last_is = l.last_is; numbered = l.numbered })

process_one-Logging :
    (c : CreditorId) (n : ℕ) (s : LogState) (p : PendingLogEntry)
    → Logging c n s
    → Logging c n (process_pending_log_entry s p)
unfolding process_pending_log_entry
process_one-Logging c n s p l = elim (Bool-cases (changes_transfers_list p.entry)) [
  | inl t ↦ rw t (list_update-Logging c n _ _ (add_log_entry-Logging c n p.entry s l))
  | inr f ↦ rw f (add_log_entry-Logging c n p.entry s l)
]

pub process_all-Logging :
    (c : CreditorId) (n : ℕ) (s : LogState) (ps : List PendingLogEntry)
    → Logging c n s
    → Logging c n (process_all s ps)
unfolding process_all
process_all-Logging c n s [] l = l
process_all-Logging c n s (p ∷ ps) l =
    process_all-Logging c n (process_pending_log_entry s p) ps (process_one-Logging c n s p l)

-- The number of entries that the loop adds: one for each pending entry, and another where the list
-- of transfers has changed.
abbrev pub entries_of : PendingLogEntry → ℕ
entries_of p = if changes_transfers_list p.entry then 2 else 1

abbrev pub entries_for : List PendingLogEntry → ℕ
entries_for [] = 0
entries_for (p ∷ ps) = entries_of p + entries_for ps

add_log_entry-length :
    (entry : BaseLogEntry) (s : LogState)
    → length (add_log_entry entry s).added ≡ length s.added + 1
unfolding add_log_entry
add_log_entry-length entry s = length-snoc s.added _

list_update-length :
    (added_at : Timestamp) (s : LogState)
    → length (add_transfers_list_update_log_entry added_at s).added ≡ length s.added + 1
unfolding add_transfers_list_update_log_entry add_log_entry
list_update-length added_at s = length-snoc s.added _

process_one-length :
    (s : LogState) (p : PendingLogEntry)
    → length (process_pending_log_entry s p).added ≡ length s.added + entries_of p
unfolding process_pending_log_entry
process_one-length s p =
    let one = add_log_entry-length p.entry s in
    elim (Bool-cases (changes_transfers_list p.entry)) [
      | inl t ↦
          rw t (omega (arith, one, list_update-length p.entry.added_at (add_log_entry p.entry s)))
      | inr f ↦ rw f one
    ]

process_all-length :
    (s : LogState) (ps : List PendingLogEntry)
    → length (process_all s ps).added ≡ length s.added + entries_for ps
unfolding process_all
process_all-length s [] = omega arith
process_all-length s (p ∷ ps) =
    omega (arith, process_one-length s p, process_all-length (process_pending_log_entry s p) ps)

rows_where-not-delete_where {ℓ} :
    {A : Type ℓ} (p : A → Bool) (xs : List A)
    → rows_where (λ x. not (p x)) (delete_where p xs) ≡ rows_where (λ x. not (p x)) xs
rows_where-not-delete_where p [] = refl
rows_where-not-delete_where p (x ∷ xs) = ground (arith, rows_where-not-delete_where p xs)

abbrev pub is_pending_of : CreditorId → PendingLogEntry → Bool
is_pending_of creditor_id p = p.creditor_id == creditor_id

-- The database db' after the processing of the pending entries of the creditor c.
pub record Processed (creditor_id : CreditorId) (c : Creditor) (db db' : Db) : Type 0 where
  pub added : List LogEntry
  pub log_is : db'.log_entries ≡ db.log_entries ++ added
  pub numbered : Numbered creditor_id c.last_log_entry_id added
  pub count_is : length added ≡ entries_for (pending_of creditor_id db)
  pub creditor' : Creditor
  pub stored : get_creditor creditor_id db' ≡ some creditor'
  pub last_is : creditor'.last_log_entry_id ≡ c.last_log_entry_id + length added
  pub none_left : find_row (is_pending_of creditor_id) db'.pending_log_entries ≡ none
  pub others_kept :
      rows_where (λ p. not (is_pending_of creditor_id p)) db'.pending_log_entries
      ≡ rows_where (λ p. not (is_pending_of creditor_id p)) db.pending_log_entries

put_creditor_found :
    (creditor_id : CreditorId) (x c : Creditor) (cs : List Creditor)
    → x.creditor_id ≡ creditor_id
    → find_row (has_creditor_id creditor_id) cs ≡ some c
    → find_row (has_creditor_id creditor_id) (put_row (has_creditor_id x.creditor_id) x cs) ≡ some x
put_creditor_found creditor_id x c cs same found =
    find_row-put_row_by (has_creditor_id x.creditor_id) (has_creditor_id creditor_id) x cs c
      ((==_iff x.creditor_id creditor_id).1 same)
      ((==_iff c.creditor_id x.creditor_id).1 (
        (==_iff c.creditor_id creditor_id).0
          (find_row_sound (has_creditor_id creditor_id) cs c found)
        ∙ sym same))
      found

log_for-Processed :
    (creditor_id : CreditorId) (db : Db) (c : Creditor)
    → get_creditor creditor_id db ≡ some c
    → Processed creditor_id c db
        (delete_pending creditor_id (log_for (some c) (pending_of creditor_id db) db))
unfolding log_for delete_pending get_creditor put_creditor
log_for-Processed creditor_id db c e =
    let ps = pending_of creditor_id db in
    let start : LogState = record { creditor = c; added = [] } in
    let is_c = (find_row_sound (has_creditor_id creditor_id) db.creditors c e) in
    let l = process_all-Logging creditor_id c.last_log_entry_id start ps (record {
      creditor_is = (==_iff c.creditor_id creditor_id).0 is_c;
      last_is = omega arith;
      numbered = tt;
    }) in
    record {
      added = (process_all start ps).added;
      log_is = refl;
      numbered = l.numbered;
      count_is = omega (arith, process_all-length start ps);
      creditor' = (process_all start ps).creditor;
      stored =
          put_creditor_found creditor_id (process_all start ps).creditor c db.creditors
            l.creditor_is e;
      last_is = l.last_is;
      none_left = find_row-delete_where (is_pending_of creditor_id) db.pending_log_entries;
      others_kept = rows_where-not-delete_where (is_pending_of creditor_id) db.pending_log_entries;
    }

-- A run of `process_pending_log_entries` for a creditor that exists always commits. The entries
-- that it adds at the end of the log belong to the creditor and have the IDs that follow the
-- creditor's `last_log_entry_id`, one after another without a gap; there is one for each pending
-- entry of the creditor and one more for each that tells of a created or deleted transfer; the
-- creditor's row stays in place, with the last of the IDs as its `last_log_entry_id`; no pending
-- entry of the creditor is left, and those of other creditors are all kept, in their order.
pub process_pending_log_entries-Processed :
    (creditor_id : CreditorId) (db : Db) (c : Creditor)
    → get_creditor creditor_id db ≡ some c
    → (db' : Db) × (process_pending_log_entries creditor_id db ≡ ok (tt, db'))
      × Processed creditor_id c db db'
unfolding process_pending_log_entries
process_pending_log_entries-Processed creditor_id db c e = (
  delete_pending creditor_id (log_for (some c) (pending_of creditor_id db) db),
  ap (λ o. ok (tt, delete_pending creditor_id (log_for o (pending_of creditor_id db) db))) e,
  log_for-Processed creditor_id db c e,
)
