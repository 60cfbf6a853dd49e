-- ===== src/StoredProcedures/Log/Deletions.antt =====
-- The deletions of pending log entries, one by one in the stored procedure
-- `process_pending_log_entries` and by their creditor in the model of procedures/creditors.py.
use swpt_creditors.Base.{
  ℕ, ◌≡◌, ap, sym, ◌∙◌, refl, inl, inr, Bool, true, false, List, [], ◌∷◌, arith,
}
use swpt_creditors.Base.Lists.{All, any_row, rows_where, delete_where}
use swpt_creditors.Base.Rows.{All-map, delete_where_cong, still}
use swpt_creditors.Base.Sort.{insert_sorted, sort_by}
use swpt_creditors.Base.Tests.{◌==◌, if◌then◌else◌, Bool-cases}
use swpt_creditors.Models.Common.{CreditorId}
use swpt_creditors.Models.Log.{PendingLogEntry}
use swpt_creditors.StoredProcedures.Log.{is_same_entry, delete_entries_sp}

delete_where_none {ℓ} : {A : Type ℓ} (xs : List A) → delete_where (λ x. false) xs ≡ xs
delete_where_none [] = refl
delete_where_none (x ∷ xs) = ap (λ ys. x ∷ ys) (delete_where_none xs)

delete_where_twice {ℓ} :
    {A : Type ℓ} (p q : A → Bool) (xs : List A)
    → delete_where q (delete_where p xs) ≡ delete_where (λ x. if p x then true else q x) xs
delete_where_twice p q [] = refl
delete_where_twice p q (x ∷ xs) = ground (arith, delete_where_twice p q xs)

any_row-insert {ℓ} :
    {A : Type ℓ} (key : A → ℕ) (q : A → Bool) (a : A) (xs : List A)
    → any_row q (insert_sorted key a xs) ≡ any_row q (a ∷ xs)
any_row-insert key q a [] = refl
any_row-insert key q a (x ∷ xs) = ground (arith, any_row-insert key q a xs)

any_row-sort_by {ℓ} :
    {A : Type ℓ} (key : A → ℕ) (q : A → Bool) (xs : List A)
    → any_row q (sort_by key xs) ≡ any_row q xs
any_row-sort_by key q [] = refl
any_row-sort_by key q (x ∷ xs) =
    ground (arith, any_row-insert key q x (sort_by key xs), any_row-sort_by key q xs)

-- The deletions one by one, as one deletion.
delete_each :
    (entries rows : List PendingLogEntry)
    → delete_entries_sp entries rows
      ≡ delete_where (λ p. any_row (λ e. is_same_entry e p) entries) rows
unfolding delete_entries_sp
delete_each [] rows = sym (delete_where_none rows)
delete_each (e ∷ entries) rows =
    delete_each entries (delete_where (is_same_entry e) rows)
    ∙ delete_where_twice (is_same_entry e) (λ p. any_row (λ e'. is_same_entry e' p) entries) rows

abbrev pub is_entry_of : CreditorId → PendingLogEntry → Bool
is_entry_of cid p = p.creditor_id == cid

-- Only rows of the creditor are among those that were read.
absent :
    (cid : CreditorId) (x : PendingLogEntry) (rows : List PendingLogEntry)
    → is_entry_of cid x ≡ false
    → any_row (λ e. is_same_entry e x) (rows_where (is_entry_of cid) rows) ≡ false
absent cid x [] h = refl
absent cid x (y ∷ rows) h = ground (arith, absent cid x rows h)

same_itself : (x : PendingLogEntry) → is_same_entry x x ≡ true
same_itself x = ground arith

-- All rows of the creditor are.
present :
    (cid : CreditorId) (rows : List PendingLogEntry)
    → All
        (λ x.
          is_entry_of cid x ≡ true
          → any_row (λ e. is_same_entry e x) (rows_where (is_entry_of cid) rows) ≡ true)
        rows
present cid [] = tt
present cid (y ∷ rows) = (
  λ h. rw (h, same_itself y) refl,
  All-map rows (λ x seen h. still (λ e. is_same_entry e x) (is_entry_of cid) y rows (seen h))
      (present cid rows),
)

-- After the deletion of the rows that were read, in the order of their IDs, none of the creditor's
-- is left, and no other is missing.
pub deletions_agree :
    (cid : CreditorId) (rows : List PendingLogEntry)
    → delete_entries_sp (sort_by (λ p. p.pending_entry_id) (rows_where (is_entry_of cid) rows)) rows
      ≡ delete_where (is_entry_of cid) rows
deletions_agree cid rows =
    delete_each (sort_by (λ p. p.pending_entry_id) (rows_where (is_entry_of cid) rows)) rows
    ∙ delete_where_cong _ (is_entry_of cid) rows (
        All-map rows
          (λ x seen.
            any_row-sort_by (λ p. p.pending_entry_id) (λ e. is_same_entry e x)
              (rows_where (is_entry_of cid) rows)
            ∙ elim (Bool-cases (is_entry_of cid x)) [
              | inl h ↦ seen h ∙ sym h
              | inr h ↦ absent cid x rows h ∙ sym h
            ])
          (present cid rows))
