-- ===== src/Scanners/Retention/Kept.antt =====
-- What the scanners of log entries, ledger entries and committed transfers (table_scanners.py) keep.
use swpt_creditors.Base.{
  ℕ, ◌+◌, ◌-◌, ◌≤◌, ◌≡◌, ap, sym, ◌∙◌, refl, inl, inr, ◌⊎◌, Bool, true, false, ◌&&◌, ◌||◌, List, [],
  ◌∷◌, arith,
}
use swpt_creditors.Base.Lists.{All, any_row, rows_where, delete_where}
use swpt_creditors.Base.Rows.{All-map, rows_where-delete_other, delete_where_cong, still}
use swpt_creditors.Base.Tests.{Bool-cases, ltb}
use swpt_creditors.Models.Common.{Timestamp}
use swpt_creditors.Models.Log.{LogEntry}
use swpt_creditors.Models.Account.{LedgerEntry}
use swpt_creditors.Models.Transfer.{CommittedTransfer}
use swpt_creditors.Models.Db.{Db}
use swpt_creditors.Scanners.{Config, belongs_to_parent_shard}
use swpt_creditors.Scanners.Retention.{
  is_stale_log_entry, is_stale_ledger_entry, transfer_retention_interval, is_stale_transfer,
  is_same_transfer, scan_committed_transfers,
}

-- Rows with the same primary key are the same row.
abbrev pub IsKeyed : {A : Type 0} → (A → A → Bool) → List A → Type 0
IsKeyed same xs = All (λ x. All (λ y. same x y ≡ true → y ≡ x) xs) xs

module _ {A : Type 0} (same : A → A → Bool) (p : A → Bool) where
  -- A row that does not pass has no row with its key among those that pass.
  unselected :
      (x : A) (xs : List A)
      → p x ≡ false
      → All (λ y. same x y ≡ true → y ≡ x) xs
      → any_row (same x) (rows_where p xs) ≡ false
  unselected x [] h k = refl
  unselected x (y ∷ xs) h k =
      let rest = unselected x xs h k.1 in
      elim (Bool-cases (same x y)) [
        | inl equal ↦ rw (ap p (k.0 equal) ∙ h) rest
        | inr other ↦ ground arith
      ]

  selected :
      (xs : List A)
      → ((x : A) → same x x ≡ true)
      → All (λ x. p x ≡ true → any_row (same x) (rows_where p xs) ≡ true) xs
  selected [] itself = tt
  selected (y ∷ xs) itself = (
    λ h. rw (h, itself y) refl,
    All-map xs (λ x seen h. still (same x) p y xs (seen h)) (selected xs itself),
  )

  choose :
      (xs ys : List A)
      → All (λ x. p x ≡ true → any_row (same x) (rows_where p ys) ≡ true) xs
      → All (λ x. All (λ y. same x y ≡ true → y ≡ x) ys) xs
      → All (λ x. any_row (same x) (rows_where p ys) ≡ p x) xs
  choose [] ys h k = tt
  choose (x ∷ xs) ys h k = (
    elim (Bool-cases (p x)) [
      | inl stale ↦ h.0 stale ∙ sym stale
      | inr fresh ↦ unselected x ys fresh k.0 ∙ sym fresh
    ],
    choose xs ys h.1 k.1,
  )

  -- The deletion by keys of the rows that pass, over all of the table, is their deletion.
  pub delete_by_keys :
      (xs : List A)
      → ((x : A) → same x x ≡ true)
      → IsKeyed same xs
      → delete_where (λ x. any_row (same x) (rows_where p xs)) xs ≡ delete_where p xs
  delete_by_keys xs itself keyed =
      delete_where_cong _ p xs (choose xs xs (selected xs itself) keyed)

  -- A row that does not pass is kept, whatever rows are scanned.
  keeps :
      (x : A) (rows xs : List A)
      → ((y z : A) → same x y ≡ true → same y z ≡ same x z)
      → p x ≡ false
      → All (λ y. same x y ≡ true → y ≡ x) rows
      → rows_where (same x) (delete_where (λ y. any_row (same y) (rows_where p rows)) xs)
        ≡ rows_where (same x) xs
  keeps x rows xs key h k =
      rows_where-delete_other (same x) _ xs
        (λ y e. (λ i. any_row (λ z. key y z e i) (rows_where p rows)) ∙ unselected x rows h k)

-- A ledger entry or a log entry about a transfer: it has the same creditor, and was added no later
-- than the longest delay of transfers after the commit.
abbrev pub Refers : Config → CommittedTransfer → LedgerEntry ⊎ LogEntry → Type 0
Refers config t (inl e) =
    (e.creditor_id ≡ t.creditor_id) × (e.added_at ≤ t.committed_at + config.max_transfer_delay)
Refers config t (inr e) =
    (e.creditor_id ≡ t.creditor_id)
    × (e.entry.added_at ≤ t.committed_at + config.max_transfer_delay)

-- The entry's scanner does not delete it.
abbrev pub Retained : Config → Timestamp → LedgerEntry ⊎ LogEntry → Type 0
Retained config now (inl e) = is_stale_ledger_entry config now e ≡ false
Retained config now (inr e) = is_stale_log_entry config now e ≡ false

not_older :
    (now added committed r delay longest : ℕ) (x y : Bool)
    → added ≤ committed + delay
    → r ≤ longest
    → x ≡ y
    → (ltb added (now - r) || x) ≡ false
    → (ltb committed (now - (delay + longest)) || y) ≡ false
not_older now added committed r delay longest x y near le same h = ground arith

-- What is kept for its age is kept longer as a committed transfer.
outlives :
    (config : Config) (now : Timestamp) (t : CommittedTransfer) (e : LedgerEntry ⊎ LogEntry)
    → Refers config t e
    → Retained config now e
    → is_stale_transfer config now t ≡ false
unfolding is_stale_transfer is_stale_ledger_entry is_stale_log_entry transfer_retention_interval
outlives config now t (inl e) h k =
    not_older now e.added_at t.committed_at config.ledger_retention_interval _ _ _ _ h.1
      (omega arith)
      (ap (λ c. config.delete_parent_shard_records && belongs_to_parent_shard config c) h.0) k
outlives config now t (inr e) h k =
    not_older now e.entry.added_at t.committed_at config.log_retention_interval _ _ _ _ h.1
      (omega arith)
      (ap (λ c. config.delete_parent_shard_records && belongs_to_parent_shard config c) h.0) k

-- As long as the scanner of a ledger entry, or of a log entry, keeps an entry about a committed
-- transfer that was added no later than the longest delay of transfers after the commit, the scanner
-- of committed transfers keeps the transfer, whatever rows it is given, as long as a row with the
-- transfer's key is the transfer.
pub scan_committed_transfers-keeps :
    (config : Config) (now : Timestamp) (rows : List CommittedTransfer) (t : CommittedTransfer)
    (e : LedgerEntry ⊎ LogEntry) (db : Db)
    → All (λ y. is_same_transfer t y ≡ true → y ≡ t) rows
    → Refers config t e
    → Retained config now e
    → rows_where
        (is_same_transfer t)
        (scan_committed_transfers config now rows db).committed_transfers
      ≡ rows_where (is_same_transfer t) db.committed_transfers
unfolding scan_committed_transfers
scan_committed_transfers-keeps config now rows t e db immutable refers retained =
    keeps is_same_transfer (is_stale_transfer config now) t rows db.committed_transfers
      (λ y z same. ground arith) (outlives config now t e refers retained) immutable
