-- ===== src/Procedures/LedgerUpdates/Order.antt =====
-- About the order in which `process_pending_ledger_update` enters transfers, and about its repeated
-- calls (procedures/account_updates.py).
use swpt_creditors.Base.{
  ℕ, zero, suc, ◌-◌, ◌≤◌, ◌<◌, ◌≡◌, ◌≢◌, ap, ◌∙◌, refl, ◌⊎◌, inl, inr, Bool, true, false, ◌||◌,
  List, [], ◌∷◌, arith,
}
use mathlib.Core.Path.{subst, subst₂}
use swpt_creditors.Base.Int.{ℤ}
use swpt_creditors.Base.Lists.{length, All, take, rows_where}
use swpt_creditors.Base.Sort.{SortedFrom, sort_by-SortedFrom, sort_by-All}
use swpt_creditors.Base.Tests.{Bool-cases, ltb}
use swpt_creditors.Models.Common.{Timestamp, Error}
use swpt_creditors.Models.Account.{AccountData}
use swpt_creditors.Models.Transfer.{CommittedTransfer}
use swpt_creditors.Models.Db.{Db, Result, ok, err}
use swpt_creditors.Procedures.Ledger.{LedgerUpdate, no_update, update_ledger}
use swpt_creditors.Procedures.LedgerUpdates.{
  add_transfers, conclude, must_wait, then_update, repair_if_done, bring_up_to_date,
  get_sorted_pending_transfers, is_pending_transfer,
}

-- How the loop may treat the transfers, from the ledger's last transfer number to its new one. A
-- transfer is entered if it continues the ledger, or is older than the cutoff; at the first one
-- that is neither the loop stops.
pub data Absorbs (cutoff : Timestamp) : ℕ → List CommittedTransfer → Bool → ℕ → Type 0 where
  exhausted : {n : ℕ} → Absorbs cutoff n [] false n
  waits :
      {n : ℕ} (t : CommittedTransfer) (ts : List CommittedTransfer)
      → t.previous_transfer_number ≢ n
      → cutoff ≤ t.committed_at
      → Absorbs cutoff n (t ∷ ts) true n
  enters :
      {n m : ℕ} {broke : Bool} (t : CommittedTransfer) (ts : List CommittedTransfer)
      → (t.previous_transfer_number ≡ n) ⊎ (t.committed_at < cutoff)
      → Absorbs cutoff t.transfer_number ts broke m
      → Absorbs cutoff n (t ∷ ts) broke m

pub update_ledger_number :
    (d : AccountData) (number : ℕ) (acquired_amount principal : ℤ) (now : Timestamp) (always : Bool)
    (v : LedgerUpdate)
    → update_ledger d number acquired_amount principal now always ≡ ok v
    → v.account.ledger_last_transfer_number ≡ number
unfolding update_ledger
update_ledger_number d number acquired_amount principal now always v e = ground arith

wait_facts :
    (cutoff : Timestamp) (d : AccountData) (t : CommittedTransfer)
    → must_wait cutoff d t ≡ true
    → (t.previous_transfer_number ≢ d.ledger_last_transfer_number) × (cutoff ≤ t.committed_at)
unfolding must_wait
wait_facts cutoff d t h = ground arith

go_facts :
    (cutoff : Timestamp) (d : AccountData) (t : CommittedTransfer)
    → must_wait cutoff d t ≡ false
    → (t.previous_transfer_number ≡ d.ledger_last_transfer_number) ⊎ (t.committed_at < cutoff)
unfolding must_wait
go_facts cutoff d t h = ground arith

pub Result-cases :
    {A : Type 0} (r : Result A) → ((a : A) × (r ≡ ok a)) ⊎ ((e : Error) × (r ≡ err e))
Result-cases (ok a) = inl (a, refl)
Result-cases (err e) = inr (e, refl)

abbrev pub broke_of : Result (Bool × LedgerUpdate) → Bool
broke_of (ok (broke, v)) = broke
broke_of (err e) = false

abbrev number_of : Result (Bool × LedgerUpdate) → ℕ
number_of (ok (broke, v)) = v.account.ledger_last_transfer_number
number_of (err e) = 0

-- When the loop over a list of transfers ends normally, each transfer that was entered in the ledger
-- had the ledger's last transfer number as its previous number, or was committed before the cutoff;
-- the first transfer that meets neither ends the loop early; without such a transfer all are
-- entered; and the ledger's last transfer number is in the end that of the last one entered.
pub add_transfers-Absorbs :
    (cutoff now : Timestamp) (ts : List CommittedTransfer) (u : LedgerUpdate) (broke : Bool)
    (v : LedgerUpdate)
    → add_transfers cutoff now ts u ≡ ok (broke, v)
    → Absorbs cutoff u.account.ledger_last_transfer_number ts broke
        v.account.ledger_last_transfer_number
unfolding add_transfers
add_transfers-Absorbs cutoff now [] u broke v e =
    subst₂ (λ b m. Absorbs cutoff u.account.ledger_last_transfer_number [] b m) (ap broke_of e)
      (ap number_of e) exhausted
add_transfers-Absorbs cutoff now (t ∷ ts) u broke v e =
    elim (Bool-cases (must_wait cutoff u.account t)) [
      | inl wait ↦
          subst₂ (λ b m. Absorbs cutoff u.account.ledger_last_transfer_number (t ∷ ts) b m)
            (ap broke_of (rw (wait, add_transfers) at e))
            (ap number_of (rw (wait, add_transfers) at e))
            (waits t ts (wait_facts cutoff u.account t wait).0
              (wait_facts cutoff u.account t wait).1)
      | inr go ↦
          elim (Result-cases
            (update_ledger u.account t.transfer_number t.acquired_amount t.principal now false)) [
              | inl (w, k) ↦ enters t ts (go_facts cutoff u.account t go) (
                  subst (λ n. Absorbs cutoff n ts broke v.account.ledger_last_transfer_number)
                    (update_ledger_number u.account t.transfer_number t.acquired_amount t.principal
                      now false w k)
                    (add_transfers-Absorbs cutoff now ts (then_update u w) broke v
                      (rw (go, k, add_transfers) at e)))
              | inr (x, k) ↦ cc (rw (go, k, add_transfers) at e)
            ]
    ]

-- Every transfer's number is above the ledger's.
abbrev pub Above : ℕ → List CommittedTransfer → Type 0
Above n ts = All (λ t. n < t.transfer_number) ts

-- Over transfers in the order of their numbers, the ledger's number does not fall; if the loop was
-- not left early and there was a transfer, it rises.
Absorbs-le :
    {cutoff : Timestamp} {n m : ℕ} {broke : Bool} (ts : List CommittedTransfer)
    → Absorbs cutoff n ts broke m
    → SortedFrom (λ t. t.transfer_number) n ts
    → n ≤ m
Absorbs-le _ exhausted s = omega arith
Absorbs-le _ (waits t ts h k) s = omega arith
Absorbs-le _ (enters t ts h a) s = omega (arith, Absorbs-le ts a s.1)

Absorbs-lt :
    {cutoff : Timestamp} {n m : ℕ} (ts : List CommittedTransfer)
    → Absorbs cutoff n ts false m
    → SortedFrom (λ t. t.transfer_number) n ts
    → Above n ts
    → 0 < length ts
    → n < m
Absorbs-lt _ exhausted s a k = absurd (omega arith)
Absorbs-lt _ (enters t ts h b) s a k = omega (arith, Absorbs-le ts b s.1, a.0)

-- The transfers that are read are in order, and above the ledger's number.
SortedFrom-take :
    (b k : ℕ) (xs : List CommittedTransfer)
    → SortedFrom (λ t. t.transfer_number) b xs
    → SortedFrom (λ t. t.transfer_number) b (take k xs)
SortedFrom-take b zero xs s = tt
SortedFrom-take b (suc k) [] s = tt
SortedFrom-take b (suc k) (x ∷ xs) s = (s.0, SortedFrom-take x.transfer_number k xs s.1)

Above-take : (n k : ℕ) (xs : List CommittedTransfer) → Above n xs → Above n (take k xs)
Above-take n zero xs a = tt
Above-take n (suc k) [] a = tt
Above-take n (suc k) (x ∷ xs) a = (a.0, Above-take n k xs a.1)

SortedFrom-raise :
    (n : ℕ) (xs : List CommittedTransfer)
    → Above n xs
    → SortedFrom (λ t. t.transfer_number) 0 xs
    → SortedFrom (λ t. t.transfer_number) n xs
SortedFrom-raise n [] a s = tt
SortedFrom-raise n (x ∷ xs) a s = (omega (arith, a.0), s.1)

pending-Above :
    (d : AccountData) (xs : List CommittedTransfer)
    → Above d.ledger_last_transfer_number (rows_where (is_pending_transfer d) xs)
unfolding is_pending_transfer
pending-Above d [] = tt
pending-Above d (x ∷ xs) = ground (arith, pending-Above d xs)

module _ (d : AccountData) (burst_count : ℕ) (db : Db) where
  pub get_sorted-Above :
      Above d.ledger_last_transfer_number (get_sorted_pending_transfers d burst_count db)
  unfolding get_sorted_pending_transfers
  get_sorted-Above =
      Above-take d.ledger_last_transfer_number burst_count _
        (sort_by-All _ _ _ (pending-Above d db.committed_transfers))

  pub get_sorted-SortedFrom :
      SortedFrom
        (λ t. t.transfer_number)
        d.ledger_last_transfer_number
        (get_sorted_pending_transfers d burst_count db)
  unfolding get_sorted_pending_transfers
  get_sorted-SortedFrom = SortedFrom-take d.ledger_last_transfer_number burst_count _ (
      SortedFrom-raise d.ledger_last_transfer_number _
        (sort_by-All _ _ _ (pending-Above d db.committed_transfers))
        (sort_by-SortedFrom (λ t. t.transfer_number)
          (rows_where (is_pending_transfer d) db.committed_transfers)))

abbrev pub no_lu : LedgerUpdate → Result (Bool × LedgerUpdate) → LedgerUpdate
no_lu u (ok (b, v)) = v
no_lu u (err e) = u

conclude_unfinished :
    (is_done : Bool) (max_delay now : Timestamp) (u v : LedgerUpdate)
    → conclude is_done max_delay now u ≡ ok (false, v)
    → (is_done ≡ false) × (u ≡ v)
unfolding conclude
conclude_unfinished false max_delay now u v e = (refl, ap (no_lu u) e)
conclude_unfinished true max_delay now u v e =
    elim (Result-cases (repair_if_done true max_delay now u)) [
      | inl (w, k) ↦ cc (ap broke_of (rw (k, conclude) at e))
      | inr (x, k) ↦ cc (rw (k, conclude) at e)
    ]

unfinished_test : (broke : Bool) (k n : ℕ) → (broke || ltb k n) ≡ false → (broke ≡ false) × (n ≤ k)
unfinished_test broke k n h = ground arith

-- Where the work is not done, the loop was not left early, there was a whole burst of transfers,
-- and nothing was repaired.
unfinished_facts :
    (ts : List CommittedTransfer) (burst_count : ℕ) (max_delay now : Timestamp) (d : AccountData)
    (v : LedgerUpdate)
    → bring_up_to_date ts burst_count max_delay now d ≡ ok (false, v)
    → (add_transfers (now - max_delay) now ts (no_update d) ≡ ok (false, v))
      × (burst_count ≤ length ts)
unfolding bring_up_to_date
unfinished_facts ts burst_count max_delay now d v e =
    elim (Result-cases (add_transfers (now - max_delay) now ts (no_update d))) [
      | inl ((broke, u), k) ↦
          let (h, same) =
            conclude_unfinished (broke || ltb (length ts) burst_count) max_delay now u v
              (rw (k, bring_up_to_date) at e) in
          let (unbroken, whole) = unfinished_test broke (length ts) burst_count h in
          (k ∙ ap ok (λ i. (unbroken i, same i)), whole)
      | inr (x, k) ↦ cc (rw (k, bring_up_to_date) at e)
    ]

-- Where a call with a burst of at least one transfer answers that it is not done, the last transfer
-- number of the ledger has risen.
pub unfinished_advances :
    (db : Db) (burst_count : ℕ) (max_delay now : Timestamp) (d : AccountData) (v : LedgerUpdate)
    → 0 < burst_count
    → bring_up_to_date (get_sorted_pending_transfers d burst_count db) burst_count max_delay now d
      ≡ ok (false, v)
    → d.ledger_last_transfer_number < v.account.ledger_last_transfer_number
unfinished_advances db burst_count max_delay now d v positive e =
    let (loop, whole) = unfinished_facts _ burst_count max_delay now d v e in
    Absorbs-lt (get_sorted_pending_transfers d burst_count db)
      (add_transfers-Absorbs _ now _ (no_update d) false v loop)
      (get_sorted-SortedFrom d burst_count db) (get_sorted-Above d burst_count db) (omega arith)
