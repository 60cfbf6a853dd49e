-- ===== src/Procedures/TransferSignals/Prepared.antt =====
-- About the answers to prepared transfers (`process_prepared_direct_transfer_signal` of
-- procedures/transfers.py): the first one that fits a running transfer, the same one again, and one
-- about another prepared transfer.
use text.Mathlib.TextPositions.{eq_refl}
use swpt_creditors.Base.{
  ◌≡◌, sym, refl, ◌⊎◌, inl, inr, Bool, true, false, not, ◌&&◌, List, [], ◌∷◌, ◌++◌, Option, none,
  some, arith, String,
}
use swpt_creditors.Base.Int.{ℤ, pos, ◌≤ℤ◌, eq_ℤ, eq_ℤ_iff, leb_ℤ}
use swpt_creditors.Base.Lists.{put_row}
use swpt_creditors.Base.Rows.{find_row_sound, find_row-put_row_by}
use swpt_creditors.Base.Tests.{is_none, opt_eq, ==_refl, Bool-cases}
use swpt_creditors.Models.Transfer.{RunningTransfer, is_finalized}
use swpt_creditors.Models.Signal.{finalize_transfer, FinalizeTransferSignal}
use swpt_creditors.Models.Db.{Db, add_signal}
use swpt_creditors.Procedures.Transfers.{
  has_uuid, has_request_id, find_running_transfer, put_running_transfer,
}
use swpt_creditors.Procedures.TransferSignals.{
  RequestKey, settle, matches_prepared, commitment, dismissal,
  process_prepared_direct_transfer_signal,
}
use swpt_creditors.Procedures.TransferSignals.Machine.{self_uuid}

-- The prepared transfer is the one that the running transfer asked for.
pub record Fits (key : RequestKey) (locked_amount : ℤ) (recipient : String) (rt : RunningTransfer)
    : Type 0 where
  pub debtor_is : rt.debtor_id ≡ key.debtor_id
  pub creditor_is : rt.creditor_id ≡ key.creditor_id
  pub recipient_is : rt.recipient ≡ recipient
  pub enough : rt.locked_amount ≤ℤ locked_amount

-- The answer commits the whole amount of the running transfer, from its account and with its note.
pub record Whole (key : RequestKey) (t : ℤ) (rt : RunningTransfer) (s : FinalizeTransferSignal)
    : Type 0 where
  pub amount_is : s.committed_amount ≡ rt.amount
  pub transfer_is : s.transfer_id ≡ t
  pub creditor_is : s.creditor_id ≡ rt.creditor_id
  pub debtor_is : s.debtor_id ≡ rt.debtor_id
  pub coordinator_is : s.coordinator_id ≡ key.coordinator_id
  pub request_is : s.coordinator_request_id ≡ key.coordinator_request_id
  pub format_is : s.transfer_note_format ≡ rt.transfer_note_format
  pub note_is : s.transfer_note ≡ rt.transfer_note

-- One answer was sent, after the others.
abbrev pub Sends : Db → FinalizeTransferSignal → Db → Type 0
Sends db s db' = db'.signals ≡ db.signals ++ finalize_transfer s ∷ []

abbrev pub prepare : RequestKey → ℤ → ℤ → String → Db → Db
prepare = process_prepared_direct_transfer_signal

-- What the messages do, one after another.
pub record Commits (key : RequestKey) (t locked_amount : ℤ) (recipient : String) (t' locked' : ℤ)
    (recipient' : String) (rt : RunningTransfer) (db : Db) : Type 0 where
  pub sent : FinalizeTransferSignal
  pub whole : Whole key t rt sent
  pub sends : Sends db sent (prepare key t locked_amount recipient db)
  pub row_is :
      find_running_transfer key.coordinator_id key.coordinator_request_id
        (prepare key t locked_amount recipient db)
      ≡ some (record rt { transfer_id = some t })
  -- the same message again
  pub repeats :
      let db' = prepare key t locked_amount recipient db in
      Sends db' sent (prepare key t locked_amount recipient db')
      × ((prepare key t locked_amount recipient db').running_transfers ≡ db'.running_transfers)
  -- a message about another prepared transfer
  pub dismisses :
      let db' = prepare key t locked_amount recipient db in
      (s : FinalizeTransferSignal) × Sends db' s (prepare key t' locked' recipient' db')
      × (s.committed_amount ≡ pos 0)
      × (s.transfer_id ≡ t')
      × (find_running_transfer key.coordinator_id key.coordinator_request_id
            (prepare key t' locked' recipient' db')
          ≡ some (record rt { transfer_id = some t }))

Fits-matches :
    (key : RequestKey) (locked_amount : ℤ) (recipient : String) (rt : RunningTransfer)
    → Fits key locked_amount recipient rt
    → matches_prepared key locked_amount recipient rt ≡ true
unfolding matches_prepared
Fits-matches key locked_amount recipient rt f =
    rw
      (
        f.debtor_is,
        f.creditor_is,
        f.recipient_is,
        ==_refl key.debtor_id,
        ==_refl key.creditor_id,
        eq_refl recipient,
        enough rt.locked_amount locked_amount f.enough,
      )
      refl
  where
    enough : (a b : ℤ) → a ≤ℤ b → leb_ℤ a b ≡ true
    enough a b h = ground arith

commitment-Whole :
    (key : RequestKey) (t : ℤ) (rt rt' : RunningTransfer)
    → rt.creditor_id ≡ key.creditor_id
    → rt' ≡ record rt { transfer_id = some t }
    → Whole key t rt (commitment key t rt')
unfolding commitment
commitment-Whole key t rt rt' e same = rw same (record {
  amount_is = refl;
  transfer_is = refl;
  creditor_is = sym e;
  debtor_is = refl;
  coordinator_is = refl;
  request_is = refl;
  format_is = refl;
  note_is = refl;
})

-- A row that is put in its place again changes nothing.
put_row_twice {ℓ} :
    {A : Type ℓ} (p : A → Bool) (v : A) (xs : List A)
    → p v ≡ true
    → put_row p v (put_row p v xs) ≡ put_row p v xs
put_row_twice p v [] h = refl
put_row_twice p v (x ∷ xs) h = ground (arith, put_row_twice p v xs h)

closed : (b : Bool) (o : Option ℤ) (t : ℤ) → o ≡ some t → (not b && is_none o) ≡ false
closed b o t e = ground arith

-- A transfer that is open, or that has the same transfer ID.
settled_row :
    (t : ℤ) (rt : RunningTransfer)
    → is_finalized rt ≡ false
    → (rt.transfer_id ≡ none) ⊎ (rt.transfer_id ≡ some t)
    → settle t rt ≡ record rt { transfer_id = some t }
unfolding settle
settled_row t rt still (inl unset) = rw (still, unset, settle)
settled_row t rt still (inr set) =
    rw (closed (is_finalized rt) rt.transfer_id t set, settle)
      (λ i. record rt { transfer_id = set i })

eq_self : (t : ℤ) → eq_ℤ t t ≡ true
eq_self t = (eq_ℤ_iff t t).1 refl

-- The database after the message that fits.
abbrev settled_db : RequestKey → ℤ → RunningTransfer → Db → Db
settled_db key t rt db =
    add_signal (finalize_transfer (commitment key t (record rt { transfer_id = some t })))
      (put_running_transfer (record rt { transfer_id = some t }) db)

prepare-Fits :
    (key : RequestKey) (t locked_amount : ℤ) (recipient : String) (rt : RunningTransfer) (db : Db)
    → find_running_transfer key.coordinator_id key.coordinator_request_id db ≡ some rt
    → Fits key locked_amount recipient rt
    → settle t rt ≡ record rt { transfer_id = some t }
    → prepare key t locked_amount recipient db ≡ settled_db key t rt db
unfolding process_prepared_direct_transfer_signal
prepare-Fits key t locked_amount recipient rt db found fits settled =
    rw (found, Fits-matches key locked_amount recipient rt fits, settled, eq_self t) refl

found_after :
    (key : RequestKey) (t : ℤ) (rt : RunningTransfer) (db : Db)
    → find_running_transfer key.coordinator_id key.coordinator_request_id db ≡ some rt
    → find_running_transfer key.coordinator_id key.coordinator_request_id (settled_db key t rt db)
      ≡ some (record rt { transfer_id = some t })
unfolding find_running_transfer put_running_transfer add_signal
found_after key t rt db found =
    find_row-put_row_by _ _ _ db.running_transfers rt
      (find_row_sound (has_request_id key.coordinator_id key.coordinator_request_id)
        db.running_transfers rt found)
      (self_uuid rt) found

-- Another ID does not replace the row's.
kept_row : (t t' : ℤ) (rt : RunningTransfer) → rt.transfer_id ≡ some t → settle t' rt ≡ rt
unfolding settle
kept_row t t' rt set = rw (closed (is_finalized rt) rt.transfer_id t set, settle) refl

another :
    (o : Option ℤ) (t t' : ℤ) → o ≡ some t → eq_ℤ t t' ≡ false → opt_eq eq_ℤ o (some t') ≡ false
another o t t' set apart = rw set apart

found_again :
    (key : RequestKey) (rt : RunningTransfer) (db : Db)
    → find_running_transfer key.coordinator_id key.coordinator_request_id db ≡ some rt
    → find_running_transfer key.coordinator_id key.coordinator_request_id
        (put_running_transfer rt db)
      ≡ some rt
unfolding find_running_transfer put_running_transfer
found_again key rt db found =
    find_row-put_row_by _ _ rt db.running_transfers rt
      (find_row_sound (has_request_id key.coordinator_id key.coordinator_request_id)
        db.running_transfers rt found)
      (self_uuid rt) found

row-Fits :
    (key : RequestKey) (t locked_amount : ℤ) (recipient : String) (rt : RunningTransfer)
    → Fits key locked_amount recipient rt
    → Fits key locked_amount recipient (record rt { transfer_id = some t })
row-Fits key t locked_amount recipient rt f = record {
  debtor_is = f.debtor_is;
  creditor_is = f.creditor_is;
  recipient_is = f.recipient_is;
  enough = f.enough;
}

still_open :
    (t : ℤ) (rt : RunningTransfer)
    → is_finalized rt ≡ false
    → is_finalized (record rt { transfer_id = some t }) ≡ false
unfolding is_finalized
still_open t rt h = h

settled-Sends :
    (key : RequestKey) (t : ℤ) (rt : RunningTransfer) (db : Db)
    → Sends db (commitment key t (record rt { transfer_id = some t })) (settled_db key t rt db)
unfolding add_signal put_running_transfer
settled-Sends key t rt db = refl

settled_rows :
    (key : RequestKey) (t : ℤ) (rt : RunningTransfer) (db : Db)
    → (settled_db key t
        (record rt { transfer_id = some t })
        (settled_db key t rt db)).running_transfers
      ≡ (settled_db key t rt db).running_transfers
unfolding add_signal put_running_transfer
settled_rows key t rt db =
    put_row_twice (has_uuid rt.creditor_id rt.transfer_uuid) (record rt { transfer_id = some t })
      db.running_transfers (self_uuid rt)

dismissed_amount : (key : RequestKey) (t : ℤ) → (dismissal key t).committed_amount ≡ pos 0
unfolding dismissal
dismissed_amount key t = refl

dismissed_transfer : (key : RequestKey) (t : ℤ) → (dismissal key t).transfer_id ≡ t
unfolding dismissal
dismissed_transfer key t = refl

prepare-dismisses :
    (key : RequestKey) (t t' locked_amount : ℤ) (recipient : String) (rt : RunningTransfer)
    (db : Db)
    → find_running_transfer key.coordinator_id key.coordinator_request_id db ≡ some rt
    → rt.transfer_id ≡ some t
    → eq_ℤ t t' ≡ false
    → ((prepare key t' locked_amount recipient db).signals
        ≡ db.signals ++ finalize_transfer (dismissal key t') ∷ [])
      × (find_running_transfer key.coordinator_id key.coordinator_request_id
            (prepare key t' locked_amount recipient db)
          ≡ some rt)
unfolding process_prepared_direct_transfer_signal
prepare-dismisses key t t' locked_amount recipient rt db found set apart =
    elim (Bool-cases (matches_prepared key locked_amount recipient rt)) [
      | inr other ↦ rw (found, other) (refl, found)
      | inl fits ↦
          rw (found, fits, kept_row t t' rt set, another rt.transfer_id t t' set apart)
            (refl, found_again key rt db found)
    ]

differ : (a b : ℤ) → ¬ (a ≡ b) → eq_ℤ a b ≡ false
differ a b apart = elim (Bool-cases (eq_ℤ a b)) [
  | inl same ↦ absurd (apart ((eq_ℤ_iff a b).0 same))
  | inr other ↦ other
]

-- A message that fits an open running transfer, or one that has this transfer ID already, is answered
-- by the commitment of the whole amount with the running transfer's data, and the ID is kept; the same
-- message again is answered in the same way, and changes no running transfer; a message about another
-- prepared transfer, whatever its other data, is answered by a commitment of nothing, and the running
-- transfer keeps its ID.
pub prepared-Commits :
    (key : RequestKey) (t locked_amount : ℤ) (recipient : String) (t' locked' : ℤ)
    (recipient' : String) (rt : RunningTransfer) (db : Db)
    → find_running_transfer key.coordinator_id key.coordinator_request_id db ≡ some rt
    → Fits key locked_amount recipient rt
    → is_finalized rt ≡ false
    → (rt.transfer_id ≡ none) ⊎ (rt.transfer_id ≡ some t)
    → ¬ (t ≡ t')
    → Commits key t locked_amount recipient t' locked' recipient' rt db
prepared-Commits key t locked_amount recipient t' locked' recipient' rt db found fits still open_for
      apart =
    let row : RunningTransfer = record rt { transfer_id = some t } in
    let first : prepare key t locked_amount recipient db ≡ settled_db key t rt db =
      prepare-Fits key t locked_amount recipient rt db found fits
        (settled_row t rt still open_for) in
    let found' = found_after key t rt db found in
    let second : prepare key t locked_amount recipient (settled_db key t rt db)
        ≡ settled_db key t row (settled_db key t rt db) =
      prepare-Fits key t locked_amount recipient row (settled_db key t rt db) found'
        (row-Fits key t locked_amount recipient rt fits)
        (settled_row t row (still_open t rt still) (inr refl)) in
    record {
      sent = commitment key t row;
      whole = commitment-Whole key t rt row fits.creditor_is refl;
      sends = rw first (settled-Sends key t rt db);
      row_is = rw first found';
      repeats =
          rw (first, second)
            (settled-Sends key t row (settled_db key t rt db), settled_rows key t rt db);
      dismisses = rw first (
          let (sends, kept) =
            prepare-dismisses key t t' locked' recipient' row (settled_db key t rt db) found' refl
              (differ t t' apart) in
          (dismissal key t', sends, dismissed_amount key t', dismissed_transfer key t', kept));
    }
