-- ===== src/Procedures/TransferSignals/Machine.antt =====
-- The life of a running transfer: what happens to its row, and what is answered, under any sequence
-- of messages about it and of cancellations.
use swpt_creditors.Base.{
  ℕ, ◌≡◌, ap, sym, refl, ◌⊎◌, inl, inr, Bool, true, false, not, ◌&&◌, List, [], ◌∷◌, ◌++◌, Option,
  none, some, arith, String,
}
use mathlib.Core.List.{append-nil}
use swpt_creditors.Base.Int.{ℤ, pos, eq_ℤ, eq_ℤ_iff}
use swpt_creditors.Base.Lists.{All, find_row}
use swpt_creditors.Base.Rows.{find_row-put_row_by}
use swpt_creditors.Base.Tests.{Bool-cases, is_none, opt_eq, if◌then◌else◌}
use swpt_creditors.Models.Common.{CreditorId, DebtorId, Timestamp, Uuid}
use swpt_creditors.Models.Transfer.{
  RunningTransfer, is_finalized, is_settled, sc_unexpected_error, sc_canceled_by_the_sender,
}
use swpt_creditors.Models.Signal.{Signal, finalize_transfer}
use swpt_creditors.Models.Db.{Db, committed, add_signal}
use swpt_creditors.Procedures.Transfers.{
  has_uuid, has_request_id, get_running_transfer, find_running_transfer, put_running_transfer,
  finalized, finalize_running_transfer, cancel_running_transfer,
}
use swpt_creditors.Procedures.TransferSignals.{
  RequestKey, reject_found, finalized_found, prepared_found, settle, matches_prepared, commitment,
  dismissal, process_rejected_direct_transfer_signal, process_prepared_direct_transfer_signal,
  process_finalized_direct_transfer_signal,
}

-- An answer of the accounting authority to the transfer's request, or its sender's cancellation.
-- The two IDs are the debtor's and the creditor's in the message.
pub data Event : Type 0 where
  prepared : DebtorId → CreditorId → ℤ → ℤ → String → Event
  rejected : DebtorId → CreditorId → String → ℤ → Event
  finalizes : DebtorId → CreditorId → ℤ → ℤ → String → ℤ → Event
  cancels : Event

abbrev pub key_of : DebtorId → CreditorId → CreditorId → ℕ → RequestKey
key_of debtor_id creditor_id coordinator_id request_id = record {
  debtor_id = debtor_id;
  creditor_id = creditor_id;
  coordinator_id = coordinator_id;
  coordinator_request_id = request_id;
}

-- The program's reaction to an event about the transfer with the given request ID and UUID.
unfoldable pub deliver : Timestamp → CreditorId → ℕ → Uuid → Event → Db → Db
unfolding process_rejected_direct_transfer_signal process_prepared_direct_transfer_signal
    process_finalized_direct_transfer_signal cancel_running_transfer
deliver now c r uuid (prepared d k transfer_id locked_amount recipient) db =
    process_prepared_direct_transfer_signal (key_of d k c r) transfer_id locked_amount recipient db
deliver now c r uuid (rejected d k status total) db =
    process_rejected_direct_transfer_signal now (key_of d k c r) status total db
deliver now c r uuid (finalizes d k transfer_id amount status total) db =
    process_finalized_direct_transfer_signal now (key_of d k c r) transfer_id amount status total db
deliver now c r uuid cancels db = committed db (cancel_running_transfer now c uuid db)

-- The database holds the transfer, under both of its keys.
pub record Holds (rt : RunningTransfer) (db : Db) : Type 0 where
  pub by_request : find_running_transfer rt.creditor_id rt.coordinator_request_id db ≡ some rt
  pub by_uuid : get_running_transfer rt.creditor_id rt.transfer_uuid db ≡ some rt

-- What may become of a transfer's row: a transfer ID is set where there is none and the transfer is
-- not finalized; a transfer that is not finalized gets finalized, with a new update ID.
pub data Moves (rt : RunningTransfer) : RunningTransfer → Type 0 where
  stays : Moves rt rt
  settles :
      (t : ℤ)
      → is_finalized rt ≡ false
      → rt.transfer_id ≡ none
      → Moves rt (record rt { transfer_id = some t })
  ends :
      (now : Timestamp) (code : Option String) (total : Option ℤ)
      → is_finalized rt ≡ false
      → Moves rt (finalized now code total rt)

-- A message commits nothing, or the prepared transfer that the row names.
abbrev pub Agrees : Option ℤ → Signal → Type 0
Agrees o (finalize_transfer f) = (f.committed_amount ≡ pos 0) ⊎ (o ≡ some f.transfer_id)
Agrees o _ = Unit

pub self_uuid : (rt : RunningTransfer) → has_uuid rt.creditor_id rt.transfer_uuid rt ≡ true
self_uuid rt = ground arith

self_request :
    (rt : RunningTransfer) → has_request_id rt.creditor_id rt.coordinator_request_id rt ≡ true
self_request rt = ground arith

same_request :
    (c c' r r' : ℕ) (rows : List RunningTransfer) (o : Option RunningTransfer)
    → c' ≡ c
    → r' ≡ r
    → find_row (has_request_id c r) rows ≡ o
    → find_row (has_request_id c' r') rows ≡ o
same_request c c' r r' rows o ec er h = rw (ec, er) h

same_uuid :
    (c c' u u' : ℕ) (rows : List RunningTransfer) (o : Option RunningTransfer)
    → c' ≡ c
    → u' ≡ u
    → find_row (has_uuid c u) rows ≡ o
    → find_row (has_uuid c' u') rows ≡ o
same_uuid c c' u u' rows o ec eu h = rw (ec, eu) h

other_uuid :
    (rt rt' : RunningTransfer)
    → rt'.creditor_id ≡ rt.creditor_id
    → rt'.transfer_uuid ≡ rt.transfer_uuid
    → has_uuid rt'.creditor_id rt'.transfer_uuid rt ≡ true
other_uuid rt rt' ec eu = ground arith

-- A new version of the row, with the same keys, is held after the flush.
put-Holds :
    (rt rt' : RunningTransfer) (db : Db)
    → rt'.creditor_id ≡ rt.creditor_id
    → rt'.transfer_uuid ≡ rt.transfer_uuid
    → rt'.coordinator_request_id ≡ rt.coordinator_request_id
    → Holds rt db
    → Holds rt' (put_running_transfer rt' db)
unfolding put_running_transfer find_running_transfer get_running_transfer
put-Holds rt rt' db ec eu er h = record {
  by_request =
      find_row-put_row_by _ _ rt' db.running_transfers rt (self_request rt')
        (other_uuid rt rt' ec eu)
        (same_request rt.creditor_id rt'.creditor_id rt.coordinator_request_id
          rt'.coordinator_request_id db.running_transfers (some rt) ec er h.by_request);
  by_uuid =
      find_row-put_row_by _ _ rt' db.running_transfers rt (self_uuid rt') (other_uuid rt rt' ec eu)
        (same_uuid rt.creditor_id rt'.creditor_id rt.transfer_uuid rt'.transfer_uuid
          db.running_transfers (some rt) ec eu h.by_uuid);
}

-- Only the table of running transfers matters.
Holds-same :
    (rt : RunningTransfer) (db db' : Db)
    → db'.running_transfers ≡ db.running_transfers
    → Holds rt db
    → Holds rt db'
unfolding find_running_transfer get_running_transfer
Holds-same rt db db' e h = record { by_request = rw e h.by_request; by_uuid = rw e h.by_uuid }

-- What an event has done: a move of the row, and new messages that agree with the new row.
pub record Done (rt : RunningTransfer) (db db' : Db) : Type 0 where
  pub row : RunningTransfer
  pub moves : Moves rt row
  pub holds : Holds row db'
  pub sent : List Signal
  pub signals : db'.signals ≡ db.signals ++ sent
  pub agree : All (Agrees row.transfer_id) sent

-- Whichever branch is taken.
either-Done :
    (rt : RunningTransfer) (db a b : Db) (test : Bool)
    → Done rt db a
    → Done rt db b
    → Done rt db (if test then a else b)
either-Done rt db a b true x y = x
either-Done rt db a b false x y = y

finalize-Done :
    (now : Timestamp) (rt : RunningTransfer) (code : Option String) (total : Option ℤ) (db : Db)
    → Holds rt db
    → Done rt db (finalize_running_transfer now rt code total db)
unfolding finalize_running_transfer
finalize-Done now rt code total db h = elim (Bool-cases (is_finalized rt)) [
  | inl fin ↦ rw fin (record {
    row = rt;
    moves = stays;
    holds = h;
    sent = [];
    signals = sym (append-nil db.signals);
    agree = tt;
  })
  | inr open_ ↦ rw open_ (record {
    row = finalized now code total rt;
    moves = ends now code total open_;
    holds =
        Holds-same _ (put_running_transfer (finalized now code total rt) db) _ refl
          (put-Holds rt (finalized now code total rt) db refl refl refl h);
    sent = [];
    signals = sym (append-nil db.signals);
    agree = tt;
  })
]

may_settle_facts :
    (rt : RunningTransfer)
    → (not (is_finalized rt) && is_none rt.transfer_id) ≡ true
    → (is_finalized rt ≡ false) × (rt.transfer_id ≡ none)
may_settle_facts rt h = ground arith

settle-Moves : (t : ℤ) (rt : RunningTransfer) → Moves rt (settle t rt)
unfolding settle
settle-Moves t rt = elim (Bool-cases (not (is_finalized rt) && is_none rt.transfer_id)) [
  | inl may ↦ rw (may, settle) (settles t (may_settle_facts rt may).0 (may_settle_facts rt may).1)
  | inr may_not ↦ rw (may_not, settle) stays
]

settle-keys :
    (t : ℤ) (rt : RunningTransfer)
    → ((settle t rt).creditor_id ≡ rt.creditor_id)
      × ((settle t rt).transfer_uuid ≡ rt.transfer_uuid)
      × ((settle t rt).coordinator_request_id ≡ rt.coordinator_request_id)
unfolding settle
settle-keys t rt = ground arith

same_id : (o : Option ℤ) (t : ℤ) → opt_eq eq_ℤ o (some t) ≡ true → o ≡ some t
same_id none t h = cc
same_id (some x) t h = ap some ((eq_ℤ_iff x t).0 h)

settled-Holds :
    (t : ℤ) (rt : RunningTransfer) (db : Db)
    → Holds rt db
    → Holds (settle t rt) (put_running_transfer (settle t rt) db)
settled-Holds t rt db h =
    put-Holds rt (settle t rt) db (settle-keys t rt).0 (settle-keys t rt).1 (settle-keys t rt).2 h

-- The answer to a matching prepared transfer.
answer-Done :
    (key : RequestKey) (t : ℤ) (rt : RunningTransfer) (db : Db)
    → Holds rt db
    → Done rt db (
        if opt_eq eq_ℤ (settle t rt).transfer_id (some t)
        then add_signal
            (finalize_transfer (commitment key t (settle t rt)))
            (put_running_transfer (settle t rt) db)
        else add_signal
            (finalize_transfer (dismissal key t))
            (put_running_transfer (settle t rt) db))
unfolding add_signal commitment dismissal put_running_transfer
answer-Done key t rt db h = elim (Bool-cases (opt_eq eq_ℤ (settle t rt).transfer_id (some t))) [
  | inl same ↦ rw same (record {
    row = settle t rt;
    moves = settle-Moves t rt;
    holds =
        Holds-same (settle t rt) (put_running_transfer (settle t rt) db) _ refl
          (settled-Holds t rt db h);
    sent = finalize_transfer (commitment key t (settle t rt)) ∷ [];
    signals = refl;
    agree = (inr (same_id (settle t rt).transfer_id t same), tt);
  })
  | inr other ↦ rw other (record {
    row = settle t rt;
    moves = settle-Moves t rt;
    holds =
        Holds-same (settle t rt) (put_running_transfer (settle t rt) db) _ refl
          (settled-Holds t rt db h);
    sent = finalize_transfer (dismissal key t) ∷ [];
    signals = refl;
    agree = (inl refl, tt);
  })
]

prepared-Done :
    (key : RequestKey) (t locked_amount : ℤ) (recipient : String) (rt : RunningTransfer) (db : Db)
    → Holds rt db
    → Done rt db (prepared_found key t locked_amount recipient (some rt) db)
unfolding prepared_found
prepared-Done key t locked_amount recipient rt db h =
    elim (Bool-cases (matches_prepared key locked_amount recipient rt)) [
      | inl match ↦ rw (match, prepared_found) (answer-Done key t rt db h)
      | inr no_match ↦
          rw (no_match, prepared_found)
            (record {
              row = rt;
              moves = stays;
              holds = Holds-same rt db _ refl h;
              sent = finalize_transfer (dismissal key t) ∷ [];
              signals = refl;
              agree = (inl refl, tt);
            })
    ]

stays-Done : (rt : RunningTransfer) (db : Db) → Holds rt db → Done rt db db
stays-Done rt db h = record {
  row = rt;
  moves = stays;
  holds = h;
  sent = [];
  signals = sym (append-nil db.signals);
  agree = tt;
}

rejected-Done :
    (now : Timestamp) (key : RequestKey) (status : String) (total : ℤ) (rt : RunningTransfer)
    (db : Db)
    → Holds rt db
    → Done rt db (reject_found now key status total (some rt) db)
unfolding reject_found
rejected-Done now key status total rt db h = either-Done rt db _ _ _ (stays-Done rt db h) (
    either-Done rt db _ _ _ (finalize-Done now rt (some status) (some total) db h)
      (finalize-Done now rt (some sc_unexpected_error) none db h))

finalized-Done :
    (now : Timestamp) (key : RequestKey) (t amount : ℤ) (status : String) (total : ℤ)
    (rt : RunningTransfer) (db : Db)
    → Holds rt db
    → Done rt db (finalized_found now key t amount status total (some rt) db)
unfolding finalized_found
finalized-Done now key t amount status total rt db h =
    either-Done rt db _ _ _ (stays-Done rt db h) (
      either-Done rt db _ _ _ (finalize-Done now rt none none db h) (
        either-Done rt db _ _ _ (finalize-Done now rt (some status) (some total) db h)
          (finalize-Done now rt (some sc_unexpected_error) none db h)))

cancel-Done :
    (now : Timestamp) (rt : RunningTransfer) (db : Db)
    → Holds rt db
    → Done rt db (committed db (cancel_running_transfer now rt.creditor_id rt.transfer_uuid db))
unfolding cancel_running_transfer
cancel-Done now rt db h = elim (Bool-cases (is_settled rt)) [
  | inl settled ↦ rw (h.by_uuid, settled) (stays-Done rt db h)
  | inr unsettled ↦
      rw (h.by_uuid, unsettled) (finalize-Done now rt (some sc_canceled_by_the_sender) none db h)
]

-- One event.
pub deliver-Done :
    (now : Timestamp) (rt : RunningTransfer) (e : Event) (db : Db)
    → Holds rt db
    → Done rt db (deliver now rt.creditor_id rt.coordinator_request_id rt.transfer_uuid e db)
unfolding deliver
deliver-Done now rt (prepared d k t locked recipient) db h =
    rw h.by_request (
      prepared-Done (key_of d k rt.creditor_id rt.coordinator_request_id) t locked recipient rt db
        h)
deliver-Done now rt (rejected d k status total) db h =
    rw h.by_request
      (rejected-Done now (key_of d k rt.creditor_id rt.coordinator_request_id) status total rt db h)
deliver-Done now rt (finalizes d k t amount status total) db h = rw h.by_request (
    finalized-Done now (key_of d k rt.creditor_id rt.coordinator_request_id) t amount status total
      rt db h)
deliver-Done now rt cancels db h = cancel-Done now rt db h
