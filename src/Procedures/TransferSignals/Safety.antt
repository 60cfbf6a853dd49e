-- ===== src/Procedures/TransferSignals/Safety.antt =====
-- About any sequence of messages and cancellations for one running transfer (procedures/transfers.py).
use mathlib.Core.Path.{subst}
use mathlib.Core.List.{append-nil, append_assoc}
use swpt_creditors.Base.{
  ℕ, ◌≡◌, ap, sym, ◌∙◌, refl, inl, inr, true, List, [], ◌∷◌, ◌++◌, Option, none, some,
}
use swpt_creditors.Base.Int.{ℤ, pos}
use swpt_creditors.Base.Lists.{All}
use swpt_creditors.Base.Rows.{All-append}
use swpt_creditors.Models.Common.{CreditorId, Timestamp, Uuid}
use swpt_creditors.Models.Transfer.{RunningTransfer, is_finalized}
use swpt_creditors.Models.Signal.{Signal, finalize_transfer}
use swpt_creditors.Models.Db.{Db}
use swpt_creditors.Procedures.Transfers.{finalized}
use swpt_creditors.Procedures.TransferSignals.Machine.{
  Event, deliver, Holds, Moves, stays, settles, ends, Agrees, Done, deliver-Done,
}

-- The events, each with its time, one after another.
unfoldable pub deliver_all : CreditorId → ℕ → Uuid → List (Timestamp × Event) → Db → Db
deliver_all c r uuid [] db = db
deliver_all c r uuid ((now, e) ∷ es) db = deliver_all c r uuid es (deliver now c r uuid e db)

-- Several moves.
pub data MovesTo : RunningTransfer → RunningTransfer → Type 0 where
  start : {a : RunningTransfer} → MovesTo a a
  more : {a b c : RunningTransfer} → Moves a b → MovesTo b c → MovesTo a c

-- The keys do not change.
Moves-keys :
    {a b : RunningTransfer}
    → Moves a b
    → (b.creditor_id ≡ a.creditor_id)
      × (b.coordinator_request_id ≡ a.coordinator_request_id)
      × (b.transfer_uuid ≡ a.transfer_uuid)
unfolding finalized
Moves-keys stays = (refl, refl, refl)
Moves-keys (settles t h k) = (refl, refl, refl)
Moves-keys (ends now code total h) = (refl, refl, refl)

-- A transfer ID that is set is never replaced.
Moves-id :
    {a b : RunningTransfer} (t : ℤ) → Moves a b → a.transfer_id ≡ some t → b.transfer_id ≡ some t
unfolding finalized
Moves-id t stays e = e
Moves-id t (settles t' h k) e = cc
Moves-id t (ends now code total h) e = e

MovesTo-id :
    {a b : RunningTransfer} (t : ℤ) → MovesTo a b → a.transfer_id ≡ some t → b.transfer_id ≡ some t
MovesTo-id t start e = e
MovesTo-id t (more m ms) e = MovesTo-id t ms (Moves-id t m e)

-- A finalized transfer stays as it is.
Moves-finalized : {a b : RunningTransfer} → Moves a b → is_finalized a ≡ true → b ≡ a
Moves-finalized stays e = refl
Moves-finalized (settles t h k) e = cc
Moves-finalized (ends now code total h) e = cc

MovesTo-finalized : {a b : RunningTransfer} → MovesTo a b → is_finalized a ≡ true → b ≡ a
MovesTo-finalized start e = refl
MovesTo-finalized (more m ms) e =
    MovesTo-finalized ms (ap is_finalized (Moves-finalized m e) ∙ e) ∙ Moves-finalized m e

Agrees-later :
    (a b : Option ℤ) (s : Signal) → ((t : ℤ) → a ≡ some t → b ≡ some t) → Agrees a s → Agrees b s
Agrees-later a b (finalize_transfer f) keep (inl e) = inl e
Agrees-later a b (finalize_transfer f) keep (inr e) = inr (keep f.transfer_id e)
Agrees-later a b s keep h = tt

All-Agrees-later :
    (a b : Option ℤ) (ss : List Signal)
    → ((t : ℤ) → a ≡ some t → b ≡ some t)
    → All (Agrees a) ss
    → All (Agrees b) ss
All-Agrees-later a b [] keep h = tt
All-Agrees-later a b (s ∷ ss) keep h =
    (Agrees-later a b s keep h.0, All-Agrees-later a b ss keep h.1)

-- What a sequence of events has done.
pub record DoneAll (rt : RunningTransfer) (db db' : Db) : Type 0 where
  pub row : RunningTransfer
  pub moves : MovesTo rt row
  pub holds : Holds row db'
  pub sent : List Signal
  pub signals : db'.signals ≡ db.signals ++ sent
  pub agree : All (Agrees row.transfer_id) sent

join-Done :
    (rt : RunningTransfer) (db db1 db2 : Db) (d : Done rt db db1)
    → DoneAll d.row db1 db2
    → DoneAll rt db db2
join-Done rt db db1 db2 d h = record {
  row = h.row;
  moves = more d.moves h.moves;
  holds = h.holds;
  sent = d.sent ++ h.sent;
  signals =
      h.signals
      ∙ ap (λ (x : List Signal). x ++ h.sent) d.signals
      ∙ append_assoc db.signals d.sent h.sent;
  agree =
      All-append (Agrees h.row.transfer_id) d.sent h.sent
        (All-Agrees-later d.row.transfer_id h.row.transfer_id d.sent (λ t e. MovesTo-id t h.moves e)
          d.agree)
        h.agree;
}

-- When the database holds a running transfer under both of its keys, whatever answers and
-- cancellations with these keys arrive, in whatever order and however often: the row in the database
-- changes only by getting a transfer ID that it did not have, while it is not finalized, or by being
-- finalized while it is not; and every message sent commits nothing, or commits the one
-- prepared transfer whose ID the row has in the end.
pub deliver_all-Done :
    (rt : RunningTransfer) (c : CreditorId) (r : ℕ) (uuid : Uuid) (es : List (Timestamp × Event))
    (db : Db)
    → rt.creditor_id ≡ c
    → rt.coordinator_request_id ≡ r
    → rt.transfer_uuid ≡ uuid
    → Holds rt db
    → DoneAll rt db (deliver_all c r uuid es db)
unfolding deliver_all
deliver_all-Done rt c r uuid [] db ec er eu h = record {
  row = rt;
  moves = start;
  holds = h;
  sent = [];
  signals = sym (append-nil db.signals);
  agree = tt;
}
deliver_all-Done rt c r uuid ((now, e) ∷ es) db ec er eu h =
    let d : Done rt db (deliver now c r uuid e db) =
      rw (← ec, ← er, ← eu) (deliver-Done now rt e db h) in
    let (kc, kr, ku) = Moves-keys d.moves in
    join-Done rt db (deliver now c r uuid e db) _ d (
      deliver_all-Done d.row c r uuid es (deliver now c r uuid e db) (kc ∙ ec) (kr ∙ er) (ku ∙ eu)
        d.holds)

-- A message that commits nothing.
abbrev pub CommitsNothing : Signal → Type 0
CommitsNothing (finalize_transfer f) = f.committed_amount ≡ pos 0
CommitsNothing _ = Unit

nothing_agreed : (o : Option ℤ) (s : Signal) → o ≡ none → Agrees o s → CommitsNothing s
nothing_agreed o (finalize_transfer f) e (inl h) = h
nothing_agreed o (finalize_transfer f) e (inr h) = cc
nothing_agreed o s e h = tt

All-nothing_agreed :
    (o : Option ℤ) (ss : List Signal) → o ≡ none → All (Agrees o) ss → All CommitsNothing ss
All-nothing_agreed o [] e h = tt
All-nothing_agreed o (s ∷ ss) e h = (nothing_agreed o s e h.0, All-nothing_agreed o ss e h.1)

-- When the database holds a running transfer that was finalized without a transfer ID, as by a
-- cancellation or a rejection, whatever events with its keys follow leave its row as it is, and
-- no message that they send commits anything.
pub failed_never_commits :
    (rt : RunningTransfer) (es : List (Timestamp × Event)) (db : Db)
    → Holds rt db
    → is_finalized rt ≡ true
    → rt.transfer_id ≡ none
    → let db' = deliver_all rt.creditor_id rt.coordinator_request_id rt.transfer_uuid es db in
      Holds rt db'
      × (sent : List Signal) × (db'.signals ≡ db.signals ++ sent)
      × All CommitsNothing sent
failed_never_commits rt es db h fin none_set =
    let d =
      deliver_all-Done rt rt.creditor_id rt.coordinator_request_id rt.transfer_uuid es db refl refl
        refl h in
    let same = MovesTo-finalized d.moves fin in
    (
      subst
          (λ r.
            Holds r (deliver_all rt.creditor_id rt.coordinator_request_id rt.transfer_uuid es db))
          same d.holds,
      d.sent,
      d.signals,
      All-nothing_agreed d.row.transfer_id d.sent (ap (λ r. r.transfer_id) same ∙ none_set) d.agree,
    )
