-- ===== src/Tests/Transfers.antt =====
-- Running transfers at concrete inputs.
use swpt_creditors.Base.{◌≡◌, refl, inl, true, false, List, [], ◌∷◌, ◌++◌, none, some, arith}
use swpt_creditors.Base.Int.{pos}
use swpt_creditors.Base.Tests.{if◌then◌else◌}
use swpt_creditors.Base.Lists.{All}
use swpt_creditors.Models.Common.{Timestamp, transfer_exists, update_conflict}
use swpt_creditors.Models.Creditor.{is_activated, is_deactivated}
use swpt_creditors.Models.Transfer.{RunningTransfer, is_finalized}
use swpt_creditors.Models.Signal.{Signal}
use swpt_creditors.Models.Db.{Db, err}
use swpt_creditors.Procedures.Creditors.{get_creditor, get_active_creditor}
use swpt_creditors.Procedures.Transfers.{
  find_running_transfer, get_running_transfer, initiate_running_transfer, same_transfer_data,
}
use swpt_creditors.Procedures.Transfers.Initiation.{Initiated, initiate_twice}
use swpt_creditors.Procedures.TransferSignals.Machine.{
  Event, prepared, finalizes, cancels, Holds, key_of,
}
use swpt_creditors.Procedures.TransferSignals.Safety.{
  deliver_all, DoneAll, CommitsNothing, deliver_all-Done, failed_never_commits,
}
use swpt_creditors.Procedures.TransferSignals.Prepared.{Fits, Commits, prepared-Commits}
use swpt_creditors.Tests.Data.{host, creditor, running, wanted, db}

-- An answer, a second one for another prepared transfer, a cancellation, and the end.
abbrev events : List (Timestamp × Event)
events =
    (400, prepared 3 7 (pos 70) (pos 4) "b")
    ∷ (410, prepared 3 7 (pos 71) (pos 4) "b")
    ∷ (420, cancels)
    ∷ (430, finalizes 3 7 (pos 70) (pos 4) "OK" (pos 0))
    ∷ []

running-Holds : Holds running db
unfolding find_running_transfer get_running_transfer
running-Holds = record { by_request = refl; by_uuid = refl }

deliver_all-Done_example : DoneAll running db (deliver_all 7 9 55 events db)
deliver_all-Done_example = deliver_all-Done running 7 9 55 events db refl refl refl running-Holds

abbrev canceled : RunningTransfer
canceled = record running { finalized_at = some 300; error_code = some "CANCELED_BY_THE_SENDER" }

abbrev canceled_db : Db
canceled_db = record db { running_transfers = canceled ∷ [] }

canceled-Holds : Holds canceled canceled_db
unfolding find_running_transfer get_running_transfer
canceled-Holds = record { by_request = refl; by_uuid = refl }

canceled-is_finalized : is_finalized canceled ≡ true
unfolding is_finalized
canceled-is_finalized = refl

failed_never_commits_example :
    let db' = deliver_all 7 9 55 events canceled_db in
    Holds canceled db' × (sent : List Signal) × (db'.signals ≡ [] ++ sent) × All CommitsNothing sent
failed_never_commits_example =
    failed_never_commits canceled events canceled_db canceled-Holds canceled-is_finalized refl

running-found : find_running_transfer 7 9 db ≡ some running
unfolding find_running_transfer
running-found = refl

running-Fits : Fits (key_of 3 7 7 9) (pos 4) "b" running
running-Fits = record {
  debtor_is = refl;
  creditor_is = refl;
  recipient_is = refl;
  enough = omega arith;
}

running-is_open : is_finalized running ≡ false
unfolding is_finalized
running-is_open = refl

prepared-Commits_example :
    Commits (key_of 3 7 7 9) (pos 70) (pos 4) "b" (pos 71) (pos 4) "b" running db
prepared-Commits_example =
    prepared-Commits (key_of 3 7 7 9) (pos 70) (pos 4) "b" (pos 71) (pos 4) "b" running db
      running-found running-Fits running-is_open (inl refl) (ground arith)

creditor-is_active : get_active_creditor 7 db ≡ some creditor
unfolding get_active_creditor get_creditor is_activated is_deactivated
creditor-is_active = refl

unused_uuid : get_running_transfer 7 56 db ≡ none
unfolding get_running_transfer
unused_uuid = refl

-- The second call asks for another amount.
initiate_twice_example :
    (i : Initiated 7 56 wanted db (initiate_running_transfer host 500 7 56 wanted db))
    × (initiate_running_transfer host 600 7 56 (record wanted { amount = pos 5 }) i.database
        ≡ err (
            if same_transfer_data wanted (record wanted { amount = pos 5 })
            then transfer_exists
            else update_conflict))
    × (same_transfer_data wanted wanted ≡ true)
initiate_twice_example =
    initiate_twice host 500 600 7 56 wanted (record wanted { amount = pos 5 }) db creditor
      creditor-is_active unused_uuid
