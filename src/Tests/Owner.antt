-- ===== src/Tests/Owner.antt =====
-- The log and the PIN at concrete inputs.
use swpt_creditors.Base.{◌≡◌, refl, true, List, [], ◌∷◌, none, some, arith}
use swpt_creditors.Models.Common.{Timestamp}
use swpt_creditors.Models.Log.{blank_entry, oth_transfer}
use swpt_creditors.Models.PinInfo.{is_blocked, result, try_value, set_value}
use swpt_creditors.Models.PinInfo.Attempts.{try_all, wrong_attempts_block, set_value-accepted}
use swpt_creditors.Models.Db.{Db, ok}
use swpt_creditors.Procedures.Creditors.{get_creditor, get_pin_info}
use swpt_creditors.Procedures.Log.{process_pending_log_entries}
use swpt_creditors.Procedures.Log.Numbering.{Processed, process_pending_log_entries-Processed}
use swpt_creditors.Procedures.Pins.Lockout.{
  Guess, verifies, changes, AllRaise, LockedOut, guess_all, wrong_pins_lock_out,
}
use swpt_creditors.Tests.Data.{host, creditor, pin, db}

-- One entry of the creditor 7, about a new transfer, and one of the creditor 8.
abbrev logging_db : Db
logging_db = record db {
  pending_log_entries =
      record {
        creditor_id = 7;
        pending_entry_id = 1;
        entry = record (blank_entry 300) {
          object_type_hint = some oth_transfer;
          transfer_uuid = some 55;
          object_update_id = some 1;
        };
      }
      ∷ record { creditor_id = 8; pending_entry_id = 2; entry = blank_entry 300 }
      ∷ [];
}

logging_creditor : get_creditor 7 logging_db ≡ some creditor
unfolding get_creditor
logging_creditor = refl

process_pending_log_entries-Processed_example :
    (db' : Db) × (process_pending_log_entries 7 logging_db ≡ ok (tt, db'))
    × Processed 7 creditor logging_db db'
process_pending_log_entries-Processed_example =
    process_pending_log_entries-Processed 7 logging_db creditor logging_creditor

-- Two wrong values after one failed attempt: 1.5 * 4 - 3 is 3.
wrong_attempts_block_example :
    is_blocked (try_all host "secret" 1000 ((500, "1111") ∷ (600, "2222") ∷ []) pin).status ≡ true
wrong_attempts_block_example =
    wrong_attempts_block host "secret" 1000 ((500, "1111") ∷ (600, "2222") ∷ []) pin "1234s"
      (some "s") 4 1
      (record { status = refl; hash = refl; salt_is = refl; length_is = refl; failed = refl })
      (refl, (refl, tt)) (omega arith) (omega arith)

set_value-accepted_example :
    try_value host
      (some "9876")
      "secret"
      500
      1000
      (set_value host "salt" (some "9876") "secret" pin)
    ≡ result true (set_value host "salt" (some "9876") "secret" pin)
set_value-accepted_example = set_value-accepted host "secret" "salt" "9876" 500 1000 pin refl

pin-found : get_pin_info 7 db ≡ some pin
unfolding get_pin_info
pin-found = refl

-- Two wrong values after one failed attempt, by calls of both kinds.
abbrev guesses : List (Timestamp × Guess)
guesses = (500, verifies "1111") ∷ (600, changes "salt" "off" none "2222") ∷ []

wrong_pins_lock_out_example :
    AllRaise host "secret" 1000 7 2 guesses db
    × LockedOut host "secret" 1000 7 2 (guess_all host "secret" 1000 7 2 guesses db)
wrong_pins_lock_out_example =
    wrong_pins_lock_out host "secret" 1000 7 2 guesses db pin "1234s" (some "s") 4 1 pin-found refl
      (record { status = refl; hash = refl; salt_is = refl; length_is = refl; failed = refl })
      (refl, (refl, tt)) (omega arith) (omega arith)
