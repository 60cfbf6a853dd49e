-- ===== src/Procedures/Pins/Lockout.antt =====
-- About wrong PIN values that are given to `verify_pin_value` and `update_pin_info`
-- (procedures/creditors.py), one after another.
use swpt_creditors.Base.{
  ℕ, suc, ◌+◌, ◌<◌, ◌≡◌, refl, sym, ap, ◌∙◌, inl, inr, true, false, Option, some, List, [], ◌∷◌,
  arith, String,
}
use swpt_creditors.Base.Lists.{All, length}
use swpt_creditors.Base.Rows.{find_row-put_row_by, find_row_sound}
use swpt_creditors.Base.Tests.{str_eq, ==_iff}
use swpt_creditors.Models.Common.{CreditorId, Timestamp, Host, wrong_pin_value}
use swpt_creditors.Models.PinInfo.{
  PinInfo, is_blocked, salted, result, try_value, register_failed_attempt,
}
use swpt_creditors.Models.PinInfo.Attempts.{
  Guards, IsLimit, failed_attempt, failed_attempt-id, try_value-wrong, try_value-blocked,
}
use swpt_creditors.Models.Db.{Db, Result, ok, err}
use swpt_creditors.Procedures.Creditors.{has_pin_key, get_pin_info, put_pin_info}
use swpt_creditors.Procedures.Pins.{
  update_pin_info_helper, update_pin_info, verify_pin_value, verify_pin_value_helper, after_attempt,
  flush_attempt,
}

-- A call that gives a PIN value: for its verification, or to change the PIN, with the salt, the name
-- of the new status and the new value.
pub data Guess : Type 0 where
  verifies : String → Guess
  changes : String → String → Option String → String → Guess

abbrev pub value_of : Guess → String
value_of (verifies value) = value
value_of (changes salt status_name new_value value) = value

-- Whether the call raises, and what.
abbrev pub forget : {A : Type 0} → Result A × Db → Result (Unit {0}) × Db
forget (ok _, db) = (ok tt, db)
forget (err e, db) = (err e, db)

IsLimit-left :
    (n cfa l : ℕ)
    → ¬ (IsLimit n (cfa + 1))
    → IsLimit n (cfa + suc l)
    → (0 < l) × IsLimit n (cfa + 1 + l)
IsLimit-left n cfa l below limit = ground arith

module _ (host : Host) (secret : String) (interval : Timestamp) (c : CreditorId)
    (update_id : ℕ) where
  -- The call, without the mode that resets the PIN.
  unfoldable pub guess : Timestamp → Guess → Db → Result (Unit {0}) × Db
  unfolding verify_pin_value update_pin_info
  guess now (verifies value) db =
      forget (verify_pin_value host now c secret (some value) interval db)
  guess now (changes salt status_name new_value value) db = forget (
      update_pin_info host now salt c status_name secret new_value update_id false (some value)
        interval db)

  -- The database after calls in order.
  unfoldable pub guess_all : List (Timestamp × Guess) → Db → Db
  unfolding guess
  guess_all [] db = db
  guess_all ((now, g) ∷ gs) db = guess_all gs (guess now g db).1

  -- Each of the calls raises the exception for a wrong PIN.
  unfoldable pub AllRaise : List (Timestamp × Guess) → Db → Type 0
  unfolding guess
  AllRaise [] db = Unit
  AllRaise ((now, g) ∷ gs) db =
      ((guess now g db).0 ≡ err wrong_pin_value) × AllRaise gs (guess now g db).1

  guess-rejected :
      (now : Timestamp) (g : Guess) (db : Db) (p p' : PinInfo)
      → get_pin_info c db ≡ some p
      → update_id ≡ p.latest_update_id + 1
      → try_value host (some (value_of g)) secret now interval p ≡ result false p'
      → guess now g db ≡ (err wrong_pin_value, put_pin_info p' db)
  unfolding guess update_pin_info update_pin_info_helper verify_pin_value verify_pin_value_helper
      after_attempt flush_attempt
  guess-rejected now (verifies value) db p p' found next wrong = rw (found, wrong) refl
  guess-rejected now (changes salt status_name new_value value) db p p' found next wrong =
      rw (found, (==_iff update_id (p.latest_update_id + 1)).1 next, wrong) refl

  -- The PIN cannot be used any more: whatever value a further call gives, it raises the exception.
  abbrev pub LockedOut : Db → Type 0
  LockedOut db = (now : Timestamp) (g : Guess) → (guess now g db).0 ≡ err wrong_pin_value

  blocked-LockedOut :
      (db : Db) (p : PinInfo)
      → get_pin_info c db ≡ some p
      → update_id ≡ p.latest_update_id + 1
      → is_blocked p.status ≡ true
      → LockedOut db
  blocked-LockedOut db p found next b now g =
      ap (λ x. x.0)
        (guess-rejected now g db p p found next
          (try_value-blocked host (value_of g) secret now interval p b))

  pin-stored :
      (db : Db) (p p' : PinInfo)
      → get_pin_info c db ≡ some p
      → p'.creditor_id ≡ p.creditor_id
      → get_pin_info c (put_pin_info p' db) ≡ some p'
  unfolding get_pin_info put_pin_info
  pin-stored db p p' found same =
      let key : p.creditor_id ≡ c =
        (==_iff p.creditor_id c).0 (find_row_sound (has_pin_key c) db.pin_infos p found) in
      find_row-put_row_by (has_pin_key p'.creditor_id) (has_pin_key c) p' db.pin_infos p
        ((==_iff p'.creditor_id c).1 (same ∙ key))
        ((==_iff p.creditor_id p'.creditor_id).1 (sym same)) found

  -- Calls on a PIN that is blocked.
  blocked_all :
      (gs : List (Timestamp × Guess)) (db : Db) (p : PinInfo)
      → get_pin_info c db ≡ some p
      → update_id ≡ p.latest_update_id + 1
      → is_blocked p.status ≡ true
      → AllRaise gs db × LockedOut (guess_all gs db)
  unfolding guess_all AllRaise
  blocked_all [] db p found next b = (tt, blocked-LockedOut db p found next b)
  blocked_all ((now, g) ∷ gs) db p found next b =
      let rejected =
        guess-rejected now g db p p found next
          (try_value-blocked host (value_of g) secret now interval p b) in
      let rest = blocked_all gs (put_pin_info p db) p (pin-stored db p p found refl) next b in
      rw (AllRaise, guess_all, rejected) ((refl, rest.0), rest.1)

  -- The calls raise, and lock the PIN out when they reach the limit.
  wrong_pins :
      (gs : List (Timestamp × Guess)) (db : Db) (p : PinInfo) (h : String) (salt : Option String)
      (n cfa : ℕ)
      → get_pin_info c db ≡ some p
      → update_id ≡ p.latest_update_id + 1
      → Guards p h salt n cfa
      → All (λ g. str_eq (host.hmac_digest secret (salted (value_of g.1) salt)) h ≡ false) gs
      → AllRaise gs db × (IsLimit n (cfa + length gs) → 0 < length gs → LockedOut (guess_all gs db))
  unfolding guess_all AllRaise
  wrong_pins [] db p h salt n cfa found next g wrong =
      (tt, λ limit some_calls. absurd (omega arith))
  wrong_pins ((now, x) ∷ gs) db p h salt n cfa found next g wrong =
      let p' : PinInfo = register_failed_attempt host.floats now interval p in
      let rejected : guess now x db ≡ (err wrong_pin_value, put_pin_info p' db) =
        guess-rejected now x db p p' found next
          (try_value-wrong host (value_of x) secret now interval p h salt n cfa g wrong.0) in
      let (same_id, same_creditor) = failed_attempt-id host.floats now interval p in
      let found' : get_pin_info c (put_pin_info p' db) ≡ some p' =
        pin-stored db p p' found same_creditor in
      let next' : update_id ≡ p'.latest_update_id + 1 = rw same_id next in
      rw (AllRaise, guess_all, rejected)
        (elim (failed_attempt host.floats now interval p h salt n cfa g) [
          | inl b ↦
              let (raise, locked) = blocked_all gs (put_pin_info p' db) p' found' next' b in
              ((refl, raise), λ limit some_calls. locked)
          | inr (below, g') ↦
              let (raise, locks) =
                wrong_pins gs (put_pin_info p' db) p' h salt n (cfa + 1) found' next' g' wrong.1 in
              (
                (refl, raise),
                λ limit some_calls.
                    let (some_left, limit') = IsLimit-left n cfa (length gs) below limit in
                    locks limit' some_left,
              )
        ])

-- For a PIN that is on, with the stored hash h, the stored salt, the length n and cfa consecutive
-- failed attempts, and with the update ID that follows the row's for the calls that change the PIN:
-- when values that do not have the hash h are given in calls of either kind, one after another and
-- at whatever times, there is at least one of them, and 3 n is at most twice cfa and their number
-- together, plus 7: then each call raises the exception for a wrong PIN, and the PIN that they leave in
-- the database is locked out, so that any further call raises the exception, even for the right value.
pub wrong_pins_lock_out :
    (host : Host) (secret : String) (interval : Timestamp) (c : CreditorId) (update_id : ℕ)
    (gs : List (Timestamp × Guess)) (db : Db) (p : PinInfo) (h : String) (salt : Option String)
    (n cfa : ℕ)
    → get_pin_info c db ≡ some p
    → update_id ≡ p.latest_update_id + 1
    → Guards p h salt n cfa
    → All (λ g. str_eq (host.hmac_digest secret (salted (value_of g.1) salt)) h ≡ false) gs
    → IsLimit n (cfa + length gs)
    → 0 < length gs
    → AllRaise host secret interval c update_id gs db
      × LockedOut host secret interval c update_id
          (guess_all host secret interval c update_id gs db)
wrong_pins_lock_out host secret interval c update_id gs db p h salt n cfa found next g wrong limit
      some_calls =
    let (raise, locks) =
      wrong_pins host secret interval c update_id gs db p h salt n cfa found next g wrong in
    (raise, locks limit some_calls)
