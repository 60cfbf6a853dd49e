-- ===== src/Models/PinInfo/Attempts.antt =====
-- About sequences of attempts on a PIN with `try_value`, and `set_value` before it (models/creditors.py).
use swpt_creditors.Base.{
  ℕ, ◌+◌, ◌*◌, ◌≤◌, ◌<◌, ◌≡◌, ap, ◌∙◌, refl, ◌⊎◌, inl, inr, true, false, List, [], ◌∷◌, Option,
  some, arith, String,
}
use text.Mathlib.TextPositions.{eq_refl}
use swpt_creditors.Base.Lists.{All, length}
use swpt_creditors.Base.Tests.{str_eq, if◌then◌else◌}
use swpt_creditors.Models.Common.{Timestamp, Host, Floats}
use swpt_creditors.Models.PinInfo.{
  PinInfo, PinStatus, on, is_blocked, register_failed_attempt, increment_cfa, increment_afa, salted,
  Attempt, result, fails, try_value, set_value, check_value, register_successful_attempt,
  is_required,
}

-- The row after an attempt.
abbrev pub row_after : PinInfo → Attempt → PinInfo
row_after p (result _ p') = p'
row_after p (fails _) = p

-- Attempts, each at its time, one after another.
unfoldable pub try_all : Host → String → Timestamp → List (Timestamp × String) → PinInfo → PinInfo
try_all host secret interval [] p = p
try_all host secret interval ((now, value) ∷ vs) p =
    try_all host secret interval vs
      (row_after p (try_value host (some value) secret now interval p))

-- A PIN that is on, with its hash in place and with the given length, salt and failed attempts.
pub record Guards (p : PinInfo) (h : String) (salt : Option String) (n cfa : ℕ) : Type 0 where
  pub status : p.status ≡ on
  pub hash : p.pin_hmac ≡ some h
  pub salt_is : p.pin_salt ≡ salt
  pub length_is : p.pin_length ≡ n
  pub failed : p.cfa ≡ cfa

-- An attempt more reaches the limit for the length n.
abbrev pub IsLimit : ℕ → ℕ → Type 0
IsLimit n cfa = n * 3 ≤ cfa * 2 + 7

increment_cfa_cases :
    (now : Timestamp) (p : PinInfo)
    → (is_blocked (increment_cfa now p).status ≡ true)
      ⊎ ((¬ (IsLimit p.pin_length (p.cfa + 1)))
          × (increment_cfa now p ≡ record p { cfa = p.cfa + 1 }))
unfolding increment_cfa
increment_cfa_cases now p = ground arith

-- The accumulated attempts block the PIN too, or leave all but their counter and its time.
increment_afa_cases :
    (f : Floats) (now interval : Timestamp) (p : PinInfo)
    → (is_blocked (increment_afa f now interval p).status ≡ true)
      ⊎ (increment_afa f now interval p ≡ record p {
        afa = (increment_afa f now interval p).afa;
        afa_last_reset_ts = (increment_afa f now interval p).afa_last_reset_ts;
      })
unfolding increment_afa
increment_afa_cases f now interval p = ground arith

still_blocked :
    (f : Floats) (now interval : Timestamp) (p : PinInfo)
    → is_blocked p.status ≡ true
    → is_blocked (increment_afa f now interval p).status ≡ true
still_blocked f now interval p h = elim (increment_afa_cases f now interval p) [
  | inl b ↦ b
  | inr same ↦ ap (λ q. is_blocked q.status) same ∙ h
]

counted-Guards :
    (p q : PinInfo) (h : String) (salt : Option String) (n cfa afa : ℕ) (ts : Timestamp)
    → Guards p h salt n cfa
    → q ≡ record p { cfa = p.cfa + 1; afa = afa; afa_last_reset_ts = ts }
    → Guards q h salt n (cfa + 1)
counted-Guards p q h salt n cfa afa ts g e = rw e (record {
  status = g.status;
  hash = g.hash;
  salt_is = g.salt_is;
  length_is = g.length_is;
  failed = ap (λ (x : ℕ). x + 1) g.failed;
})

-- A failed attempt blocks the PIN, or is counted below the limit.
pub failed_attempt :
    (f : Floats) (now interval : Timestamp) (p : PinInfo) (h : String) (salt : Option String)
    (n cfa : ℕ)
    → Guards p h salt n cfa
    → (is_blocked (register_failed_attempt f now interval p).status ≡ true)
      ⊎ ((¬ (IsLimit n (cfa + 1)))
          × Guards (register_failed_attempt f now interval p) h salt n (cfa + 1))
unfolding register_failed_attempt
failed_attempt f now interval p h salt n cfa g = elim (increment_cfa_cases now p) [
  | inl b ↦ inl (still_blocked f now interval (increment_cfa now p) b)
  | inr (below, same) ↦ elim (increment_afa_cases f now interval (increment_cfa now p)) [
    | inl b ↦ inl b
    | inr kept ↦ inr (
      λ lim. below (rw (g.length_is, g.failed) lim),
      counted-Guards p _ h salt n cfa _ _ g (
          kept
          ∙ ap {A = PinInfo} {B = PinInfo}
              (λ q. record q {
                afa = (increment_afa f now interval (increment_cfa now p)).afa;
                afa_last_reset_ts =
                    (increment_afa f now interval (increment_cfa now p)).afa_last_reset_ts;
              })
              same),
    )
  ]
]

-- `try_value`, by the status and the stored hash.
attempt_by :
    Host → String → String → Timestamp → Timestamp → PinInfo → PinStatus → Option String → Attempt
unfolding check_value
attempt_by host value secret now interval p status hash =
    if is_blocked status
    then result false p
    else if is_required status
    then check_value host secret now interval p hash (some value)
    else result true (register_successful_attempt p)

attempt_by-blocked :
    (host : Host) (value secret : String) (now interval : Timestamp) (p : PinInfo)
    (status : PinStatus) (hash : Option String)
    → is_blocked status ≡ true
    → attempt_by host value secret now interval p status hash ≡ result false p
unfolding attempt_by
attempt_by-blocked host value secret now interval p status hash e = rw e

attempt_by-wrong :
    (host : Host) (value secret : String) (now interval : Timestamp) (p : PinInfo)
    (status : PinStatus) (hash : Option String) (h : String)
    → status ≡ on
    → hash ≡ some h
    → str_eq (host.hmac_digest secret (salted value p.pin_salt)) h ≡ false
    → attempt_by host value secret now interval p status hash
      ≡ result false (register_failed_attempt host.floats now interval p)
unfolding attempt_by
attempt_by-wrong host value secret now interval p status hash h es eh wrong = rw (es, eh, wrong)

-- A blocked PIN accepts nothing, and nothing changes its row.
blocked_for_good :
    (host : Host) (secret : String) (interval : Timestamp) (vs : List (Timestamp × String))
    (p : PinInfo)
    → is_blocked p.status ≡ true
    → try_all host secret interval vs p ≡ p
unfolding try_all try_value attempt_by
blocked_for_good host secret interval [] p b = refl
blocked_for_good host secret interval ((now, v) ∷ vs) p b =
    ap (λ a. try_all host secret interval vs (row_after p a))
      (attempt_by-blocked host v secret now interval p p.status p.pin_hmac b)
    ∙ blocked_for_good host secret interval vs p b

pub try_value-wrong :
    (host : Host) (v secret : String) (now interval : Timestamp) (p : PinInfo) (h : String)
    (salt : Option String) (n cfa : ℕ)
    → Guards p h salt n cfa
    → str_eq (host.hmac_digest secret (salted v salt)) h ≡ false
    → try_value host (some v) secret now interval p
      ≡ result false (register_failed_attempt host.floats now interval p)
unfolding try_value attempt_by
try_value-wrong host v secret now interval p h salt n cfa g wrong =
    attempt_by-wrong host v secret now interval p p.status p.pin_hmac h g.status g.hash
      (ap (λ s. str_eq (host.hmac_digest secret (salted v s)) h) g.salt_is ∙ wrong)

pub try_value-blocked :
    (host : Host) (v secret : String) (now interval : Timestamp) (p : PinInfo)
    → is_blocked p.status ≡ true
    → try_value host (some v) secret now interval p ≡ result false p
unfolding try_value attempt_by
try_value-blocked host v secret now interval p b =
    attempt_by-blocked host v secret now interval p p.status p.pin_hmac b

pub failed_attempt-id :
    (f : Floats) (now interval : Timestamp) (p : PinInfo)
    → ((register_failed_attempt f now interval p).latest_update_id ≡ p.latest_update_id)
      × ((register_failed_attempt f now interval p).creditor_id ≡ p.creditor_id)
unfolding register_failed_attempt increment_cfa increment_afa
failed_attempt-id f now interval p = (ground arith, ground arith)

-- One wrong value counts as a failed attempt, whatever comes after it.
wrong_first :
    (host : Host) (secret : String) (interval now : Timestamp) (v : String)
    (vs : List (Timestamp × String)) (p : PinInfo) (h : String) (salt : Option String) (n cfa : ℕ)
    → Guards p h salt n cfa
    → str_eq (host.hmac_digest secret (salted v salt)) h ≡ false
    → is_blocked (try_all host secret interval ((now, v) ∷ vs) p).status
      ≡ is_blocked
          (try_all host secret interval vs
            (register_failed_attempt host.floats now interval p)).status
unfolding try_all try_value attempt_by
wrong_first host secret interval now v vs p h salt n cfa g wrong =
    ap (λ a. is_blocked (try_all host secret interval vs (row_after p a)).status)
      (attempt_by-wrong host v secret now interval p p.status p.pin_hmac h g.status g.hash
        (ap (λ s. str_eq (host.hmac_digest secret (salted v s)) h) g.salt_is ∙ wrong))

stays_blocked :
    (host : Host) (secret : String) (interval : Timestamp) (vs : List (Timestamp × String))
    (p : PinInfo)
    → is_blocked p.status ≡ true
    → is_blocked (try_all host secret interval vs p).status ≡ true
stays_blocked host secret interval vs p b =
    ap (λ x. is_blocked x.status) (blocked_for_good host secret interval vs p b) ∙ b

-- For a PIN that is on, with the stored hash h, the stored salt, the length n and cfa consecutive
-- failed attempts: values that do not have the hash h, tried one after another and at whatever
-- times, leave the PIN blocked when there is at least one of them and when 3 n is at most twice
-- cfa and their number together, plus 7 (their sum has then reached 1.5 n - 3, rounded down).
pub wrong_attempts_block :
    (host : Host) (secret : String) (interval : Timestamp) (vs : List (Timestamp × String))
    (p : PinInfo) (h : String) (salt : Option String) (n cfa : ℕ)
    → Guards p h salt n cfa
    → All (λ v. str_eq (host.hmac_digest secret (salted v.1 salt)) h ≡ false) vs
    → IsLimit n (cfa + length vs)
    → 0 < length vs
    → is_blocked (try_all host secret interval vs p).status ≡ true
wrong_attempts_block host secret interval [] p h salt n cfa g wrong limit nonempty =
    absurd (omega arith)
wrong_attempts_block host secret interval ((now, v) ∷ []) p h salt n cfa g wrong limit nonempty =
    wrong_first host secret interval now v [] p h salt n cfa g wrong.0
    ∙ elim (failed_attempt host.floats now interval p h salt n cfa g) [
      | inl b ↦ stays_blocked host secret interval [] _ b
      | inr (below, g') ↦ absurd (below (omega arith))
    ]
wrong_attempts_block host secret interval ((now, v) ∷ w ∷ vs) p h salt n cfa g wrong limit
      nonempty =
    wrong_first host secret interval now v (w ∷ vs) p h salt n cfa g wrong.0
    ∙ elim (failed_attempt host.floats now interval p h salt n cfa g) [
      | inl b ↦ stays_blocked host secret interval (w ∷ vs) _ b
      | inr (below, g') ↦
          wrong_attempts_block host secret interval (w ∷ vs) _ h salt n (cfa + 1) g' wrong.1
            (omega arith) (omega arith)
    ]

-- A PIN value that was set, with whatever salt, is accepted when the status is on, at whatever
-- time and whatever attempts were made before it was set, and the row is left as it was set.
pub set_value-accepted :
    (host : Host) (secret salt value : String) (now interval : Timestamp) (p : PinInfo)
    → p.status ≡ on
    → try_value host (some value) secret now interval (set_value host salt (some value) secret p)
      ≡ result true (set_value host salt (some value) secret p)
unfolding try_value set_value attempt_by register_successful_attempt
set_value-accepted host secret salt value now interval p e = rw (e, eq_refl)
