-- ===== src/Procedures/Ledger/Update.antt =====
-- About `_update_ledger` of procedures/account_updates.py, its assertion and its entries.
use swpt_creditors.Base.{
  ℕ, ◌+◌, ◌*◌, ◌^◌, ◌-◌, ◌≤◌, ◌≡◌, ap, sym, ◌∙◌, refl, inl, inr, Bool, true, false, ◌||◌, List, [],
  ◌∷◌, arith,
}
use swpt_creditors.Base.Int.{ℤ, pos, ◌+ℤ◌, ◌-ℤ◌, eq_ℤ, eq_ℤ_iff, nat_abs, int_laws}
use swpt_creditors.Base.Lists.{length, not_empty, not_empty-append, All, length-append}
use swpt_creditors.Base.Rows.{All-append}
use swpt_creditors.Base.Tests.{Bool-cases, is_some, if◌then◌else◌}
use swpt_creditors.Models.Common.{Timestamp, is_int64}
use swpt_creditors.Models.Account.{AccountData, LedgerEntry}
use swpt_creditors.Models.Db.{ok}
use swpt_creditors.Procedures.Ledger.{
  Correction, correct_all, start_correction, make_correcting_ledger_entry_if_necessary,
  add_transfer_entry, finish_update, LedgerUpdate, update_ledger,
}
use swpt_creditors.Procedures.Ledger.Chain.{Chain, IsInt64, Fits, Chain-append}
use swpt_creditors.Procedures.Ledger.Correct.{
  Corrects, correct_all-Corrects, correct_all_ends, correct_all-length, ne_of_test,
}

pub sub_add : (a b : ℤ) → b +ℤ (a -ℤ b) ≡ a
sub_add a b = omega int_laws

pub add_zero : (a : ℤ) → a +ℤ pos 0 ≡ a
add_zero a = omega int_laws

add_sub : (a b : ℤ) → a ≡ a -ℤ b +ℤ b
add_sub a b = omega int_laws

pub sub_zero : (a : ℤ) → a -ℤ pos 0 ≡ a
sub_zero a = omega int_laws

pub is_int64_of : (x : ℤ) → IsInt64 x → is_int64 x ≡ true
is_int64_of x h = ground arith

pub three_rounds : (a b : ℤ) → IsInt64 a → IsInt64 b → nat_abs (a -ℤ b) ≤ 3 * (2 ^ 63 - 1)
unfolding ◌-ℤ◌
three_rounds a b ha hb = ground arith

pub start-Corrects :
    (account : AccountData) (target : ℤ)
    → IsInt64 account.ledger_principal
    → Corrects account target (start_correction account target)
unfolding start_correction
start-Corrects account target h = record {
  same_account = refl;
  chain = (refl, refl);
  aim = sub_add target account.ledger_principal;
  fits = tt;
  in_range = h;
  made = refl;
}

-- What the correction has reached: a chain of at most three entries to the previous principal.
pub record Corrected (account : AccountData) (target : ℤ) (k : ℕ) (s : Correction) : Type 0 where
  pub same_account :
      s.account ≡ record account { ledger_last_entry_id = s.account.ledger_last_entry_id }
  pub chain :
      Chain account.ledger_principal account.ledger_last_entry_id s.entries target
        s.account.ledger_last_entry_id
  pub fits : All Fits s.entries
  pub few : length s.entries ≤ k
  pub made : s.made_correcting_ledger_entry ≡ not_empty s.entries

reached : (a c t : ℤ) → a +ℤ c ≡ t → c ≡ pos 0 → a ≡ t
reached a c t h e = sym (add_zero a) ∙ ap (λ x. a +ℤ x) (sym e) ∙ h

pub Corrects-Corrected :
    (account : AccountData) (target : ℤ) (k : ℕ) (s : Correction)
    → Corrects account target s
    → s.correction_amount ≡ pos 0
    → length s.entries ≤ k
    → Corrected account target k s
Corrects-Corrected account target k s h e few = record {
  same_account = h.same_account;
  chain = rw (← reached s.ledger_principal s.correction_amount target h.aim e) h.chain;
  fits = h.fits;
  few = few;
  made = h.made;
}

-- A correction, where the previous principal fits 64 bits, makes at most three entries, which lead
-- to it.
pub make_correcting-Corrected :
    (account : AccountData) (acquired_amount principal : ℤ) (ts : Timestamp)
    → IsInt64 account.ledger_principal
    → IsInt64 (principal -ℤ acquired_amount)
    → Corrected account
        (principal -ℤ acquired_amount)
        3
        (make_correcting_ledger_entry_if_necessary account acquired_amount principal ts)
unfolding make_correcting_ledger_entry_if_necessary
make_correcting-Corrected account acquired_amount principal ts hl hp =
    rw (is_int64_of (principal -ℤ acquired_amount) hp) (
      Corrects-Corrected account _ 3 (correct_all (nat_abs s.correction_amount) ts s)
        (correct_all-Corrects account _ ts (nat_abs s.correction_amount) s hp
          (start-Corrects account _ hl))
        (correct_all_ends ts (nat_abs s.correction_amount) s (omega arith))
        (correct_all-length ts (nat_abs s.correction_amount) 3 s
          (three_rounds (principal -ℤ acquired_amount) account.ledger_principal hp hl)))
  where
    s : Correction
    s = start_correction account (principal -ℤ acquired_amount)

no_change : (p a : ℤ) → eq_ℤ a (pos 0) ≡ true → p -ℤ a ≡ p
no_change p a h = rw ((eq_ℤ_iff a (pos 0)).0 h) (sub_zero p)

-- With the entry of the transfer the chain leads on to the transfer's principal.
add_transfer_entry-Corrected :
    (account : AccountData) (s : Correction) (number : ℕ) (acquired_amount principal : ℤ)
    (ts : Timestamp)
    → IsInt64 acquired_amount
    → IsInt64 principal
    → Corrected account (principal -ℤ acquired_amount) 3 s
    → Corrected account principal 4 (add_transfer_entry s number acquired_amount principal ts)
unfolding add_transfer_entry
add_transfer_entry-Corrected account s number acquired_amount principal ts ha hp h =
    elim (Bool-cases (eq_ℤ acquired_amount (pos 0))) [
      | inl none_acquired ↦ rw none_acquired (record {
        same_account = h.same_account;
        chain = rw (no_change principal acquired_amount none_acquired) at h.chain;
        fits = h.fits;
        few = omega arith;
        made = h.made;
      })
      | inr some_acquired ↦ rw some_acquired (record {
        same_account =
            ap {A = AccountData} {B = AccountData}
              (λ a. record a { ledger_last_entry_id = s.account.ledger_last_entry_id + 1 })
              h.same_account;
        chain = Chain-append _ _ _ _ _ _ s.entries _ h.chain (
          add_sub principal acquired_amount,
          refl,
          ne_of_test acquired_amount some_acquired,
          (refl, refl),
        );
        fits = All-append Fits s.entries _ h.fits ((ha, hp), tt);
        few = rw (length-append s.entries _) (omega arith);
        made = sym (not_empty-append s.entries _ []);
      })
    ]

-- Nothing but the ledger's fields differs.
abbrev pub OnlyLedger : AccountData → AccountData → Type 0
OnlyLedger a b = b ≡ record a {
  ledger_principal = b.ledger_principal;
  ledger_last_entry_id = b.ledger_last_entry_id;
  ledger_last_transfer_number = b.ledger_last_transfer_number;
  ledger_latest_update_id = b.ledger_latest_update_id;
  ledger_latest_update_ts = b.ledger_latest_update_ts;
}

-- What a call of `_update_ledger` has done.
pub record Updates (account : AccountData) (number : ℕ) (principal : ℤ) (always : Bool)
    (u : LedgerUpdate) : Type 0 where
  pub chain :
      Chain account.ledger_principal account.ledger_last_entry_id u.entries
        u.account.ledger_principal u.account.ledger_last_entry_id
  pub at_principal : u.account.ledger_principal ≡ principal
  pub at_number : u.account.ledger_last_transfer_number ≡ number
  pub fits : All Fits u.entries
  pub few : length u.entries ≤ 4
  pub untouched : OnlyLedger account u.account
  pub logged : is_some u.log_entry ≡ not_empty u.entries || always
  pub counted :
      u.account.ledger_latest_update_id
      ≡ account.ledger_latest_update_id + (if not_empty u.entries || always then 1 else 0)

finish_update-Updates :
    (account : AccountData) (s : Correction) (number : ℕ) (principal : ℤ) (ts : Timestamp)
    (always : Bool)
    → Corrected account principal 4 s
    → Updates account number principal always (finish_update s number principal ts always)
unfolding finish_update
finish_update-Updates account s number principal ts always h = ground arith

pub Chain-empty :
    (p q : ℤ) (n m : ℕ) (es : List LedgerEntry) → Chain p n es q m → not_empty es ≡ false → p ≡ q
Chain-empty p q n m [] h e = h.0
Chain-empty p q n m (x ∷ es) h e = cc

-- The assertion of `_update_ledger`.
assertion_holds :
    (account : AccountData) (principal : ℤ) (k : ℕ) (s : Correction)
    → Corrected account principal k s
    → (s.made_correcting_ledger_entry || eq_ℤ s.account.ledger_principal principal) ≡ true
assertion_holds account principal k s h = elim (Bool-cases (not_empty s.entries)) [
  | inl made ↦ rw (h.made, made)
  | inr unmade ↦
      rw (h.made, unmade)
        ((eq_ℤ_iff s.account.ledger_principal principal).1 (
          ap {A = AccountData} (λ a. a.ledger_principal) h.same_account
          ∙ Chain-empty _ _ _ _ s.entries h.chain unmade))
]

-- Where the ledger's principal, the acquired amount, the principal and their difference fit 64
-- bits, the assertion of `_update_ledger` holds and the call ends normally: the new entries follow
-- one another from the old principal and entry ID to the new ones, none has a zero amount, all
-- their amounts fit 64 bits, there are at most four; the ledger takes the transfer's principal and
-- number, and nothing but the ledger's fields changes; and there is a log entry, with the next
-- update ID, exactly when there are new entries or one is asked for.
pub update_ledger-Updates :
    (account : AccountData) (number : ℕ) (acquired_amount principal : ℤ) (ts : Timestamp)
    (always : Bool)
    → IsInt64 account.ledger_principal
    → IsInt64 acquired_amount
    → IsInt64 principal
    → IsInt64 (principal -ℤ acquired_amount)
    → (u : LedgerUpdate) × (update_ledger account number acquired_amount principal ts always ≡ ok u)
      × Updates account number principal always u
unfolding update_ledger
update_ledger-Updates account number acquired_amount principal ts always hl ha hp hd = (
  finish_update s number principal ts always,
  rw (assertion_holds account principal 4 s h),
  finish_update-Updates account s number principal ts always h,
)
  where
    s : Correction
    s =
        add_transfer_entry
          (make_correcting_ledger_entry_if_necessary account acquired_amount principal ts) number
          acquired_amount principal ts

    h : Corrected account principal 4 s
    h =
        add_transfer_entry-Corrected account _ number acquired_amount principal ts ha hp
          (make_correcting-Corrected account acquired_amount principal ts hl hd)
