-- ===== src/Procedures/Ledger/Correct.antt =====
-- About the loop of `_make_correcting_ledger_entry_if_necessary` (procedures/account_updates.py), its
-- end, its entries and the 64-bit range.
use swpt_creditors.Base.{
  ℕ, zero, suc, ◌+◌, ◌-◌, ◌*◌, ◌^◌, ◌≤◌, ◌<◌, ◌≡◌, ap, sym, ◌∙◌, refl, ◌≢◌, ◌⊎◌, inl, inr, false,
  [], arith,
}
use swpt_creditors.Base.Int.{ℤ, pos, nat_abs, ◌+ℤ◌, ◌-ℤ◌, eq_ℤ, eq_ℤ_iff, int_laws, parts_excl}
use swpt_creditors.Base.Lists.{length, not_empty, not_empty-append, All, length-append}
use swpt_creditors.Base.Rows.{All-append}
use swpt_creditors.Base.Tests.{Bool-cases}
use swpt_creditors.Models.Common.{Timestamp}
use swpt_creditors.Models.Account.{AccountData}
use swpt_creditors.Procedures.Common.{contain_principal_overflow}
use swpt_creditors.Procedures.Ledger.{Correction, correct_once, correct_all}
use swpt_creditors.Procedures.Ledger.Chain.{Chain, IsInt64, Fits, Chain-append}

-- What is taken off in a round has the sign of the amount, is not zero, is no larger, and is at
-- most 2^63 - 1 in size; all of the amount is taken off where that is possible.
pub contain_lem :
    (c : ℤ)
    → let s = contain_principal_overflow c in
      (IsInt64 s)
      × (c ≢ pos 0 → (s ≢ pos 0))
      × (nat_abs (c -ℤ s) + nat_abs s ≡ nat_abs c)
      × ((nat_abs (c -ℤ s) + (2 ^ 63 - 1) ≤ nat_abs c) ⊎ (c ≡ s))
unfolding contain_principal_overflow ◌-ℤ◌
contain_lem c = ground arith

-- A round stays between the principal that it starts from and the one that is aimed at.
pub step_in_range :
    (l c : ℤ) → IsInt64 l → IsInt64 (l +ℤ c) → IsInt64 (l +ℤ contain_principal_overflow c)
unfolding contain_principal_overflow
step_in_range l c hl hc = grind (int_laws, parts_excl)

pub regroup : (l c s : ℤ) → l +ℤ s +ℤ (c -ℤ s) ≡ l +ℤ c
regroup l c s = omega int_laws

-- What holds at the loop's test: the entries made so far lead from the account's principal to the
-- running principal, what is left leads on to the target, and nothing leaves the 64-bit range.
pub record Corrects (account : AccountData) (target : ℤ) (s : Correction) : Type 0 where
  pub same_account :
      s.account ≡ record account { ledger_last_entry_id = s.account.ledger_last_entry_id }
  pub chain :
      Chain account.ledger_principal account.ledger_last_entry_id s.entries s.ledger_principal
        s.account.ledger_last_entry_id
  pub aim : s.ledger_principal +ℤ s.correction_amount ≡ target
  pub fits : All Fits s.entries
  pub in_range : IsInt64 s.ledger_principal
  pub made : s.made_correcting_ledger_entry ≡ not_empty s.entries

nat_abs-pos : (c : ℤ) → c ≢ pos 0 → 0 < nat_abs c
nat_abs-pos c ne = ground arith

sub_self : (c : ℤ) → c -ℤ c ≡ pos 0
sub_self c = omega int_laws

le_of_all : (c : ℤ) (k : ℕ) → c ≡ pos 0 → nat_abs c ≤ k * (2 ^ 63 - 1)
le_of_all c k e = rw e (omega arith)

zero_of_abs : (c : ℤ) → nat_abs c ≤ 0 → c ≡ pos 0
zero_of_abs c h = ground arith

pub ne_of_test : (c : ℤ) → eq_ℤ c (pos 0) ≡ false → c ≢ pos 0
ne_of_test c h e = cc (ap (λ x. eq_ℤ x (pos 0)) e)

correct_once-Corrects :
    (account : AccountData) (target : ℤ) (ts : Timestamp) (s : Correction)
    → IsInt64 target
    → s.correction_amount ≢ pos 0
    → Corrects account target s
    → Corrects account target (correct_once ts s)
unfolding correct_once
correct_once-Corrects account target ts s ht ne h = record {
  same_account =
      ap {A = AccountData} {B = AccountData}
        (λ a. record a { ledger_last_entry_id = s.account.ledger_last_entry_id + 1 })
        h.same_account;
  chain =
      Chain-append _ _ _ _ _ _ s.entries _ h.chain
        (refl, refl, (contain_lem s.correction_amount).1 ne, (refl, refl));
  aim =
      regroup s.ledger_principal s.correction_amount
        (contain_principal_overflow s.correction_amount)
      ∙ h.aim;
  fits = All-append Fits s.entries _ h.fits (((contain_lem s.correction_amount).0, in_range'), tt);
  in_range = in_range';
  made = sym (not_empty-append s.entries _ []);
}
  where
    in_range' : IsInt64 (s.ledger_principal +ℤ contain_principal_overflow s.correction_amount)
    in_range' = step_in_range s.ledger_principal s.correction_amount h.in_range (rw h.aim ht)

-- The loop keeps what holds at its test.
pub correct_all-Corrects :
    (account : AccountData) (target : ℤ) (ts : Timestamp) (fuel : ℕ) (s : Correction)
    → IsInt64 target
    → Corrects account target s
    → Corrects account target (correct_all fuel ts s)
unfolding correct_all
correct_all-Corrects account target ts zero s ht h = h
correct_all-Corrects account target ts (suc fuel) s ht h =
    elim (Bool-cases (eq_ℤ s.correction_amount (pos 0))) [
      | inl done ↦ rw (done, correct_all) h
      | inr more ↦
          rw (more, correct_all)
            (correct_all-Corrects account target ts fuel (correct_once ts s) ht (
              correct_once-Corrects account target ts s ht (ne_of_test s.correction_amount more) h))
    ]

-- A round takes something off the amount.
round_shrinks :
    (ts : Timestamp) (s : Correction)
    → s.correction_amount ≢ pos 0
    → nat_abs (correct_once ts s).correction_amount < nat_abs s.correction_amount
unfolding correct_once
round_shrinks ts s ne = grind (
  arith,
  contain_lem s.correction_amount,
  nat_abs-pos (contain_principal_overflow s.correction_amount),
)

-- With fuel that is not less than the size of the amount to correct, the loop ends with nothing left
-- to correct.
pub correct_all_ends :
    (ts : Timestamp) (fuel : ℕ) (s : Correction)
    → nat_abs s.correction_amount ≤ fuel
    → (correct_all fuel ts s).correction_amount ≡ pos 0
unfolding correct_all
correct_all_ends ts zero s h = zero_of_abs s.correction_amount h
correct_all_ends ts (suc fuel) s h = elim (Bool-cases (eq_ℤ s.correction_amount (pos 0))) [
  | inl done ↦ rw (done, correct_all) ((eq_ℤ_iff s.correction_amount (pos 0)).0 done)
  | inr more ↦
      rw (more, correct_all)
        (correct_all_ends ts fuel (correct_once ts s)
          (omega (arith, round_shrinks ts s (ne_of_test s.correction_amount more))))
]

round_budget :
    (ts : Timestamp) (k : ℕ) (s : Correction)
    → nat_abs s.correction_amount ≤ suc k * (2 ^ 63 - 1)
    → nat_abs (correct_once ts s).correction_amount ≤ k * (2 ^ 63 - 1)
unfolding correct_once
round_budget ts k s h = elim (contain_lem s.correction_amount).3 [
  | inl much ↦ omega arith
  | inr all ↦
      le_of_all (s.correction_amount -ℤ contain_principal_overflow s.correction_amount) k
        (rw (← all) (sub_self s.correction_amount))
]

round-length :
    (ts : Timestamp) (s : Correction) → length (correct_once ts s).entries ≡ length s.entries + 1
unfolding correct_once
round-length ts s = length-append s.entries _

-- Each round but the last takes off 2^63 - 1, so that few rounds are made.
pub correct_all-length :
    (ts : Timestamp) (fuel k : ℕ) (s : Correction)
    → nat_abs s.correction_amount ≤ k * (2 ^ 63 - 1)
    → length (correct_all fuel ts s).entries ≤ length s.entries + k
unfolding correct_all
correct_all-length ts zero k s h = omega arith
correct_all-length ts (suc fuel) zero s h =
    rw ((eq_ℤ_iff s.correction_amount (pos 0)).1 (zero_of_abs s.correction_amount h), correct_all)
      (omega arith)
correct_all-length ts (suc fuel) (suc k) s h =
    elim (Bool-cases (eq_ℤ s.correction_amount (pos 0))) [
      | inl done ↦ rw (done, correct_all) (omega arith)
      | inr more ↦
          rw (more, correct_all)
            (omega (
              arith,
              round-length ts s,
              correct_all-length ts fuel k (correct_once ts s) (round_budget ts k s h),
            ))
    ]
