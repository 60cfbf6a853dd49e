-- ===== src/Procedures/Ledger/Chain.antt =====
-- Ledger entries that follow one another without a gap.
use swpt_creditors.Base.{ℕ, ap, ◌∙◌, ◌+◌, ◌≡◌, ◌≢◌, List, [], ◌∷◌, ◌++◌, arith}
use swpt_creditors.Base.Int.{ℤ, pos, ◌+ℤ◌, ◌≤ℤ◌, int_laws}
use swpt_creditors.Base.Lists.{length}
use swpt_creditors.Models.Common.{min_int64, max_int64}
use swpt_creditors.Models.Account.{LedgerEntry}

-- From the principal p, after the entry with the ID n, the entries lead to the principal q and
-- the entry ID m: the IDs count up by one, each principal is the one before it plus the acquired
-- amount, and no amount is zero.
abbrev pub Chain : ℤ → ℕ → List LedgerEntry → ℤ → ℕ → Type 0
Chain p n [] q m = (p ≡ q) × (n ≡ m)
Chain p n (e ∷ es) q m =
    (e.principal ≡ p +ℤ e.acquired_amount)
    × (e.entry_id ≡ n + 1)
    × (e.acquired_amount ≢ pos 0)
    × Chain e.principal e.entry_id es q m

-- A value that a 64-bit column holds.
abbrev pub IsInt64 : ℤ → Type 0
IsInt64 x = (min_int64 ≤ℤ x) × (x ≤ℤ max_int64)

-- Both amounts of an entry fit their columns.
abbrev pub Fits : LedgerEntry → Type 0
Fits e = IsInt64 e.acquired_amount × IsInt64 e.principal

pub Chain-append :
    (p q r : ℤ) (n m k : ℕ) (es fs : List LedgerEntry)
    → Chain p n es q m
    → Chain q m fs r k
    → Chain p n (es ++ fs) r k
Chain-append p q r n m k [] fs h c = ground arith
Chain-append p q r n m k (e ∷ es) fs h c =
    (h.0, h.1, h.2, Chain-append e.principal q r e.entry_id m k es fs h.3 c)

-- The sum of the acquired amounts.
unfoldable pub acquired : List LedgerEntry → ℤ
acquired [] = pos 0
acquired (e ∷ es) = e.acquired_amount +ℤ acquired es

+ℤ_assoc : (a b c : ℤ) → a +ℤ b +ℤ c ≡ a +ℤ (b +ℤ c)
+ℤ_assoc a b c = omega int_laws

-- A chain's ends differ by what was acquired.
pub Chain-acquired :
    (p q : ℤ) (n m : ℕ) (es : List LedgerEntry) → Chain p n es q m → q ≡ p +ℤ acquired es
unfolding acquired
Chain-acquired p q n m [] h = rw (← h.0) (omega int_laws)
Chain-acquired p q n m (e ∷ es) h =
    Chain-acquired e.principal q e.entry_id m es h.3
    ∙ ap (λ x. x +ℤ acquired es) h.0
    ∙ +ℤ_assoc p e.acquired_amount (acquired es)

-- The entry IDs count up by one, so that they show how many entries there are.
pub Chain-length :
    (p q : ℤ) (n m : ℕ) (es : List LedgerEntry) → Chain p n es q m → m ≡ n + length es
Chain-length p q n m [] h = omega arith
Chain-length p q n m (e ∷ es) h = omega (arith, Chain-length e.principal q e.entry_id m es h.3)
