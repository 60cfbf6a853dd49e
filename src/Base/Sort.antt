-- ===== src/Base/Sort.antt =====
-- `ORDER BY` on a key: insertion into a sorted list.
use Prim.Native.Nat.{ℕ, suc, ◌≤◌}
use mathlib.Core.Path.{◌≡◌, refl}
use mathlib.Core.List.{List, [], ◌∷◌}
use native.Mathlib.Omega.{arith}
use swpt_creditors.Base.Tests.{leb, if◌then◌else◌}
use swpt_creditors.Base.Lists.{All, length}

module _ {ℓ} {A : Type ℓ} (key : A → ℕ) where
  abbrev pub insert_sorted : A → List A → List A
  insert_sorted a [] = a ∷ []
  insert_sorted a (x ∷ xs) = if leb (key a) (key x) then a ∷ x ∷ xs else x ∷ insert_sorted a xs

  abbrev pub sort_by : List A → List A
  sort_by [] = []
  sort_by (x ∷ xs) = insert_sorted x (sort_by xs)

  -- The keys do not fall, and none is below the bound.
  abbrev pub SortedFrom : ℕ → List A → Type 0
  SortedFrom b [] = Unit
  SortedFrom b (x ∷ xs) = (b ≤ key x) × SortedFrom (key x) xs

  SortedFrom-weaken : (b c : ℕ) (xs : List A) → b ≤ c → SortedFrom c xs → SortedFrom b xs
  SortedFrom-weaken b c [] h s = tt
  SortedFrom-weaken b c (x ∷ xs) h s = (omega arith, s.1)

  insert_sorted-SortedFrom :
      (b : ℕ) (a : A) (xs : List A)
      → b ≤ key a
      → SortedFrom b xs
      → SortedFrom b (insert_sorted a xs)
  insert_sorted-SortedFrom b a [] h s = (h, tt)
  insert_sorted-SortedFrom b a (x ∷ xs) h s =
      ground (arith, insert_sorted-SortedFrom (key x) a xs, SortedFrom-weaken (key x) (key a) xs)

  pub sort_by-SortedFrom : (xs : List A) → SortedFrom 0 (sort_by xs)
  sort_by-SortedFrom [] = tt
  sort_by-SortedFrom (x ∷ xs) =
      insert_sorted-SortedFrom 0 x (sort_by xs) (omega arith) (sort_by-SortedFrom xs)

  insert_sorted-All {κ} :
      (P : A → Type κ) (a : A) (xs : List A) → P a → All P xs → All P (insert_sorted a xs)
  insert_sorted-All P a [] pa h = (pa, tt)
  insert_sorted-All P a (x ∷ xs) pa h = ground (arith, insert_sorted-All P a xs pa h.1)

  pub sort_by-All {κ} : (P : A → Type κ) (xs : List A) → All P xs → All P (sort_by xs)
  sort_by-All P [] h = tt
  sort_by-All P (x ∷ xs) h = insert_sorted-All P x (sort_by xs) h.0 (sort_by-All P xs h.1)

  length-insert_sorted : (a : A) (xs : List A) → length (insert_sorted a xs) ≡ suc (length xs)
  length-insert_sorted a [] = refl
  length-insert_sorted a (x ∷ xs) = ground (arith, length-insert_sorted a xs)

  pub length-sort_by : (xs : List A) → length (sort_by xs) ≡ length xs
  length-sort_by [] = refl
  length-sort_by (x ∷ xs) = omega (arith, length-insert_sorted x (sort_by xs), length-sort_by xs)
