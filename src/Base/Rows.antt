-- ===== src/Base/Rows.antt =====
-- Laws of the queries on tables.
use Prim.Native.Nat.{ℕ, zero, suc, ◌≤◌}
use mathlib.Core.Path.{◌≡◌, refl, ap}
use mathlib.Core.Bool.{Bool, true, false}
use mathlib.Core.List.{List, [], ◌∷◌, ◌++◌}
use mathlib.Core.Option.{none, some}
use native.Mathlib.Omega.{arith}
use swpt_creditors.Base.Lists.{
  find_row, any_row, delete_where, put_row, update_where, rows_where, length, take, All,
}

module _ {ℓ} {A : Type ℓ} where
  -- A row that was found passes the test.
  pub find_row_sound : (p : A → Bool) (xs : List A) (y : A) → find_row p xs ≡ some y → p y ≡ true
  find_row_sound p [] y h = cc
  find_row_sound p (x ∷ xs) y h = ground (arith, find_row_sound p xs y)

  pub find_row-put_row :
      (p : A → Bool) (v : A) (xs : List A) (y : A)
      → p v ≡ true
      → find_row p xs ≡ some y
      → find_row p (put_row p v xs) ≡ some v
  find_row-put_row p v [] y pv h = cc
  find_row-put_row p v (x ∷ xs) y pv h = ground (arith, find_row-put_row p v xs y pv)

  -- A row that is found by one key, and replaced by another key of its own, is found again.
  pub find_row-put_row_by :
      (p q : A → Bool) (v : A) (xs : List A) (y : A)
      → q v ≡ true
      → p y ≡ true
      → find_row q xs ≡ some y
      → find_row q (put_row p v xs) ≡ some v
  find_row-put_row_by p q v [] y qv py h = cc
  find_row-put_row_by p q v (x ∷ xs) y qv py h =
      ground (arith, find_row-put_row_by p q v xs y qv py)

  -- Another key, one that the new row does not have, is found as before.
  pub find_row-put_row_other :
      (p q : A → Bool) (v : A) (xs : List A)
      → q v ≡ false
      → ((x : A) → p x ≡ true → q x ≡ false)
      → find_row q (put_row p v xs) ≡ find_row q xs
  find_row-put_row_other p q v [] qv apart = refl
  find_row-put_row_other p q v (x ∷ xs) qv apart =
      ground (arith, apart x, find_row-put_row_other p q v xs qv apart)

  pub find_row-delete_where : (p : A → Bool) (xs : List A) → find_row p (delete_where p xs) ≡ none
  find_row-delete_where p [] = refl
  find_row-delete_where p (x ∷ xs) = ground (arith, find_row-delete_where p xs)

  pub All-put_row {κ} :
      (P : A → Type κ) (p : A → Bool) (v : A) (xs : List A)
      → P v
      → All P xs
      → All P (put_row p v xs)
  All-put_row P p v [] pv h = tt
  All-put_row P p v (x ∷ xs) pv h = ground (arith, All-put_row P p v xs pv h.1)

  pub All-delete_where {κ} :
      (P : A → Type κ) (p : A → Bool) (xs : List A) → All P xs → All P (delete_where p xs)
  All-delete_where P p [] h = tt
  All-delete_where P p (x ∷ xs) h = ground (arith, All-delete_where P p xs h.1)

  pub All-append {κ} : (P : A → Type κ) (xs ys : List A) → All P xs → All P ys → All P (xs ++ ys)
  All-append P [] ys hx hy = hy
  All-append P (x ∷ xs) ys hx hy = (hx.0, All-append P xs ys hx.1 hy)

  -- What every row satisfies, a found row satisfies.
  pub All-find_row {κ} :
      (P : A → Type κ) (p : A → Bool) (xs : List A) (y : A)
      → All P xs
      → find_row p xs ≡ some y
      → P y
  All-find_row P p [] y h e = cc
  All-find_row P p (x ∷ xs) y h e = ground (arith, All-find_row P p xs y h.1)

  pub any_row-delete_where : (p : A → Bool) (xs : List A) → any_row p (delete_where p xs) ≡ false
  any_row-delete_where p [] = refl
  any_row-delete_where p (x ∷ xs) = ground (arith, any_row-delete_where p xs)

  -- A row that is added for a key that no row has is found by it.
  pub find_row-append :
      (p : A → Bool) (xs : List A) (y : A)
      → find_row p xs ≡ none
      → p y ≡ true
      → find_row p (xs ++ y ∷ []) ≡ some y
  find_row-append p [] y h py = rw py refl
  find_row-append p (x ∷ xs) y h py = ground (arith, find_row-append p xs y)

  pub length-rows_where-le : (p : A → Bool) (xs : List A) → length (rows_where p xs) ≤ length xs
  length-rows_where-le p [] = omega arith
  length-rows_where-le p (x ∷ xs) = ground (arith, length-rows_where-le p xs)

  pub take_all : (n : ℕ) (xs : List A) → length xs ≤ n → take n xs ≡ xs
  take_all zero [] h = refl
  take_all (suc n) [] h = refl
  take_all zero (x ∷ xs) h = absurd (omega arith)
  take_all (suc n) (x ∷ xs) h = ap (λ ys. x ∷ ys) (take_all n xs (omega arith))

  -- An `UPDATE` of the rows with a key, where each of them gets the same new value.
  pub update_where-put_row :
      (p : A → Bool) (f : A → A) (v : A) (xs : List A)
      → All (λ x. p x ≡ true → f x ≡ v) xs
      → update_where p f xs ≡ put_row p v xs
  update_where-put_row p f v [] h = refl
  update_where-put_row p f v (x ∷ xs) h = ground (arith, h.0, update_where-put_row p f v xs h.1)

  pub All-map {κ} : {P Q : A → Type κ} (xs : List A) → ((x : A) → P x → Q x) → All P xs → All Q xs
  All-map [] f h = tt
  All-map (x ∷ xs) f h = (f x h.0, All-map xs f h.1)

  -- Rows that are looked for are not deleted.
  pub find_row-delete_other :
      (p q : A → Bool) (xs : List A)
      → All (λ x. p x ≡ true → q x ≡ false) xs
      → find_row p (delete_where q xs) ≡ find_row p xs
  find_row-delete_other p q [] apart = refl
  find_row-delete_other p q (x ∷ xs) apart =
      ground (arith, apart.0, find_row-delete_other p q xs apart.1)

  pub rows_where-delete_other :
      (p q : A → Bool) (xs : List A)
      → ((x : A) → p x ≡ true → q x ≡ false)
      → rows_where p (delete_where q xs) ≡ rows_where p xs
  rows_where-delete_other p q [] apart = refl
  rows_where-delete_other p q (x ∷ xs) apart =
      ground (arith, apart x, rows_where-delete_other p q xs apart)

  pub everywhere {κ} : {P : A → Type κ} (xs : List A) → ((x : A) → P x) → All P xs
  everywhere [] h = tt
  everywhere (x ∷ xs) h = (h x, everywhere xs h)

  -- Two tests that agree on each row.
  pub delete_where_cong :
      (p q : A → Bool) (xs : List A)
      → All (λ x. p x ≡ q x) xs
      → delete_where p xs ≡ delete_where q xs
  delete_where_cong p q [] h = refl
  delete_where_cong p q (x ∷ xs) h = ground (arith, h.0, delete_where_cong p q xs h.1)

  pub still :
      (q p : A → Bool) (y : A) (rows : List A)
      → any_row q (rows_where p rows) ≡ true
      → any_row q (rows_where p (y ∷ rows)) ≡ true
  still q p y rows h = ground arith

  pub any_row-find_row :
      (p : A → Bool) (xs : List A) (y : A) → find_row p xs ≡ some y → any_row p xs ≡ true
  any_row-find_row p [] y h = cc
  any_row-find_row p (x ∷ xs) y h = ground (arith, any_row-find_row p xs y)

  pub any_row-append :
      (p : A → Bool) (xs : List A) (y : A) → p y ≡ true → any_row p (xs ++ y ∷ []) ≡ true
  any_row-append p [] y h = rw h refl
  any_row-append p (x ∷ xs) y h = ground (arith, any_row-append p xs y h)
