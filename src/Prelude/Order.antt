-- ===== src/Prelude/Order.antt =====
-- `ORDER BY key`: insertion sort, which keeps rows with equal keys in their order.
use Prim.Native.Nat.{ℕ}
use mathlib.Core.List.{List, [], ◌∷◌}
use mathlib.Core.Logic.{inl, inr}
use hostinger.Prelude.Lists.{All}
use hostinger.Prelude.Tests.{Bool-cases, leb, if◌then◌else◌}

module _ {ℓ} {A : Type ℓ} (key : A → ℕ) where
  unfoldable pub insert_asc : A → List A → List A
  insert_asc a [] = a ∷ []
  insert_asc a (x ∷ xs) = if leb (key a) (key x) then a ∷ x ∷ xs else x ∷ insert_asc a xs

  unfoldable pub order_by : List A → List A
  unfolding insert_asc
  order_by [] = []
  order_by (x ∷ xs) = insert_asc x (order_by xs)

  All-insert_asc : (P : A → Type 0) (a : A) (xs : List A) → P a → All P xs → All P (insert_asc a xs)
  unfolding insert_asc
  All-insert_asc P a [] h k = (h, tt)
  All-insert_asc P a (x ∷ xs) h (i, k) = elim (Bool-cases (leb (key a) (key x))) [
    | inl e ↦ rw e (h, (i, k))
    | inr e ↦ rw e (i, All-insert_asc P a xs h k)
  ]

  pub All-order_by : (P : A → Type 0) (xs : List A) → All P xs → All P (order_by xs)
  unfolding order_by
  All-order_by P [] h = tt
  All-order_by P (x ∷ xs) (h, k) = All-insert_asc P x (order_by xs) h (All-order_by P xs k)

  unfoldable pub insert_desc : A → List A → List A
  insert_desc a [] = a ∷ []
  insert_desc a (x ∷ xs) = if leb (key x) (key a) then a ∷ x ∷ xs else x ∷ insert_desc a xs

  unfoldable pub order_by_desc : List A → List A
  unfolding insert_desc
  order_by_desc [] = []
  order_by_desc (x ∷ xs) = insert_desc x (order_by_desc xs)

  All-insert_desc :
      (P : A → Type 0) (a : A) (xs : List A) → P a → All P xs → All P (insert_desc a xs)
  unfolding insert_desc
  All-insert_desc P a [] h k = (h, tt)
  All-insert_desc P a (x ∷ xs) h (i, k) = elim (Bool-cases (leb (key x) (key a))) [
    | inl e ↦ rw e (h, (i, k))
    | inr e ↦ rw e (i, All-insert_desc P a xs h k)
  ]

  pub All-order_by_desc : (P : A → Type 0) (xs : List A) → All P xs → All P (order_by_desc xs)
  unfolding order_by_desc
  All-order_by_desc P [] h = tt
  All-order_by_desc P (x ∷ xs) (h, k) =
      All-insert_desc P x (order_by_desc xs) h (All-order_by_desc P xs k)
