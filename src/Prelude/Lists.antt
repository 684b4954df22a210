-- ===== src/Prelude/Lists.antt =====
-- Searches and updates on lists of rows, with the lengths in native numbers.
use Prim.Native.Nat.{ℕ, zero, suc, ◌+◌}
use mathlib.Core.Path.{◌≡◌, refl}
use mathlib.Core.Bool.{Bool, true, false, ◌||◌}
use mathlib.Core.List.{List, [], ◌∷◌, ◌++◌}
use mathlib.Core.Option
use mathlib.Core.Option.{Option, none, some}
use mathlib.Core.Logic.{◌⊎◌}
use native.Mathlib.Omega.{arith}
use hostinger.Prelude.Tests.{if◌then◌else◌}

module _ {ℓ} {A : Type ℓ} where
  abbrev pub length : List A → ℕ
  length [] = 0
  length (x ∷ xs) = suc (length xs)

  -- The first row that passes the test.
  abbrev pub find : (A → Bool) → List A → Option A
  find p [] = none
  find p (x ∷ xs) = if p x then some x else find p xs

  -- All rows that pass the test, in order.
  abbrev pub select : (A → Bool) → List A → List A
  select p [] = []
  select p (x ∷ xs) = let rest = select p xs in if p x then x ∷ rest else rest

  -- The rows with `f` applied where the test passes.
  abbrev pub update : (A → Bool) → (A → A) → List A → List A
  update p f [] = []
  update p f (x ∷ xs) = (if p x then f x else x) ∷ update p f xs

  abbrev pub take : ℕ → List A → List A
  take zero xs = []
  take (suc n) [] = []
  take (suc n) (x ∷ xs) = x ∷ take n xs

  abbrev pub any : (A → Bool) → List A → Bool
  any p [] = false
  any p (x ∷ xs) = p x || any p xs

  abbrev pub All {κ} : (A → Type κ) → List A → Type κ
  All P [] = Unit
  All P (x ∷ xs) = P x × All P xs

  pub length-append : (xs ys : List A) → length (xs ++ ys) ≡ length xs + length ys
  length-append [] ys = omega arith
  length-append (x ∷ xs) ys = omega (arith, length-append xs ys)

  pub All-append {κ} : (P : A → Type κ) (xs ys : List A) → All P xs → All P ys → All P (xs ++ ys)
  All-append P [] ys h k = k
  All-append P (x ∷ xs) ys h k = (h.0, All-append P xs ys h.1 k)

module _ {ℓ} {A : Type ℓ} where
  pub find-append :
      (p : A → Bool) (xs ys : List A) (x : A) → find p xs ≡ some x → find p (xs ++ ys) ≡ some x
  find-append p [] ys x h = cc
  find-append p (y ∷ xs) ys x h = ground (arith, find-append p xs ys x)

  -- What an append adds is found only past the old rows.
  pub find-append_cases :
      (p : A → Bool) (xs : List A) (y x : A)
      → find p (xs ++ y ∷ []) ≡ some x
      → (find p xs ≡ some x) ⊎ (x ≡ y)
  find-append_cases p [] y x h = ground arith
  find-append_cases p (z ∷ xs) y x h = ground (arith, find-append_cases p xs y x)

  pub find_passes : (p : A → Bool) (xs : List A) (x : A) → find p xs ≡ some x → p x ≡ true
  find_passes p [] x h = cc
  find_passes p (y ∷ xs) x h = ground (arith, find_passes p xs x)

  pub any-false-find : (p : A → Bool) (xs : List A) → any p xs ≡ false → find p xs ≡ none
  any-false-find p [] h = refl
  any-false-find p (x ∷ xs) h = ground (arith, any-false-find p xs)

  -- An update that no other test notices.
  pub find-update :
      (p q : A → Bool) (f : A → A) (xs : List A)
      → ((x : A) → q (f x) ≡ q x)
      → ((x : A) → p x ≡ true → q x ≡ true)
      → find q (update p f xs) ≡ Option.map (λ x. if p x then f x else x) (find q xs)
  find-update p q f [] h k = refl
  find-update p q f (x ∷ xs) h k = ground (arith, h x, k x, find-update p q f xs h k)
