-- ===== src/Prelude/Rows.antt =====
-- Tables as lists of rows: membership, keys, and how the rows of a table change.
use hostinger.Prelude.{
  ℕ, ◌≡◌, inl, inr, Bool, true, List, [], ◌∷◌, ◌++◌, All, select, update, any, map, arith, leb,
  Bool-cases,
}
use hostinger.Prelude.Order.{order_by, insert_asc}

pub data In {A : Type 0} (x : A) : List A → Type 0 where
  here : {xs : List A} → In x (x ∷ xs)
  there : {y : A} {xs : List A} → In x xs → In x (y ∷ xs)

module _ {A : Type 0} where
  pub All-In : (P : A → Type 0) {x : A} {xs : List A} → In x xs → All P xs → P x
  All-In P here (h, _) = h
  All-In P (there i) (_, h) = All-In P i h

  pub All-map : (P Q : A → Type 0) → ((x : A) → P x → Q x) → (xs : List A) → All P xs → All Q xs
  All-map P Q f [] h = tt
  All-map P Q f (x ∷ xs) (h, k) = (f x h, All-map P Q f xs k)

  -- Each row is in its table.
  pub All-itself : (xs : List A) → All (λ x. In x xs) xs
  All-itself [] = tt
  All-itself (x ∷ xs) =
      (here, All-map (λ y. In y xs) (λ y. In y (x ∷ xs)) (λ y. there) xs (All-itself xs))

  pub All-select :
      (P : A → Type 0) (p : A → Bool) (xs : List A)
      → All P xs
      → All (λ x. P x × (p x ≡ true)) (select p xs)
  All-select P p [] h = tt
  All-select P p (x ∷ xs) (h, k) = elim (Bool-cases (p x)) [
    | inl e ↦ rw e ((h, e), All-select P p xs k)
    | inr e ↦ rw e (All-select P p xs k)
  ]

-- Each row stays in its place and goes on by `Step`; rows are added at the end.
pub data Grows {A : Type 0} (New : A → Type 0) (Step : A → A → Type 0)
    : List A → List A → Type 0 where
  added : {rs : List A} → All New rs → Grows New Step [] rs
  kept :
      {r r' : A} {rs rs' : List A}
      → Step r r'
      → Grows New Step rs rs'
      → Grows New Step (r ∷ rs) (r' ∷ rs')

pub record IsHistory {A : Type 0} (New : A → Type 0) (Step : A → A → Type 0) : Type 0 where
  pub reflexive : (r : A) → Step r r
  pub transitive : (r s t : A) → Step r s → Step s t → Step r t
  pub born : (r s : A) → New r → Step r s → New s

module _ {A : Type 0} {New : A → Type 0} {Step : A → A → Type 0} (law : IsHistory New Step) where
  pub Grows-refl : (rs : List A) → Grows New Step rs rs
  Grows-refl [] = added tt
  Grows-refl (r ∷ rs) = kept (law.reflexive r) (Grows-refl rs)

  New-later : {rs ss : List A} → Grows New Step rs ss → All New rs → All New ss
  New-later (added h) k = h
  New-later (kept {r} {r'} s g) (n, k) = (law.born r r' n s, New-later g k)

  pub Grows-trans :
      {rs ss ts : List A} → Grows New Step rs ss → Grows New Step ss ts → Grows New Step rs ts
  Grows-trans (added h) g = added (New-later g h)
  Grows-trans (kept {r} {r'} s g) (kept {r = x} {r' = y} s' g') =
      kept (law.transitive r x y s s') (Grows-trans g g')

  pub Grows-append : (rs : List A) (r : A) → New r → Grows New Step rs (rs ++ r ∷ [])
  Grows-append [] r h = added (h, tt)
  Grows-append (s ∷ rs) r h = kept (law.reflexive s) (Grows-append rs r h)

  pub Grows-update :
      (p : A → Bool) (f : A → A)
      → ((r : A) → Step r (f r))
      → (rs : List A) → Grows New Step rs (update p f rs)
  Grows-update p f h [] = added tt
  Grows-update p f h (r ∷ rs) = elim (Bool-cases (p r)) [
    | inl e ↦ rw e (kept (h r) (Grows-update p f h rs))
    | inr e ↦ rw e (kept (law.reflexive r) (Grows-update p f h rs))
  ]

module _ {A : Type 0} where
  pub In-select : (p : A → Bool) {x : A} {xs : List A} → In x xs → p x ≡ true → In x (select p xs)
  In-select p here h = rw h here
  In-select p (there {y} {xs} i) h = elim (Bool-cases (p y)) [
    | inl e ↦ rw e (there (In-select p i h))
    | inr e ↦ rw e (In-select p i h)
  ]

  pub In-map : {B : Type 0} (f : A → B) {x : A} {xs : List A} → In x xs → In (f x) (map f xs)
  In-map f here = here
  In-map f (there i) = there (In-map f i)

  pub In-any : (p : A → Bool) {x : A} {xs : List A} → In x xs → p x ≡ true → any p xs ≡ true
  In-any p here h = ground (arith, h)
  In-any p (there i) h = ground (arith, In-any p i h)

  In-insert_asc_old :
      (key : A → ℕ) (a : A) {x : A} {xs : List A} → In x xs → In x (insert_asc key a xs)
  unfolding insert_asc
  In-insert_asc_old key a {x} (here {xs}) = elim (Bool-cases (leb (key a) (key x))) [
    | inl e ↦ rw e (there here)
    | inr e ↦ rw e here
  ]
  In-insert_asc_old key a (there {y} {xs} i) = elim (Bool-cases (leb (key a) (key y))) [
    | inl e ↦ rw e (there (there i))
    | inr e ↦ rw e (there (In-insert_asc_old key a i))
  ]

  In-insert_asc_new : (key : A → ℕ) (a : A) (xs : List A) → In a (insert_asc key a xs)
  unfolding insert_asc
  In-insert_asc_new key a [] = here
  In-insert_asc_new key a (y ∷ xs) = elim (Bool-cases (leb (key a) (key y))) [
    | inl e ↦ rw e here
    | inr e ↦ rw e (there (In-insert_asc_new key a xs))
  ]

  pub In-order_by : (key : A → ℕ) {x : A} {xs : List A} → In x xs → In x (order_by key xs)
  unfolding order_by
  In-order_by key {x} (here {xs}) = In-insert_asc_new key x (order_by key xs)
  In-order_by key (there {y} {xs} i) = In-insert_asc_old key y (In-order_by key i)
