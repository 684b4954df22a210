-- ===== src/Cache/Order.antt =====
-- The order of texts, and sorted lists of texts without repetitions.
use hostinger.Prelude.{
  String, code, ◌≡◌, refl, sym, ap, ◌∙◌, subst, ◌⊎◌, inl, inr, Bool, true, false, List, [], ◌∷◌,
  arith, All, ◌==◌, ltb, if◌then◌else◌,
}
use hostinger.Prelude.Rows.{In, here, there, All-In}
use text.Mathlib.TextEquality.{codes_equal}

-- `s <= t` on texts: code point by code point, which is byte by byte in UTF-8.
unfoldable pub text_leb : String → String → Bool
text_leb String.[] t = true
text_leb (String.◌∷◌ x s) String.[] = false
text_leb (String.◌∷◌ x s) (String.◌∷◌ y t) =
    let rest = text_leb s t in
    if ltb (code x) (code y) then true else if code x == code y then rest else false

pub text_leb_total : (s t : String) → text_leb s t ≡ false → text_leb t s ≡ true
unfolding text_leb
text_leb_total String.[] t h = cc
text_leb_total (String.◌∷◌ x s) String.[] h = refl
text_leb_total (String.◌∷◌ x s) (String.◌∷◌ y t) h = ground (arith, h, text_leb_total s t)

pub text_leb_trans :
    (s t u : String) → text_leb s t ≡ true → text_leb t u ≡ true → text_leb s u ≡ true
unfolding text_leb
text_leb_trans String.[] t u h k = refl
text_leb_trans (String.◌∷◌ x s) String.[] u h k = cc
text_leb_trans (String.◌∷◌ x s) (String.◌∷◌ y t) String.[] h k = cc
text_leb_trans (String.◌∷◌ x s) (String.◌∷◌ y t) (String.◌∷◌ z u) h k =
    ground (arith, h, k, text_leb_trans s t u)

pub text_leb_antisym : (s t : String) → text_leb s t ≡ true → text_leb t s ≡ true → s ≡ t
unfolding text_leb
text_leb_antisym String.[] String.[] h k = refl
text_leb_antisym String.[] (String.◌∷◌ y t) h k = cc
text_leb_antisym (String.◌∷◌ x s) String.[] h k = cc
text_leb_antisym (String.◌∷◌ x s) (String.◌∷◌ y t) h k =
    let same_code : code x ≡ code y = ground (arith, h, k) in
    let rest : s ≡ t =
      text_leb_antisym s t (ground (arith, h, same_code)) (ground (arith, k, same_code)) in
    let first : x ≡ y = codes_equal x y (ground (arith, same_code)) in
    ap (λ c. String.◌∷◌ c s) first ∙ ap (λ r. String.◌∷◌ y r) rest

text_leb_refl : (s : String) → text_leb s s ≡ true
unfolding text_leb
text_leb_refl String.[] = refl
text_leb_refl (String.◌∷◌ x s) = ground (arith, text_leb_refl s)

-- `s < t`
abbrev pub Below : String → String → Type 0
Below s t = text_leb t s ≡ false

abbrev pub Ascending : List String → Type 0
Ascending [] = Unit
Ascending (x ∷ xs) = All (Below x) xs × Ascending xs

nowhere : {z : String} {A : Type 0} → In z [] → A
nowhere i = elim i [ ]

pub In-cases : {x y : String} {ys : List String} → In x (y ∷ ys) → (x ≡ y) ⊎ In x ys
In-cases here = inl refl
In-cases (there i) = inr i

-- An element of the one tail is in the other tail, since it is not the first.
tail_In :
    (x : String) (xs ys : List String)
    → All (Below x) xs
    → ((z : String) → In z (x ∷ xs) → In z (x ∷ ys))
    → (z : String) → In z xs
    → In z ys
tail_In x xs ys a f z i = past (f z (there i)) (All-In (Below x) i a)
  where
    past : {z : String} → In z (x ∷ ys) → Below x z → In z ys
    past here b = absurd (ground (arith, b, text_leb_refl x))
    past (there j) b = j

-- Ascending lists with the same elements are the same.
pub same_elements_same_list :
    (xs ys : List String)
    → Ascending xs
    → Ascending ys
    → ((z : String) → In z xs → In z ys)
    → ((z : String) → In z ys → In z xs)
    → xs ≡ ys
same_elements_same_list [] [] a b f g = refl
same_elements_same_list [] (y ∷ ys) a b f g = nowhere (g y here)
same_elements_same_list (x ∷ xs) [] a b f g = nowhere (f x here)
same_elements_same_list (x ∷ xs) (y ∷ ys) (a, a') (b, b') f g =
    let same : x ≡ y = first (f x here) (g y here) in
    let f' : (z : String) → In z (x ∷ xs) → In z (x ∷ ys) =
      subst (λ v. (z : String) → In z (x ∷ xs) → In z (v ∷ ys)) (sym same) f in
    let g' : (z : String) → In z (x ∷ ys) → In z (x ∷ xs) =
      subst (λ v. (z : String) → In z (v ∷ ys) → In z (x ∷ xs)) (sym same) g in
    let b'' : All (Below x) ys = subst (λ v. All (Below v) ys) (sym same) b in
    ap (λ v. v ∷ xs) same
    ∙ ap (λ vs. y ∷ vs)
        (same_elements_same_list xs ys a' b' (tail_In x xs ys a f') (tail_In x ys xs b'' g'))
  where
    first : In x (y ∷ ys) → In y (x ∷ xs) → x ≡ y
    first i j = elim (In-cases i) [
      | inl e ↦ e
      | inr i' ↦ elim (In-cases j) [
        | inl e ↦ sym e
        | inr j' ↦
            let below : Below y x = All-In (Below y) i' b in
            let above : Below x y = All-In (Below x) j' a in
            absurd (ground (arith, above, text_leb_total x y below, below))
      ]
    ]
