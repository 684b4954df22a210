-- ===== src/Cache/Canonical.antt =====
-- The canonical list of keys behind `from_build_inputs` of src/cache.rs.
use hostinger.Prelude.{
  String, ◌≡◌, sym, ap, ◌∙◌, subst, ◌⊎◌, inl, inr, true, false, List, [], ◌∷◌, arith, All, str_eq,
  eq_iff, as_bytes, Bool-cases,
}
use hostinger.Prelude.Rows.{In, here, there, All-In, All-map, All-itself}
use hostinger.Cache.Order.{
  text_leb, text_leb_total, text_leb_trans, text_leb_antisym, Below, Ascending,
  same_elements_same_list, In-cases,
}
use hostinger.Cache.Key.{
  BuildCacheInput, CacheKey, Digests, insert, sort, join, dedup, canonical_value, from_build_inputs,
}

abbrev Sorted : List String → Type 0
Sorted [] = Unit
Sorted (x ∷ xs) = All (λ y. text_leb x y ≡ true) xs × Sorted xs

All-insert :
    (P : String → Type 0) (a : String) (xs : List String) → P a → All P xs → All P (insert a xs)
unfolding insert
All-insert P a [] h k = (h, tt)
All-insert P a (x ∷ xs) h (i, k) = elim (Bool-cases (text_leb a x)) [
  | inl e ↦ rw e (h, (i, k))
  | inr e ↦ rw e (i, All-insert P a xs h k)
]

insert-Sorted : (a : String) (xs : List String) → Sorted xs → Sorted (insert a xs)
unfolding insert
insert-Sorted a [] h = (tt, tt)
insert-Sorted a (x ∷ xs) (h, k) = elim (Bool-cases (text_leb a x)) [
  | inl e ↦ rw e ((e, All-map _ _ (λ y q. text_leb_trans a x y e q) xs h), (h, k))
  | inr e ↦
      rw e
        (All-insert (λ y. text_leb x y ≡ true) a xs (text_leb_total a x e) h, insert-Sorted a xs k)
]

sort-Sorted : (xs : List String) → Sorted (sort xs)
unfolding sort
sort-Sorted [] = tt
sort-Sorted (x ∷ xs) = insert-Sorted x (sort xs) (sort-Sorted xs)

All-join :
    (P : String → Type 0) (x : String) (xs : List String) → P x → All P xs → All P (join x xs)
All-join P x [] h k = (h, tt)
All-join P x (y ∷ ys) h k = elim (Bool-cases (str_eq x y)) [ inl e ↦ rw e k | inr e ↦ rw e (h, k) ]

All-dedup : (P : String → Type 0) (xs : List String) → All P xs → All P (dedup xs)
unfolding dedup
All-dedup P [] h = tt
All-dedup P (x ∷ xs) (h, k) = All-join P x (dedup xs) h (All-dedup P xs k)

-- Above a different element that is not greater.
strictly : (x y : String) → str_eq x y ≡ false → text_leb x y ≡ true → Below x y
strictly x y differ h = elim (Bool-cases (text_leb y x)) [
  | inl k ↦ absurd (ground (arith, differ, (eq_iff x y).1 (text_leb_antisym x y h k)))
  | inr k ↦ k
]

join-Ascending :
    (x : String) (ys : List String)
    → All (λ y. text_leb x y ≡ true) ys
    → Ascending ys
    → Ascending (join x ys)
join-Ascending x [] h a = (tt, tt)
join-Ascending x (y ∷ ys) (h, hs) (b, a) = elim (Bool-cases (str_eq x y)) [
  | inl e ↦ rw e (b, a)
  | inr e ↦ rw e ((strictly x y e h, All-map (Below y) (Below x) further ys b), (b, a))
]
  where
    further : (z : String) → Below y z → Below x z
    further z q = elim (Bool-cases (text_leb z x)) [
      | inl k ↦ absurd (ground (arith, q, text_leb_trans z x y k h))
      | inr k ↦ k
    ]

dedup-Ascending : (xs : List String) → Sorted xs → Ascending (dedup xs)
unfolding dedup
dedup-Ascending [] h = tt
dedup-Ascending (x ∷ xs) (h, k) =
    join-Ascending x (dedup xs) (All-dedup (λ y. text_leb x y ≡ true) xs h) (dedup-Ascending xs k)

-- The elements stay the same.
insert_has : (a : String) {z : String} (xs : List String) → (z ≡ a) ⊎ In z xs → In z (insert a xs)
unfolding insert
insert_has a [] (inl e) = subst (λ v. In v (a ∷ [])) (sym e) here
insert_has a [] (inr i) = there i
insert_has a (x ∷ xs) c = elim (Bool-cases (text_leb a x)) [
  | inl e ↦ rw e (elim c [ inl q ↦ subst (λ v. In v (a ∷ x ∷ xs)) (sym q) here | inr i ↦ there i ])
  | inr e ↦ rw e (elim c [
    | inl q ↦ there (insert_has a xs (inl q))
    | inr i ↦ elim (In-cases i) [
      | inl q ↦ subst (λ v. In v (x ∷ insert a xs)) (sym q) here
      | inr j ↦ there (insert_has a xs (inr j))
    ]
  ])
]

sort_has : {z : String} (xs : List String) → In z xs → In z (sort xs)
unfolding sort
sort_has [] i = elim i [ ]
sort_has (x ∷ xs) i =
    insert_has x (sort xs) (elim (In-cases i) [ inl e ↦ inl e | inr j ↦ inr (sort_has xs j) ])

join_has : (x : String) {z : String} (ys : List String) → (z ≡ x) ⊎ In z ys → In z (join x ys)
join_has x [] (inl e) = subst (λ v. In v (x ∷ [])) (sym e) here
join_has x [] (inr i) = there i
join_has x (y ∷ ys) c = elim (Bool-cases (str_eq x y)) [
  | inl e ↦
      rw e (elim c [
        | inl q ↦ subst (λ v. In v (y ∷ ys)) (sym (q ∙ (eq_iff x y).0 e)) here
        | inr i ↦ i
      ])
  | inr e ↦ rw e (elim c [ inl q ↦ subst (λ v. In v (x ∷ y ∷ ys)) (sym q) here | inr i ↦ there i ])
]

dedup_has : {z : String} (xs : List String) → In z xs → In z (dedup xs)
unfolding dedup
dedup_has [] i = elim i [ ]
dedup_has (x ∷ xs) i =
    join_has x (dedup xs) (elim (In-cases i) [ inl e ↦ inl e | inr j ↦ inr (dedup_has xs j) ])

All-sort : (P : String → Type 0) (xs : List String) → All P xs → All P (sort xs)
unfolding sort
All-sort P [] h = tt
All-sort P (x ∷ xs) (h, k) = All-insert P x (sort xs) h (All-sort P xs k)

-- What is kept was there.
kept_from : (xs : List String) (z : String) → In z (dedup (sort xs)) → In z xs
kept_from xs z i =
    All-In (λ y. In y xs) i
      (All-dedup (λ y. In y xs) (sort xs) (All-sort (λ y. In y xs) xs (All-itself xs)))

-- The key of a build does not depend on the order of the declared environment keys, nor on how often
-- a key is declared.
pub from_build_inputs_unordered :
    (digests : Digests) (input : BuildCacheInput) (xs ys : List String)
    → ((z : String) → In z xs → In z ys)
    → ((z : String) → In z ys → In z xs)
    → from_build_inputs digests (record input { declared_env_keys = xs })
      ≡ from_build_inputs digests (record input { declared_env_keys = ys })
unfolding from_build_inputs
from_build_inputs_unordered digests input xs ys f g =
    ap (λ keys. from_sorted keys)
      (same_elements_same_list (dedup (sort xs)) (dedup (sort ys))
        (dedup-Ascending (sort xs) (sort-Sorted xs)) (dedup-Ascending (sort ys) (sort-Sorted ys))
        (across xs ys f) (across ys xs g))
  where
    from_sorted : List String → CacheKey
    from_sorted keys =
        let canonical_json = digests.json (canonical_value input keys) in
        record {
          digest = digests.hex (digests.sha256 (as_bytes canonical_json));
          canonical_json = canonical_json;
        }

    across :
        (us vs : List String)
        → ((z : String) → In z us → In z vs)
        → (z : String) → In z (dedup (sort us))
        → In z (dedup (sort vs))
    across us vs h z i = dedup_has (sort vs) (sort_has vs (h z (kept_from us z i)))
