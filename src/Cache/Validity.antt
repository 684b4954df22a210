-- ===== src/Cache/Validity.antt =====
-- Which entries of src/cache.rs are valid, over any operations.
use hostinger.Prelude.{
  ℕ, String, ◌≡◌, ◌≢◌, refl, subst, inl, inr, Bool, true, false, not, ◌&&◌, none, some, List, [],
  ◌∷◌, ◌++◌, arith, All, All-append, ◌==◌, str_eq, eq_iff, find, update, any, Bool-cases,
  Option-cases,
}
use hostinger.Exec.{ok, World, write, new_uuid, now_utc}
use hostinger.Exec.Moves.{
  Preserves, Preserves-IsPreorder, Moves, Moves-bind, Moves-write, Moves-now_utc, Moves-new_uuid,
  try_write_at,
}
use hostinger.Exec.Outcomes.{write_ok, read_ok}
use hostinger.Cache.Entries.{
  BuildCacheEntry, StoreCacheEntryInput, is_for, new_entry, stored_again, upsert_entry, valid_entry,
  used_at, invalidated, update_entries,
}
use hostinger.Cache.Repository.{
  CacheError, store_failed, query_failed, touch_failed, invalidate_failed,
  invalidate_project_failed, store, get_valid, touch_used, invalidate, invalidate_project,
}

pub data CacheOperation : Type 0 where
  to_store : StoreCacheEntryInput → CacheOperation
  to_touch : ℕ → String → CacheOperation
  to_invalidate : ℕ → String → CacheOperation
  to_invalidate_project : ℕ → CacheOperation

-- The world after an operation, returned or failed.
unfoldable pub run : CacheOperation → World (List BuildCacheEntry) → World (List BuildCacheEntry)
run (to_store input) w = (store input w).1
run (to_touch project_id cache_key) w = (touch_used project_id cache_key w).1
run (to_invalidate project_id cache_key) w = (invalidate project_id cache_key w).1
run (to_invalidate_project project_id) w = (invalidate_project project_id w).1

unfoldable pub run_all :
    List CacheOperation → World (List BuildCacheEntry) → World (List BuildCacheEntry)
run_all [] w = w
run_all (o ∷ os) w = run_all os (run o w)

module _ (i : ℕ) (k : String) where
  abbrev pub stores_for : CacheOperation → Bool
  stores_for (to_store input) = input.project_id == i && str_eq input.cache_key k
  stores_for _ = false

  -- Whether `get_valid` may return the entry.
  abbrev pub serves : BuildCacheEntry → Bool
  serves e = is_for i k e && not e.is_invalidated

  abbrev Silent : List BuildCacheEntry → Type 0
  Silent es = All (λ e. serves e ≡ false) es

  All-update :
      (p : BuildCacheEntry → Bool) (f : BuildCacheEntry → BuildCacheEntry)
      (es : List BuildCacheEntry)
      → ((e : BuildCacheEntry) → p e ≡ true → serves e ≡ false → serves (f e) ≡ false)
      → Silent es
      → Silent (update p f es)
  All-update p f [] h s = tt
  All-update p f (e ∷ es) h (s, ss) = elim (Bool-cases (p e)) [
    | inl q ↦ rw q (h e q s, All-update p f es h ss)
    | inr q ↦ rw q (s, All-update p f es h ss)
  ]

  -- An entry of another project or another key.
  pub other_entry :
      (j : ℕ) (l : String) (e : BuildCacheEntry)
      → (j == i && str_eq l k) ≡ false
      → is_for j l e ≡ true
      → is_for i k e ≡ false
  other_entry j l e other met =
      let same_project : e.project_id ≡ j = ground (arith, met) in
      let same_key : e.cache_key ≡ l = (eq_iff e.cache_key l).0 (ground (arith, met)) in
      rw (same_project, same_key) other

  upsert-Silent :
      (input : StoreCacheEntryInput) (id now : ℕ) (es es' : List BuildCacheEntry)
      (r : BuildCacheEntry)
      → stores_for (to_store input) ≡ false
      → upsert_entry input id now es ≡ some (r, es')
      → Silent es
      → Silent es'
  unfolding upsert_entry
  upsert-Silent input id now es es' r other h s =
      elim (Option-cases (find (is_for input.project_id input.cache_key) es)) [
        | inr (e, q) ↦
            let same : update (is_for input.project_id input.cache_key) (stored_again input now) es
                ≡ es' =
              ground (arith, h, q) in
            subst Silent same (
              All-update (is_for input.project_id input.cache_key) (stored_again input now) es
                (λ x met _.
                  ground (arith, other_entry input.project_id input.cache_key x other met))
                s)
        | inl q ↦ elim (Bool-cases (any (λ (e : BuildCacheEntry). e.id == id) es)) [
          | inl taken ↦ absurd (ground (arith, h, q, taken))
          | inr free ↦
              let same : es ++ new_entry input id now ∷ [] ≡ es' = ground (arith, h, q, free) in
              subst Silent same
                (All-append _ es (new_entry input id now ∷ []) s (ground (arith, other), tt))
        ]
      ]

  store-Silent :
      (input : StoreCacheEntryInput)
      → stores_for (to_store input) ≡ false
      → Moves (Preserves Silent) (store input)
  unfolding store
  store-Silent input other =
      let law = Preserves-IsPreorder Silent in
      Moves-bind law new_uuid _ (Moves-new_uuid law) (λ id.
        Moves-bind law now_utc _ (Moves-now_utc law) (λ now. record {
          from = λ w.
              try_write_at law store_failed (upsert_entry input id now) w
                (λ es' r e s. upsert-Silent input id now w.db es' r other e s);
        }))

  update-Silent :
      (c : CacheError) (p : BuildCacheEntry → Bool) (f : BuildCacheEntry → BuildCacheEntry)
      → ((e : BuildCacheEntry) → p e ≡ true → serves e ≡ false → serves (f e) ≡ false)
      → Moves (Preserves Silent) (write c (λ es. (tt {0}, update_entries p f es)))
  unfolding update_entries
  update-Silent c p f h =
      Moves-write (Preserves-IsPreorder Silent) c _ (λ es s. All-update p f es h s)

  run-Silent :
      (o : CacheOperation) (w : World (List BuildCacheEntry))
      → stores_for o ≡ false
      → Silent w.db
      → Silent (run o w).db
  unfolding run touch_used invalidate invalidate_project
  run-Silent (to_store input) w h s = (store-Silent input h).from w s
  run-Silent (to_touch j l) w h s =
      (Moves-bind (Preserves-IsPreorder Silent) now_utc _
          (Moves-now_utc (Preserves-IsPreorder Silent))
          (λ now. update-Silent touch_failed (is_for j l) (used_at now) (λ e _ q. q))).from
        w s
  run-Silent (to_invalidate j l) w h s =
      (update-Silent invalidate_failed (is_for j l) invalidated (λ e _ _. ground arith)).from w s
  run-Silent (to_invalidate_project j) w h s =
      (update-Silent invalidate_project_failed (λ e. e.project_id == j) invalidated
          (λ e _ _. ground arith)).from
        w s

  run_all-Silent :
      (os : List CacheOperation) (w : World (List BuildCacheEntry))
      → All (λ o. stores_for o ≡ false) os
      → Silent w.db
      → Silent (run_all os w).db
  unfolding run_all
  run_all-Silent [] w h s = s
  run_all-Silent (o ∷ os) w (h, hs) s = run_all-Silent os (run o w) hs (run-Silent o w h s)

  all_invalidated : (es : List BuildCacheEntry) → Silent (update (is_for i k) invalidated es)
  all_invalidated [] = tt
  all_invalidated (e ∷ es) = elim (Bool-cases (is_for i k e)) [
    | inl q ↦ rw q (ground arith, all_invalidated es)
    | inr q ↦ rw q (ground (arith, q), all_invalidated es)
  ]

  find-Silent : (es : List BuildCacheEntry) → Silent es → find serves es ≡ none
  find-Silent [] s = refl
  find-Silent (e ∷ es) (s, ss) = ground (arith, s, find-Silent es ss)

-- Once `invalidate` has returned for a project and a key, `get_valid` returns no entry for them,
-- until an entry is stored for them again, whatever other operations come between, returned or
-- failed.
pub invalidated_until_stored :
    (i : ℕ) (k : String) (w : World (List BuildCacheEntry)) (u : Unit {0})
    (os : List CacheOperation) (e : BuildCacheEntry)
    → (invalidate i k w).0 ≡ ok u
    → All (λ o. stores_for i k o ≡ false) os
    → (get_valid i k (run_all os (invalidate i k w).1)).0 ≢ ok (some e)
unfolding invalidate update_entries get_valid valid_entry
invalidated_until_stored i k w u os e h others found =
    let (_, after) =
      write_ok invalidate_failed (λ es. (tt {0}, update (is_for i k) invalidated es)) w u h in
    let w₁ = (invalidate i k w).1 in
    let silent₁ : Silent i k w₁.db = rw after (all_invalidated i k w.db) in
    let silent : Silent i k (run_all os w₁).db = run_all-Silent i k os w₁ others silent₁ in
    let (_, answer) = read_ok query_failed (find (serves i k)) (run_all os w₁) (some e) found in
    let nothing = find-Silent i k (run_all os w₁).db silent in ground (arith, answer, nothing)
