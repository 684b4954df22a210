-- ===== src/Cache/Serving.antt =====
-- An entry that src/cache.rs serves stays served.
use hostinger.Prelude.{
  ℕ, String, ◌≡◌, refl, subst, inl, inr, Bool, true, false, not, ◌&&◌, some, List, [], ◌∷◌, ◌++◌,
  arith, All, ◌==◌, str_eq, find, find-append, find_passes, update, any, if◌then◌else◌, Bool-cases,
  Option-cases,
}
use hostinger.Exec.{World, write, new_uuid, now_utc}
use hostinger.Exec.Moves.{
  Preserves, Preserves-IsPreorder, Moves, Moves-bind, Moves-write, Moves-now_utc, Moves-new_uuid,
  try_write_at,
}
use hostinger.Cache.Entries.{
  BuildCacheEntry, StoreCacheEntryInput, is_for, new_entry, stored_again, upsert_entry, used_at,
  invalidated, update_entries,
}
use hostinger.Cache.Repository.{
  CacheError, store_failed, touch_failed, invalidate_failed, invalidate_project_failed, store,
  touch_used, invalidate, invalidate_project,
}
use hostinger.Cache.Validity.{
  CacheOperation, to_store, to_touch, to_invalidate, to_invalidate_project, run, run_all, serves,
  other_entry,
}

-- What `store` was asked to keep.
pub record Holds (input : StoreCacheEntryInput) (e : BuildCacheEntry) : Type 0 where
  pub checksum : e.artifact_checksum ≡ input.artifact_checksum
  pub size : e.size_bytes ≡ input.size_bytes
  pub path : e.storage_path ≡ input.storage_path
  pub tools : e.toolchain ≡ input.toolchain

find_updated :
    {A : Type 0} (v q : A → Bool) (f : A → A) (xs : List A) (x : A)
    → ((y : A) → q y ≡ true → v (f y) ≡ v y)
    → find v xs ≡ some x
    → find v (update q f xs) ≡ some (if q x then f x else x)
find_updated v q f [] x h e = cc
find_updated v q f (y ∷ xs) x h e = elim (Bool-cases (q y)) [
  | inl met ↦ ground (arith, e, met, h y met, find_updated v q f xs x h)
  | inr unmet ↦ ground (arith, e, unmet, find_updated v q f xs x h)
]

module _ (i : ℕ) (k : String) where
  -- An operation that neither stores nor invalidates for the project and the key.
  abbrev pub spares : CacheOperation → Bool
  spares (to_store input) = not (input.project_id == i && str_eq input.cache_key k)
  spares (to_touch j l) = true
  spares (to_invalidate j l) = not (j == i && str_eq l k)
  spares (to_invalidate_project j) = not (j == i)

  module _ (input : StoreCacheEntryInput) where
    abbrev pub Served : List BuildCacheEntry → Type 0
    Served es = (e : BuildCacheEntry) × (find (serves i k) es ≡ some e) × Holds input e

    -- An update that changes nothing that is served, or only when it was used.
    update-Served :
        (q : BuildCacheEntry → Bool) (f : BuildCacheEntry → BuildCacheEntry)
        (es : List BuildCacheEntry)
        → ((e : BuildCacheEntry) → q e ≡ true → serves i k (f e) ≡ serves i k e)
        → ((e : BuildCacheEntry)
            → q e ≡ true
            → serves i k e ≡ true
            → Holds input e
            → Holds input (f e))
        → Served es
        → Served (update q f es)
    update-Served q f es same held (e, found, h) =
        (if q e then f e else e, find_updated (serves i k) q f es e same found, kept)
      where
        kept : Holds input (if q e then f e else e)
        kept = elim (Bool-cases (q e)) [
          | inl met ↦ rw met (held e met (find_passes (serves i k) es e found) h)
          | inr unmet ↦ rw unmet h
        ]

    upsert-Served :
        (other : StoreCacheEntryInput) (id now : ℕ) (es es' : List BuildCacheEntry)
        (r : BuildCacheEntry)
        → (other.project_id == i && str_eq other.cache_key k) ≡ false
        → upsert_entry other id now es ≡ some (r, es')
        → Served es
        → Served es'
    unfolding upsert_entry
    upsert-Served other id now es es' r apart h (e, found, held) =
        elim (Option-cases (find (is_for other.project_id other.cache_key) es)) [
          | inr (x, q) ↦
              let same : update (is_for other.project_id other.cache_key) (stored_again other now)
                    es
                  ≡ es' =
                ground (arith, h, q) in
              subst Served same (
                update-Served (is_for other.project_id other.cache_key) (stored_again other now) es
                  (λ y met.
                    ground (arith, other_entry i k other.project_id other.cache_key y apart met))
                  (λ y met s _. absurd (
                    ground
                      (arith, s, other_entry i k other.project_id other.cache_key y apart met)))
                  (e, found, held))
          | inl q ↦ elim (Bool-cases (any (λ (x : BuildCacheEntry). x.id == id) es)) [
            | inl taken ↦ absurd (ground (arith, h, q, taken))
            | inr free ↦
                let same : es ++ new_entry other id now ∷ [] ≡ es' = ground (arith, h, q, free) in
                subst Served same
                  (e, find-append (serves i k) es (new_entry other id now ∷ []) e found, held)
          ]
        ]

    write-Served :
        (c : CacheError) (q : BuildCacheEntry → Bool) (f : BuildCacheEntry → BuildCacheEntry)
        → ((e : BuildCacheEntry) → q e ≡ true → serves i k (f e) ≡ serves i k e)
        → ((e : BuildCacheEntry)
            → q e ≡ true
            → serves i k e ≡ true
            → Holds input e
            → Holds input (f e))
        → Moves (Preserves Served) (write c (λ es. (tt {0}, update_entries q f es)))
    unfolding update_entries
    write-Served c q f same held =
        Moves-write (Preserves-IsPreorder Served) c _ (λ es s. update-Served q f es same held s)

    run-Served :
        (o : CacheOperation) (w : World (List BuildCacheEntry))
        → spares o ≡ true
        → Served w.db
        → Served (run o w).db
    unfolding run store touch_used invalidate invalidate_project
    run-Served (to_store other) w h s =
        let law = Preserves-IsPreorder Served in
        (Moves-bind law new_uuid _ (Moves-new_uuid law) (λ id.
            Moves-bind law now_utc _ (Moves-now_utc law) (λ now. record {
              from = λ w'.
                  try_write_at law store_failed (upsert_entry other id now) w'
                    (λ es' r e s'. upsert-Served other id now w'.db es' r (ground (arith, h)) e s');
            }))).from
          w s
    run-Served (to_touch j l) w h s =
        let law = Preserves-IsPreorder Served in
        (Moves-bind law now_utc _ (Moves-now_utc law) (λ now.
            write-Served touch_failed (is_for j l) (used_at now) (λ e _. refl)
              (λ e _ _ m. record {
                checksum = m.checksum;
                size = m.size;
                path = m.path;
                tools = m.tools;
              }))).from
          w s
    run-Served (to_invalidate j l) w h s =
        (write-Served invalidate_failed (is_for j l) invalidated
            (λ e met. ground (arith, other_entry i k j l e (ground (arith, h)) met))
            (λ e met t _.
              absurd (ground (arith, t, other_entry i k j l e (ground (arith, h)) met)))).from
          w s
    run-Served (to_invalidate_project j) w h s =
        (write-Served invalidate_project_failed (λ e. e.project_id == j) invalidated
            (λ e met. ground (arith, h, met))
            (λ e met t _. absurd (ground (arith, h, met, t)))).from
          w s

    pub run_all-Served :
        (os : List CacheOperation) (w : World (List BuildCacheEntry))
        → All (λ o. spares o ≡ true) os
        → Served w.db
        → Served (run_all os w).db
    unfolding run_all
    run_all-Served [] w h s = s
    run_all-Served (o ∷ os) w (h, hs) s = run_all-Served os (run o w) hs (run-Served o w h s)
