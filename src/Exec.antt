-- ===== src/Exec.antt =====
-- The async methods of src/*.rs as actions on a world: the state that the services share (`db`),
-- and what the environment answers. `env` fixes, for each numbered interaction, whether the
-- statement fails, which UUID `Uuid::new_v4` draws and what the clock reads. What an action wrote
-- before it returned an error stays written, so the world comes back beside the error too.
pub mod Moves
pub mod Outcomes
pub mod Reverts
pub mod Progress
use hostinger.Prelude.{ℕ, suc, Bool, Option, none, some, if◌then◌else◌}

pub data Result {ℓ κ} (E : Type ℓ) (A : Type κ) : Type (ℓ ⊔ κ) where
  ok : A → Result E A
  err : E → Result E A

pub record Env : Type 0 where
  pub fault : ℕ → Bool
  pub uuid : ℕ → ℕ
  pub time : ℕ → ℕ

pub record World (D : Type 0) : Type 0 where
  pub env : Env
  pub step : ℕ
  pub db : D

-- The world after one more interaction that leaves `db` alone.
abbrev pub next : {D : Type 0} → World D → World D
next w = record w { step = suc w.step }

abbrev pub Exec : Type 0 → Type 0 → Type 0 → Type 0
Exec D E A = World D → Result E A × World D

module _ {D E A : Type 0} where
  abbrev pub pure : A → Exec D E A
  pure a w = (ok a, w)

  abbrev pub raise : E → Exec D E A
  raise e w = (err e, w)

  -- `ok_or_else(...)?`
  abbrev pub or_raise : Option A → E → Exec D E A
  or_raise none e = raise e
  or_raise (some a) e = pure a

  -- A `Result` followed by `?`.
  abbrev pub lift : Result E A → Exec D E A
  lift r w = (r, w)

  -- A statement that the database may refuse (`none`); a fault of the connection has no effect.
  unfoldable pub try_write : E → (D → Option (A × D)) → Exec D E A
  try_write e f w =
      if w.env.fault w.step then (err e, record w { step = suc w.step }) else elim (f w.db) [
        | none ↦ (err e, record w { step = suc w.step })
        | some (a, d) ↦ (ok a, record w { step = suc w.step; db = d })
      ]

  unfoldable pub write : E → (D → A × D) → Exec D E A
  write e f w =
      if w.env.fault w.step
      then (err e, record w { step = suc w.step })
      else (ok (f w.db).0, record w { step = suc w.step; db = (f w.db).1 })

  unfoldable pub read : E → (D → A) → Exec D E A
  read e f w = (if w.env.fault w.step then err e else ok (f w.db), record w { step = suc w.step })

  -- A call of a service that keeps its state in `db` and reports its own errors.
  unfoldable pub call : (D → Result E A × D) → Exec D E A
  call f w = ((f w.db).0, record w { db = (f w.db).1 })

module _ {D E : Type 0} where
  abbrev pub update_db : E → (D → D) → Exec D E (Unit {0})
  update_db e f = write e (λ d. (tt, f d))

  -- Uuid::new_v4()
  unfoldable pub new_uuid : Exec D E ℕ
  new_uuid w = (ok (w.env.uuid w.step), record w { step = suc w.step })

  -- OffsetDateTime::now_utc()
  unfoldable pub now_utc : Exec D E ℕ
  now_utc w = (ok (w.env.time w.step), record w { step = suc w.step })

  -- tokio::time::sleep(d): what the clock shows later is the environment's.
  unfoldable pub sleep : ℕ → Exec D E (Unit {0})
  sleep d w = (ok tt, record w { step = suc w.step })

module _ {D E A B : Type 0} where
  abbrev pub continue : Result E A → (A → Exec D E B) → Exec D E B
  continue (ok a) f w = f a w
  continue (err e) f w = (err e, w)

  infixl 5 ◌>>=◌ ◌>>◌
  abbrev pub ◌>>=◌ : Exec D E A → (A → Exec D E B) → Exec D E B
  ◌>>=◌ m f w = let (r, w') = m w in continue r f w'

  abbrev pub ◌>>◌ : Exec D E A → Exec D E B → Exec D E B
  m >> n = m >>= λ _. n

abbrev pub relabel : {E F A : Type 0} → (E → F) → Result E A → Result F A
relabel f (ok a) = ok a
relabel f (err e) = err (f e)

module _ {D E F A : Type 0} where
  -- The outcome as a value, for `if let Ok(...)` and `let _ = ...`.
  abbrev pub catch : Exec D E A → Exec D F (Result E A)
  catch m w = (ok (m w).0, (m w).1)

  -- `map_err(f)?`
  abbrev pub map_err : (E → F) → Exec D E A → Exec D F A
  map_err f m w = (relabel f (m w).0, (m w).1)

-- What a transaction leaves: its last world if it got to `commit`, the first `db` otherwise.
abbrev pub settle : {D E A : Type 0} → D → Result E A → World D → Result E A × World D
settle d (ok a) w = (ok a, w)
settle d (err e) w = (err e, record w { db = d })

-- `pool.begin()`, the statements and `tx.commit()`, each of which may fail.
abbrev pub bracket : {D E A : Type 0} → E → Exec D E A → Exec D E A
bracket {E} {A} e m = do read {A = Unit {0}} e (λ _. tt); a ← m; read e (λ _. a)

-- An error on the way rolls all of the statements back.
unfoldable pub transaction : {D E A : Type 0} → E → Exec D E A → Exec D E A
transaction e m w = settle w.db (bracket e m w).0 (bracket e m w).1
