-- ===== src/Exec/Progress.antt =====
-- What an action does where the connection is up.
use hostinger.Prelude.{suc, ◌≡◌, refl, false, Option, some}
use hostinger.Exec.{ok, World, Exec, next, read, try_write, ◌>>=◌, transaction}

module _ {D E A : Type 0} (e : E) where
  pub read_up :
      (f : D → A) (w : World D) → w.env.fault w.step ≡ false → read e f w ≡ (ok (f w.db), next w)
  unfolding read
  read_up f w up = rw up refl

  pub try_write_up :
      (f : D → Option (A × D)) (w : World D) (a : A) (d : D)
      → w.env.fault w.step ≡ false
      → f w.db ≡ some (a, d)
      → try_write e f w ≡ (ok a, record w { step = suc w.step; db = d })
  unfolding try_write
  try_write_up f w a d up q = rw up (rw q refl)

  -- A transaction whose statements return is committed.
  pub transaction_up :
      (m : Exec D E A) (w w' : World D) (a : A)
      → w.env.fault w.step ≡ false
      → m (next w) ≡ (ok a, w')
      → w'.env.fault w'.step ≡ false
      → transaction e m w ≡ (ok a, next w')
  unfolding transaction read
  transaction_up m w w' a begun ran committed = rw begun (rw ran (rw committed refl))

pub bind_up :
    {D E A B : Type 0} (m : Exec D E A) (f : A → Exec D E B) (w w' : World D) (a : A)
    → m w ≡ (ok a, w')
    → (m >>= f) w ≡ f a w'
bind_up m f w w' a h = rw h refl
