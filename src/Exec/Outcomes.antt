-- ===== src/Exec/Outcomes.antt =====
-- What a returned value says of the parts of the action that returned it.
use hostinger.Prelude.{
  suc, ◌≡◌, ◌≢◌, refl, sym, ap, ◌∙◌, inl, inr, Bool-cases, Option-cases, Option, some, arith,
}
use hostinger.Exec.{
  Result, ok, err, World, Exec, next, raise, read, try_write, write, continue, ◌>>=◌, settle,
  bracket, transaction,
}

module _ {D E A B : Type 0} where
  pub bind_ok :
      (m : Exec D E A) (f : A → Exec D E B) (w : World D) (b : B)
      → ((m >>= f) w).0 ≡ ok b
      → (a : A) × ((m w).0 ≡ ok a) × ((f a (m w).1).0 ≡ ok b) × (((m >>= f) w).1 ≡ (f a (m w).1).1)
  bind_ok m f w b h = go (m w).0 (m w).1 h
    where
      go :
          (r : Result E A) (w' : World D)
          → (continue r f w').0 ≡ ok b
          → (a : A) × (r ≡ ok a) × ((f a w').0 ≡ ok b) × ((continue r f w').1 ≡ (f a w').1)
      go (ok a) w' h = (a, refl, h, refl)
      go (err e) w' h = cc

module _ {D E A : Type 0} (e : E) where
  -- A statement that returned found the connection up and was not refused.
  pub try_write_ok :
      (f : D → Option (A × D)) (w : World D) (a : A)
      → (try_write e f w).0 ≡ ok a
      → (d : D) × (f w.db ≡ some (a, d))
        × ((try_write e f w).1 ≡ record w { step = suc w.step; db = d })
  unfolding try_write
  try_write_ok f w a h = elim (Bool-cases (w.env.fault w.step)) [
    | inl down ↦ absurd (ground (arith, down))
    | inr up ↦ elim (Option-cases (f w.db)) [
      | inl q ↦ absurd (ground (arith, up, q))
      | inr ((b, d), q) ↦ (d, ground (arith, up, q), ground (arith, up, q))
    ]
  ]

  pub write_ok :
      (f : D → A × D) (w : World D) (a : A)
      → (write e f w).0 ≡ ok a
      → (a ≡ (f w.db).0) × ((write e f w).1 ≡ record w { step = suc w.step; db = (f w.db).1 })
  unfolding write
  write_ok f w a h = (ground arith, ground arith)

-- The action returns no value: it ends in an error, in whatever world it starts.
pub record Fails {D E A : Type 0} (m : Exec D E A) : Type 0 where
  pub never : (w : World D) (a : A) → (m w).0 ≢ ok a

pub Fails-raise : {D E A : Type 0} (e : E) → Fails {D = D} {A = A} (raise e)
Fails-raise e = record { never = λ w a h. cc }

module _ {D E A B : Type 0} where
  pub Fails-bind_when :
      (P : A → Type 0) (m : Exec D E A) (f : A → Exec D E B)
      → ((w : World D) (a : A) → (m w).0 ≡ ok a → P a)
      → ((a : A) → P a → Fails (f a))
      → Fails (m >>= f)
  Fails-bind_when P m f known hf = record {
    never = λ w b h. let (a, e, k, _) = bind_ok m f w b h in (hf a (known w a e)).never (m w).1 b k;
  }

  pub Fails-bind : (m : Exec D E A) (f : A → Exec D E B) → ((a : A) → Fails (f a)) → Fails (m >>= f)
  Fails-bind m f hf = Fails-bind_when (λ _. Unit {0}) m f (λ w a e. tt) (λ a _. hf a)

module _ {D E A : Type 0} where
  pub read_ok :
      (e : E) (f : D → A) (w : World D) (a : A)
      → (read e f w).0 ≡ ok a
      → ((read e f w).1.db ≡ w.db) × (a ≡ f w.db)
  unfolding read
  read_ok e f w a h = (refl, ground arith)

  -- A transaction that returned ran its statements.
  pub transaction_ok :
      (e : E) (m : Exec D E A) (w : World D) (a : A)
      → (transaction e m w).0 ≡ ok a
      → ((m (next w)).0 ≡ ok a) × ((transaction e m w).1.db ≡ (m (next w)).1.db)
  unfolding transaction read
  transaction_ok e m w a h =
      let (same, world) = settled (bracket e m w).0 (bracket e m w).1 h in
      let (u, begun, inside, after) =
        bind_ok (read e (λ _. tt)) (λ _. m >>= λ b. read e (λ _. b)) w a same in
      let (b, ran, committed, last) = bind_ok m (λ b. read e (λ _. b)) (next w) a inside in
      let (kept, is_b) = read_ok e (λ _. b) (m (next w)).1 a committed in
      (ran ∙ ap ok (sym is_b), world ∙ ap (λ (x : World D). x.db) (after ∙ last) ∙ kept)
    where
      settled :
          (r : Result E A) (w' : World D)
          → (settle w.db r w').0 ≡ ok a
          → (r ≡ ok a) × ((settle w.db r w').1.db ≡ w'.db)
      settled (ok b) w' h = (h, refl)
      settled (err e') w' h = cc
