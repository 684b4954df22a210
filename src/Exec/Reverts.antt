-- ===== src/Exec/Reverts.antt =====
-- Actions that change nothing where they end in an error.
use hostinger.Prelude.{
  ◌≡◌, refl, ◌∙◌, inl, inr, Bool, true, false, Option, Bool-cases, Option-cases, if◌then◌else◌,
  arith,
}
use hostinger.Exec.{
  Result, ok, err, World, Exec, pure, try_write, write, continue, ◌>>=◌, map_err, relabel, settle,
  bracket, transaction,
}
use hostinger.Exec.Moves.{IsPreorder, Moves, moves_rules}

abbrev pub Same : {D : Type 0} → D → D → Type 0
Same d d' = d' ≡ d

pub Same-IsPreorder : {D : Type 0} → IsPreorder (Same {D = D})
Same-IsPreorder = record { reflexive = λ d. refl; transitive = λ a b c e f. f ∙ e }

pub record Reverts {D E A : Type 0} (m : Exec D E A) : Type 0 where
  pub undone : (w : World D) (e : E) → (m w).0 ≡ err e → (m w).1.db ≡ w.db

module _ {D E A : Type 0} where
  pub Reverts-Same : (m : Exec D E A) → Moves Same m → Reverts m
  Reverts-Same m h = record { undone = λ w e _. h.from w }

  pub Reverts-try_write : (e : E) (f : D → Option (A × D)) → Reverts (try_write e f)
  unfolding try_write
  Reverts-try_write e f = record {
    undone = λ w e' h. elim (Bool-cases (w.env.fault w.step)) [
      | inl down ↦ rw down refl
      | inr up ↦ elim (Option-cases (f w.db)) [
        | inl q ↦ rw (up, q) refl
        | inr (r, q) ↦ absurd (ground (arith, h, up, q))
      ]
    ];
  }

  pub Reverts-write : (e : E) (f : D → A × D) → Reverts (write e f)
  unfolding write
  Reverts-write e f = record {
    undone = λ w e' h. elim (Bool-cases (w.env.fault w.step)) [
      | inl down ↦ rw down refl
      | inr up ↦ absurd (ground (arith, h, up))
    ];
  }

  settled :
      (d : D) (r : Result E A) (w : World D) (e : E)
      → (settle d r w).0 ≡ err e
      → (settle d r w).1.db ≡ d
  settled d (ok a) w e h = cc
  settled d (err e') w e h = refl

  -- A transaction rolls back.
  pub Reverts-transaction : (e : E) (m : Exec D E A) → Reverts (transaction e m)
  unfolding transaction
  Reverts-transaction e m = record {
    undone = λ w e'. settled w.db (bracket e m w).0 (bracket e m w).1 e';
  }

module _ {D E A B : Type 0} where
  -- What changes nothing may come first.
  pub Reverts-bind :
      (m : Exec D E A) (f : A → Exec D E B)
      → Moves Same m
      → ((a : A) → Reverts (f a))
      → Reverts (m >>= f)
  Reverts-bind m f same h = record { undone = λ w e. go w (m w).0 (m w).1 (same.from w) e }
    where
      go :
          (w : World D) (r : Result E A) (w' : World D)
          → w'.db ≡ w.db
          → (e : E) → (continue r f w').0 ≡ err e
          → (continue r f w').1.db ≡ w.db
      go w (ok a) w' s e k = (h a).undone w' e k ∙ s
      go w (err e') w' s e k = s

  -- What may undo nothing must fail only where there is nothing to undo.
  pub Reverts-bind_when :
      (m : Exec D E A) (f : A → Exec D E B)
      → Reverts m
      → ((w : World D) (a : A) (e : E)
          → (m w).0 ≡ ok a
          → (f a (m w).1).0 ≡ err e
          → (f a (m w).1).1.db ≡ w.db)
      → Reverts (m >>= f)
  Reverts-bind_when m f h k = record {
    undone = λ w e. go w (m w).0 (m w).1 (h.undone w) (λ a e' q. k w a e' q) e;
  }
    where
      go :
          (w : World D) (r : Result E A) (w' : World D)
          → ((e : E) → r ≡ err e → w'.db ≡ w.db)
          → ((a : A) (e : E) → r ≡ ok a → (f a w').0 ≡ err e → (f a w').1.db ≡ w.db)
          → (e : E) → (continue r f w').0 ≡ err e
          → (continue r f w').1.db ≡ w.db
      go w (ok a) w' h k e q = k a e refl q
      go w (err e') w' h k e q = h e' refl

  -- What always returns may come last.
  pub Reverts-last : (m : Exec D E A) (f : A → B) → Reverts m → Reverts (m >>= λ a. pure (f a))
  Reverts-last m f h = record { undone = λ w e. go w (m w).0 (m w).1 (h.undone w) e }
    where
      go :
          (w : World D) (r : Result E A) (w' : World D)
          → ((e : E) → r ≡ err e → w'.db ≡ w.db)
          → (e : E) → (continue r (λ a. pure (f a)) w').0 ≡ err e
          → (continue r (λ a. pure (f a)) w').1.db ≡ w.db
      go w (ok a) w' k e q = cc
      go w (err e') w' k e q = k e' refl

pub Reverts-if :
    {D E A : Type 0} (b : Bool) (m n : Exec D E A)
    → Reverts m
    → Reverts n
    → Reverts (if b then m else n)
Reverts-if true m n h k = h
Reverts-if false m n h k = k

pub Reverts-map_err :
    {D E F A : Type 0} (f : E → F) (m : Exec D E A) → Reverts m → Reverts (map_err f m)
Reverts-map_err {D} {E} {F} {A} f m h = record {
  undone = λ w e. go w (m w).0 (m w).1 (h.undone w) e;
}
  where
    go :
        (w : World D) (r : Result E A) (w' : World D)
        → ((e : E) → r ≡ err e → w'.db ≡ w.db)
        → (e : F) → relabel f r ≡ err e
        → w'.db ≡ w.db
    go w (ok a) w' k e q = cc
    go w (err e') w' k e q = k e' refl

pub ruleset revert_rules = (
  Reverts-bind, Reverts-last, Reverts-if, Reverts-Same, Reverts-transaction, Reverts-write,
  Reverts-map_err, moves_rules, Same-IsPreorder,
)
