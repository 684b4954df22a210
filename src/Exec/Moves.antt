-- ===== src/Exec/Moves.antt =====
-- Relations between the state before an action and the state after it, whatever the environment
-- answers and whether the action returns or raises: one rule for each way to build an action.
use hostinger.Prelude.{
  ℕ, ◌≡◌, refl, inl, inr, Bool, true, false, Option, none, some, if◌then◌else◌, Bool-cases,
  Option-cases,
}
use hostinger.Exec.{
  Result, ok, err, World, Exec, pure, raise, or_raise, lift, try_write, write, read, call, new_uuid,
  now_utc, sleep, continue, ◌>>=◌, catch, map_err, settle, bracket, transaction,
}

pub record IsPreorder {D : Type 0} (R : D → D → Type 0) : Type 0 where
  pub reflexive : (d : D) → R d d
  pub transitive : (a b c : D) → R a b → R b c → R a c

-- An invariant, as a relation.
abbrev pub Preserves : {D : Type 0} → (D → Type 0) → D → D → Type 0
Preserves P d d' = P d → P d'

pub Preserves-IsPreorder : {D : Type 0} (P : D → Type 0) → IsPreorder (Preserves P)
Preserves-IsPreorder P = record { reflexive = λ d h. h; transitive = λ a b c f g h. g (f h) }

pub record Moves {D E A : Type 0} (R : D → D → Type 0) (m : Exec D E A) : Type 0 where
  pub from : (w : World D) → R w.db (m w).1.db

module _ {D E A : Type 0} {R : D → D → Type 0} (law : IsPreorder R) where
  pub Moves-pure : (a : A) → Moves {E = E} R (pure a)
  Moves-pure a = record { from = λ w. law.reflexive w.db }

  pub Moves-raise : (e : E) → Moves {A = A} R (raise e)
  Moves-raise e = record { from = λ w. law.reflexive w.db }

  pub Moves-lift : (r : Result E A) → Moves R (lift r)
  Moves-lift r = record { from = λ w. law.reflexive w.db }

  pub Moves-or_raise : (o : Option A) (e : E) → Moves R (or_raise o e)
  Moves-or_raise none e = record { from = λ w. law.reflexive w.db }
  Moves-or_raise (some a) e = record { from = λ w. law.reflexive w.db }

  pub Moves-read : (e : E) (f : D → A) → Moves R (read e f)
  unfolding read
  Moves-read e f = record { from = λ w. law.reflexive w.db }

  pub Moves-write : (e : E) (f : D → A × D) → ((d : D) → R d (f d).1) → Moves R (write e f)
  unfolding write
  Moves-write e f h = record {
    from = λ w. elim (Bool-cases (w.env.fault w.step)) [
      | inl p ↦ rw p (law.reflexive w.db)
      | inr p ↦ rw p (h w.db)
    ];
  }

  -- From one world.
  pub try_write_at :
      (e : E) (f : D → Option (A × D)) (w : World D)
      → ((d' : D) (a : A) → f w.db ≡ some (a, d') → R w.db d')
      → R w.db (try_write e f w).1.db
  unfolding try_write
  try_write_at e f w h = elim (Bool-cases (w.env.fault w.step)) [
    | inl p ↦ rw p (law.reflexive w.db)
    | inr p ↦ rw p (elim (Option-cases (f w.db)) [
      | inl q ↦ rw q (law.reflexive w.db)
      | inr (r, q) ↦ rw q (h r.1 r.0 q)
    ])
  ]

  pub Moves-call : (f : D → Result E A × D) → ((d : D) → R d (f d).1) → Moves R (call f)
  unfolding call
  Moves-call f h = record { from = λ w. h w.db }

module _ {D E A B : Type 0} {R : D → D → Type 0} (law : IsPreorder R) where
  -- From one world: the rest may use what the first part returned there.
  pub bind_at :
      (m : Exec D E A) (f : A → Exec D E B) (w : World D)
      → R w.db (m w).1.db
      → ((a : A) → (m w).0 ≡ ok a → R (m w).1.db (f a (m w).1).1.db)
      → R w.db ((m >>= f) w).1.db
  bind_at m f w h k = go (m w).0 (m w).1 h k
    where
      go :
          (r : Result E A) (w' : World D)
          → R w.db w'.db
          → ((a : A) → r ≡ ok a → R w'.db (f a w').1.db)
          → R w.db (continue r f w').1.db
      go (ok a) w' h k = law.transitive w.db w'.db (f a w').1.db h (k a refl)
      go (err e) w' h k = h

  pub Moves-bind :
      (m : Exec D E A) (f : A → Exec D E B)
      → Moves R m
      → ((a : A) → Moves R (f a))
      → Moves R (m >>= f)
  Moves-bind m f hm hf = record {
    from = λ w. bind_at m f w (hm.from w) (λ a _. (hf a).from (m w).1);
  }

module _ {D E : Type 0} {R : D → D → Type 0} (law : IsPreorder R) where
  pub Moves-new_uuid : Moves {E = E} R new_uuid
  unfolding new_uuid
  Moves-new_uuid = record { from = λ w. law.reflexive w.db }

  pub Moves-now_utc : Moves {E = E} R now_utc
  unfolding now_utc
  Moves-now_utc = record { from = λ w. law.reflexive w.db }

  pub Moves-sleep : (d : ℕ) → Moves {E = E} R (sleep d)
  unfolding sleep
  Moves-sleep d = record { from = λ w. law.reflexive w.db }

  pub Moves-if :
      {A : Type 0} (b : Bool) (m n : Exec D E A)
      → (b ≡ true → Moves R m)
      → (b ≡ false → Moves R n)
      → Moves R (if b then m else n)
  Moves-if true m n hm hn = hm refl
  Moves-if false m n hm hn = hn refl

module _ {D E A : Type 0} {R : D → D → Type 0} (law : IsPreorder R) where
  settle-moves : (d : D) (r : Result E A) (w : World D) → R d w.db → R d (settle d r w).1.db
  settle-moves d (ok a) w h = h
  settle-moves d (err e) w h = law.reflexive d

  pub Moves-transaction : (e : E) (m : Exec D E A) → Moves R m → Moves R (transaction e m)
  unfolding transaction
  Moves-transaction e m h = record {
    from = λ w. settle-moves w.db (bracket e m w).0 (bracket e m w).1 (
        (Moves-bind law _ _ (Moves-read law e (λ _. tt))
            (λ _. Moves-bind law m _ h (λ a. Moves-read law e (λ _. a)))).from
          w);
  }

-- Where what `m` returns has a property in a world that keeps the invariant, the rest may use it.
pub Moves-bind_known :
    {D E A B : Type 0} (Q : D → Type 0) (P : A → Type 0) (m : Exec D E A) (f : A → Exec D E B)
    → Moves (Preserves Q) m
    → ((w : World D) (a : A) → (m w).0 ≡ ok a → Q w.db → P a)
    → ((a : A) → P a → Moves (Preserves Q) (f a))
    → Moves (Preserves Q) (m >>= f)
Moves-bind_known Q P m f hm known hf = record {
  from = λ w s.
      bind_at (Preserves-IsPreorder Q) m f w (hm.from w)
        (λ a e. (hf a (known w a e s)).from (m w).1) s;
}

pub Moves-catch :
    {D E F A : Type 0} {R : D → D → Type 0} (m : Exec D E A) → Moves R m → Moves {E = F} R (catch m)
Moves-catch m h = record { from = h.from }

pub Moves-map_err :
    {D E F A : Type 0} {R : D → D → Type 0} (f : E → F) (m : Exec D E A)
    → Moves R m
    → Moves R (map_err f m)
Moves-map_err f m h = record { from = h.from }

pub ruleset moves_rules = (
  Moves-pure, Moves-raise, Moves-lift, Moves-or_raise, Moves-read, Moves-call, Moves-bind,
  Moves-new_uuid, Moves-now_utc, Moves-sleep, Moves-if, Moves-catch, Moves-map_err,
  Moves-transaction,
)
