-- ===== src/Agent/Safety.antt =====
-- What `inspect_safety` of src/agent_protocol.rs lets pass, and what the pruned operations forget.
use Prim.Native.Char.{Char}
use Prim.Native.String.append
use text.Mathlib.TextEquality.{Char-path}
use text.Mathlib.TextBridge.{IsPrefix}
use hostinger.Prelude.{
  ℕ, ◌-◌, ◌*◌, ◌≤◌, String, ◌≡◌, ◌≢◌, refl, sym, ap, ◌∙◌, subst, ◌↔◌, ◌⊎◌, inl, inr, true, false,
  ◌&&◌, List, [], ◌∷◌, arith, All, ◌==◌, ltb, code, str_eq, eq_iff, str_append, is_empty,
  starts_with, Bool-cases,
}
use hostinger.Exec.{ok}
use hostinger.Agent.Commands
use hostinger.Agent.Commands.{AgentCommand}
use hostinger.Agent.Validator.{
  parent_first, parent_later, has_parent_dir, inspect_prefixes, inspect_safety, prune, contains_key,
  forbidden_prefixes,
}

same_char : (c d : Char) → (code c == code d) ≡ true → c ≡ d
same_char c d h = Char-path c d (ground (arith, h))

starts_with-IsPrefix : (s t : String) → starts_with s t ≡ true → IsPrefix t s
starts_with-IsPrefix s String.[] h = (s, append.nil s)
starts_with-IsPrefix String.[] (String.◌∷◌ y t) h = cc
starts_with-IsPrefix (String.◌∷◌ x s) (String.◌∷◌ y t) h =
    let (rest, e) = starts_with-IsPrefix s t (ground (arith, h)) in
    (rest, append.cons y t rest ∙ (λ i. String.◌∷◌ (same_char y x (ground (arith, h)) i) (e i)))

starts_with-append : (t rest : String) → starts_with (str_append t rest) t ≡ true
starts_with-append String.[] rest = refl
starts_with-append (String.◌∷◌ y t) rest =
    rw (append.cons y t rest) (ground (arith, starts_with-append t rest))

starts_with_iff : (s t : String) → (starts_with s t ≡ true) ↔ IsPrefix t s
starts_with_iff s t = (
  starts_with-IsPrefix s t,
  λ (rest, e). subst (λ u. starts_with u t ≡ true) e (starts_with-append t rest),
)

-- The first component of the path is the parent directory.
abbrev BeginsAbove : String → Type 0
BeginsAbove s = (s ≡ "..") ⊎ IsPrefix "../" s

-- Some component of the path is the parent directory: the first, or one that follows a slash.
abbrev pub GoesAbove : String → Type 0
GoesAbove s =
    BeginsAbove s
    ⊎ (before : String) × (rest : String) × (s ≡ str_append before (str_append "/" rest))
      × BeginsAbove rest

parent_first_iff : (s : String) → (parent_first s ≡ true) ↔ BeginsAbove s
parent_first_iff s = (there, back)
  where
    there : parent_first s ≡ true → BeginsAbove s
    there h = elim (Bool-cases (str_eq s "..")) [
      | inl e ↦ inl ((eq_iff s "..").0 e)
      | inr e ↦ inr (starts_with-IsPrefix s "../" (ground (arith, h, e)))
    ]

    back : BeginsAbove s → parent_first s ≡ true
    back (inl e) = ground (arith, (eq_iff s "..").1 e)
    back (inr p) = ground (arith, (starts_with_iff s "../").1 p)

-- Below a slash.
abbrev Below : String → Type 0
Below s =
    (before : String) × (rest : String) × (s ≡ str_append before (str_append "/" rest))
    × BeginsAbove rest

abbrev slash : Char
slash = "/"

slash_append : (rest : String) → str_append "/" rest ≡ String.◌∷◌ slash rest
slash_append rest = append.cons slash "" rest ∙ ap (λ u. String.◌∷◌ slash u) (append.nil rest)

parent_later-Below : (s : String) → parent_later s ≡ true → Below s
parent_later-Below String.[] h = cc
parent_later-Below (String.◌∷◌ c s) h = elim (Bool-cases (code c == 47 && parent_first s)) [
  | inl e ↦
      let is_slash : c ≡ slash = same_char c slash (ground (arith, e)) in
      (
        "",
        s,
        ap (λ d. String.◌∷◌ d s) is_slash
            ∙ sym (slash_append s)
            ∙ sym (append.nil (str_append "/" s)),
        (parent_first_iff s).0 (ground (arith, e)),
      )
  | inr e ↦
      let (before, rest, split, above) = parent_later-Below s (ground (arith, h, e)) in
      (
        String.◌∷◌ c before,
        rest,
        ap (λ u. String.◌∷◌ c u) split ∙ sym (append.cons c before (str_append "/" rest)),
        above,
      )
]

parent_later-append :
    (before rest : String)
    → BeginsAbove rest
    → parent_later (str_append before (str_append "/" rest)) ≡ true
parent_later-append String.[] rest above =
    rw (append.nil (str_append "/" rest), slash_append rest)
      (ground (arith, (parent_first_iff rest).1 above))
parent_later-append (String.◌∷◌ c before) rest above =
    rw (append.cons c before (str_append "/" rest))
      (ground (arith, parent_later-append before rest above))

has_parent_dir_iff : (s : String) → (has_parent_dir s ≡ true) ↔ GoesAbove s
unfolding has_parent_dir
has_parent_dir_iff s = (there, back)
  where
    there : has_parent_dir s ≡ true → GoesAbove s
    there h = elim (Bool-cases (parent_first s)) [
      | inl e ↦ inl ((parent_first_iff s).0 e)
      | inr e ↦ inr (parent_later-Below s (ground (arith, h, e)))
    ]

    back : GoesAbove s → has_parent_dir s ≡ true
    back (inl a) = ground (arith, (parent_first_iff s).1 a)
    back (inr (before, rest, split, above)) =
        let later : parent_later s ≡ true =
          subst (λ u. parent_later u ≡ true) (sym split) (parent_later-append before rest above) in
        ground (arith, later)

-- A command that an agent may carry out: the path of a release's image goes through no parent
-- directory and begins with no system path, and a node has a hostname and an endpoint.
abbrev pub IsSafe : AgentCommand → Type 0
IsSafe (Commands.create_release cmd) =
    (¬ GoesAbove cmd.image_path)
    × All (λ p. ¬ IsPrefix p cmd.image_path) ("/etc" ∷ "/sys" ∷ "/proc" ∷ "/dev" ∷ "/root" ∷ [])
IsSafe (Commands.register_node cmd) = (cmd.hostname ≢ "") × (cmd.endpoint ≢ "")
IsSafe _ = Unit

-- None of the processed operations has the id, save ones at least twice the allowed skew ago.
abbrev pub IsFresh : ℕ → ℕ → ℕ → List (ℕ × ℕ) → Type 0
IsFresh max_skew instant operation ops =
    All (λ (e : ℕ × ℕ). (e.0 ≢ operation) ⊎ (max_skew * 2 ≤ instant - e.1)) ops

not_above : (s : String) → (has_parent_dir s ≡ false) ↔ (¬ GoesAbove s)
not_above s = (
  λ h above. ground (arith, h, (has_parent_dir_iff s).1 above),
  λ h. elim (Bool-cases (has_parent_dir s)) [
    | inl e ↦ absurd (h ((has_parent_dir_iff s).0 e))
    | inr e ↦ e
  ],
)

inspect_prefixes_iff :
    (path : String) (ps : List String)
    → (inspect_prefixes path ps ≡ ok tt) ↔ All (λ p. ¬ IsPrefix p path) ps
unfolding inspect_prefixes
inspect_prefixes_iff path [] = (λ h. tt, λ h. refl)
inspect_prefixes_iff path (p ∷ ps) = elim (Bool-cases (starts_with path p)) [
  | inl e ↦ (
    λ h. absurd (ground (arith, h, e)),
    λ (apart, h). absurd (apart ((starts_with_iff path p).0 e)),
  )
  | inr e ↦ (
    λ h. (
      λ inside. ground (arith, e, (starts_with_iff path p).1 inside),
      (inspect_prefixes_iff path ps).0 (ground (arith, h, e)),
    ),
    λ (apart, h). ground (arith, e, (inspect_prefixes_iff path ps).1 h),
  )
]

is_empty_iff : (s : String) → (is_empty s ≡ false) ↔ (s ≢ "")
is_empty_iff String.[] = (λ h. cc, λ h. absurd (h refl))
is_empty_iff (String.◌∷◌ c s) = (λ h e. cc, λ h. refl)

pub inspect_safety_iff :
    (command : AgentCommand) → (inspect_safety command ≡ ok tt) ↔ IsSafe command
unfolding inspect_safety
inspect_safety_iff (Commands.create_release cmd) =
    elim (Bool-cases (has_parent_dir cmd.image_path)) [
      | inl e ↦ (
        λ h. absurd (ground (arith, h, e)),
        λ (below, h). absurd (below ((has_parent_dir_iff cmd.image_path).0 e)),
      )
      | inr e ↦ (
        λ h. (
          (not_above cmd.image_path).0 e,
          (inspect_prefixes_iff cmd.image_path forbidden_prefixes).0 (ground (arith, h, e)),
        ),
        λ (below, h).
            ground (arith, e, (inspect_prefixes_iff cmd.image_path forbidden_prefixes).1 h),
      )
    ]
inspect_safety_iff (Commands.register_node cmd) =
    let (named, name) = is_empty_iff cmd.hostname in
    let (placed, place) = is_empty_iff cmd.endpoint in
    (
      λ h. (named (ground (arith, h)), placed (ground (arith, h))),
      λ (a, b). ground (arith, name a, place b),
    )
inspect_safety_iff (Commands.heartbeat cmd) = (λ h. tt, λ h. refl)
inspect_safety_iff (Commands.start_release i path) = (λ h. tt, λ h. refl)
inspect_safety_iff (Commands.stop_release i reason t) = (λ h. tt, λ h. refl)
inspect_safety_iff (Commands.drain_release i t) = (λ h. tt, λ h. refl)
inspect_safety_iff (Commands.release_logs i n m) = (λ h. tt, λ h. refl)
inspect_safety_iff (Commands.release_stats i) = (λ h. tt, λ h. refl)
inspect_safety_iff Commands.health = (λ h. tt, λ h. refl)

pub prune-IsFresh :
    (max_skew instant operation : ℕ) (ops : List (ℕ × ℕ))
    → (contains_key operation (prune max_skew instant ops) ≡ false)
      ↔ IsFresh max_skew instant operation ops
unfolding prune
prune-IsFresh max_skew instant operation [] = (λ h. tt, λ h. refl)
prune-IsFresh max_skew instant operation ((i, at) ∷ ops) =
    let (there, back) = prune-IsFresh max_skew instant operation ops in
    elim (Bool-cases (ltb (instant - at) (max_skew * 2))) [
      | inl recent ↦ (
        λ h. (inl (λ same. ground (arith, h, recent, same)), there (ground (arith, h, recent))),
        λ (apart, h). elim apart [
          | inl other ↦ ground (arith, recent, other, back h)
          | inr old ↦ absurd (ground (arith, recent, old))
        ],
      )
      | inr old ↦ (
        λ h. (inr (ground (arith, old)), there (ground (arith, h, old))),
        λ (apart, h). ground (arith, old, back h),
      )
    ]
