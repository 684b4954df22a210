-- ===== src/Releases/Routing.antt =====
-- What `activate_traffic` of src/releases.rs leaves in `active_routes`.
use hostinger.Prelude.{
  ℕ, String, ◌≡◌, refl, sym, subst, Bool, true, false, ==_refl, eq_iff, Option, some, List, [], ◌∷◌,
  ◌++◌, arith, find, any, update, inl, inr, Bool-cases, if◌then◌else◌,
}
use hostinger.Exec.{ok, World, Exec, raise, pure, write, ◌>>=◌, ◌>>◌}
use hostinger.Exec.Moves.{IsPreorder, Moves, Preserves, Preserves-IsPreorder, moves_rules}
use hostinger.Exec.Outcomes.{bind_ok, write_ok}
use hostinger.Releases.Status.{ReleaseError, active}
use hostinger.Releases.Record.{Release, ActiveRoute}
use hostinger.Releases.Tables.{Tables, routes_to, active_route, upsert_route}
use hostinger.Releases.Controller.{Platform, execute, transition, activate_traffic, may_serve}
use hostinger.Releases.Gate.{SameRoutes, transition-routes}
use hostinger.Traffic.{TrafficRouter}

-- Wherever the action returns, its end has the property.
record Ends {D E A : Type 0} (Q : D → Type 0) (m : Exec D E A) : Type 0 where
  holds : (w : World D) (a : A) → (m w).0 ≡ ok a → Q (m w).1.db

module _ {D E A : Type 0} (Q : D → Type 0) where
  Ends-raise : (e : E) → Ends {A = A} Q (raise e)
  Ends-raise e = record { holds = λ w a h. cc }

  Ends-write : (e : E) (f : D → A × D) → ((d : D) → Q (f d).1) → Ends Q (write e f)
  Ends-write e f h = record {
    holds = λ w a ret.
        let (_, last) = write_ok e f w a ret in subst (λ (x : World D). Q x.db) (sym last) (h w.db);
  }

module _ {D E A B : Type 0} (Q : D → Type 0) where
  -- The rest of the action sees to it.
  Ends-bind : (m : Exec D E A) (f : A → Exec D E B) → ((a : A) → Ends Q (f a)) → Ends Q (m >>= f)
  Ends-bind m f h = record {
    holds = λ w b ret.
        let (a, _, rest, last) = bind_ok m f w b ret in
        subst (λ (x : World D). Q x.db) (sym last) ((h a).holds (m w).1 b rest);
  }

  -- The first part sees to it, and the rest keeps it.
  Ends-keep :
      (m : Exec D E A) (f : A → Exec D E B)
      → Ends Q m
      → ((a : A) → Moves (Preserves Q) (f a))
      → Ends Q (m >>= f)
  Ends-keep m f first keep = record {
    holds = λ w b ret.
        let (a, got, rest, last) = bind_ok m f w b ret in
        subst (λ (x : World D). Q x.db) (sym last) ((keep a).from (m w).1 (first.holds w a got));
  }

-- The route of the project and environment leads to the release.
abbrev pub IsRouted : ℕ → String → ℕ → Tables → Type 0
IsRouted project_id environment i t =
    (r : ActiveRoute) × (active_route project_id environment t ≡ some r) × (r.active_release_id ≡ i)

routes_to_itself : (r : ActiveRoute) → routes_to r.project_id r.environment r ≡ true
routes_to_itself r = ground (arith, ==_refl r.project_id, eq_iff r.environment r.environment)

added_found :
    (r : ActiveRoute) (rs : List ActiveRoute)
    → any (routes_to r.project_id r.environment) rs ≡ false
    → find (routes_to r.project_id r.environment) (rs ++ r ∷ []) ≡ some r
added_found r [] h = rw (routes_to_itself r) refl
added_found r (s ∷ rs) h = ground (arith, added_found r rs)

abbrev aimed : ActiveRoute → ActiveRoute → ActiveRoute
aimed route r = record r {
  active_release_id = route.active_release_id;
  route_target = route.route_target;
  updated_at = route.updated_at;
}

updated_found :
    (p : ℕ) (e : String) (route : ActiveRoute) (rs : List ActiveRoute)
    → any (routes_to p e) rs ≡ true
    → (r : ActiveRoute) × (find (routes_to p e) (update (routes_to p e) (aimed route) rs) ≡ some r)
      × (r.active_release_id ≡ route.active_release_id)
updated_found p e route [] h = cc
updated_found p e route (s ∷ rs) h = elim (Bool-cases (routes_to p e s)) [
  | inl met ↦ (aimed route s, rw met (rw met refl), refl)
  | inr not_met ↦
      let (r, found, q) = updated_found p e route rs (ground (arith, h, not_met)) in
      (r, ground (arith, not_met, found), q)
]

upsert-IsRouted :
    (route : ActiveRoute) (t : Tables)
    → IsRouted route.project_id route.environment route.active_release_id (upsert_route route t)
unfolding upsert_route active_route
upsert-IsRouted route t =
    elim (Bool-cases (any (routes_to route.project_id route.environment) t.active_routes)) [
      | inl e ↦ rw e (updated_found route.project_id route.environment route t.active_routes e)
      | inr e ↦ rw e (route, added_found route t.active_routes e, refl)
    ]

module _ {X : Type 0} (router : TrafficRouter X) (release : Release) where
  abbrev Switched : Platform X → Type 0
  Switched p = IsRouted release.project_id release.environment release.id p.tables

  keeps_Switched :
      {A : Type 0} (m : Exec (Platform X) ReleaseError A)
      → Moves SameRoutes m
      → Moves (Preserves Switched) m
  unfolding active_route
  keeps_Switched m h = record {
    from = λ w k.
        subst
          (λ rs.
            (r : ActiveRoute) × (find (routes_to release.project_id release.environment) rs
              ≡ some r)
            × (r.active_release_id ≡ release.id))
          (sym (h.from w)) k;
  }

  Switched-IsPreorder : IsPreorder (Preserves Switched)
  Switched-IsPreorder = Preserves-IsPreorder Switched

  ruleset switched_rules = (moves_rules, Switched-IsPreorder, keeps_Switched)

  -- The part after the upsert.
  abbrev finish : Bool → Option Release → Exec (Platform X) ReleaseError (Option Release)
  finish is_first prev =
      if is_first
      then (transition release.id release.version active (some "activated traffic via router")
          >> pure prev)
      else pure prev

  finish-Moves :
      (is_first : Bool) (prev : Option Release) → Moves (Preserves Switched) (finish is_first prev)
  finish-Moves is_first prev = search (switched_rules, transition-routes) depth 8

  abbrev persist : String → ℕ → Exec (Platform X) ReleaseError (Unit {0})
  persist target now = execute "failed to persist active route" (
      upsert_route (record {
        project_id = release.project_id;
        environment = release.environment;
        active_release_id = release.id;
        route_target = target;
        activated_at = now;
        updated_at = now;
      }))

  persist-Ends :
      (target : String) (now : ℕ) (is_first : Bool) (prev : Option Release)
      → Ends Switched (persist target now >>= λ _. finish is_first prev)
  persist-Ends target now is_first prev =
      Ends-keep Switched (persist target now) (λ _. finish is_first prev)
        (Ends-write Switched _ _ (λ p. upsert-IsRouted _ p.tables))
        (λ _. finish-Moves is_first prev)

  activate_traffic-Ends : Ends Switched (activate_traffic router release)
  unfolding activate_traffic
  activate_traffic-Ends = elim (Bool-cases (may_serve release.status)) [
    | inr refused ↦ rw refused (Ends-raise Switched _)
    | inl served ↦ rw served (search (Ends-bind, persist-Ends) depth 10)
  ]

  -- After an activation of traffic that returns, the route of the release's project and environment
  -- leads to the release, whichever route was there before.
  pub activate_traffic-IsRouted :
      (w : World (Platform X)) (prev : Option Release)
      → (activate_traffic router release w).0 ≡ ok prev
      → IsRouted release.project_id release.environment release.id
          (activate_traffic router release w).1.db.tables
  activate_traffic-IsRouted w prev h = activate_traffic-Ends.holds w prev h
