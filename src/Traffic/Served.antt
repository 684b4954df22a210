-- ===== src/Traffic/Served.antt =====
-- The routes that the in-memory router serves.
use hostinger.Prelude.{
  ℕ, String, ◌≡◌, refl, true, false, ◌&&◌, ◌==◌, ==_refl, str_eq, eq_iff, none, some, List, [], ◌∷◌,
  arith,
}
use hostinger.Traffic.{RouteHandle}
use hostinger.Traffic.Mock.{MockRouter, has_key, without, routed, mock_router}

module _ (route : RouteHandle) where
  without_key :
      (l : List (ℕ × String × RouteHandle))
      → routed route.project_id route.environment (without route l) ≡ none
  unfolding routed without
  without_key [] = refl
  without_key ((p, e, r) ∷ l) = ground (arith, without_key l)

  without_other :
      (p : ℕ) (e : String) (l : List (ℕ × String × RouteHandle))
      → has_key route p e ≡ false
      → routed p e (without route l) ≡ routed p e l
  unfolding routed without
  without_other p e [] h = refl
  without_other p e ((q, f, r) ∷ l) h = ground (
    arith,
    h,
    without_other p e l h,
    eq_iff f e,
    eq_iff f route.environment,
    eq_iff e route.environment,
  )

  key_of_itself :
      ((route.project_id == route.project_id) && str_eq route.environment route.environment) ≡ true
  key_of_itself =
      ground (arith, ==_refl route.project_id, eq_iff route.environment route.environment)

-- After an activation the router serves exactly this route for its project and environment; a removal
-- ends that; neither changes what is served under another project or environment.
pub mock_router-routed :
    (route : RouteHandle) (m : MockRouter) (p : ℕ) (e : String)
    → has_key route p e ≡ false
    → (routed route.project_id route.environment (mock_router.activate route m).1.active_routes
        ≡ some route)
      × (routed p e (mock_router.activate route m).1.active_routes ≡ routed p e m.active_routes)
      × (routed route.project_id route.environment (mock_router.remove route m).1.active_routes
          ≡ none)
      × (routed p e (mock_router.remove route m).1.active_routes ≡ routed p e m.active_routes)
unfolding mock_router routed
mock_router-routed route m p e h = (
  rw (key_of_itself route) refl,
  ground (
    arith,
    h,
    without_other route p e m.active_routes h,
    eq_iff e route.environment,
    eq_iff route.environment e,
  ),
  without_key route m.active_routes,
  without_other route p e m.active_routes h,
)
