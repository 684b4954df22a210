-- ===== src/Traffic.antt =====
-- src/traffic.rs: routes, the router interface, and the router that keeps its routes in memory.
pub mod Mock
pub mod Served
use hostinger.Prelude.{ℕ, String}
use hostinger.Exec.{Result}
use hostinger.Releases.Record.{Release}

pub record RouteHandle : Type 0 where
  pub id : ℕ
  pub project_id : ℕ
  pub environment : String
  pub target_url : String

pub data DrainResult : Type 0 where
  completed_gracefully forced_timeout : DrainResult

-- `trait TrafficRouter`, over the state `X` behind `&mut self`; an `anyhow::Error` is the text that
-- it shows, and a timeout is in nanoseconds.
pub record TrafficRouter (X : Type 0) : Type 0 where
  pub prepare : Release → X → Result String RouteHandle × X
  pub activate : RouteHandle → X → Result String (Unit {0}) × X
  pub drain : RouteHandle → ℕ → X → Result String DrainResult × X
  pub remove : RouteHandle → X → Result String (Unit {0}) × X
