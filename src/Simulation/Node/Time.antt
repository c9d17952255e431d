-- ===== src/Simulation/Node/Time.antt =====
-- Time in the world of the node, and that the service calls do not turn it back.
use robotics_runtime_infra.Base.{ℕ, ◌≤◌, ◌<◌, ◌≢◌, arith}
use robotics_runtime_infra.Base.Result.{err}
use robotics_runtime_infra.Simulation.Node.{
  Simulator, Service, Request, state_request, set_state_request, step_request, features_request,
  service_of, Node, out_of_fuel, call, require_ok, state, step, set_state, features,
}

abbrev pub now_of : (sim : Simulator) → sim.World → ℕ
now_of sim w = (sim.monotonic w).0

-- `time.monotonic` never goes back, and between two readings with a spin a nanosecond passes at least.
pub record TimeAdvances (sim : Simulator) : Type 0 where
  pub reading : (w : sim.World) → now_of sim w ≤ now_of sim (sim.monotonic w).1
  pub spinning :
      (w : sim.World) (d : ℕ) → now_of sim w < now_of sim (sim.spin_once d (sim.monotonic w).1).1
  pub waiting :
      (w : sim.World) (s : Service) → now_of sim w ≤ now_of sim (sim.wait_for_service s w).1
  pub calling :
      (w : sim.World) (r : Request) → now_of sim w ≤ now_of sim (sim.spin_until_complete r w).2

module _ (sim : Simulator) (advances : TimeAdvances sim) where
  call_advances :
      (request : Request) (node : Node sim)
      → now_of sim node.world ≤ now_of sim (call sim request node).1.world
  unfolding call
  call_advances request node =
      let w = (sim.wait_for_service (service_of request) node.world).1 in
      ground (arith, advances.waiting node.world (service_of request), advances.calling w request)

  call-fuel : (request : Request) (node : Node sim) → (call sim request node).0 ≢ err out_of_fuel
  unfolding call
  call-fuel request node h = ground arith

  pub state_advances :
      (node : Node sim) → now_of sim node.world ≤ now_of sim (state sim node).1.world
  unfolding state require_ok
  state_advances node = ground (arith, call_advances state_request node)

  pub state-fuel : (node : Node sim) → (state sim node).0 ≢ err out_of_fuel
  unfolding state require_ok
  state-fuel node h = ground (arith, call-fuel state_request node)

  pub step-fuel : (steps : ℕ) (node : Node sim) → (step sim steps node).0 ≢ err out_of_fuel
  unfolding step require_ok
  step-fuel steps node h = ground (arith, call-fuel (step_request steps) node)

  pub set_state-fuel : (s : ℕ) (node : Node sim) → (set_state sim s node).0 ≢ err out_of_fuel
  unfolding set_state require_ok
  set_state-fuel s node h = ground (arith, call-fuel (set_state_request s) node)

  pub features-fuel : (node : Node sim) → (features sim node).0 ≢ err out_of_fuel
  unfolding features
  features-fuel node h = ground (arith, call-fuel features_request node)
