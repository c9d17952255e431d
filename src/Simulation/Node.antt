-- ===== src/Simulation/Node.antt =====
-- The node of simulation_control.py, the world that it runs in, and its service calls.
-- What rclpy, the simulator and `time` do is a parameter: `Simulator` has an operation for each call
-- that the node makes, on a world of any type, and the constants of simulation_interfaces.
-- Times are nanoseconds. The node's state is the last /clock sample and the world.
pub mod Time
use robotics_runtime_infra.Base.{
  ℕ, ◌+◌, ◌*◌, String, Bool, true, false, Option, none, some, List, [], ◌∷◌, ◌||◌, ◌&&◌, not, ◌==◌,
  if◌then◌else◌,
}
use robotics_runtime_infra.Base.Result.{Result, ok, err}

pub data Service : Type 0 where
  get_simulator_features get_simulation_state set_simulation_state step_simulation : Service

pub data Request : Type 0 where
  features_request state_request : Request
  set_state_request step_request : ℕ → Request

pub record ClockMessage : Type 0 where
  pub sec : ℕ
  pub nanosec : ℕ

-- The fields of the four response types that the node reads.
pub record Response : Type 0 where
  pub result : ℕ
  pub error_message : String
  pub state : ℕ
  pub features : List ℕ

pub record Simulator : Type 1 where
  pub World : Type 0
  pub monotonic : World → ℕ × World
  pub sleep : ℕ → World → World
  pub wait_for_service : Service → World → Bool × World
  -- The /clock messages that arrive while the call is awaited, and the response if it is done in time.
  pub spin_until_complete : Request → World → List ClockMessage × Option Response × World
  -- At most one callback runs.
  pub spin_once : ℕ → World → Option ClockMessage × World
  pub result_ok : ℕ
  pub already_in_target_state : ℕ
  pub state_playing : ℕ
  pub state_paused : ℕ
  pub simulation_state_getting : ℕ
  pub simulation_state_setting : ℕ
  pub simulation_state_pause : ℕ
  pub step_simulation_single : ℕ
  pub step_simulation_multiple : ℕ

-- The messages of `ConformanceError`, with what they show. `out_of_fuel` is the model's own.
pub data Error : Type 0 where
  service_unavailable service_timed_out : Service → Error
  operation_failed : Service → ℕ → String → Error
  state_not_confirmed : (requested observed : ℕ) → Error
  step_mismatch : (observed : Option ℕ) (expected : ℕ) → Error
  clock_not_advanced clock_not_quiescent : Error
  clock_not_reached : ℕ → Error
  features_missing : List ℕ → Error
  wrong_advance : (from to expected : ℕ) → Error
  not_paused : Error
  out_of_fuel : Error

abbrev pub service_of : Request → Service
service_of features_request = get_simulator_features
service_of state_request = get_simulation_state
service_of (set_state_request _) = set_simulation_state
service_of (step_request _) = step_simulation

module _ (sim : Simulator) where
  pub record Node : Type 0 where
    pub clock_ns : Option ℕ
    pub world : sim.World

  abbrev pub Action : Type 0 → Type 0
  Action A = Node → Result Error A × Node

-- `_on_clock`
abbrev pub sample_ns : ClockMessage → ℕ
sample_ns message = message.sec * 1_000_000_000 + message.nanosec

-- The last sample after the callbacks of some messages.
abbrev pub last_sample : Option ℕ → List ClockMessage → Option ℕ
last_sample clock [] = clock
last_sample clock (m ∷ ms) = last_sample (some (sample_ns m)) ms

abbrev pub after_spin : Option ℕ → Option ClockMessage → Option ℕ
after_spin clock none = clock
after_spin clock (some m) = some (sample_ns m)

module _ {sim : Simulator} {A : Type 0} where
  abbrev pub pure : A → Action sim A
  pure a node = (ok a, node)

  abbrev pub raise : Error → Action sim A
  raise e node = (err e, node)

  abbrev continue : {B : Type 0} → Result Error A → (A → Action sim B) → Action sim B
  continue (ok a) f node = f a node
  continue (err e) f node = (err e, node)

  infixl 5 ◌>>=◌ ◌>>◌
  abbrev pub ◌>>=◌ : {B : Type 0} → Action sim A → (A → Action sim B) → Action sim B
  ◌>>=◌ m f node = let (r, node') = m node in continue r f node'

  abbrev pub ◌>>◌ : {B : Type 0} → Action sim A → Action sim B → Action sim B
  m >> k = m >>= λ _. k

module _ (sim : Simulator) where
  -- `time.monotonic()`
  abbrev pub read_time : Action sim ℕ
  read_time node = let (now, w) = sim.monotonic node.world in (ok now, record node { world = w })

  -- `time.sleep`
  abbrev pub pause_for : ℕ → Action sim Unit
  pause_for interval node = (ok tt, record node { world = sim.sleep interval node.world })

  -- `self._clock_ns`
  abbrev pub read_clock : Action sim (Option ℕ)
  read_clock node = (ok node.clock_ns, node)

  -- `rclpy.spin_once(self, timeout_sec=…)`
  abbrev pub spin_node : ℕ → Action sim Unit
  spin_node timeout node =
      let (message, w) = sim.spin_once timeout node.world in
      (ok tt, record { clock_ns = after_spin node.clock_ns message; world = w })

  complete : Request → Option Response → Action sim Response
  complete request none = raise (service_timed_out (service_of request))
  complete request (some response) = pure response

  -- `_call`
  unfoldable pub call : Request → Action sim Response
  unfolding complete
  call request node =
      let (available, w) = sim.wait_for_service (service_of request) node.world in
      let (messages, response, w') = sim.spin_until_complete request w in
      if available
      then complete request response
          (record { clock_ns = last_sample node.clock_ns messages; world = w' })
      else (err (service_unavailable (service_of request)), record node { world = w })

  -- `_require_ok`
  unfoldable pub require_ok : Service → Bool → Response → Action sim Unit
  require_ok operation allow_already response =
      if response.result == sim.result_ok
        || (allow_already && response.result == sim.already_in_target_state)
      then pure tt
      else raise (operation_failed operation response.result response.error_message)

  -- `features`
  unfoldable pub features : Action sim (List ℕ)
  features = do response ← call features_request; pure response.features

  -- `set_state`
  unfoldable pub set_state : ℕ → Action sim Unit
  set_state state = do
    response ← call (set_state_request state)
    require_ok set_simulation_state true response

  -- `state`
  unfoldable pub state : Action sim ℕ
  state = do
    response ← call state_request
    require_ok get_simulation_state false response
    pure response.state

  -- `step`
  unfoldable pub step : ℕ → Action sim Unit
  step steps = do response ← call (step_request steps); require_ok step_simulation false response
