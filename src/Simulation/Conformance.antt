-- ===== src/Simulation/Conformance.antt =====
-- `SimulationControl.verify` and the step loop of `main`.
pub mod Exercised
pub mod Verdict
pub mod Stepping
use robotics_runtime_infra.Base.{
  ℕ, zero, suc, ◌+◌, ◌*◌, Bool, true, false, not, Option, none, some, List, [], ◌∷◌, ◌++◌, ltb,
  ◌==◌, if◌then◌else◌,
}
use robotics_runtime_infra.Base.{String}
use robotics_runtime_infra.Base.Value.{
  pos, int, str, obj, arr, Items, no_items, item, Fields, no_fields, field,
}
use robotics_runtime_infra.Simulation.Node.{
  Simulator, features_missing, wrong_advance, not_paused, Action, pure, raise, ◌>>=◌, ◌>>◌,
  read_clock, pause_for, features, set_state, state, step,
}
use robotics_runtime_infra.Simulation.Control.{
  wait_for_state, wait_for_clock_after, wait_for_quiescent_clock, wait_for_clock_at_least,
  step_and_wait,
}

abbrev pub contains : ℕ → List ℕ → Bool
contains x [] = false
contains x (y ∷ ys) = if x == y then true else contains x ys

unfoldable pub insert : ℕ → List ℕ → List ℕ
insert x [] = x ∷ []
insert x (y ∷ ys) = if ltb x y then x ∷ y ∷ ys else if x == y then y ∷ ys else y ∷ insert x ys

-- `sorted(set(xs))`
unfoldable pub sorted_set : List ℕ → List ℕ
sorted_set [] = []
sorted_set (x ∷ xs) = insert x (sorted_set xs)

-- `required - features`
unfoldable pub without : List ℕ → List ℕ → List ℕ
without [] ys = []
without (x ∷ xs) ys = if contains x ys then without xs ys else x ∷ without xs ys

pub record Report : Type 0 where
  pub features : List ℕ
  pub steps : ℕ
  pub step_size_ns : ℕ
  pub playing_ns : ℕ
  pub paused_ns : ℕ
  pub stepped_ns : ℕ
  pub resumed_ns : ℕ

abbrev features_items : List ℕ → Items
features_items [] = no_items
features_items (x ∷ xs) = item (int (pos x)) (features_items xs)

abbrev clock_fields : Report → Fields
clock_fields report = field "playing_ns" (int (pos report.playing_ns)) (
    field "paused_ns" (int (pos report.paused_ns)) (
      field "stepped_ns" (int (pos report.stepped_ns))
        (field "resumed_ns" (int (pos report.resumed_ns)) no_fields)))

-- The document that `verify` returns.
unfoldable pub report_document : String → Report → Fields
report_document service_namespace report =
    field "schema_version" (str "simulation-conformance.v1") (
      field "service_namespace" (str service_namespace) (
        field "features" (arr (features_items report.features)) (
          field "steps" (int (pos report.steps)) (
            field "step_size_ns" (int (pos report.step_size_ns)) (
              field "clock" (obj (clock_fields report))
                (field "status" (str "passed") no_fields))))))

module _ (sim : Simulator) where
  abbrev pub required_features : ℕ → List ℕ
  required_features steps =
      sim.simulation_state_getting
      ∷ sim.simulation_state_setting
      ∷ sim.simulation_state_pause
      ∷ sim.step_simulation_single
      ∷ (if ltb 1 steps then sim.step_simulation_multiple ∷ [] else [])

  -- `verify`, after the features have been checked.
  unfoldable pub exercise : (timeout steps step_size : ℕ) → List ℕ → Action sim Report
  exercise timeout steps step_size observed = do
    initial ← read_clock sim
    set_state sim sim.state_playing
    wait_for_state sim timeout sim.state_playing
    playing ← wait_for_clock_after sim timeout initial
    set_state sim sim.state_paused
    wait_for_state sim timeout sim.state_paused
    paused ← wait_for_quiescent_clock sim timeout
    let expected = paused + steps * step_size
    step sim steps
    wait_for_clock_at_least sim timeout expected
    stepped ← wait_for_quiescent_clock sim timeout
    if stepped == expected
        then (do
          final ← state sim
          if final == sim.state_paused
              then (do
                set_state sim sim.state_playing
                resumed ← wait_for_clock_after sim timeout (some stepped)
                wait_for_state sim timeout sim.state_playing
                pure (record {
                  features = sorted_set observed;
                  steps = steps;
                  step_size_ns = step_size;
                  playing_ns = playing;
                  paused_ns = paused;
                  stepped_ns = stepped;
                  resumed_ns = resumed;
                }))
              else raise not_paused)
        else raise (wrong_advance paused stepped expected)

  -- `verify`
  unfoldable pub verify : (timeout steps step_size : ℕ) → Action sim Report
  verify timeout steps step_size = do
    observed ← features sim
    elim (sorted_set (without (required_features steps) observed)) [
      | [] ↦ exercise timeout steps step_size observed
      | m ∷ ms ↦ raise (features_missing (m ∷ ms))
    ]

  -- The loop of `main`, while `rclpy.ok()` holds for `rounds` rounds.
  unfoldable pub step_rounds : (timeout steps step_size interval rounds clock : ℕ) → Action sim ℕ
  step_rounds timeout steps step_size interval zero clock = pure clock
  step_rounds timeout steps step_size interval (suc rounds) clock = do
    clock' ← step_and_wait sim timeout clock steps step_size
    pause_for sim interval
    step_rounds timeout steps step_size interval rounds clock'

  -- The `step` command of `main`.
  unfoldable pub step_command : (timeout steps step_size interval rounds : ℕ) → Action sim ℕ
  step_command timeout steps step_size interval rounds = do
    set_state sim sim.state_paused
    wait_for_state sim timeout sim.state_paused
    clock ← wait_for_quiescent_clock sim timeout
    step_rounds timeout steps step_size interval rounds clock
