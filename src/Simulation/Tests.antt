-- ===== src/Simulation/Tests.antt =====
-- A small simulator that answers at once, and runs of the node in it.
use robotics_runtime_infra.Base.{
  ℕ, ◌+◌, ◌*◌, ◌/◌, ◌%◌, ◌<◌, ◌≡◌, ◌≢◌, refl, true, Option, none, some, List, [], ◌∷◌, ◌==◌,
  if◌then◌else◌, arith,
}
use robotics_runtime_infra.Base.Result.{ok, err}
use robotics_runtime_infra.Simulation.Node.{
  Simulator, Request, features_request, state_request, set_state_request, step_request,
  ClockMessage, Response, Node, features, out_of_fuel, call, require_ok, state, set_state, step,
}
use robotics_runtime_infra.Simulation.Node.Time.{TimeAdvances}
use robotics_runtime_infra.Simulation.Control.{
  wait_for_state, wait_for_clock_after, wait_for_quiescent_clock, wait_for_clock_at_least,
  step_and_wait, confirm_state, await_advance, await_quiet, await_at_least,
}
use robotics_runtime_infra.Simulation.Conformance.{
  verify, exercise, step_command, step_rounds, Report, sorted_set, without, required_features,
  insert,
}
use robotics_runtime_infra.Simulation.Control.Timeouts.{waits_end}
use robotics_runtime_infra.Simulation.Control.Waits.{Confirmed, wait_for_state-Confirmed}
use robotics_runtime_infra.Simulation.Conformance.Exercised.{IsEntered, IsExercised}
use robotics_runtime_infra.Simulation.Conformance.Verdict.{AllIn, verify_sound, verify_ends}
use robotics_runtime_infra.Simulation.Conformance.Stepping.{step_command_exact, step_command_ends}

pub record Toy : Type 0 where
  now : ℕ
  sim_ns : ℕ
  mode : ℕ

abbrev clock_message : ℕ → ClockMessage
clock_message ns = record { sec = ns / 1_000_000_000; nanosec = ns % 1_000_000_000 }

abbrev reply : ℕ → Response
reply mode = record {
  result = 1;
  error_message = "";
  state = mode;
  features = 6 ∷ 5 ∷ 4 ∷ 3 ∷ 2 ∷ [];
}

-- Each millisecond-step request advances the clock; a playing simulation advances with each spin.
abbrev serve : Request → Toy → List ClockMessage × Option Response × Toy
serve features_request w = ([], some (reply w.mode), w)
serve state_request w = ([], some (reply w.mode), w)
serve (set_state_request m) w = ([], some (reply m), record w { mode = m })
serve (step_request n) w =
    let ns = w.sim_ns + n * 1_000_000 in
    (clock_message ns ∷ [], some (reply w.mode), record w { sim_ns = ns })

abbrev spin : ℕ → Toy → Option ClockMessage × Toy
spin d w =
    let ns = if w.mode == 1 then w.sim_ns + 4_000_000 else w.sim_ns in
    (some (clock_message ns), record w { now = w.now + d + 1; sim_ns = ns })

abbrev pub toy : Simulator
toy = record {
  World = Toy;
  monotonic = λ w. (w.now, w);
  sleep = λ d w. record w { now = w.now + d };
  wait_for_service = λ s w. (true, w);
  spin_until_complete = serve;
  spin_once = spin;
  result_ok = 1;
  already_in_target_state = 100;
  state_playing = 1;
  state_paused = 2;
  simulation_state_getting = 2;
  simulation_state_setting = 3;
  simulation_state_pause = 4;
  step_simulation_single = 5;
  step_simulation_multiple = 6;
}

serve-now : (r : Request) (w : Toy) → (serve r w).2.now ≡ w.now
serve-now features_request w = refl
serve-now state_request w = refl
serve-now (set_state_request m) w = refl
serve-now (step_request n) w = refl

toy-TimeAdvances : TimeAdvances toy
toy-TimeAdvances = record {
  reading = λ w. omega arith;
  spinning = λ w d. omega arith;
  waiting = λ w s. omega arith;
  calling = λ w r. omega (arith, serve-now r w);
}

abbrev pub fresh : Node toy
fresh = record { clock_ns = none; world = record { now = 0; sim_ns = 0; mode = 0 } }

abbrev pub timeout : ℕ
timeout = 30_000_000_000

abbrev pub report : Report
report = record {
  features = 2 ∷ 3 ∷ 4 ∷ 5 ∷ 6 ∷ [];
  steps = 5;
  step_size_ns = 1_000_000;
  playing_ns = 8_000_000;
  paused_ns = 8_000_000;
  stepped_ns = 13_000_000;
  resumed_ns = 17_000_000;
}

pub verify-fresh : (verify toy timeout 5 1_000_000 fresh).0 ≡ ok report
unfolding verify exercise features call require_ok state set_state step wait_for_state confirm_state
    wait_for_clock_after await_advance wait_for_quiescent_clock await_quiet wait_for_clock_at_least
    await_at_least sorted_set without insert
verify-fresh = refl

waits_end_example :
    ((requested : ℕ) → (wait_for_state toy timeout requested fresh).0 ≢ err out_of_fuel)
    × ((previous : Option ℕ)
        → (wait_for_clock_after toy timeout previous fresh).0 ≢ err out_of_fuel)
    × ((wait_for_quiescent_clock toy timeout fresh).0 ≢ err out_of_fuel)
    × ((target : ℕ) → (wait_for_clock_at_least toy timeout target fresh).0 ≢ err out_of_fuel)
waits_end_example = waits_end toy toy-TimeAdvances timeout fresh

verify_ends_example : (verify toy timeout 5 1_000_000 fresh).0 ≢ err out_of_fuel
verify_ends_example = verify_ends toy toy-TimeAdvances timeout 5 1_000_000 fresh

step_command_ends_example :
    (step_command toy timeout 5 1_000_000 200_000_000 3 fresh).0 ≢ err out_of_fuel
step_command_ends_example =
    step_command_ends toy toy-TimeAdvances timeout 5 1_000_000 200_000_000 3 fresh

verify_sound_example :
    ((observed : List ℕ) × ((features toy fresh).0 ≡ ok observed)
      × AllIn (required_features toy 5) observed
      × (report.features ≡ sorted_set observed))
    × (13_000_000 ≡ report.paused_ns + 5 * 1_000_000)
    × (13_000_000 < report.resumed_ns)
    × ((initial : ℕ) → (features toy fresh).1.clock_ns ≡ some initial → initial < 8_000_000)
    × IsExercised toy timeout 5 1_000_000
        (features toy fresh).1
        (verify toy timeout 5 1_000_000 fresh).1
        report
verify_sound_example = verify_sound toy timeout 5 1_000_000 fresh report verify-fresh

abbrev standing : Node toy
standing = record { clock_ns = some 7; world = record { now = 0; sim_ns = 7; mode = 2 } }

step_command-standing :
    (step_command toy timeout 5 1_000_000 200_000_000 3 standing).0 ≡ ok 15_000_007
unfolding step_command step_rounds step_and_wait call require_ok state set_state step wait_for_state
    confirm_state wait_for_quiescent_clock await_quiet wait_for_clock_at_least await_at_least
step_command-standing = refl

step_command_exact_example :
    (paused : Node toy) × IsEntered toy timeout 2 standing paused
    × (begin : ℕ) × ((wait_for_quiescent_clock toy timeout paused).0 ≡ ok begin)
    × ((wait_for_quiescent_clock toy timeout paused).1.clock_ns ≡ some begin)
    × (15_000_007 ≡ begin + 3 * (5 * 1_000_000))
    × ((step_command toy timeout 5 1_000_000 200_000_000 3 standing).1.clock_ns ≡ some 15_000_007)
step_command_exact_example =
    step_command_exact toy timeout 5 1_000_000 200_000_000 3 standing 15_000_007
      step_command-standing

-- One step by itself.
after_step : (step_and_wait toy timeout 7 5 1_000_000 standing).0 ≡ ok 5_000_007
unfolding step_and_wait call require_ok state step wait_for_state confirm_state
    wait_for_clock_at_least await_at_least
after_step = refl

paused_already : (wait_for_state toy timeout 2 standing).0 ≡ ok tt
unfolding call require_ok state wait_for_state confirm_state
paused_already = refl

wait_for_state-Confirmed_example :
    Confirmed toy 2 30_000_000_000 (wait_for_state toy timeout 2 standing).1
wait_for_state-Confirmed_example = wait_for_state-Confirmed toy timeout 2 standing paused_already
