-- ===== src/Simulation/Conformance/Stepping.antt =====
-- The step loop of `main`.
use robotics_runtime_infra.Base.{ℕ, zero, suc, ◌+◌, ◌*◌, ◌≡◌, ◌≢◌, arith, some, inl, inr}
use robotics_runtime_infra.Base.Result.{ok, err, Result-cases}
use robotics_runtime_infra.Simulation.Node.{Simulator, Node, out_of_fuel, set_state, pause_for}
use robotics_runtime_infra.Simulation.Node.Time.{TimeAdvances, set_state-fuel}
use robotics_runtime_infra.Simulation.Control.{
  step_and_wait, wait_for_state, wait_for_quiescent_clock,
}
use robotics_runtime_infra.Simulation.Control.Waits.{
  step_and_wait_exact, wait_for_quiescent_clock_clock,
}
use robotics_runtime_infra.Simulation.Control.Timeouts.{step_and_wait-fuel, waits_end}
use robotics_runtime_infra.Simulation.Conformance.Exercised.{IsEntered, entered}
use robotics_runtime_infra.Simulation.Conformance.{step_rounds, step_command}

module _ (sim : Simulator) (timeout steps step_size interval : ℕ) where
  -- If all the rounds of the step loop succeed, the clock has advanced by exactly their steps'
  -- length, and the node's last sample is that time.
  pub step_rounds_exact :
      (rounds clock : ℕ) (node : Node sim) (c : ℕ)
      → node.clock_ns ≡ some clock
      → let (r, node') = step_rounds sim timeout steps step_size interval rounds clock node in
        r ≡ ok c → (c ≡ clock + rounds * (steps * step_size)) × (node'.clock_ns ≡ some c)
  unfolding step_rounds
  step_rounds_exact zero clock node c s h = ground arith
  step_rounds_exact (suc rounds) clock node c s h =
      elim (Result-cases (step_and_wait sim timeout clock steps step_size node).0) [
        | inr (x, e) ↦ absurd (ground arith)
        | inl (d, e) ↦
            let stepped = (step_and_wait sim timeout clock steps step_size node).1 in
            let exact = step_and_wait_exact sim timeout clock steps step_size node d e in
            let rest = step_rounds_exact rounds d (pause_for sim interval stepped).1 c exact.1 in
            let later = rest (rw e at h) in rw e (grind (arith, later, exact.0), later.1)
      ]

module _ (sim : Simulator) (advances : TimeAdvances sim)
    (timeout steps step_size interval : ℕ) where
  step_rounds-fuel :
      (rounds clock : ℕ) (node : Node sim)
      → (step_rounds sim timeout steps step_size interval rounds clock node).0 ≢ err out_of_fuel
  unfolding step_rounds
  step_rounds-fuel zero clock node h = cc
  step_rounds-fuel (suc rounds) clock node h =
      elim (Result-cases (step_and_wait sim timeout clock steps step_size node).0) [
        | inr (x, e) ↦
            ground (arith, step_and_wait-fuel sim advances timeout clock steps step_size node)
        | inl (d, e) ↦
            let stepped = (step_and_wait sim timeout clock steps step_size node).1 in
            step_rounds-fuel rounds d (pause_for sim interval stepped).1 (rw e at h)
      ]

module _ (sim : Simulator) (timeout steps step_size interval rounds : ℕ) where
  -- If the `step` command runs all its rounds, the simulator has accepted the pause and confirmed it
  -- in time, the clock was then found quiescent at a sample, and the time that the command ends with
  -- is that sample plus the length of all the steps, and the node's last sample.
  pub step_command_exact :
      (node : Node sim) (c : ℕ)
      → let (r, node') = step_command sim timeout steps step_size interval rounds node in
        r ≡ ok c
        → (paused : Node sim) × IsEntered sim timeout sim.state_paused node paused
          × (start : ℕ) × ((wait_for_quiescent_clock sim timeout paused).0 ≡ ok start)
          × ((wait_for_quiescent_clock sim timeout paused).1.clock_ns ≡ some start)
          × (c ≡ start + rounds * (steps * step_size))
          × (node'.clock_ns ≡ some c)
  unfolding step_command
  step_command_exact node c h =
      let pausing = (set_state sim sim.state_paused node).1 in
      let paused = (wait_for_state sim timeout sim.state_paused pausing).1 in
      let quiet = (wait_for_quiescent_clock sim timeout paused).1 in
      elim (Result-cases (set_state sim sim.state_paused node).0) [
        | inr (x, e) ↦ absurd (ground arith)
        | inl (u, e) ↦ elim (Result-cases (wait_for_state sim timeout sim.state_paused pausing).0) [
          | inr (x, e') ↦ absurd (ground arith)
          | inl (u', e') ↦ elim (Result-cases (wait_for_quiescent_clock sim timeout paused).0) [
            | inr (x, e'') ↦ absurd (ground arith)
            | inl (start, e'') ↦
                let last = wait_for_quiescent_clock_clock sim timeout paused start e'' in
                let exact =
                  step_rounds_exact sim timeout steps step_size interval rounds start quiet c
                    last in
                let done = exact (rw (e, e', e'') at h) in
                (
                  paused,
                  entered sim timeout sim.state_paused node e e',
                  start,
                  e'',
                  last,
                  done.0,
                  rw (e, e', e'') done.1,
                )
          ]
        ]
      ]

-- Where time advances, the `step` command of any number of rounds returns or raises an error of the
-- code.
pub step_command_ends :
    (sim : Simulator) (advances : TimeAdvances sim) (timeout steps step_size interval rounds : ℕ)
    (node : Node sim)
    → (step_command sim timeout steps step_size interval rounds node).0 ≢ err out_of_fuel
unfolding step_command
step_command_ends sim advances timeout steps step_size interval rounds node h =
    let ends = waits_end sim advances timeout in
    let pausing = (set_state sim sim.state_paused node).1 in
    let paused = (wait_for_state sim timeout sim.state_paused pausing).1 in
    let quiet = (wait_for_quiescent_clock sim timeout paused).1 in
    elim (Result-cases (wait_for_quiescent_clock sim timeout paused).0) [
      | inr (x, e) ↦ ground (
        arith,
        set_state-fuel sim advances sim.state_paused node,
        (ends pausing).0 sim.state_paused,
        (ends paused).2,
      )
      | inl (start, e) ↦ ground (
        arith,
        set_state-fuel sim advances sim.state_paused node,
        (ends pausing).0 sim.state_paused,
        step_rounds-fuel sim advances timeout steps step_size interval rounds start quiet,
      )
    ]
