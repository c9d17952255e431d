-- ===== src/Simulation/Control.antt =====
-- The waits and steps of simulation_control.py. A wait loops until a deadline, on fuel: `suc timeout`
-- rounds, since each round of a world whose time advances takes a nanosecond at least.
pub mod Timeouts
pub mod Waits
use robotics_runtime_infra.Base.{
  ℕ, zero, suc, ◌+◌, ◌-◌, ◌*◌, Bool, true, false, Option, none, some, ◌&&◌, ltb, leb, ◌==◌, min,
  if◌then◌else◌,
}
use robotics_runtime_infra.Simulation.Node.{
  Simulator, Error, state_not_confirmed, step_mismatch, clock_not_advanced, clock_not_quiescent,
  clock_not_reached, out_of_fuel, Action, pure, raise, ◌>>=◌, ◌>>◌, read_time, read_clock,
  spin_node, state, step,
}

-- `self._clock_ns == expected`
abbrev pub is_sample : Option ℕ → ℕ → Bool
is_sample none expected = false
is_sample (some c) expected = c == expected

-- `a == b` on `int | None`
abbrev pub same_sample : Option ℕ → Option ℕ → Bool
same_sample none none = true
same_sample none (some b) = false
same_sample (some a) none = false
same_sample (some a) (some b) = a == b

-- `stable_sec` of `wait_for_quiescent_clock`, 0.25 s.
abbrev pub stable_ns : ℕ
stable_ns = 250_000_000

module _ (sim : Simulator) where
  -- The `while True` of `wait_for_state`.
  unfoldable pub confirm_state : (fuel deadline requested observed : ℕ) → Action sim Unit
  confirm_state zero deadline requested observed = raise out_of_fuel
  confirm_state (suc fuel) deadline requested observed = do
    now ← read_time sim
    if leb deadline now
        then raise (state_not_confirmed requested observed)
        else if observed == requested
        then pure tt
        else (do
          spin_node sim (min 50_000_000 (deadline - now))
          observed' ← state sim
          confirm_state fuel deadline requested observed')

  -- The loop of `wait_for_clock_after`. The first sample of a node without one is a cursor only.
  unfoldable pub await_advance : (fuel deadline : ℕ) → Option ℕ → Action sim ℕ
  await_advance zero deadline previous = raise out_of_fuel
  await_advance (suc fuel) deadline previous = do
    now ← read_time sim
    if ltb now deadline
        then (do
          spin_node sim 100_000_000
          clock ← read_clock sim
          elim clock [
            | none ↦ await_advance fuel deadline previous
            | some c ↦ elim previous [
              | none ↦ await_advance fuel deadline (some c)
              | some p ↦ if ltb p c then pure c else await_advance fuel deadline (some p)
            ]
          ])
        else raise clock_not_advanced

  -- The loop of `wait_for_quiescent_clock`.
  unfoldable pub await_quiet : (fuel deadline stable since : ℕ) → Option ℕ → Action sim ℕ
  await_quiet zero deadline stable since observed = raise out_of_fuel
  await_quiet (suc fuel) deadline stable since observed = do
    now ← read_time sim
    if ltb now deadline
        then (do
          spin_node sim (min 50_000_000 stable)
          clock ← read_clock sim
          elim clock [
            | none ↦ await_quiet fuel deadline stable since observed
            | some c ↦
                if same_sample (some c) observed
                then (do
                  later ← read_time sim
                  if leb (since + stable) later
                      then pure c
                      else await_quiet fuel deadline stable since observed)
                else (do later ← read_time sim; await_quiet fuel deadline stable later (some c))
          ])
        else raise clock_not_quiescent

  -- The loop of `wait_for_clock_at_least`.
  unfoldable pub await_at_least : (fuel deadline target : ℕ) → Action sim ℕ
  await_at_least zero deadline target = raise out_of_fuel
  await_at_least (suc fuel) deadline target = do
    now ← read_time sim
    if ltb now deadline
        then (do
          spin_node sim 50_000_000
          clock ← read_clock sim
          elim clock [
            | none ↦ await_at_least fuel deadline target
            | some c ↦ if leb target c then pure c else await_at_least fuel deadline target
          ])
        else raise (clock_not_reached target)

module _ (sim : Simulator) (timeout : ℕ) where
  -- `wait_for_state`
  unfoldable pub wait_for_state : ℕ → Action sim Unit
  wait_for_state requested = do
    now ← read_time sim
    observed ← state sim
    confirm_state sim (suc timeout) (now + timeout) requested observed

  -- `wait_for_clock_after`
  unfoldable pub wait_for_clock_after : Option ℕ → Action sim ℕ
  wait_for_clock_after previous = do
    now ← read_time sim
    await_advance sim (suc timeout) (now + timeout) previous

  -- `wait_for_quiescent_clock`, with its default `stable_sec`.
  unfoldable pub wait_for_quiescent_clock : Action sim ℕ
  wait_for_quiescent_clock = do
    now ← read_time sim
    since ← read_time sim
    observed ← read_clock sim
    await_quiet sim (suc timeout) (now + timeout) stable_ns since observed

  -- `wait_for_clock_at_least`
  unfoldable pub wait_for_clock_at_least : ℕ → Action sim ℕ
  wait_for_clock_at_least target = do
    now ← read_time sim
    await_at_least sim (suc timeout) (now + timeout) target

  -- `step_and_wait`
  unfoldable pub step_and_wait : (previous steps step_size : ℕ) → Action sim ℕ
  step_and_wait previous steps step_size = do
    let expected = previous + steps * step_size
    step sim steps
    stepped ← wait_for_clock_at_least expected
    wait_for_state sim.state_paused
    clock ← read_clock sim
    if (stepped == expected) && is_sample clock expected
        then pure stepped
        else raise (step_mismatch clock expected)
