-- ===== src/Simulation/Control/Timeouts.antt =====
-- Where time advances, every wait ends: by its result, by an error of the code, or at its deadline.
use robotics_runtime_infra.Base.{
  ℕ, zero, suc, ◌+◌, ◌-◌, ◌*◌, ◌<◌, ◌≢◌, Option, min, arith, inl, inr,
}
use robotics_runtime_infra.Base.Result.{err, Result-cases}
use robotics_runtime_infra.Simulation.Node.{
  Simulator, Node, out_of_fuel, read_time, spin_node, state, step,
}
use robotics_runtime_infra.Simulation.Node.Time.{
  now_of, TimeAdvances, state_advances, state-fuel, step-fuel,
}
use robotics_runtime_infra.Simulation.Control.{
  stable_ns, confirm_state, await_advance, await_quiet, await_at_least, wait_for_state,
  wait_for_clock_after, wait_for_quiescent_clock, wait_for_clock_at_least, step_and_wait,
}

module _ (sim : Simulator) (advances : TimeAdvances sim) where
  -- The node after one reading of the time and one spin.
  abbrev spun : ℕ → Node sim → Node sim
  spun timeout node = (spin_node sim timeout (read_time sim node).1).1

  -- What the fuel of a loop covers: one round more than the nanoseconds to the deadline.
  abbrev Covers : (fuel deadline : ℕ) → Node sim → Type 0
  Covers fuel deadline node = (deadline < fuel + now_of sim node.world) × (0 < fuel)

  await_at_least-fuel :
      (fuel deadline target : ℕ) (node : Node sim)
      → Covers fuel deadline node
      → (await_at_least sim fuel deadline target node).0 ≢ err out_of_fuel
  unfolding await_at_least
  await_at_least-fuel zero deadline target node c h = absurd (omega arith)
  await_at_least-fuel (suc fuel) deadline target node c h = ground (
    arith,
    advances.spinning node.world 50_000_000,
    await_at_least-fuel fuel deadline target (spun 50_000_000 node),
  )

  await_advance-fuel :
      (fuel deadline : ℕ) (previous : Option ℕ) (node : Node sim)
      → Covers fuel deadline node
      → (await_advance sim fuel deadline previous node).0 ≢ err out_of_fuel
  unfolding await_advance
  await_advance-fuel zero deadline previous node c h = absurd (omega arith)
  await_advance-fuel (suc fuel) deadline previous node c h =
      let next = spun 100_000_000 node in
      ground (
        arith,
        advances.spinning node.world 100_000_000,
        await_advance-fuel fuel deadline previous next,
        await_advance-fuel fuel deadline next.clock_ns next,
      )

  await_quiet-fuel :
      (fuel deadline stable since : ℕ) (observed : Option ℕ) (node : Node sim)
      → Covers fuel deadline node
      → (await_quiet sim fuel deadline stable since observed node).0 ≢ err out_of_fuel
  unfolding await_quiet
  await_quiet-fuel zero deadline stable since observed node c h = absurd (omega arith)
  await_quiet-fuel (suc fuel) deadline stable since observed node c h =
      let d = min 50_000_000 stable in
      let next = spun d node in
      let timed = (read_time sim next).1 in
      ground (
        arith,
        advances.spinning node.world d,
        advances.reading next.world,
        await_quiet-fuel fuel deadline stable since observed next,
        await_quiet-fuel fuel deadline stable since observed timed,
        await_quiet-fuel fuel deadline stable (now_of sim next.world) next.clock_ns timed,
      )

  confirm_state-fuel :
      (fuel deadline requested observed : ℕ) (node : Node sim)
      → Covers fuel deadline node
      → (confirm_state sim fuel deadline requested observed node).0 ≢ err out_of_fuel
  unfolding confirm_state
  confirm_state-fuel zero deadline requested observed node c h = absurd (omega arith)
  confirm_state-fuel (suc fuel) deadline requested observed node c h =
      let d = min 50_000_000 (deadline - now_of sim node.world) in
      let next = spun d node in
      elim (Result-cases (state sim next).0) [
        | inl (observed', e) ↦ ground (
          arith,
          advances.spinning node.world d,
          state_advances sim advances next,
          confirm_state-fuel fuel deadline requested observed' (state sim next).1,
        )
        | inr (x, e) ↦ ground (arith, state-fuel sim advances next)
      ]

module _ (sim : Simulator) (advances : TimeAdvances sim) (timeout : ℕ) (node : Node sim) where
  timed : Node sim
  timed = (read_time sim node).1

  -- Where time advances, each of the four waits returns or raises an error of the code: the rounds
  -- that its fuel gives are enough.
  pub waits_end :
      ((requested : ℕ) → (wait_for_state sim timeout requested node).0 ≢ err out_of_fuel)
      × ((previous : Option ℕ)
          → (wait_for_clock_after sim timeout previous node).0 ≢ err out_of_fuel)
      × ((wait_for_quiescent_clock sim timeout node).0 ≢ err out_of_fuel)
      × ((target : ℕ) → (wait_for_clock_at_least sim timeout target node).0 ≢ err out_of_fuel)
  unfolding wait_for_state wait_for_clock_after wait_for_quiescent_clock wait_for_clock_at_least
      timed
  waits_end =
      let deadline = now_of sim node.world + timeout in
      let later = advances.reading node.world in
      let timed' = (read_time sim timed).1 in
      (
        λ requested h. elim (Result-cases (state sim timed).0) [
          | inl (observed, e) ↦
              confirm_state-fuel sim advances (suc timeout) deadline requested observed
                (state sim timed).1 (omega (arith, later, state_advances sim advances timed))
                (rw e at h)
          | inr (x, e) ↦ ground (arith, state-fuel sim advances timed)
        ],
        λ previous.
            await_advance-fuel sim advances (suc timeout) deadline previous timed
              (omega (arith, later)),
        await_quiet-fuel sim advances (suc timeout) deadline stable_ns (now_of sim timed.world)
            node.clock_ns timed' (omega (arith, later, advances.reading timed.world)),
        λ target.
            await_at_least-fuel sim advances (suc timeout) deadline target timed
              (omega (arith, later)),
      )

module _ (sim : Simulator) (advances : TimeAdvances sim) (timeout : ℕ) where
  pub step_and_wait-fuel :
      (previous steps step_size : ℕ) (node : Node sim)
      → (step_and_wait sim timeout previous steps step_size node).0 ≢ err out_of_fuel
  unfolding step_and_wait
  step_and_wait-fuel previous steps step_size node h =
      let expected = previous + steps * step_size in
      let stepped = (step sim steps node).1 in
      let reached = (wait_for_clock_at_least sim timeout expected stepped).1 in
      ground (
        arith,
        step-fuel sim advances steps node,
        (waits_end sim advances timeout stepped).3 expected,
        (waits_end sim advances timeout reached).0 sim.state_paused,
      )
