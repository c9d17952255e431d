-- ===== src/Simulation/Control/Waits.antt =====
-- What a wait that returns has observed.
use robotics_runtime_infra.Base.{
  ℕ, zero, suc, ◌+◌, ◌-◌, ◌*◌, ◌≤◌, ◌<◌, ◌≡◌, refl, Option, none, some, leb, ◌==◌, min, arith,
  Option-cases, Bool-cases, inl, inr,
}
use robotics_runtime_infra.Base.Result.{ok, Result-cases}
use robotics_runtime_infra.Simulation.Node.{Simulator, Node, read_time, spin_node, state}
use robotics_runtime_infra.Simulation.Control.{
  stable_ns, confirm_state, await_advance, await_quiet, await_at_least, wait_for_state,
  wait_for_clock_after, wait_for_quiescent_clock, wait_for_clock_at_least, step_and_wait,
}

module _ (sim : Simulator) where
  -- The node after one reading of the time and one spin.
  abbrev spun : ℕ → Node sim → Node sim
  spun timeout node = (spin_node sim timeout (read_time sim node).1).1

  await_at_least_reaches :
      (fuel deadline target : ℕ) (node : Node sim) (c : ℕ)
      → let (r, node') = await_at_least sim fuel deadline target node in
        r ≡ ok c → (target ≤ c) × (node'.clock_ns ≡ some c)
  unfolding await_at_least
  await_at_least_reaches zero deadline target node c h = cc
  await_at_least_reaches (suc fuel) deadline target node c h =
      ground (arith, await_at_least_reaches fuel deadline target (spun 50_000_000 node) c)

  await_advance-some :
      (fuel deadline p : ℕ) (node : Node sim) (c : ℕ)
      → let (r, node') = await_advance sim fuel deadline (some p) node in
        r ≡ ok c → (p < c) × (node'.clock_ns ≡ some c)
  unfolding await_advance
  await_advance-some zero deadline p node c h = cc
  await_advance-some (suc fuel) deadline p node c h =
      ground (arith, await_advance-some fuel deadline p (spun 100_000_000 node) c)

  await_advance-none :
      (fuel deadline : ℕ) (node : Node sim) (c : ℕ)
      → let (r, node') = await_advance sim fuel deadline none node in
        r ≡ ok c → node'.clock_ns ≡ some c
  unfolding await_advance
  await_advance-none zero deadline node c h = cc
  await_advance-none (suc fuel) deadline node c h =
      let next = spun 100_000_000 node in
      elim (Option-cases next.clock_ns) [
        | inl e ↦ ground (arith, await_advance-none fuel deadline next c)
        | inr (p, e) ↦ ground (arith, await_advance-some fuel deadline p next c)
      ]

  await_quiet_clock :
      (fuel deadline stable since : ℕ) (observed : Option ℕ) (node : Node sim) (c : ℕ)
      → let (r, node') = await_quiet sim fuel deadline stable since observed node in
        r ≡ ok c → node'.clock_ns ≡ some c
  unfolding await_quiet
  await_quiet_clock zero deadline stable since observed node c h = cc
  await_quiet_clock (suc fuel) deadline stable since observed node c h =
      let next = spun (min 50_000_000 stable) node in
      let timed = (read_time sim next).1 in
      ground (
        arith,
        await_quiet_clock fuel deadline stable since observed next c,
        await_quiet_clock fuel deadline stable since observed timed c,
        await_quiet_clock fuel deadline stable (sim.monotonic next.world).0 next.clock_ns timed c,
      )

  -- The state that a node has just asked for, and a reading of the time before the deadline.
  abbrev pub Confirmed : (requested deadline : ℕ) → Node sim → Type 0
  Confirmed requested deadline node =
      (m : Node sim) × ((state sim m).0 ≡ ok requested)
      × ((sim.monotonic (state sim m).1.world).0 < deadline)
      × (node ≡ (read_time sim (state sim m).1).1)

  confirm_state-Confirmed :
      (fuel deadline requested observed : ℕ) (m : Node sim)
      → (state sim m).0 ≡ ok observed
      → let (r, node') = confirm_state sim fuel deadline requested observed (state sim m).1 in
        r ≡ ok tt → Confirmed requested deadline node'
  unfolding confirm_state
  confirm_state-Confirmed zero deadline requested observed m e h = cc
  confirm_state-Confirmed (suc fuel) deadline requested observed m e h =
      let now = (sim.monotonic (state sim m).1.world).0 in
      elim (Bool-cases (leb deadline now)) [
        | inl late ↦ absurd (ground arith)
        | inr early ↦ elim (Bool-cases (observed == requested)) [
          | inl same ↦ rw (early, same) (m, ground arith, ground arith, refl)
          | inr other ↦
              let next =
                (spin_node sim (min 50_000_000 (deadline - now))
                  (read_time sim (state sim m).1).1).1 in
              elim (Result-cases (state sim next).0) [
                | inl (observed', e') ↦
                    let rec = confirm_state-Confirmed fuel deadline requested observed' next e' in
                    rw (early, other, e') (rec (rw (early, other, e') at h))
                | inr (x, e') ↦ absurd (ground arith)
              ]
        ]
      ]

module _ (sim : Simulator) (timeout : ℕ) where
  -- If `wait_for_clock_at_least` returns a time, it has reached the target, and it is the node's last
  -- sample.
  pub wait_for_clock_at_least_reaches :
      (target : ℕ) (node : Node sim) (c : ℕ)
      → let (r, node') = wait_for_clock_at_least sim timeout target node in
        r ≡ ok c → (target ≤ c) × (node'.clock_ns ≡ some c)
  unfolding wait_for_clock_at_least
  wait_for_clock_at_least_reaches target node c h =
      let (now, timed) = sim.monotonic node.world in
      await_at_least_reaches sim (suc timeout) (now + timeout) target
        (record node { world = timed }) c h

  -- If `wait_for_clock_after` returns a time, it is the node's last sample, and above the previous
  -- time, where there is one.
  pub wait_for_clock_after_advances :
      (previous : Option ℕ) (node : Node sim) (c : ℕ)
      → let (r, node') = wait_for_clock_after sim timeout previous node in
        r ≡ ok c → ((p : ℕ) → previous ≡ some p → p < c) × (node'.clock_ns ≡ some c)
  unfolding wait_for_clock_after
  wait_for_clock_after_advances none node c h =
      let (now, timed) = sim.monotonic node.world in
      (
        λ p e. cc,
        await_advance-none sim (suc timeout) (now + timeout) (record node { world = timed }) c h,
      )
  wait_for_clock_after_advances (some q) node c h =
      let (now, timed) = sim.monotonic node.world in
      let after =
        await_advance-some sim (suc timeout) (now + timeout) q (record node { world = timed }) c
          h in
      (λ p e. ground arith, after.1)

  -- If `wait_for_quiescent_clock` returns a time, it is the node's last sample.
  pub wait_for_quiescent_clock_clock :
      (node : Node sim) (c : ℕ)
      → let (r, node') = wait_for_quiescent_clock sim timeout node in
        r ≡ ok c → node'.clock_ns ≡ some c
  unfolding wait_for_quiescent_clock
  wait_for_quiescent_clock_clock node c h =
      let (now, timed) = sim.monotonic node.world in
      let (since, timed') = sim.monotonic timed in
      await_quiet_clock sim (suc timeout) (now + timeout) stable_ns since node.clock_ns
        (record node { world = timed' }) c h

  -- If `wait_for_state` returns, the last thing that the node has done is to ask for the state, to
  -- get the requested one, and to find the deadline not yet reached.
  pub wait_for_state-Confirmed :
      (requested : ℕ) (node : Node sim)
      → let (r, node') = wait_for_state sim timeout requested node in
        r ≡ ok tt → Confirmed sim requested ((sim.monotonic node.world).0 + timeout) node'
  unfolding wait_for_state
  wait_for_state-Confirmed requested node h =
      let (now, timed) = sim.monotonic node.world in
      let m : Node sim = record node { world = timed } in
      elim (Result-cases (state sim m).0) [
        | inl (observed, e) ↦
            let rec =
              confirm_state-Confirmed sim (suc timeout) (now + timeout) requested observed m e in
            rw e (rec (rw e at h))
        | inr (x, e) ↦ absurd (ground arith)
      ]

  -- If `step_and_wait` returns a time, it is exactly the previous time plus the steps' length, and
  -- the node's last sample.
  pub step_and_wait_exact :
      (previous steps step_size : ℕ) (node : Node sim) (c : ℕ)
      → let (r, node') = step_and_wait sim timeout previous steps step_size node in
        r ≡ ok c → (c ≡ previous + steps * step_size) × (node'.clock_ns ≡ some c)
  unfolding step_and_wait
  step_and_wait_exact previous steps step_size node c h = ground arith
