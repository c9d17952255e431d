-- ===== src/Simulation/Conformance/Verdict.antt =====
-- What a report of `verify` shows, and that `verify` ends.
use robotics_runtime_infra.Base.{
  ℕ, ◌+◌, ◌*◌, ◌<◌, ◌≡◌, ◌≢◌, refl, sym, subst, true, some, List, [], ◌∷◌, arith, Bool-cases, inl,
  inr,
}
use robotics_runtime_infra.Base.Result.{Result, ok, err, Result-cases}
use robotics_runtime_infra.Simulation.Node.{
  Simulator, Node, out_of_fuel, Error, features, set_state, state, step,
}
use robotics_runtime_infra.Simulation.Node.Time.{
  TimeAdvances, state-fuel, set_state-fuel, step-fuel, features-fuel,
}
use robotics_runtime_infra.Simulation.Control.{
  wait_for_state, wait_for_clock_after, wait_for_quiescent_clock, wait_for_clock_at_least,
}
use robotics_runtime_infra.Simulation.Control.Waits.{wait_for_clock_after_advances}
use robotics_runtime_infra.Simulation.Control.Timeouts.{waits_end}
use robotics_runtime_infra.Simulation.Conformance.Exercised.{IsExercised, exercise-IsExercised}
use robotics_runtime_infra.Simulation.Conformance.{
  Report, contains, insert, sorted_set, without, required_features, exercise, verify,
}

-- Every feature of the list is among the others.
abbrev pub AllIn : List ℕ → List ℕ → Type 0
AllIn [] ys = Unit
AllIn (x ∷ xs) ys = (contains x ys ≡ true) × AllIn xs ys

insert-ne-nil : (x : ℕ) (xs : List ℕ) → insert x xs ≢ []
unfolding insert
insert-ne-nil x [] h = cc
insert-ne-nil x (y ∷ ys) h = ground arith

without-eq-nil : (xs ys : List ℕ) → sorted_set (without xs ys) ≡ [] → AllIn xs ys
unfolding without sorted_set
without-eq-nil [] ys h = tt
without-eq-nil (x ∷ xs) ys h = elim (Bool-cases (contains x ys)) [
  | inl there ↦ (there, without-eq-nil xs ys (rw there at h))
  | inr missing ↦ absurd (insert-ne-nil x (sorted_set (without xs ys)) (rw missing at h))
]

module _ (sim : Simulator) (timeout steps step_size : ℕ) where
  exercise_advance :
      (observed : List ℕ) (node : Node sim) (report : Report)
      → (exercise sim timeout steps step_size observed node).0 ≡ ok report
      → (report.stepped_ns ≡ report.paused_ns + steps * step_size)
        × (report.stepped_ns < report.resumed_ns)
        × ((initial : ℕ) → node.clock_ns ≡ some initial → initial < report.playing_ns)
  unfolding exercise
  exercise_advance observed node report h =
      let started =
        (wait_for_state sim timeout sim.state_playing (set_state sim sim.state_playing node).1).1 in
      let playing = (wait_for_clock_after sim timeout node.clock_ns started).1 in
      let paused =
        (wait_for_state sim timeout sim.state_paused
          (set_state sim sim.state_paused playing).1).1 in
      let quiet = (wait_for_quiescent_clock sim timeout paused).1 in
      let reached =
        (wait_for_clock_at_least sim timeout (report.paused_ns + steps * step_size)
          (step sim steps quiet).1).1 in
      let settled = (wait_for_quiescent_clock sim timeout reached).1 in
      let resumed = (set_state sim sim.state_playing (state sim settled).1).1 in
      let first =
        wait_for_clock_after_advances sim timeout node.clock_ns started report.playing_ns in
      let last =
        wait_for_clock_after_advances sim timeout (some report.stepped_ns) resumed
          report.resumed_ns in
      (
        ground arith,
        ground (
          arith,
          λ (e : (wait_for_clock_after sim timeout (some report.stepped_ns) resumed).0
                ≡ ok report.resumed_ns).
              (last e).0 report.stepped_ns refl,
        ),
        λ initial e. ground (
          arith,
          λ (e' : (wait_for_clock_after sim timeout node.clock_ns started).0
                ≡ ok report.playing_ns).
              (first e').0 initial e,
        ),
      )

  exercise-features :
      (observed : List ℕ) (node : Node sim) (report : Report)
      → (exercise sim timeout steps step_size observed node).0 ≡ ok report
      → report.features ≡ sorted_set observed
  unfolding exercise
  exercise-features observed node report h = ground arith

  exercise-lengths :
      (observed : List ℕ) (node : Node sim) (report : Report)
      → (exercise sim timeout steps step_size observed node).0 ≡ ok report
      → (report.steps ≡ steps) × (report.step_size_ns ≡ step_size)
  unfolding exercise
  exercise-lengths observed node report h = ground arith

  -- The report repeats the arguments.
  pub verify-lengths :
      (node : Node sim) (report : Report)
      → (verify sim timeout steps step_size node).0 ≡ ok report
      → (report.steps ≡ steps) × (report.step_size_ns ≡ step_size)
  unfolding verify
  verify-lengths node report h = elim (Result-cases (features sim node).0) [
    | inr (x, e) ↦ absurd (ground arith)
    | inl (observed, e) ↦
        let missing = sorted_set (without (required_features sim steps) observed) in
        let none_missing : missing ≡ [] = ground arith in
        exercise-lengths observed (features sim node).1 report (ground arith)
  ]

  verify-last :
      (node : Node sim) (observed : List ℕ)
      → (features sim node).0 ≡ ok observed
      → sorted_set (without (required_features sim steps) observed) ≡ []
      → (verify sim timeout steps step_size node).1
        ≡ (exercise sim timeout steps step_size observed (features sim node).1).1
  unfolding verify
  verify-last node observed e none_missing = ground arith

  -- If `verify` reports, the simulator has all the features that it must have. The four times of the
  -- report are samples of /clock: the first came in a simulation that had confirmed to be playing, the
  -- second and the third were quiescent in the paused one, before and after the steps were
  -- accepted, and the fourth came when it played again, as it confirmed at the end. The steps have
  -- advanced /clock by exactly their length, and after them the clock went on. If the node had a
  -- sample before, the clock also advanced while the simulation was playing.
  pub verify_sound :
      (node : Node sim) (report : Report)
      → (verify sim timeout steps step_size node).0 ≡ ok report
      → ((observed : List ℕ) × ((features sim node).0 ≡ ok observed)
          × AllIn (required_features sim steps) observed
          × (report.features ≡ sorted_set observed))
        × (report.stepped_ns ≡ report.paused_ns + steps * step_size)
        × (report.stepped_ns < report.resumed_ns)
        × ((initial : ℕ)
            → (features sim node).1.clock_ns ≡ some initial
            → initial < report.playing_ns)
        × IsExercised sim timeout steps step_size
            (features sim node).1
            (verify sim timeout steps step_size node).1
            report
  unfolding verify
  verify_sound node report h = elim (Result-cases (features sim node).0) [
    | inr (x, e) ↦ absurd (ground arith)
    | inl (observed, e) ↦
        let missing = sorted_set (without (required_features sim steps) observed) in
        let none_missing : missing ≡ [] = ground arith in
        let ran : (exercise sim timeout steps step_size observed (features sim node).1).0
            ≡ ok report =
          ground arith in
        let (advance, resumed, played) =
          exercise_advance observed (features sim node).1 report ran in
        (
          (
            observed,
            e,
            without-eq-nil _ observed none_missing,
            exercise-features observed (features sim node).1 report ran,
          ),
          advance,
          resumed,
          played,
          subst (λ n. IsExercised sim timeout steps step_size (features sim node).1 n report)
              (sym (verify-last node observed e none_missing))
              (exercise-IsExercised sim timeout steps step_size observed (features sim node).1
                report ran),
        )
  ]

abbrev value_or_zero : Result Error ℕ → ℕ
value_or_zero (ok n) = n
value_or_zero (err e) = 0

module _ (sim : Simulator) (advances : TimeAdvances sim) (timeout steps step_size : ℕ) where
  exercise-fuel :
      (observed : List ℕ) (node : Node sim)
      → (exercise sim timeout steps step_size observed node).0 ≢ err out_of_fuel
  unfolding exercise
  exercise-fuel observed node h =
      let ends = waits_end sim advances timeout in
      let played = (set_state sim sim.state_playing node).1 in
      let started = (wait_for_state sim timeout sim.state_playing played).1 in
      let playing = (wait_for_clock_after sim timeout node.clock_ns started).1 in
      let pausing = (set_state sim sim.state_paused playing).1 in
      let paused = (wait_for_state sim timeout sim.state_paused pausing).1 in
      let quiet = (wait_for_quiescent_clock sim timeout paused).1 in
      let stepped = (step sim steps quiet).1 in
      let p = value_or_zero (wait_for_quiescent_clock sim timeout paused).0 in
      let reached = (wait_for_clock_at_least sim timeout (p + steps * step_size) stepped).1 in
      let settled = (wait_for_quiescent_clock sim timeout reached).1 in
      let asked = (state sim settled).1 in
      let resuming = (set_state sim sim.state_playing asked).1 in
      let resumed = (wait_for_clock_after sim timeout (some (p + steps * step_size)) resuming).1 in
      ground (
        arith,
        set_state-fuel sim advances sim.state_playing node,
        (ends played).0 sim.state_playing,
        (ends started).1 node.clock_ns,
        set_state-fuel sim advances sim.state_paused playing,
        (ends pausing).0 sim.state_paused,
        (ends paused).2,
        step-fuel sim advances steps quiet,
        (ends stepped).3 (p + steps * step_size),
        (ends reached).2,
        state-fuel sim advances settled,
        set_state-fuel sim advances sim.state_playing asked,
        (ends resuming).1 (some (p + steps * step_size)),
        (ends resumed).0 sim.state_playing,
      )

  -- Where time advances, `verify` returns a report or raises an error of the code.
  pub verify_ends :
      (node : Node sim) → (verify sim timeout steps step_size node).0 ≢ err out_of_fuel
  unfolding verify
  verify_ends node h = elim (Result-cases (features sim node).0) [
    | inr (x, e) ↦ ground (arith, features-fuel sim advances node)
    | inl (observed, e) ↦ ground (arith, exercise-fuel observed (features sim node).1)
  ]
