-- ===== src/Simulation/Conformance/Exercised.antt =====
-- The calls of a run of `exercise` that has a report, and the samples that they have left.
use robotics_runtime_infra.Base.{ℕ, ◌+◌, ◌*◌, ◌≡◌, some, List, arith, refl, ap, sym, subst}
use robotics_runtime_infra.Base.Result.{ok}
use robotics_runtime_infra.Simulation.Node.{Simulator, Node, set_state, state, step}
use robotics_runtime_infra.Simulation.Control.{
  wait_for_state, wait_for_clock_after, wait_for_quiescent_clock, wait_for_clock_at_least,
}
use robotics_runtime_infra.Simulation.Control.Waits.{
  Confirmed, wait_for_state-Confirmed, wait_for_clock_after_advances,
  wait_for_quiescent_clock_clock,
}
use robotics_runtime_infra.Simulation.Conformance.{Report, exercise}

module _ (sim : Simulator) (timeout : ℕ) where
  -- The simulator accepts a state, and confirms it before the timeout has passed.
  pub record IsEntered (requested : ℕ) (before after : Node sim) : Type 0 where
    pub accepted : (set_state sim requested before).0 ≡ ok tt
    pub confirmed :
        (wait_for_state sim timeout requested (set_state sim requested before).1).0 ≡ ok tt
    pub its_end :
        after ≡ (wait_for_state sim timeout requested (set_state sim requested before).1).1
    pub its_answer :
        Confirmed sim requested
          ((sim.monotonic (set_state sim requested before).1.world).0 + timeout)
          after

  pub entered :
      (requested : ℕ) (before : Node sim)
      → (set_state sim requested before).0 ≡ ok tt
      → (wait_for_state sim timeout requested (set_state sim requested before).1).0 ≡ ok tt
      → IsEntered requested before
          (wait_for_state sim timeout requested (set_state sim requested before).1).1
  entered requested before a c = record {
    accepted = a;
    confirmed = c;
    its_end = refl;
    its_answer =
        wait_for_state-Confirmed sim timeout requested (set_state sim requested before).1 c;
  }

  module _ (steps step_size : ℕ) where
    -- A run up to the pause: the simulation was playing when the first sample of the report came,
    -- and it is paused, with a quiescent clock, at the second one.
    pub record IsPaused (node quiet : Node sim) (report : Report) : Type 0 where
      pub started : Node sim
      pub playing : IsEntered sim.state_playing node started
      pub after : Node sim
      pub played :
          wait_for_clock_after sim timeout node.clock_ns started ≡ (ok report.playing_ns, after)
      pub played_sample : after.clock_ns ≡ some report.playing_ns
      pub paused : Node sim
      pub pausing : IsEntered sim.state_paused after paused
      pub settles : wait_for_quiescent_clock sim timeout paused ≡ (ok report.paused_ns, quiet)
      pub paused_sample : quiet.clock_ns ≡ some report.paused_ns

    -- The steps from there: they are accepted, the expected time is waited for, and in the paused
    -- simulation the clock is quiescent at the third sample; then the simulation plays again, and the
    -- fourth sample comes.
    pub record IsStepped (quiet last : Node sim) (report : Report) : Type 0 where
      pub stepped : (step sim steps quiet).0 ≡ ok tt
      pub settled : Node sim
      pub settles :
          wait_for_quiescent_clock sim timeout
            (wait_for_clock_at_least sim timeout
              (report.paused_ns + steps * step_size)
              (step sim steps quiet).1).1
          ≡ (ok report.stepped_ns, settled)
      pub stepped_sample : settled.clock_ns ≡ some report.stepped_ns
      pub still_paused : (state sim settled).0 ≡ ok sim.state_paused
      pub accepted : (set_state sim sim.state_playing (state sim settled).1).0 ≡ ok tt
      pub resumed : Node sim
      pub resumes :
          wait_for_clock_after sim timeout
            (some report.stepped_ns)
            (set_state sim sim.state_playing (state sim settled).1).1
          ≡ (ok report.resumed_ns, resumed)
      pub resumed_sample : resumed.clock_ns ≡ some report.resumed_ns
      pub playing : Confirmed sim sim.state_playing ((sim.monotonic resumed.world).0 + timeout) last

    abbrev pub IsExercised : Node sim → Node sim → Report → Type 0
    IsExercised node last report =
        (quiet : Node sim) × IsPaused node quiet report × IsStepped quiet last report

    module _ (observed : List ℕ) (node : Node sim) where
      abbrev played_node : Node sim
      played_node =
          (wait_for_state sim timeout sim.state_playing (set_state sim sim.state_playing node).1).1

      abbrev after_node : Node sim
      after_node = (wait_for_clock_after sim timeout node.clock_ns played_node).1

      abbrev paused_node : Node sim
      paused_node =
          (wait_for_state sim timeout sim.state_paused
            (set_state sim sim.state_paused after_node).1).1

      abbrev quiet_node : Node sim
      quiet_node = (wait_for_quiescent_clock sim timeout paused_node).1

      exercise-IsPaused :
          (report : Report)
          → (exercise sim timeout steps step_size observed node).0 ≡ ok report
          → IsPaused node quiet_node report
      unfolding exercise
      exercise-IsPaused report h =
          let played : (wait_for_clock_after sim timeout node.clock_ns played_node).0
              ≡ ok report.playing_ns =
            ground arith in
          let settles : (wait_for_quiescent_clock sim timeout paused_node).0 ≡ ok report.paused_ns =
            ground arith in
          record {
            started = played_node;
            playing = entered sim.state_playing node (ground arith) (ground arith);
            after = after_node;
            played = ap (λ r. (r, after_node)) played;
            played_sample =
                (wait_for_clock_after_advances sim timeout node.clock_ns played_node
                  report.playing_ns played).1;
            paused = paused_node;
            pausing = entered sim.state_paused after_node (ground arith) (ground arith);
            settles = ap (λ r. (r, quiet_node)) settles;
            paused_sample =
                wait_for_quiescent_clock_clock sim timeout paused_node report.paused_ns settles;
          }

      module _ (report : Report) where
        abbrev settled_node : Node sim
        settled_node =
            (wait_for_quiescent_clock sim timeout
              (wait_for_clock_at_least sim timeout (report.paused_ns + steps * step_size)
                (step sim steps quiet_node).1).1).1

        abbrev resuming_node : Node sim
        resuming_node = (set_state sim sim.state_playing (state sim settled_node).1).1

        abbrev resumed_node : Node sim
        resumed_node = (wait_for_clock_after sim timeout (some report.stepped_ns) resuming_node).1

        abbrev last_node : Node sim
        last_node = (wait_for_state sim timeout sim.state_playing resumed_node).1

        exercise-IsStepped :
            (exercise sim timeout steps step_size observed node).0 ≡ ok report
            → IsStepped quiet_node last_node report
        unfolding exercise
        exercise-IsStepped h =
            let reached =
              (wait_for_clock_at_least sim timeout (report.paused_ns + steps * step_size)
                (step sim steps quiet_node).1).1 in
            let settles : (wait_for_quiescent_clock sim timeout reached).0 ≡ ok report.stepped_ns =
              ground arith in
            let resumes : (wait_for_clock_after sim timeout (some report.stepped_ns)
                  resuming_node).0
                ≡ ok report.resumed_ns =
              ground arith in
            let plays : (wait_for_state sim timeout sim.state_playing resumed_node).0 ≡ ok tt =
              ground arith in
            record {
              stepped = ground arith;
              settled = settled_node;
              settles = ap (λ r. (r, settled_node)) settles;
              stepped_sample =
                  wait_for_quiescent_clock_clock sim timeout reached report.stepped_ns settles;
              still_paused = ground arith;
              accepted = ground arith;
              resumed = resumed_node;
              resumes = ap (λ r. (r, resumed_node)) resumes;
              resumed_sample =
                  (wait_for_clock_after_advances sim timeout (some report.stepped_ns) resuming_node
                    report.resumed_ns resumes).1;
              playing = wait_for_state-Confirmed sim timeout sim.state_playing resumed_node plays;
            }

        exercise-last :
            (exercise sim timeout steps step_size observed node).0 ≡ ok report
            → (exercise sim timeout steps step_size observed node).1 ≡ last_node
        unfolding exercise
        exercise-last h = ground arith

        pub exercise-IsExercised :
            (exercise sim timeout steps step_size observed node).0 ≡ ok report
            → IsExercised node (exercise sim timeout steps step_size observed node).1 report
        exercise-IsExercised h = (
          quiet_node,
          exercise-IsPaused report h,
          subst (λ n. IsStepped quiet_node n report) (sym (exercise-last h)) (exercise-IsStepped h),
        )
