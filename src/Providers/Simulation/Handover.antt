-- ===== src/Providers/Simulation/Handover.antt =====
-- The report of a conformance run, as the producer of the provider's result reads it.
use robotics_runtime_infra.Base.{ℕ, ◌*◌, ◌≤◌, ◌<◌, ◌≡◌, String, not, arith}
use robotics_runtime_infra.Base.Result.{ok, err, raise_if, ◌>>◌}
use robotics_runtime_infra.Simulation.Node.{Simulator, Node}
use robotics_runtime_infra.Simulation.Conformance.{Report, report_document, verify}
use robotics_runtime_infra.Simulation.Conformance.Verdict.{verify_sound, verify-lengths}
use robotics_runtime_infra.Providers.Simulation.{
  Tools, Bytes, contradiction, positive_integer, Samples, clock_samples, is_exact, checked_world,
  checked_clock,
}

module _ (tools : Tools) where
  abbrev samples_of : Report → Samples
  samples_of report = record {
    playing = report.playing_ns;
    paused = report.paused_ns;
    stepped = report.stepped_ns;
    resumed = report.resumed_ns;
  }

  -- What the producer makes of a report with at least one step of at least a nanosecond.
  checked_clock-report_document :
      (service_namespace : String) (report : Report) (world : Bytes)
      → 1 ≤ report.steps
      → 1 ≤ report.step_size_ns
      → checked_clock tools (report_document service_namespace report) world ≡ (
          raise_if
            (not (is_exact (samples_of report) (report.steps * report.step_size_ns)))
            contradiction
          >> (checked_world tools report.step_size_ns world
              >> ok (report.steps * report.step_size_ns)))
  unfolding checked_clock clock_samples positive_integer report_document
  checked_clock-report_document service_namespace report world some_steps some_size = ground arith

  module _ (sim : Simulator) (timeout steps step_size : ℕ) (some_steps : 1 ≤ steps)
      (some_size : 1 ≤ step_size) where
    -- When `verify` reports, after at least one step of at least a nanosecond, and the world declares
    -- the same step size, the producer accepts the report if /clock had not gone back between the
    -- playing and the paused sample, with the time that was stepped, and refuses it as contradictory
    -- if it had.
    pub verify-checked_clock :
        (node : Node sim) (report : Report) (service_namespace : String) (world : Bytes)
        → (verify sim timeout steps step_size node).0 ≡ ok report
        → checked_world tools step_size world ≡ ok tt
        → (report.playing_ns ≤ report.paused_ns
            → checked_clock tools (report_document service_namespace report) world
              ≡ ok (steps * step_size))
          × (report.paused_ns < report.playing_ns
              → checked_clock tools (report_document service_namespace report) world
                ≡ err contradiction)
    verify-checked_clock node report service_namespace world ran declared =
        let (features, advance, resumed, played, exercised) =
          verify_sound sim timeout steps step_size node report ran in
        let (its_steps, its_size) = verify-lengths sim timeout steps step_size node report ran in
        let read =
          checked_clock-report_document service_namespace report world (omega arith)
            (omega arith) in
        let declared' : checked_world tools report.step_size_ns world ≡ ok tt =
          rw its_size declared in
        let length : report.steps * report.step_size_ns ≡ steps * step_size = cc in
        let positive : 1 ≤ steps * step_size = grind arith in
        (λ forward. rw (read, declared') (ground arith), λ back. rw read (ground arith))
