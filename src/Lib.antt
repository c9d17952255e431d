-- ===== src/Lib.antt =====
-- A verification library for Python parts of the robotics runtime infrastructure: workers that
-- observe and control a simulation, and tools that retain and check the evidence of a run.
--
-- The parts, and how they meet. During a run, a node measures the messages of a source and exports
-- metrics (Observability), and another drives a simulator through its services and /clock
-- (Simulation); the Isaac worker waits in a paused application for the next phase (Isaac), and
-- the Webots worker removes the processes that it has started (Webots). A recorder keeps the
-- navigation topics in a bag until it is told to stop (Recorder), and metrics are derived from the
-- observations of such a run (Derivation). The report of a simulator's conformance, or what was
-- observed of a playback, becomes a provider result (Providers). After the run, a recording that was
-- uploaded is registered; the object in the store is fetched in its registered version and its signed
-- statement is compared with the registration, and the result is a verification document
-- (Retention). A receipt that was made from such a
-- verification is bound to the registration, and for a finalized index the receipts of its retained
-- artifacts are collected with their verifications and dependencies (Receipts). A worker of the host
-- collects the inputs of the qualification tools into an inventory, and seals the completed
-- assessment to it (Collection); another copies such an inventory before its source is released
-- (Export). Both admit a path by `relative` and `inside` of Export.Admission.
--
-- + Observability.Measurements: measurements.py of
--   ros_ws/src/robotics_observability/robotics_observability. `observe` is `SequenceStream.observe`,
--   with the stream before and after; Metrics: runtime_metrics.py beside it. A callback of the node
--   is a function from the node before to the node after, and `spin` runs a list of events. What is
--   exported and logged is kept in the node. Readings of clocks and publisher counts are arguments.
-- + Simulation.Node, Control, Conformance: simulation_control.py of
--   ros_ws/src/robotics_runtime_infra/robotics_runtime_infra. The simulator, rclpy and `time` are
--   the parameter `Simulator`, an operation for each call, on any type of worlds. `wait_for_state`,
--   `wait_for_clock_after`, `step_and_wait`, `verify` and the other methods keep their names.
-- + Retention.Registration, Download, Statement, Verify: docker/evidence-sink/retained-artifact.py,
--   `registration_descriptor`, `download_version`, `authenticated_statement`, `verify`. The store's
--   client, cosign, SHA-256, Base64, the URL functions and the JSON decoder are the parameters
--   `Library`, `Client`, `Codec`, `Decoder` and `Tools`.
-- + Receipts.Chain, Inventory: docker/evidence-sink/receipt-inputs.py, `chain_files` and `bind`,
--   `registered_paths` and `inventory`. The evidence directory, SHA-256, the JSON decoder and the
--   contract package are the parameter `Evidence`.
-- + Recorder.Arguments, Artifact, Run, Capture, Close: examples/nav2-turtlebot3/record-topics.py,
--   `arguments` after the parser, `stop_request`, `artifact_file`, the `try` of `main` as
--   `record_topics`, its `finally`, and `main`. What the clock, the signals, the graph of nodes and
--   the files are at each step is a `Run`; `document` is what capture-state.json holds.
-- + Derivation: examples/nav2-turtlebot3/derive-otlp.py, `derive`. The file, SHA-256 and the JSON
--   decoder are the parameter `Source`; the metrics that are written are the requests. The output
--   directory is fresh.
-- + Providers.Simulation: scripts/ci/foundation/create-simulation-provider.py, `checked_clock` and
--   `create_result`; Providers.Playback, with Terminal, Sources and Outcome:
--   scripts/ci/integration/create-playback-provider.py, `checked_probe_message`,
--   `checked_observation`, `checked_terminal`, `retained_sources` and `create_result`. The files,
--   XML, YAML and JSON decoding and the contract package are the parameters `Tools` and `Run`.
-- + Collection.Add, Collect, Assessment: host/workers/legacy-finalization/collect_inventory.py,
--   `collect` with its nested `add`, `verify_result` and `verify_aggregate`. The source directory is
--   the parameter `Sources`; the acceptance harness and the contract tools are `Harness`, and what
--   the files hold once its full validation has run is an `After`.
-- + Export.Admission, Copy: host/workers/legacy-finalization/export_retained.py, the admission loop
--   and the copy loop of `export`. `pathlib` and the file system at admission are the parameter
--   `Host`; what the file system answers while an entry is copied is an `Attempt` of the entry, so
--   that a source may change after its admission. `Roots` has the checks of the two directories.
-- + Isaac.Phases: workers/isaac/native-observe.py, `phase_marker` and `wait_paused_phase`. What a
--   round of the wait reads from the application, the clock and the phase directory is a `Reading`.
-- + Webots.Cleanup: workers/webots/launcher.py, `reap`, and the `finally` and exit status of `main`,
--   as `finish`. The operating system is the parameter `Kernel`.
-- + Base: results with an error, decoded JSON values, texts and lists.
--
-- State is passed on explicitly, and an exception is a value of the module's list of errors. Numbers
-- are natural numbers without a bound, as Python's integers are; an integer that may be negative is a
-- `ℤ`. Durations are nanoseconds; where Python divides to a float, the exact quotient is kept.
--
-- Fuel: the waits of simulation_control.py, native-observe.py and record-topics.py, and `reap` of
-- launcher.py, loop until a deadline. They have `suc timeout` rounds of fuel: where the monotonic
-- time goes on by a nanosecond at least in each round, which is the hypothesis of the theorems on
-- them, the deadline is passed before the fuel is gone. The results that stand for fuel that is
-- gone are shown not to arise. All other loops run along a list.
--
-- Not modelled: command lines and printing; documents that are written by other workers (Nav2,
-- PX4), tests, launch files, charts, images and the host in TypeScript. The modelled code
-- calls contracts and tools; nothing is assumed of them but what a theorem says.
pub mod Base
pub mod Observability
pub mod Simulation
pub mod Retention
pub mod Receipts
pub mod Export
pub mod Isaac
pub mod Webots
pub mod Providers
pub mod Collection
pub mod Recorder
pub mod Derivation
