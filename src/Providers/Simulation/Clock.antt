-- ===== src/Providers/Simulation/Clock.antt =====
-- What a result of the producer rests on.
use robotics_runtime_infra.Base.{
  ℕ, ◌+◌, ◌*◌, ◌≤◌, ◌<◌, ◌≡◌, String, Bool, true, false, some, length, refl, sym, ap, ◌∙◌, arith,
  Option-cases, inl, inr,
}
use robotics_runtime_infra.Base.Result.{ok, Result-cases}
use robotics_runtime_infra.Base.Value.{
  pos, negsuc, Value, str, int, obj, Fields, get, as_int, as_obj, is_text,
}
use robotics_runtime_infra.Base.Documents.{is_text-str, as_int-some, as_obj-some}
use robotics_runtime_infra.Providers.Simulation.{
  Tools, Bytes, positive_integer, Samples, clock_samples, is_exact, checked_world, checked_clock,
  Arguments, checked_run, checked_configuration, result_of, binding_of, create_result,
}

positive_integer-ok :
    (zero_too : Bool) (v : Value) {n : ℕ}
    → positive_integer zero_too v ≡ ok n
    → (v ≡ int (pos n)) × (zero_too ≡ false → 1 ≤ n)
unfolding positive_integer
positive_integer-ok zero_too v h = elim (Option-cases (as_int v)) [
  | inl e ↦ absurd (ground arith)
  | inr (negsuc m, e) ↦ absurd (ground arith)
  | inr (pos m, e) ↦ (ground (arith, as_int-some v), ground arith)
]

-- The samples that a clock has.
abbrev Reads : Fields → Samples → Type 0
Reads clock s =
    (get clock "playing_ns" ≡ int (pos s.playing))
    × (get clock "paused_ns" ≡ int (pos s.paused))
    × (get clock "stepped_ns" ≡ int (pos s.stepped))
    × (get clock "resumed_ns" ≡ int (pos s.resumed))

clock_samples-Reads : (clock : Fields) {s : Samples} → clock_samples clock ≡ ok s → Reads clock s
unfolding clock_samples
clock_samples-Reads clock {s = s} h =
    elim (Result-cases (positive_integer true (get clock "playing_ns"))) [
      | inr (e, p) ↦ absurd (ground arith)
      | inl (playing, p) ↦ elim (Result-cases (positive_integer true (get clock "paused_ns"))) [
        | inr (e, q) ↦ absurd (ground arith)
        | inl (paused, q) ↦ elim (Result-cases (positive_integer true (get clock "stepped_ns"))) [
          | inr (e, r) ↦ absurd (ground arith)
          | inl (stepped, r) ↦
              elim (Result-cases (positive_integer true (get clock "resumed_ns"))) [
                | inr (e, t) ↦ absurd (ground arith)
                | inl (resumed, t) ↦
                    let same : record {
                      playing = playing;
                      paused = paused;
                      stepped = stepped;
                      resumed = resumed;
                    }
                        ≡ s =
                      ground arith in
                    rw (← same) (
                      (positive_integer-ok true _ p).0,
                      (positive_integer-ok true _ q).0,
                      (positive_integer-ok true _ r).0,
                      (positive_integer-ok true _ t).0,
                    )
              ]
        ]
      ]
    ]

module _ (tools : Tools) where
  -- A passed report of exact stepping in a world that declares the step size.
  pub record IsExact (report : Fields) (world : Bytes) (delta : ℕ) : Type 0 where
    pub passed : get report "status" ≡ str "passed"
    pub steps : ℕ
    pub its_steps : get report "steps" ≡ int (pos steps)
    pub some_steps : 1 ≤ steps
    pub size : ℕ
    pub its_size : get report "step_size_ns" ≡ int (pos size)
    pub some_size : 1 ≤ size
    pub clock : Fields
    pub its_clock : get report "clock" ≡ obj clock
    pub samples : Samples
    pub its_samples : Reads clock samples
    pub forward : samples.playing ≤ samples.paused
    pub stepped : samples.stepped ≡ samples.paused + delta
    pub resumed : samples.stepped < samples.resumed
    pub length : delta ≡ steps * size
    pub declared : checked_world tools size world ≡ ok tt

  pub checked_clock-IsExact :
      (report : Fields) (world : Bytes) {delta : ℕ}
      → checked_clock tools report world ≡ ok delta
      → IsExact report world delta
  unfolding checked_clock
  checked_clock-IsExact report world {delta = delta} h =
      elim (Result-cases (positive_integer false (get report "steps"))) [
        | inr (e, p) ↦ absurd (ground arith)
        | inl (steps, p) ↦
            elim (Result-cases (positive_integer false (get report "step_size_ns"))) [
              | inr (e, q) ↦ absurd (ground arith)
              | inl (size, q) ↦ elim (Option-cases (as_obj (get report "clock"))) [
                | inl e ↦ absurd (ground arith)
                | inr (clock, e) ↦ elim (Result-cases (clock_samples clock)) [
                  | inr (e', r) ↦ absurd (ground arith)
                  | inl (samples, r) ↦
                      let (its_steps, some_steps) = positive_integer-ok false _ p in
                      let (its_size, some_size) = positive_integer-ok false _ q in
                      let passed : is_text (get report "status") "passed" ≡ true = ground arith in
                      let length : delta ≡ steps * size = ground arith in
                      let exact : is_exact samples (steps * size) ≡ true = ground arith in
                      record {
                        passed = is_text-str _ _ passed;
                        steps = steps;
                        its_steps = its_steps;
                        some_steps = some_steps refl;
                        size = size;
                        its_size = its_size;
                        some_size = some_size refl;
                        clock = clock;
                        its_clock = as_obj-some _ e;
                        samples = samples;
                        its_samples = clock_samples-Reads clock r;
                        forward = ground arith;
                        stepped = ground arith;
                        resumed = ground arith;
                        length = length;
                        declared = ground arith;
                      }
                ]
              ]
            ]
      ]

  -- The documents behind a result, each decoded from the bytes that were given.
  pub record IsBound (arguments : Arguments) (result binding : Fields) : Type 0 where
    pub scenario : Fields
    pub its_scenario : tools.loads_mapping arguments.scenario ≡ some scenario
    pub run : Fields
    pub its_run : tools.loads_mapping arguments.run_context ≡ some run
    pub of_scenario : get run "scenario_sha256" ≡ str (tools.sha256 arguments.scenario)
    pub configuration : Fields
    pub its_configuration : tools.loads_mapping arguments.configuration ≡ some configuration
    pub world_digest : get configuration "world_sha256" ≡ str (tools.sha256 arguments.world)
    pub world_size : get configuration "world_size_bytes" ≡ int (pos (length arguments.world))
    pub report : Fields
    pub its_report : tools.loads_mapping arguments.observation ≡ some report
    pub delta : ℕ
    pub exact : IsExact report arguments.world delta
    pub generated_at : String
    pub its_result : result ≡ result_of tools run configuration delta generated_at arguments
    pub its_binding : binding ≡ binding_of result

  checked_run-scenario :
      (scenario run profile configuration : Fields) (arguments : Arguments)
      → checked_run tools scenario run profile configuration arguments ≡ ok tt
      → get run "scenario_sha256" ≡ str (tools.sha256 arguments.scenario)
  unfolding checked_run
  checked_run-scenario scenario run profile configuration arguments h =
      let same : is_text (get run "scenario_sha256") (tools.sha256 arguments.scenario) ≡ true =
        ground arith in
      is_text-str _ _ same

  checked_configuration-world :
      (configuration report : Fields) (world : Bytes)
      → checked_configuration tools configuration report world ≡ ok tt
      → (get configuration "world_sha256" ≡ str (tools.sha256 world))
        × (get configuration "world_size_bytes" ≡ int (pos (length world)))
  unfolding checked_configuration
  checked_configuration-world configuration report world h =
      elim (Result-cases (positive_integer false (get configuration "world_size_bytes"))) [
        | inr (e, p) ↦ absurd (ground arith)
        | inl (size, p) ↦
            let same : is_text (get configuration "world_sha256") (tools.sha256 world) ≡ true =
              ground arith in
            let equal : size ≡ length world = ground arith in
            (is_text-str _ _ same, rw (← equal) (positive_integer-ok false _ p).0)
      ]

  -- A result is made only of a report of exact stepping: its number of nanoseconds is the time that
  -- /clock advanced in the paused world, the world's bytes are those of the configuration, the run
  -- is of the scenario's bytes, and the binding repeats the result.
  pub create_result-IsBound :
      (arguments : Arguments) (result binding : Fields)
      → create_result tools arguments ≡ ok (result, binding)
      → IsBound arguments result binding
  unfolding create_result
  create_result-IsBound arguments result binding h =
      elim (Option-cases (tools.loads_mapping arguments.scenario)) [
        | inl e ↦ absurd (ground arith)
        | inr (scenario, e1) ↦ elim (Option-cases (tools.loads_mapping arguments.run_context)) [
          | inl e ↦ absurd (ground arith)
          | inr (run, e2) ↦ elim (Option-cases (tools.loads_mapping arguments.profile)) [
            | inl e ↦ absurd (ground arith)
            | inr (profile, e3) ↦
                elim (Option-cases (tools.loads_mapping arguments.configuration)) [
                  | inl e ↦ absurd (ground arith)
                  | inr (configuration, e4) ↦
                      elim (Option-cases (tools.loads_mapping arguments.observation)) [
                        | inl e ↦ absurd (ground arith)
                        | inr (report, e5) ↦ elim (Option-cases arguments.generated_at) [
                          | inl e ↦ absurd (ground arith)
                          | inr (generated_at, e6) ↦
                              elim (Result-cases (checked_clock tools report arguments.world)) [
                                | inr (e, p) ↦ absurd (ground arith)
                                | inl (delta, p) ↦
                                    let checked : checked_run tools scenario run profile
                                          configuration arguments
                                        ≡ ok tt =
                                      ground arith in
                                    let configured : checked_configuration tools configuration
                                          report arguments.world
                                        ≡ ok tt =
                                      ground arith in
                                    let its_result : result_of tools run configuration delta
                                          generated_at arguments
                                        ≡ result =
                                      ground arith in
                                    let its_binding : binding_of (
                                          result_of tools run configuration delta generated_at
                                            arguments)
                                        ≡ binding =
                                      ground arith in
                                    let (digest, size) =
                                      checked_configuration-world configuration report
                                        arguments.world configured in
                                    record {
                                      scenario = scenario;
                                      its_scenario = e1;
                                      run = run;
                                      its_run = e2;
                                      of_scenario =
                                          checked_run-scenario scenario run profile configuration
                                            arguments checked;
                                      configuration = configuration;
                                      its_configuration = e4;
                                      world_digest = digest;
                                      world_size = size;
                                      report = report;
                                      its_report = e5;
                                      delta = delta;
                                      exact = checked_clock-IsExact report arguments.world p;
                                      generated_at = generated_at;
                                      its_result = sym its_result;
                                      its_binding = sym its_binding ∙ ap binding_of its_result;
                                    }
                              ]
                        ]
                      ]
                ]
          ]
        ]
      ]
