-- ===== src/Providers/Tests.antt =====
-- Results of the producers, from the report of a small simulator and from a recorded playback.
use robotics_runtime_infra.Base.{
  ◌*◌, ◌≤◌, ◌<◌, ◌≡◌, ◌==◌, true, Option, none, some, [], ◌∷◌, length, refl, arith, if◌then◌else◌,
}
use robotics_runtime_infra.Base.Result.{ok, err}
use robotics_runtime_infra.Base.Text.{strip_prefix}
use robotics_runtime_infra.Base.Value.{pos, int, str, obj, arr, no_items, Fields, no_fields, field}
use robotics_runtime_infra.Simulation.Conformance.{report_document}
use robotics_runtime_infra.Simulation.Tests.{toy, fresh, report, timeout, verify-fresh}
use robotics_runtime_infra.Providers.Simulation.{
  Bytes, Element, element, no_elements, child, Tools, contradiction, positive_integer, find_all,
  find_within, only, checked_world, clock_samples, checked_clock, Arguments, checked_run,
  checked_configuration, checked_policy, result_of, binding_of, create_result,
}
use robotics_runtime_infra.Providers.Simulation.Clock.{IsBound, create_result-IsBound}
use robotics_runtime_infra.Providers.Simulation.Handover.{verify-checked_clock}

abbrev world : Element
world = element "sdf" none (
    child
      (element "world" none (
        child
          (element "physics" none
            (child (element "max_step_size" (some "0.001") no_elements) no_elements))
          no_elements))
      no_elements)

abbrev scenario : Fields
scenario = field "scenario_id" (str "s") (
    field "execution" (obj (field "time_mode" (str "simulation_stepped") no_fields))
      (field "time_policy" (obj (field "step_size_sec" (str "0.001") no_fields)) no_fields))

abbrev run : Fields
run =
    field "scenario_sha256" (str "1")
      (field "scenario_id" (str "s") (field "run_id" (str "run-1") no_fields))

abbrev profile : Fields
profile = field "provider_kind" (str "simulator") (field "requirements" (arr no_items) no_fields)

abbrev configuration : Fields
configuration = field "implementation_id" (str "gz_sim") (
    field "service_namespace" (str "/simulator") (
      field "world_size_bytes" (int (pos 2))
        (field "world_sha256" (str "many") (field "version" (str "8") no_fields))))

abbrev decode : Bytes → Option Fields
decode [] = none
decode (b ∷ bs) =
    if b == 1
    then some scenario
    else if b == 2
    then some run
    else if b == 3
    then some profile
    else if b == 4
    then some configuration
    else some (report_document "/simulator" report)

abbrev tools : Tools
tools = record {
  loads_mapping = decode;
  sha256 = λ b. if length b == 1 then "1" else "many";
  validates = λ s fs. true;
  satisfies = λ v fs. true;
  parse_xml = λ b. some world;
  decimal_is = λ s n. some (n == 1_000_000);
  number_text = λ v. "0.001";
}

abbrev arguments : Arguments
arguments = record {
  scenario = 1 ∷ [];
  run_context = 2 ∷ [];
  profile = 3 ∷ [];
  configuration = 4 ∷ [];
  observation = 5 ∷ [];
  world = 6 ∷ 6 ∷ [];
  observation_uri = "file:///observation.json";
  world_uri = "file:///world.sdf";
  subject_digest = "subject";
  generated_at = some "2026-01-01T00:00:00+00:00";
}

world_declared : checked_world tools 1_000_000 (6 ∷ 6 ∷ []) ≡ ok tt
unfolding checked_world find_all find_within only
world_declared = refl

abbrev result : Fields
result = result_of tools run configuration 5_000_000 "2026-01-01T00:00:00+00:00" arguments

result_created : create_result tools arguments ≡ ok (result, binding_of result)
unfolding create_result checked_run checked_configuration checked_policy checked_clock clock_samples
    checked_world positive_integer find_all find_within only report_document strip_prefix
result_created = refl

create_result-IsBound_example : IsBound tools arguments result (binding_of result)
create_result-IsBound_example =
    create_result-IsBound tools arguments result (binding_of result) result_created

verify-checked_clock_example :
    (report.playing_ns ≤ report.paused_ns
      → checked_clock tools (report_document "/simulator" report) (6 ∷ 6 ∷ []) ≡ ok (5 * 1_000_000))
    × (report.paused_ns < report.playing_ns
        → checked_clock tools (report_document "/simulator" report) (6 ∷ 6 ∷ [])
          ≡ err contradiction)
verify-checked_clock_example =
    verify-checked_clock tools toy timeout 5 1_000_000 (omega arith) (omega arith) fresh report
      "/simulator" (6 ∷ 6 ∷ []) verify-fresh world_declared
