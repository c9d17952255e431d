-- ===== src/Providers/Simulation.antt =====
-- scripts/ci/foundation/create-simulation-provider.py: the report of a conformance run is bound to
-- the provider's configuration and to the world that was simulated.
-- The JSON decoder, SHA-256, the contracts, the XML parser and `Decimal` are outside: `Tools`. A
-- KeyError on a document that a schema has admitted is not told apart from a refusal.
pub mod Clock
pub mod Handover
use robotics_runtime_infra.Base.{
  ℕ, zero, suc, ◌+◌, ◌-◌, ◌*◌, String, Bool, true, false, not, ◌&&◌, ◌||◌, Option, none, some, List,
  [], ◌∷◌, ◌++◌, length, leb, ltb, ◌==◌, str_eq, if◌then◌else◌,
}
use robotics_runtime_infra.Base.Result.{Result, ok, err, raise_if, or_raise, ◌>>=◌, ◌>>◌}
use robotics_runtime_infra.Base.Text.{strip_prefix}
use robotics_runtime_infra.Base.Value.{
  ℤ, pos, negsuc, Value, str, int, obj, arr, null, Items, no_items, item, Fields, no_fields, field,
  get, as_int, as_str, as_obj, as_arr, is_text, is_true,
}

abbrev pub Bytes : Type 0
Bytes = List ℕ

-- An XML element: its tag, its text and its children.
mutual
  pub data Element : Type 0 where
    element : String → Option String → Elements → Element

  pub data Elements : Type 0 where
    no_elements : Elements
    child : Element → Elements → Elements

pub record Tools : Type 0 where
  pub loads_mapping : Bytes → Option Fields
  pub sha256 : Bytes → String
  pub validates : String → Fields → Bool
  pub satisfies : Value → Fields → Bool
  pub parse_xml : Bytes → Option Element
  -- Whether `Decimal(text) * 10**9` is finite and this number; `none` is InvalidOperation.
  pub decimal_is : String → ℕ → Option Bool
  -- `str(value)` of a number.
  pub number_text : Value → String

pub data Error : Type 0 where
  not_integer unsupported_report not_passed no_clock contradiction not_one_world no_step_size
        wrong_step_size :
      Error
  not_a_mapping not_xml not_decimal invalid_document wrong_scenario no_timezone wrong_provider
        unqualified :
      Error
  wrong_namespace wrong_world wrong_time_policy unsatisfied : Error

-- `positive_integer`
unfoldable pub positive_integer : Bool → Value → Result Error ℕ
positive_integer zero_too v = elim (as_int v) [
  | none ↦ err not_integer
  | some n ↦ elim n [
    | pos m ↦ if ltb m (if zero_too then 0 else 1) then err not_integer else ok m
    | negsuc m ↦ err not_integer
  ]
]

abbrev tag_of : Element → String
tag_of (element t s c) = t

abbrev text_of : Element → Option String
text_of (element t s c) = s

abbrev children_of : Element → Elements
children_of (element t s c) = c

-- `root.findall(tag)`
unfoldable pub find_all : String → Elements → List Element
find_all tag no_elements = []
find_all tag (child e es) =
    let rest = find_all tag es in if str_eq (tag_of e) tag then e ∷ rest else rest

-- `root.findall("first/second")`
unfoldable pub find_within : String → List Element → List Element
find_within tag [] = []
find_within tag (e ∷ es) = find_all tag (children_of e) ++ find_within tag es

unfoldable pub only : List Element → Option Element
only [] = none
only (x ∷ []) = some x
only (x ∷ y ∷ xs) = none

pub record Samples : Type 0 where
  pub playing : ℕ
  pub paused : ℕ
  pub stepped : ℕ
  pub resumed : ℕ

unfoldable pub clock_samples : Fields → Result Error Samples
clock_samples clock = do
  playing ← positive_integer true (get clock "playing_ns")
  paused ← positive_integer true (get clock "paused_ns")
  stepped ← positive_integer true (get clock "stepped_ns")
  resumed ← positive_integer true (get clock "resumed_ns")
  ok (record { playing = playing; paused = paused; stepped = stepped; resumed = resumed })

-- `playing <= paused < stepped < resumed` and the exact advance. The last test is made only where
-- `paused < stepped`, so that the subtraction is exact.
abbrev pub is_exact : Samples → ℕ → Bool
is_exact s advance =
    leb s.playing s.paused
    && ltb s.paused s.stepped
    && ltb s.stepped s.resumed
    && (s.stepped - s.paused) == advance

pub record Arguments : Type 0 where
  pub scenario : Bytes
  pub run_context : Bytes
  pub profile : Bytes
  pub configuration : Bytes
  pub observation : Bytes
  pub world : Bytes
  pub observation_uri : String
  pub world_uri : String
  pub subject_digest : String
  -- `now`, where `none` has no time zone.
  pub generated_at : Option String

-- A required capability that the probe does not qualify.
abbrev pub asks_more : Items → Bool
asks_more no_items = false
asks_more (item v vs) = elim v [
  | obj fs ↦
      (is_true (get fs "required") && not (is_text (get fs "capability") "simulated_physics"))
      || asks_more vs
  | _ ↦ true
]

abbrev pub binding_of : Fields → Fields
binding_of result = field "provider" (get result "provider") (
    field "target_id" (get result "target_id") (
      field "capabilities" (get result "capabilities") (
        field "qualification_profile_sha256" (get result "qualification_profile_sha256")
          no_fields)))

module _ (tools : Tools) where
  -- The checks of the world in `checked_clock`.
  unfoldable pub checked_world : ℕ → Bytes → Result Error (Unit {0})
  checked_world size raw = do
    root ← or_raise (tools.parse_xml raw) not_xml
    raise_if (not (str_eq (tag_of root) "sdf")) not_one_world
    world ← or_raise (only (find_all "world" (children_of root))) not_one_world
    configured ←
        or_raise (only (find_within "max_step_size" (find_all "physics" (children_of world))))
          no_step_size
    text ← or_raise (text_of configured) no_step_size
    same ← or_raise (tools.decimal_is text size) not_decimal
    raise_if (not same) wrong_step_size

  -- `checked_clock`
  unfoldable pub checked_clock : Fields → Bytes → Result Error ℕ
  checked_clock report world = do
    raise_if (not (is_text (get report "schema_version") "simulation-conformance.v1"))
        unsupported_report
    raise_if (not (is_text (get report "status") "passed")) not_passed
    steps ← positive_integer false (get report "steps")
    size ← positive_integer false (get report "step_size_ns")
    clock ← or_raise (as_obj (get report "clock")) no_clock
    samples ← clock_samples clock
    raise_if (not (is_exact samples (steps * size))) contradiction
    checked_world size world
    ok (steps * size)

  -- `read_mapping`
  abbrev pub read_mapping : Bytes → Result Error Fields
  read_mapping raw = or_raise (tools.loads_mapping raw) not_a_mapping

  -- `reference`
  abbrev pub reference : String → Bytes → String → Fields
  reference uri raw media_type = field "uri" (str uri) (
      field "sha256" (str (tools.sha256 raw)) (
        field "size_bytes" (int (pos (length raw)))
          (field "media_type" (str media_type) no_fields)))

  -- The documents that bind the run: the scenario, the run and the profile.
  unfoldable pub checked_run :
      Fields → Fields → Fields → Fields → Arguments → Result Error (Unit {0})
  checked_run scenario run profile configuration arguments = do
    raise_if
        (not (tools.validates "acceptance-scenario.v1" scenario)
          || not (tools.validates "acceptance-run.v1" run)
          || not (tools.validates "qualification-profile.v1" profile))
        invalid_document
    raise_if (not (is_text (get run "scenario_sha256") (tools.sha256 arguments.scenario)))
        wrong_scenario
    scenario_id ← or_raise (as_str (get scenario "scenario_id")) wrong_scenario
    raise_if (not (is_text (get run "scenario_id") scenario_id)) wrong_scenario
    generated_at ← or_raise arguments.generated_at no_timezone
    raise_if
        (not (is_text (get profile "provider_kind") "simulator")
          || not (is_text (get configuration "implementation_id") "gz_sim"))
        wrong_provider
    requirements ← or_raise (as_arr (get profile "requirements")) unqualified
    raise_if (asks_more requirements) unqualified

  -- The namespace and the world of the configuration.
  unfoldable pub checked_configuration : Fields → Fields → Bytes → Result Error (Unit {0})
  checked_configuration configuration report world = do
    namespace ← or_raise (as_str (get configuration "service_namespace")) wrong_namespace
    raise_if (not (is_text (get report "service_namespace") namespace)) wrong_namespace
    path ← or_raise (strip_prefix "/" namespace) wrong_namespace
    size ← positive_integer false (get configuration "world_size_bytes")
    raise_if
        (not (is_text (get configuration "world_sha256") (tools.sha256 world))
          || not (size == length world))
        wrong_world

  -- The step size that a stepped scenario asks for.
  unfoldable pub checked_policy : Fields → Fields → Result Error (Unit {0})
  checked_policy scenario report = do
    execution ← or_raise (as_obj (get scenario "execution")) wrong_time_policy
    if is_text (get execution "time_mode") "simulation_stepped"
        then (do
          policy ← or_raise (as_obj (get scenario "time_policy")) wrong_time_policy
          size ← positive_integer false (get report "step_size_ns")
          same ←
              or_raise (tools.decimal_is (tools.number_text (get policy "step_size_sec")) size)
                not_decimal
          raise_if (not same) wrong_time_policy)
        else ok tt

  abbrev capability : Items
  capability = item (str "simulated_physics") no_items

  unfoldable pub provider_of : Fields → Bytes → Fields
  provider_of configuration raw = field "kind" (str "simulator") (
      field "implementation_id" (str "gz_sim") (
        field "version" (get configuration "version")
          (field "configuration_sha256" (str (tools.sha256 raw)) no_fields)))

  abbrev check_of : ℕ → Fields
  check_of delta = field "check_id" (str "standard-simulation-control") (
      field "capability" (str "simulated_physics") (
        field "status" (str "passed") (
          field "observed_value" (int (pos delta)) (
            field "unit" (str "ns") (
              field "message"
                (str "Standard interface probe passed pause, exact stepping and resume.")
                no_fields)))))

  unfoldable pub result_of : Fields → Fields → ℕ → String → Arguments → Fields
  result_of run configuration delta generated_at arguments =
      field "schema_version" (str "conformance-result.v1") (
        field "result_id" (str "simulation-interfaces-conformance") (
          field "run_id" (get run "run_id") (
            field "generated_at" (str generated_at) (
              field "qualification_profile_sha256" (str (tools.sha256 arguments.profile)) (
                field "execution_subject_digest" (str arguments.subject_digest) (
                  field "provider" (obj (provider_of configuration arguments.configuration)) (
                    field "target_id" (str "simulation-primary") (
                      field "status" (str "passed") (
                        field "capabilities" (arr capability) (
                          field "checks" (arr (item (obj (check_of delta)) no_items)) (
                            field "evidence"
                              (arr (
                                item
                                  (obj (
                                    reference arguments.observation_uri arguments.observation
                                      "application/json"))
                                  (item
                                    (obj (
                                      reference arguments.world_uri arguments.world
                                        "application/sdf+xml"))
                                    no_items)))
                              no_fields)))))))))))

  -- `create_result`
  unfoldable pub create_result : Arguments → Result Error (Fields × Fields)
  create_result arguments = do
    scenario ← read_mapping arguments.scenario
    run ← read_mapping arguments.run_context
    profile ← read_mapping arguments.profile
    configuration ← read_mapping arguments.configuration
    report ← read_mapping arguments.observation
    checked_run scenario run profile configuration arguments
    generated_at ← or_raise arguments.generated_at no_timezone
    checked_configuration configuration report arguments.world
    delta ← checked_clock report arguments.world
    checked_policy scenario report
    let result = result_of run configuration delta generated_at arguments
    raise_if (not (tools.validates "conformance-result.v1" result)) invalid_document
    raise_if (not (tools.satisfies (get scenario "provider_requirements") (binding_of result)))
        unsatisfied
    ok (result, binding_of result)
