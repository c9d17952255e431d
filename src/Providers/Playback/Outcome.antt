-- ===== src/Providers/Playback/Outcome.antt =====
-- `create_result` of create-playback-provider.py.
use robotics_runtime_infra.Base.{String, Bool, false, not, ◌&&◌, ◌||◌, List, [], ◌∷◌, ◌++◌, str_eq}
use robotics_runtime_infra.Base.Result.{Result, ok, raise_if, or_raise, ◌>>=◌, ◌>>◌}
use robotics_runtime_infra.Base.Value.{
  pos, Value, str, int, obj, arr, Items, no_items, item, Fields, no_fields, field, get, is_text,
  is_true,
}
use robotics_runtime_infra.Providers.Playback.{
  Bytes, Run, Error, unreadable, not_a_mapping, invalid_document, wrong_profile,
  checked_observation,
}
use robotics_runtime_infra.Providers.Playback.Terminal.{checked_terminal}
use robotics_runtime_infra.Providers.Playback.Sources.{Reference, references, retained_sources}

abbrev pub fact_files : List String
fact_files =
    "configuration/provider.json" ∷ "configuration/rosbag2-version.txt" ∷ "observation.json"
    ∷ "logs/playback-gate.log" ∷ "logs/playback-probe.log" ∷ "playback-image.json"
    ∷ "probe-image.json" ∷ "compose-original.json" ∷ "compose.json" ∷ []

pub record Subject : Type 0 where
  pub run_id : String
  pub subject_digest : String
  pub generated_at : String

-- `profile["requirements"] == [{"capability": …, "required": True}]`
unfoldable pub is_only_requirement : Value → Bool
is_only_requirement (arr (item (obj (field k v (field k' v' no_fields))) no_items)) =
    (str_eq k "capability"
      && is_text v "playback_probe_delivery"
      && str_eq k' "required"
      && is_true v')
    || (str_eq k "required"
        && is_true v
        && str_eq k' "capability"
        && is_text v' "playback_probe_delivery")
is_only_requirement _ = false

abbrev reference_items : List Reference → Items
reference_items [] = no_items
reference_items (r ∷ rs) =
    item
      (obj (
        field "uri" (str r.uri)
          (field "sha256" (str r.sha256) (field "size_bytes" (int (pos r.size_bytes)) no_fields))))
      (reference_items rs)

abbrev message_check : Fields
message_check = field "check_id" (str "recorded-playback-one-message") (
    field "capability" (str "playback_probe_delivery") (
      field "status" (str "passed") (
        field "observed_value" (int (pos 1)) (
          field "unit" (str "message") (
            field "message"
              (str "The native readiness/resume gate and configured one-message probe passed.")
              no_fields)))))

module _ (run : Run) where
  unfoldable pub result_of : Subject → Bytes → Bytes → Fields → List Reference → Fields
  result_of subject profile_raw configuration_raw configuration evidence =
      field "schema_version" (str "conformance-result.v1") (
        field "result_id" (str "recorded-playback-probe") (
          field "run_id" (str subject.run_id) (
            field "generated_at" (str subject.generated_at) (
              field "qualification_profile_sha256" (str (run.sha256 profile_raw)) (
                field "execution_subject_digest" (str subject.subject_digest) (
                  field "provider"
                    (obj (
                      field "kind" (str "recording_source") (
                        field "implementation_id" (str "rosbag2_player") (
                          field "version" (get configuration "version") (
                            field "configuration_sha256" (str (run.sha256 configuration_raw))
                              no_fields)))))
                    (field "target_id" (str "simulation-primary") (
                      field "status" (str "passed") (
                        field "capabilities" (arr (item (str "playback_probe_delivery") no_items)) (
                          field "checks" (arr (item (obj message_check) no_items))
                            (field "evidence" (arr (reference_items evidence)) no_fields)))))))))))

  -- `create_result`; its binding repeats four fields of the result.
  unfoldable pub create_result : Subject → Result Error Fields
  create_result subject = do
    profile_raw ← or_raise (run.read "profile.json") unreadable
    profile ← or_raise (run.loads_mapping profile_raw) not_a_mapping
    raise_if (not (run.validates "qualification-profile.v1" profile)) invalid_document
    raise_if
        (not (is_text (get profile "provider_kind") "recording_source")
          || not (is_only_requirement (get profile "requirements")))
        wrong_profile
    configuration_raw ← or_raise (run.read "configuration/provider.json") unreadable
    configuration ← or_raise (run.loads_mapping configuration_raw) not_a_mapping
    checked_observation run configuration
    terminal_files ← checked_terminal run configuration
    evidence ← retained_sources run configuration
    facts ← references run (fact_files ++ terminal_files)
    let result = result_of subject profile_raw configuration_raw configuration (evidence ++ facts)
    raise_if (not (run.validates "conformance-result.v1" result)) invalid_document
    ok result
