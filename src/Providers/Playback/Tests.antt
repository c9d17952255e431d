-- ===== src/Providers/Playback/Tests.antt =====
-- A playback of one message, whose player ended by itself.
use robotics_runtime_infra.Base.{
  ℕ, ◌≡◌, ◌↔◌, ◌==◌, String, true, false, Option, none, some, List, [], ◌∷◌, ◌++◌, str_eq,
  if◌then◌else◌,
}
use robotics_runtime_infra.Base.Result.{ok, err}
use robotics_runtime_infra.Base.Value.{
  ℤ, pos, negsuc, Value, int, str, obj, arr, bool, no_items, item, Fields, no_fields, field,
}
use robotics_runtime_infra.Providers.Playback.{
  Bytes, Run, no_message, unsupported_message, checked_probe_message,
}
use robotics_runtime_infra.Providers.Playback.Terminal.{terminal_fact_files}
use robotics_runtime_infra.Providers.Playback.Sources.{Reference}
use robotics_runtime_infra.Providers.Playback.Outcome.{Subject, fact_files, result_of}
use robotics_runtime_infra.Providers.Playback.Message.{Within, checked_probe_message_iff}

abbrev digest : String
digest = "aaaaaaaaaaaaaaaaaaaaaaaaaaaaaaaaaaaaaaaaaaaaaaaaaaaaaaaaaaaaaaaa"

abbrev image : String
image = "sha256:aaaaaaaaaaaaaaaaaaaaaaaaaaaaaaaaaaaaaaaaaaaaaaaaaaaaaaaaaaaaaaaa"

abbrev source_item : String → Value
source_item path = obj (
    field "path" (str path) (field "sha256" (str "d") (field "size_bytes" (int (pos 3)) no_fields)))

abbrev configuration : Fields
configuration = field "terminal_observation" (str "native-player-exit") (
    field "playback_command" (arr (item (str "play") no_items)) (
      field "expected_playback_image_id" (str image) (
        field "expected_probe_image_id" (str image) (
          field "version" (str "0.26") (
            field "sources"
              (arr (
                item (source_item "source/bag/metadata.yaml") (
                  item (source_item "source/qos/qos-overrides.yaml")
                    (item (source_item "source/bag/a.mcap") no_items))))
              no_fields)))))

abbrev observation : Fields
observation = field "gate_exit_code" (int (pos 0)) (
    field "probe_exit_code" (int (pos 0)) (
      field "gate_logs_exit_code" (int (pos 0)) (
        field "probe_logs_exit_code" (int (pos 0)) (
          field "playback_image_id" (str image) (
            field "probe_image_id" (str image) (
              field "gate_image_id" (str image) (field "probe_log_sha256" (str "d") no_fields)))))))

abbrev receipt : Fields
receipt = field "container_id" (str digest) (
    field "project" (str "p") (
      field "wait_client_exit_code" (int (pos 0)) (
        field "player_logs_exit_code" (int (pos 0)) (
          field "reported_player_exit_code" (str "0") (
            field "stop_requested_before_wait" (bool false) (
              field "deadline_seconds" (int (pos 60)) (
                field "command"
                  (arr (
                    item (str "timeout") (
                      item (str "--foreground") (
                        item (str "60")
                          (item (str "docker") (item (str "wait") (item (str digest) no_items)))))))
                  no_fields)))))))

abbrev player : Fields
player = field "Id" (str digest) (
    field "Image" (str image) (
      field "Config"
        (obj (
          field "Labels"
            (obj (
              field "com.docker.compose.project" (str "p")
                (field "com.docker.compose.service" (str "playback") no_fields)))
            no_fields))
        (field "RestartCount" (int (pos 0)) (
          field "State"
            (obj (
              field "OOMKilled" (bool false) (
                field "Status" (str "exited") (
                  field "Running" (bool false)
                    (field "Dead" (bool false) (field "ExitCode" (int (pos 0)) no_fields))))))
            no_fields))))

abbrev metadata : Fields
metadata =
    field "rosbag2_bagfile_information"
      (obj (
        field "storage_identifier" (str "mcap") (
          field "relative_file_paths" (arr (item (str "a.mcap") no_items))
            (field "topics_with_message_count" (arr (item (obj no_fields) no_items)) no_fields))))
      no_fields

abbrev profile : Fields
profile = field "provider_kind" (str "recording_source") (
    field "requirements"
      (arr (
        item
          (obj (
            field "capability" (str "playback_probe_delivery")
              (field "required" (bool true) no_fields)))
          no_items))
      no_fields)

abbrev number_of : String → ℕ
number_of s =
    if str_eq s "profile.json"
    then 1
    else if str_eq s "configuration/provider.json"
    then 2
    else if str_eq s "observation.json"
    then 3
    else if str_eq s "player-terminal.json"
    then 4
    else if str_eq s "source/bag/metadata.yaml"
    then 5
    else b'0'

abbrev decode : Bytes → Option Fields
decode [] = none
decode (b ∷ bs) =
    if b == 1
    then some profile
    else if b == 2
    then some configuration
    else if b == 3
    then some observation
    else if b == 4
    then some receipt
    else if b == 5
    then some metadata
    else none

abbrev run : Run
run = record {
  read = λ s. some (number_of s ∷ []);
  loads_mapping = decode;
  loads = λ b. some (arr (item (obj player) no_items));
  equal = λ a b. true;
  sha256 = λ b. "d";
  validates = λ s fs. true;
  open_file = λ s. some (record { is_regular = true; size = 3; sha256 = "d"; unchanged = true });
  as_uri = λ s. s;
  decimal = λ n. "60";
  contains = λ a b. false;
  data_values = λ b. negsuc 4 ∷ [];
  stripped = λ b. some "0.26";
  has_space = λ s. false;
}

abbrev subject : Subject
subject = record { run_id = "run-1"; subject_digest = "s"; generated_at = "now" }

abbrev ref : String → Reference
ref s = record { uri = s; sha256 = "d"; size_bytes = 3 }

abbrev refs : List String → List Reference
refs [] = []
refs (s ∷ ss) = ref s ∷ refs ss

abbrev evidence : List Reference
evidence =
    refs ("source/bag/metadata.yaml" ∷ "source/qos/qos-overrides.yaml" ∷ "source/bag/a.mcap" ∷ [])
    ++ refs (fact_files ++ terminal_fact_files)

abbrev result : Fields
result = result_of run subject (1 ∷ []) (2 ∷ []) configuration evidence

checked_probe_message_iff_example :
    ((n : ℤ) (rest : List ℤ)
      → run.data_values [] ≡ n ∷ rest
      → ((checked_probe_message run [] "std_msgs/msg/Int32" ≡ ok tt)
          ↔ Within 2_147_483_648 2_147_483_648 n)
        × ((checked_probe_message run [] "std_msgs/msg/UInt64" ≡ ok tt)
            ↔ Within 0 18_446_744_073_709_551_616 n))
    × (run.data_values [] ≡ []
        → (checked_probe_message run [] "std_msgs/msg/Int32" ≡ err no_message)
          × (checked_probe_message run [] "std_msgs/msg/UInt64" ≡ err no_message))
    × ((message_type : String)
        → str_eq message_type "std_msgs/msg/Int32" ≡ false
        → str_eq message_type "std_msgs/msg/UInt64" ≡ false
        → checked_probe_message run [] message_type ≡ err unsupported_message)
checked_probe_message_iff_example = checked_probe_message_iff run []
