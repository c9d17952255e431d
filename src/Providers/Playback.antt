-- ===== src/Providers/Playback.antt =====
-- scripts/ci/integration/create-playback-provider.py: a one-message playback probe is bound to the
-- recording that was played. The files of the run's directory, the JSON decoder with its `==`,
-- SHA-256, regular expressions and the contracts are outside: `Run`.
-- A KeyError or TypeError is an error of the check that meets it.
pub mod Terminal
pub mod Sources
pub mod Outcome
pub mod Message
pub mod Qualified
mod Tests
use robotics_runtime_infra.Base.{
  ℕ, ◌^◌, String, Bool, true, false, not, ◌&&◌, ◌||◌, Option, none, some, List, [], ◌∷◌, ltb, leb,
  ◌==◌, str_eq, if◌then◌else◌,
}
use robotics_runtime_infra.Base.Result.{Result, ok, err, raise_if, or_raise, ◌>>=◌, ◌>>◌}
use robotics_runtime_infra.Base.Text.{strip_prefix, is_sha256}
use robotics_runtime_infra.Base.Value.{
  ℤ, pos, negsuc, Value, str, int, obj, null, Fields, get, has_key, as_int, as_str, as_obj, is_text,
}

abbrev pub Bytes : Type 0
Bytes = List ℕ

-- What `reference` reads of an open file.
pub record Opened : Type 0 where
  pub is_regular : Bool
  pub size : ℕ
  pub sha256 : String
  pub unchanged : Bool

pub record Run : Type 0 where
  pub read : String → Option Bytes
  pub loads_mapping : Bytes → Option Fields
  pub loads : Bytes → Option Value
  pub equal : Value → Value → Bool
  pub sha256 : Bytes → String
  pub validates : String → Fields → Bool
  -- The file of a name below the directory; `none` where it is not there or leads out of it.
  pub open_file : String → Option Opened
  pub as_uri : String → String
  pub decimal : ℕ → String
  pub contains : String → String → Bool
  -- The integers of the lines `data: …`, in order.
  pub data_values : Bytes → List ℤ
  -- `decode().strip()`
  pub stripped : Bytes → Option String
  pub has_space : String → Bool

pub data Error : Type 0 where
  unreadable not_a_mapping not_json unsupported_terminal not_one_container no_identifier : Error
  looping wrong_player not_terminated no_deadline wrong_wait no_command : Error
  failed_probe no_image wrong_image wrong_gate changed_log unsupported_message no_message
        bad_version wrong_version :
      Error
  no_sources missing_sources not_regular changed_file wrong_source wrong_members no_topic : Error
  invalid_document wrong_profile : Error

-- `type(value) is int and value == 0`
abbrev pub is_zero : Value → Bool
is_zero v = elim (as_int v) [ none ↦ false | some n ↦ elim n [ pos m ↦ m == 0 | negsuc m ↦ false ] ]

-- `mapping[key]` of a value that is a mapping.
abbrev pub at : Value → String → Value
at v k = elim (as_obj v) [ none ↦ null | some fs ↦ get fs k ]

-- `mapping.get(key, default)`
abbrev pub get_or : Fields → String → String → Value
get_or fs k default = if has_key fs k then get fs k else str default

-- `minimum <= value < maximum` of a message type.
unfoldable pub in_range : String → ℤ → Option Bool
in_range message_type n =
    if str_eq message_type "std_msgs/msg/Int32"
    then some (elim n [ pos m ↦ ltb m (2 ^ 31) | negsuc m ↦ ltb m (2 ^ 31) ])
    else if str_eq message_type "std_msgs/msg/UInt64"
    then some (elim n [ pos m ↦ ltb m (2 ^ 64) | negsuc m ↦ false ])
    else none

abbrev pub image_fields : String → String × String
image_fields role =
    if str_eq role "playback"
    then ("expected_playback_image_id", "playback_image_id")
    else ("expected_probe_image_id", "probe_image_id")

module _ (run : Run) where
  -- `load_mapping(root / name)`
  unfoldable pub load_mapping : String → Result Error Fields
  load_mapping name = do
    raw ← or_raise (run.read name) unreadable
    or_raise (run.loads_mapping raw) not_a_mapping

  -- `checked_probe_message`
  unfoldable pub checked_probe_message : Bytes → String → Result Error (Unit {0})
  checked_probe_message raw message_type = elim (run.data_values raw) [
    | [] ↦ elim (in_range message_type (pos 0)) [
      | none ↦ err unsupported_message
      | some b ↦ err no_message
    ]
    | n ∷ ns ↦ elim (in_range message_type n) [
      | none ↦ err unsupported_message
      | some b ↦ raise_if (not b) no_message
    ]
  ]

  -- The image of a role: the selected one has a native ID, and it is the observed one.
  unfoldable pub checked_image : Fields → Fields → String → Result Error (Unit {0})
  checked_image configuration observation role = do
    let names = image_fields role
    expected ← or_raise (as_str (get configuration names.0)) no_image
    digest ← or_raise (strip_prefix "sha256:" expected) no_image
    raise_if (not (is_sha256 digest)) no_image
    raise_if (not (is_text (get observation names.1) expected)) wrong_image

  -- The version of the probe's package.
  unfoldable pub checked_version : Fields → Result Error (Unit {0})
  checked_version configuration = do
    raw ← or_raise (run.read "configuration/rosbag2-version.txt") unreadable
    version ← or_raise (run.stripped raw) bad_version
    raise_if (str_eq version "" || run.has_space version) bad_version
    raise_if (not (is_text (get configuration "version") version)) wrong_version

  -- The retained log of the probe.
  unfoldable pub checked_log : Fields → Fields → Result Error (Unit {0})
  checked_log configuration observation = do
    raw ← or_raise (run.read "logs/playback-probe.log") unreadable
    raise_if (not (is_text (get observation "probe_log_sha256") (run.sha256 raw))) changed_log
    message_type ←
        or_raise (as_str (get_or configuration "message_type" "std_msgs/msg/Int32"))
          unsupported_message
    checked_probe_message raw message_type

  -- `checked_observation`
  unfoldable pub checked_observation : Fields → Result Error (Unit {0})
  checked_observation configuration = do
    observation ← load_mapping "observation.json"
    raise_if
        (not (
          is_zero (get observation "gate_exit_code")
          && is_zero (get observation "probe_exit_code")
          && is_zero (get observation "gate_logs_exit_code")
          && is_zero (get observation "probe_logs_exit_code")))
        failed_probe
    checked_image configuration observation "playback"
    checked_image configuration observation "probe"
    expected ← or_raise (as_str (get configuration "expected_playback_image_id")) no_image
    raise_if (not (is_text (get observation "gate_image_id") expected)) wrong_gate
    checked_log configuration observation
    checked_version configuration
