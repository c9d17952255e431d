-- ===== src/Recorder/Run.antt =====
-- What a run of record-topics.py reads, and the state that it writes.
use robotics_runtime_infra.Base.{
  ℕ, String, Bool, true, false, ◌&&◌, ◌||◌, Option, none, some, List, [], ◌∷◌,
}
use robotics_runtime_infra.Base.Text.{member}
use robotics_runtime_infra.Base.Value.{ℤ}
use robotics_runtime_infra.Recorder.Arguments.{Limits}
use robotics_runtime_infra.Recorder.Artifact.{Error, StopFile, FileReading, Artifact}

-- `TOPICS`
abbrev pub topics : List (String × String)
topics =
    ("/odom", "nav_msgs/msg/Odometry")
    ∷ ("/tf", "tf2_msgs/msg/TFMessage")
    ∷ ("/tf_static", "tf2_msgs/msg/TFMessage")
    ∷ ("/clock", "rosgraph_msgs/msg/Clock")
    ∷ ("/amcl_pose", "geometry_msgs/msg/PoseWithCovarianceStamped")
    ∷ ("/navigate_to_pose/_action/feedback", "nav2_msgs/action/NavigateToPose_FeedbackMessage")
    ∷ ("/navigate_to_pose/_action/status", "action_msgs/msg/GoalStatusArray")
    ∷ []

-- The types of a topic that a node subscribes to: `subscriptions.get(topic, [])`.
abbrev pub Subscriptions : Type 0
Subscriptions = String → List String

abbrev pub covers : List (String × String) → Subscriptions → Bool
covers [] subscriptions = true
covers ((topic, expected_type) ∷ rest) subscriptions =
    member expected_type (subscriptions topic) && covers rest subscriptions

-- A round of the wait for the subscriptions.
pub record ReadyRound : Type 0 where
  pub is_signalled : Bool
  pub now : ℕ
  -- `none` where the query has failed.
  pub subscriptions : Option Subscriptions
  pub after : ℕ
  pub spins : Bool

-- A round of the recording.
pub record LifeRound : Type 0 where
  pub now : ℕ
  pub is_signalled : Bool
  pub stop : StopFile
  pub after : ℕ
  pub spins : Bool

pub record Metadata : Type 0 where
  pub message_count : ℤ
  pub relative_file_paths : List String
  pub topics : List (String × String × ℤ)
  pub duration_ns : ℤ

-- What is read while the recorder is closed.
pub record Closing : Type 0 where
  pub begun : ℕ
  pub stops : Bool
  pub after_stop : ℕ
  pub metadata : Option Metadata
  pub after_metadata : ℕ
  pub metadata_file : FileReading
  -- The file of the member with a number.
  pub member_file : ℕ → FileReading

pub record Run : Type 0 where
  pub run_id : String
  pub domain_id : String
  pub limits : Limits
  pub started : ℕ
  -- The steps before the wait: rclpy, the observer, the recorder, and its start.
  pub initializes : Bool
  pub creates_observer : Bool
  pub creates_recorder : Bool
  pub starts : Bool
  pub ready_round : ℕ → ReadyRound
  pub ready_monotonic_ns : ℕ
  pub writes_ready : Bool
  pub life_round : ℕ → LifeRound
  pub is_signalled_at_end : Bool
  pub closing_monotonic_ns : ℕ
  pub writes_closing : Bool
  pub closing : Closing
  pub cleans_up : Bool
  pub cleaned_up : ℕ
  pub finished_monotonic_ns : ℕ
  pub writes_finished : Bool
  -- `requested_signal` when a state is written: the state has the list itself.
  pub signals_at_closing : List ℕ
  pub signals_at_finish : List ℕ

pub record Bag : Type 0 where
  pub message_count : ℤ
  pub metadata : Artifact
  pub members : List Artifact
  pub topics : List (String × String × ℤ)
  -- `size_bytes` and the duration in nanoseconds, once they are known.
  pub measured : Option (ℕ × ℤ)

pub record State : Type 0 where
  pub capture_status : String
  pub closure_confirmed : Bool
  pub subscriptions : Option Subscriptions
  pub ready_monotonic_ns : Option ℕ
  pub stop_reason : Option String
  pub received_signals : Option (List ℕ)
  pub error : Option Error
  pub state_write_error : Bool
  pub bag : Option Bag
  pub close_error : Option Error
  pub ros_cleanup_error : Option Error
  pub closing_monotonic_ns : Option ℕ
  pub finished_monotonic_ns : Option ℕ

-- The state that is written before rclpy is used.
abbrev pub initial : State
initial = record {
  capture_status = "incomplete";
  closure_confirmed = false;
  subscriptions = none;
  ready_monotonic_ns = none;
  stop_reason = none;
  received_signals = none;
  error = none;
  state_write_error = false;
  bag = none;
  close_error = none;
  ros_cleanup_error = none;
  closing_monotonic_ns = none;
  finished_monotonic_ns = none;
}

abbrev pub is_raised : Option Error → Bool
is_raised none = false
is_raised (some e) = true

-- Whether one of the errors is in the state.
abbrev pub has_error : State → Bool
has_error state =
    is_raised state.error
    || state.state_write_error
    || is_raised state.close_error
    || is_raised state.ros_cleanup_error
