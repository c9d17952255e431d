-- ===== src/Recorder/Tests.antt =====
-- A recording that is ready in its second round, and is stopped by a request in its second one.
use robotics_runtime_infra.Base.{
  ◌+◌, ◌≡◌, ◌≢◌, ◌==◌, String, Bool, true, false, none, some, List, [], ◌∷◌, refl, arith, str_eq,
  if◌then◌else◌,
}
use robotics_runtime_infra.Base.Result.{ok}
use robotics_runtime_infra.Base.Value.{pos, str, obj, no_fields, field}
use robotics_runtime_infra.Export.Admission.{PurePath, Stat}
use robotics_runtime_infra.Recorder.Arguments.{
  Place, Arguments, nanoseconds, Limits, is_identifier, checked_arguments,
}
use robotics_runtime_infra.Recorder.Arguments.Bounds.{IsLimited, checked_arguments-IsLimited}
use robotics_runtime_infra.Recorder.Artifact.{
  Bytes, StopFile, is_request, stop_request, out_of_fuel, FileReading, read_chunks, artifact_file,
}
use robotics_runtime_infra.Recorder.Run.{Subscriptions, topics, Closing, Run, has_error}
use robotics_runtime_infra.Recorder.Capture.{
  ready_round, ready_rounds, life_round, life_rounds, start_recorder, record_topics,
}
use robotics_runtime_infra.Recorder.Capture.Recorded.{record_topics_ends}
use robotics_runtime_infra.Recorder.Close.{
  begin_closing, checked_bag, status_of, read_members, read_bag, close_bag, close_recorder,
  clean_up, captured, conclude, main,
}
use robotics_runtime_infra.Recorder.Close.Complete.{IsComplete, main-IsComplete}
use robotics_runtime_infra.Recorder.Close.Reported.{main_reports}

abbrev place : String → Place
place s = record { parts = "/" ∷ s ∷ []; exists = false; is_symlink = false }

abbrev limits : Limits
limits = record {
  startup_timeout = 3;
  max_lifetime = 9;
  close_timeout = 5;
  max_recording_bytes = 8;
}

abbrev args : Arguments
args = record {
  output = place "bag";
  facts_dir = place "facts";
  run_id = "run-1";
  domain_id = "robot";
  startup_timeout = nanoseconds (pos 3);
  max_lifetime = nanoseconds (pos 9);
  close_timeout = nanoseconds (pos 5);
  max_recording_bytes = pos 8;
}

accepted : checked_arguments args ≡ ok limits
unfolding checked_arguments is_identifier
accepted = refl

checked_arguments-IsLimited_example : IsLimited args limits
checked_arguments-IsLimited_example = checked_arguments-IsLimited args limits accepted

abbrev types_of : List (String × String) → Subscriptions
types_of [] topic = []
types_of ((name, type) ∷ rest) topic = if str_eq name topic then type ∷ [] else types_of rest topic

abbrev stop_file : Bool → StopFile
stop_file exists = record {
  exists = exists;
  is_symlink = false;
  is_file = true;
  size = 60;
  document = some (obj (field "run_id" (str "run-1") (field "domain_id" (str "robot") no_fields)));
}

abbrev stat : Stat
stat = record {
  is_regular = true;
  st_dev = 1;
  st_ino = 1;
  st_size = 2;
  st_mtime_ns = 1;
  st_ctime_ns = 1;
}

abbrev file : FileReading
file = record {
  begun = 110;
  is_symlink = false;
  is_file = true;
  is_confined = true;
  original = some stat;
  chunks = (some (7 ∷ 8 ∷ []), 110) ∷ [];
  after = some stat;
  current = some stat;
  ended = 111;
}

abbrev closing : Closing
closing = record {
  begun = 108;
  stops = true;
  after_stop = 109;
  metadata = some (record {
    message_count = pos 1;
    relative_file_paths = "a.mcap" ∷ [];
    topics = [];
    duration_ns = pos 6;
  });
  after_metadata = 109;
  metadata_file = file;
  member_file = λ n. file;
}

abbrev run : Run
run = record {
  run_id = "run-1";
  domain_id = "robot";
  limits = limits;
  started = 100;
  initializes = true;
  creates_observer = true;
  creates_recorder = true;
  starts = true;
  ready_round = λ n. record {
    is_signalled = false;
    now = 100 + n;
    subscriptions = if n == 1 then some (types_of topics) else none;
    after = 100 + n;
    spins = true;
  };
  ready_monotonic_ns = 101;
  writes_ready = true;
  life_round = λ n. record {
    now = 102 + n;
    is_signalled = false;
    stop = stop_file (n == 1);
    after = 102 + n;
    spins = true;
  };
  is_signalled_at_end = false;
  closing_monotonic_ns = 108;
  writes_closing = true;
  closing = closing;
  cleans_up = true;
  cleaned_up = 112;
  finished_monotonic_ns = 112;
  writes_finished = true;
  signals_at_closing = [];
  signals_at_finish = [];
}

abbrev path : String → PurePath
path s = record { text = s; parts = s ∷ []; is_absolute = false }

abbrev digest : Bytes → String
digest b = "d"

completed : (main path digest run).document.capture_status ≡ "complete"
unfolding main conclude captured clean_up close_recorder close_bag checked_bag read_bag read_members
    artifact_file read_chunks begin_closing record_topics start_recorder ready_rounds ready_round
    life_rounds life_round stop_request is_request
completed = refl

main-IsComplete_example : IsComplete path digest run (main path digest run)
main-IsComplete_example = main-IsComplete path digest run completed

main_reports_example :
    ((main path digest run).exit_status
      ≡ (if true then some (if has_error (main path digest run).state then 1 else 0) else none))
    × ((main path digest run).document.capture_status
        ≡ (if true then status_of (has_error (main path digest run).state) else "incomplete"))
main_reports_example = main_reports path digest run

record_topics_ends_example : (record_topics run).0.error ≢ some out_of_fuel
record_topics_ends_example =
    record_topics_ends run (λ k. omega arith) (omega arith) (λ k. omega arith) (omega arith)
