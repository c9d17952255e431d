-- ===== src/Recorder/Close.antt =====
-- The `finally` of `main` of record-topics.py, and `main`. `capture-state.json` is the state that was
-- written last: `document`.
pub mod Retained
pub mod Complete
pub mod Reported
use robotics_runtime_infra.Base.{
  ℕ, suc, ◌+◌, String, Bool, true, false, not, ◌&&◌, ◌||◌, Option, none, some, List, [], ◌∷◌,
  length, sum_of, leb, ltb, ◌==◌, if◌then◌else◌,
}
use robotics_runtime_infra.Base.Result.{Result, ok, err, raise_if, or_raise, ◌>>=◌, ◌>>◌}
use robotics_runtime_infra.Base.Text.{member}
use robotics_runtime_infra.Base.Value.{ℤ, pos, negsuc}
use robotics_runtime_infra.Export.Admission.{PurePath}
use robotics_runtime_infra.Recorder.Arguments.{Limits}
use robotics_runtime_infra.Recorder.Artifact.{
  Bytes, Error, sdk, unsafe_member, no_messages, over_size, over_duration, before_deadline,
  FileReading, Artifact, artifact_file,
}
use robotics_runtime_infra.Recorder.Run.{Metadata, Closing, Run, Bag, State, initial}
use robotics_runtime_infra.Recorder.Capture.{record_topics}

-- The state as it is written with the signals that have come till then.
abbrev pub written_with : List ℕ → State → State
written_with signals state = record state {
  received_signals = elim state.received_signals [ none ↦ none | some before ↦ some signals ];
}

-- The first steps of the `finally`.
unfoldable pub begin_closing : Run → State × Bool → State × Bool
begin_closing run (state, failed) =
    let closing = record state { closing_monotonic_ns = some run.closing_monotonic_ns } in
    if run.writes_closing
    then (closing, failed)
    else (record closing { state_write_error = true }, true)

-- `close_deadline`
abbrev pub close_deadline : Run → ℕ
close_deadline run = run.closing.begun + run.limits.close_timeout

-- `int(metadata.message_count) <= 0`
abbrev pub is_positive : ℤ → Bool
is_positive (pos n) = ltb 0 n
is_positive (negsuc n) = false

-- `0 <= duration_ns <= int(args.max_lifetime_sec * 1e9)`
abbrev pub is_duration : (lifetime : ℕ) → ℤ → Bool
is_duration lifetime (pos n) = leb n lifetime
is_duration lifetime (negsuc n) = false

abbrev pub bytes_of : List Artifact → ℕ
bytes_of = sum_of (λ (a : Artifact). a.size_bytes)

abbrev pub with_close_error : State → Error → State
with_close_error state e = record state { close_error = some e }

-- The last checks of the bag.
unfoldable pub checked_bag : Limits → ℕ → ℤ → Result Error (Unit {0})
checked_bag limits size duration = do
  raise_if (ltb limits.max_recording_bytes size) over_size
  raise_if (not (is_duration limits.max_lifetime duration)) over_duration

abbrev pub status_of : Bool → String
status_of failed = if failed then "incomplete" else "complete"

-- `recorder is not None`
abbrev pub has_recorder : Run → Bool
has_recorder run = run.initializes && run.creates_observer && run.creates_recorder

module _ (pure_path : String → PurePath) (sha256 : Bytes → String) where
  -- The loop over the members, from the number `n` on.
  unfoldable pub read_members :
      (deadline n : ℕ) → (ℕ → FileReading) → List String → Result Error (List Artifact)
  read_members deadline n files [] = ok []
  read_members deadline n files (name ∷ names) = do
    let relative = pure_path name
    raise_if (relative.is_absolute || member ".." relative.parts) unsafe_member
    artifact ← artifact_file sha256 relative.text (files n) deadline
    rest ← read_members deadline (suc n) files names
    ok (artifact ∷ rest)

  -- The close of the recorder up to `state["bag"]`, with the duration.
  unfoldable pub read_bag : Closing → (deadline : ℕ) → Result Error (Bag × ℤ)
  read_bag closing deadline = do
    raise_if (not closing.stops) sdk
    before_deadline deadline closing.after_stop
    metadata ← or_raise closing.metadata sdk
    before_deadline deadline closing.after_metadata
    reference ← artifact_file sha256 "metadata.yaml" closing.metadata_file deadline
    members ← read_members deadline 0 closing.member_file metadata.relative_file_paths
    ok (
      record {
        message_count = metadata.message_count;
        metadata = reference;
        members = members;
        topics = metadata.topics;
        measured = none;
      },
      metadata.duration_ns,
    )

  -- The checks of a bag, each after what the state has got till then.
  unfoldable pub close_bag : Run → State → Bool → Bag → ℤ → State × Bool
  close_bag run state failed bag duration =
      let size = bytes_of bag.members in
      let measured = record state {
        bag = some (record bag { measured = some (size, duration) });
      } in
      if length bag.members == 0 || not (is_positive bag.message_count)
      then (with_close_error (record state { bag = some bag }) no_messages, true)
      else elim (checked_bag run.limits size duration) [
        | err e ↦ (with_close_error measured e, true)
        | ok u ↦ (record measured { closure_confirmed = true }, failed)
      ]

  -- The second `try` of the `finally`.
  unfoldable pub close_recorder : Run → State × Bool → State × Bool
  close_recorder run (state, failed) =
      if not (has_recorder run)
      then (state, failed)
      else elim (read_bag run.closing (close_deadline run)) [
        | err e ↦ (with_close_error state e, true)
        | ok (bag, duration) ↦ close_bag run state failed bag duration
      ]

  -- The third one: the observer and rclpy.
  unfoldable pub clean_up : Run → State × Bool → State × Bool
  clean_up run (state, failed) =
      if run.initializes && not run.cleans_up
      then (record state { ros_cleanup_error = some sdk }, true)
      else elim (before_deadline (close_deadline run) run.cleaned_up) [
        | err e ↦ (record state { ros_cleanup_error = some e }, true)
        | ok u ↦ (state, failed)
      ]

  pub record Outcome : Type 0 where
    -- `none` where the last write has raised.
    pub exit_status : Option ℕ
    pub state : State
    pub document : State

  -- The last state.
  abbrev pub finished : Run → State × Bool → State
  finished run (state, failed) = record state {
    finished_monotonic_ns = some run.finished_monotonic_ns;
    capture_status = status_of failed;
  }

  -- The state and `failed` before the last write.
  unfoldable pub captured : Run → State × Bool
  captured run = clean_up run (close_recorder run (begin_closing run (record_topics run)))

  -- The last write, where `before` is the document till then.
  unfoldable pub conclude : Run → State → State × Bool → Outcome
  conclude run before (state, failed) =
      let final = finished run (state, failed) in
      if run.writes_finished
      then record {
        exit_status = some (if failed then 1 else 0);
        state = final;
        document = written_with run.signals_at_finish final;
      }
      else record { exit_status = none; state = final; document = before }

  -- The document at the start of the close.
  abbrev pub closing_document : Run → State
  closing_document run =
      if run.writes_closing
      then written_with run.signals_at_closing (begin_closing run (record_topics run)).0
      else initial

  -- `main`
  unfoldable pub main : Run → Outcome
  main run = conclude run (closing_document run) (captured run)
