-- ===== src/Recorder/Close/Complete.antt =====
-- What a complete capture has seen and retained.
use robotics_runtime_infra.Base.{
  ◌<◌, ◌≤◌, ◌≡◌, String, Bool, true, false, not, ◌||◌, some, length, refl, subst, arith, ◌==◌,
  Bool-cases, inl, inr,
}
use robotics_runtime_infra.Base.Result.{ok, Result-cases}
use robotics_runtime_infra.Base.Value.{ℤ}
use robotics_runtime_infra.Export.Admission.{PurePath}
use robotics_runtime_infra.Recorder.Arguments.{Limits}
use robotics_runtime_infra.Recorder.Artifact.{Bytes}
use robotics_runtime_infra.Recorder.Run.{Run, Bag, State}
use robotics_runtime_infra.Recorder.Capture.{record_topics, start_recorder}
use robotics_runtime_infra.Recorder.Capture.Recorded.{
  IsRecorded, record_topics-IsRecorded, record_topics-incomplete,
}
use robotics_runtime_infra.Recorder.Close.{
  begin_closing, written_with, close_deadline, is_positive, is_duration, bytes_of, checked_bag,
  status_of, has_recorder, read_bag, close_bag, close_recorder, clean_up, finished, captured,
  conclude, closing_document, Outcome, main,
}
use robotics_runtime_infra.Recorder.Close.Retained.{IsRead, read_bag-IsRead}

-- The steps of the `finally` that leave `failed` unset.
begin_closing-false :
    (run : Run) (before after : State) (failed : Bool)
    → begin_closing run (before, failed) ≡ (after, false)
    → (failed ≡ false)
      × (run.writes_closing ≡ true)
      × (after ≡ record before { closing_monotonic_ns = some run.closing_monotonic_ns })
unfolding begin_closing
begin_closing-false run before after failed h = ground arith

clean_up-false :
    (pure_path : String → PurePath) (sha256 : Bytes → String) (run : Run) (before after : State)
    (failed : Bool)
    → clean_up pure_path sha256 run (before, failed) ≡ (after, false)
    → (failed ≡ false)
      × (after ≡ before)
      × (run.cleaned_up < close_deadline run)
      × (run.initializes ≡ true → run.cleans_up ≡ true)
unfolding clean_up
clean_up-false pure_path sha256 run before after failed h = ground arith

-- The bag with its size and its duration.
abbrev pub measured_bag : Bag → ℤ → Bag
measured_bag bag duration = record bag { measured = some (bytes_of bag.members, duration) }

-- A bag with messages, within the limits.
pub record IsBounded (limits : Limits) (bag : Bag) (duration : ℤ) : Type 0 where
  pub has_members : 0 < length bag.members
  pub has_messages : is_positive bag.message_count ≡ true
  pub within_size : bytes_of bag.members ≤ limits.max_recording_bytes
  pub within_lifetime : is_duration limits.max_lifetime duration ≡ true

status-false : (failed : Bool) → status_of failed ≡ "complete" → failed ≡ false
status-false true h = cc
status-false false h = refl

not_complete : {s : String} → s ≡ "incomplete" → s ≡ "complete" → ⊥
not_complete incomplete complete = cc

module _ (pure_path : String → PurePath) (sha256 : Bytes → String) where
  close_bag-false :
      (run : Run) (before after : State) (failed : Bool) (bag : Bag) (duration : ℤ)
      → close_bag pure_path sha256 run before failed bag duration ≡ (after, false)
      → (failed ≡ false)
        × IsBounded run.limits bag duration
        × (after
            ≡ record before { bag = some (measured_bag bag duration); closure_confirmed = true })
  unfolding close_bag checked_bag
  close_bag-false run before after failed bag duration h =
      elim (Bool-cases (length bag.members == 0 || not (is_positive bag.message_count))) [
        | inl n ↦ absurd (ground arith)
        | inr n ↦ (
          ground arith,
          record {
            has_members = ground arith;
            has_messages = ground arith;
            within_size = ground arith;
            within_lifetime = ground arith;
          },
          ground arith,
        )
      ]

  -- The state after a close that has confirmed the closure.
  pub record IsClosed (run : Run) (before after : State) : Type 0 where
    pub bag : Bag
    pub duration : ℤ
    pub its_bag : IsRead sha256 pure_path run.closing (close_deadline run) bag duration
    pub bounded : IsBounded run.limits bag duration
    pub its_state :
        after ≡ record before { bag = some (measured_bag bag duration); closure_confirmed = true }

  close_recorder-IsClosed :
      (run : Run) (before after : State) (failed : Bool)
      → has_recorder run ≡ true
      → close_recorder pure_path sha256 run (before, failed) ≡ (after, false)
      → (failed ≡ false) × IsClosed run before after
  unfolding close_recorder
  close_recorder-IsClosed run before after failed r h =
      elim (Result-cases (read_bag pure_path sha256 run.closing (close_deadline run))) [
        | inr (e, p) ↦ absurd (ground arith)
        | inl ((bag, duration), p) ↦
            let closes : close_bag pure_path sha256 run before failed bag duration
                ≡ (after, false) =
              ground arith in
            let (unfailed, bounded, its_state) =
              close_bag-false run before after failed bag duration closes in
            (
              unfailed,
              record {
                bag = bag;
                duration = duration;
                its_bag = read_bag-IsRead sha256 pure_path run.closing (close_deadline run) p;
                bounded = bounded;
                its_state = its_state;
              },
            )
      ]

  close_recorder-none :
      (run : Run) (before after : State) (failed : Bool)
      → has_recorder run ≡ false
      → close_recorder pure_path sha256 run (before, failed) ≡ (after, false)
      → failed ≡ false
  unfolding close_recorder
  close_recorder-none run before after failed r h = ground arith

  close_recorder-false :
      (run : Run) (before after : State) (failed : Bool)
      → close_recorder pure_path sha256 run (before, failed) ≡ (after, false)
      → failed ≡ false
  close_recorder-false run before after failed h = elim (Bool-cases (has_recorder run)) [
    | inl r ↦ (close_recorder-IsClosed run before after failed r h).0
    | inr r ↦ close_recorder-none run before after failed r h
  ]

  start_recorder-has_recorder : (run : Run) → start_recorder run ≡ ok tt → has_recorder run ≡ true
  unfolding start_recorder
  start_recorder-has_recorder run h = ground arith

  -- What has happened before a capture that is complete.
  pub record IsWhole (run : Run) (last : State) : Type 0 where
    pub recorded : State
    pub its_recording : IsRecorded run recorded
    pub its_close :
        IsClosed run (record recorded { closing_monotonic_ns = some run.closing_monotonic_ns }) last
    pub in_time : run.cleaned_up < close_deadline run
    pub cleans_up : run.initializes ≡ true → run.cleans_up ≡ true

  captured-IsWhole :
      (run : Run) (last : State) → captured pure_path sha256 run ≡ (last, false) → IsWhole run last
  unfolding captured
  captured-IsWhole run last h =
      let recorded = record_topics run in
      let closing = begin_closing run recorded in
      let closed = close_recorder pure_path sha256 run closing in
      let (cleaned, same, in_time, cleans_up) =
        clean_up-false pure_path sha256 run closed.0 last closed.1 h in
      let to_close : closed ≡ (last, false) = ground arith in
      let unfailed = close_recorder-false run closing.0 last closing.1 to_close in
      let begins : closing ≡ (closing.0, false) = ground arith in
      let (unraised, written, its_state) =
        begin_closing-false run recorded.0 closing.0 recorded.1 begins in
      let ends : recorded ≡ (recorded.0, false) = ground arith in
      let recording = record_topics-IsRecorded run recorded.0 ends in
      let has = start_recorder-has_recorder run recording.started in
      let (u, closes) = close_recorder-IsClosed run closing.0 last closing.1 has to_close in
      record {
        recorded = recorded.0;
        its_recording = recording;
        its_close = subst (λ s. IsClosed run s last) its_state closes;
        in_time = in_time;
        cleans_up = cleans_up;
      }

  -- The document that says that the capture is complete.
  pub record IsComplete (run : Run) (outcome : Outcome pure_path sha256) : Type 0 where
    pub last : State
    pub whole : IsWhole run last
    pub its_document :
        outcome.document
        ≡ written_with run.signals_at_finish (finished pure_path sha256 run (last, false))
    pub its_status : outcome.exit_status ≡ some 0

  conclude_complete :
      (run : Run) (before state : State) (failed : Bool)
      → before.capture_status ≡ "incomplete"
      → (conclude pure_path sha256 run before (state, failed)).document.capture_status ≡ "complete"
      → (failed ≡ false)
        × ((conclude pure_path sha256 run before (state, failed)).document
            ≡ written_with run.signals_at_finish (finished pure_path sha256 run (state, false)))
        × ((conclude pure_path sha256 run before (state, failed)).exit_status ≡ some 0)
  unfolding conclude
  conclude_complete run before state failed incomplete h = elim (Bool-cases run.writes_finished) [
    | inr w ↦
        let same : before.capture_status ≡ "complete" = ground arith in
        absurd (not_complete incomplete same)
    | inl w ↦
        let unfailed = status-false failed (ground arith) in (unfailed, ground arith, ground arith)
  ]

  pub closing_document-incomplete :
      (run : Run) → (closing_document pure_path sha256 run).capture_status ≡ "incomplete"
  unfolding begin_closing
  closing_document-incomplete run = ground (arith, record_topics-incomplete run)

  -- When `capture-state.json` says that the capture is complete, the exit status is zero, the closure
  -- is confirmed, and no error is in it; before its deadline the node subscribed to every topic with
  -- its type; the recording was stopped, before its own deadline and not later than it could be, by
  -- a signal or a request of this run; the members of the bag were captured, below the output and
  -- unchanged, before the deadline of the close; and the bag has messages, and its bytes and its
  -- duration are within the limits.
  pub main-IsComplete :
      (run : Run)
      → (main pure_path sha256 run).document.capture_status ≡ "complete"
      → IsComplete run (main pure_path sha256 run)
  unfolding main
  main-IsComplete run h =
      let last = captured pure_path sha256 run in
      let (unfailed, its_document, its_status) =
        conclude_complete run (closing_document pure_path sha256 run) last.0 last.1
          (closing_document-incomplete run) h in
      let whole : last ≡ (last.0, false) = ground arith in
      record {
        last = last.0;
        whole = captured-IsWhole run last.0 whole;
        its_document = its_document;
        its_status = its_status;
      }
