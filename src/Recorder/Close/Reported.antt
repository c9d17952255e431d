-- ===== src/Recorder/Close/Reported.antt =====
-- What the exit status and the document say of a run with errors.
use robotics_runtime_infra.Base.{
  ◌≡◌, String, Bool, not, ◌&&◌, ◌||◌, none, some, length, arith, ◌==◌, Bool-cases, inl, inr,
  if◌then◌else◌,
}
use robotics_runtime_infra.Base.Result.{Result-cases}
use robotics_runtime_infra.Base.Value.{ℤ}
use robotics_runtime_infra.Export.Admission.{PurePath}
use robotics_runtime_infra.Recorder.Artifact.{Bytes, before_deadline}
use robotics_runtime_infra.Recorder.Run.{Run, Bag, State, has_error}
use robotics_runtime_infra.Recorder.Capture.Recorded.{record_topics-error}
use robotics_runtime_infra.Recorder.Close.{
  begin_closing, close_deadline, is_positive, bytes_of, checked_bag, status_of, has_recorder,
  read_bag, close_bag, close_recorder, clean_up, captured, conclude, closing_document, main,
}
use robotics_runtime_infra.Recorder.Close.Complete.{closing_document-incomplete}

-- `failed` is set exactly with an error.
abbrev Agrees : State × Bool → Type 0
Agrees (state, failed) = failed ≡ has_error state

begin_closing-Agrees : (run : Run) (x : State × Bool) → Agrees x → Agrees (begin_closing run x)
unfolding begin_closing
begin_closing-Agrees run (state, failed) h = elim (Bool-cases run.writes_closing) [
  | inl w ↦ ground arith
  | inr w ↦ ground arith
]

module _ (pure_path : String → PurePath) (sha256 : Bytes → String) where
  close_bag-Agrees :
      (run : Run) (state : State) (failed : Bool) (bag : Bag) (duration : ℤ)
      → failed ≡ has_error state
      → Agrees (close_bag pure_path sha256 run state failed bag duration)
  unfolding close_bag
  close_bag-Agrees run state failed bag duration h =
      elim (Bool-cases (length bag.members == 0 || not (is_positive bag.message_count))) [
        | inl n ↦ ground arith
        | inr n ↦ elim (Result-cases (checked_bag run.limits (bytes_of bag.members) duration)) [
          | inr (e, p) ↦ ground arith
          | inl (u, p) ↦ ground arith
        ]
      ]

  close_recorder-Agrees :
      (run : Run) (x : State × Bool) → Agrees x → Agrees (close_recorder pure_path sha256 run x)
  unfolding close_recorder
  close_recorder-Agrees run (state, failed) h = elim (Bool-cases (has_recorder run)) [
    | inr r ↦ ground arith
    | inl r ↦ elim (Result-cases (read_bag pure_path sha256 run.closing (close_deadline run))) [
      | inr (e, p) ↦ ground arith
      | inl ((bag, duration), p) ↦ ground (arith, close_bag-Agrees run state failed bag duration h)
    ]
  ]

  clean_up-Agrees :
      (run : Run) (x : State × Bool) → Agrees x → Agrees (clean_up pure_path sha256 run x)
  unfolding clean_up
  clean_up-Agrees run (state, failed) h = elim (Bool-cases (run.initializes && not run.cleans_up)) [
    | inl c ↦ ground arith
    | inr c ↦ elim (Result-cases (before_deadline (close_deadline run) run.cleaned_up)) [
      | inr (e, p) ↦ ground arith
      | inl (u, p) ↦ ground arith
    ]
  ]

  captured-Agrees : (run : Run) → Agrees (captured pure_path sha256 run)
  unfolding captured
  captured-Agrees run =
      clean_up-Agrees run _
        (close_recorder-Agrees run _ (begin_closing-Agrees run _ (record_topics-error run)))

  conclude-reports :
      (run : Run) (before state : State) (failed : Bool)
      → before.capture_status ≡ "incomplete"
      → failed ≡ has_error state
      → ((conclude pure_path sha256 run before (state, failed)).exit_status
          ≡ (if run.writes_finished then some (if has_error state then 1 else 0) else none))
        × ((conclude pure_path sha256 run before (state, failed)).document.capture_status
            ≡ (if run.writes_finished then status_of (has_error state) else "incomplete"))
        × (has_error (conclude pure_path sha256 run before (state, failed)).state ≡ has_error state)
  unfolding conclude
  conclude-reports run before state failed incomplete h = elim (Bool-cases run.writes_finished) [
    | inl w ↦ (ground arith, ground arith, ground arith)
    | inr w ↦ (ground arith, ground arith, ground arith)
  ]

  -- The last state tells whether a run has failed: where the last write succeeds, the exit status is
  -- one and `capture-state.json` says "incomplete" if the state has an error of the recording, of a
  -- write, of the close or of the clean-up, and otherwise it is zero and the document says
  -- "complete"; where the last write raises, the document still says "incomplete".
  pub main_reports :
      (run : Run)
      → ((main pure_path sha256 run).exit_status ≡ (
          if run.writes_finished
          then some (if has_error (main pure_path sha256 run).state then 1 else 0)
          else none))
        × ((main pure_path sha256 run).document.capture_status ≡ (
            if run.writes_finished
            then status_of (has_error (main pure_path sha256 run).state)
            else "incomplete"))
  unfolding main
  main_reports run =
      let last = captured pure_path sha256 run in
      let incomplete = closing_document-incomplete pure_path sha256 run in
      let (status, document, same) =
        conclude-reports run (closing_document pure_path sha256 run) last.0 last.1 incomplete
          (captured-Agrees run) in
      (rw same status, rw same document)
