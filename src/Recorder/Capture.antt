-- ===== src/Recorder/Capture.antt =====
-- The `try` of `main` of record-topics.py. What the clock, the signals, the graph of nodes and the
-- files are at each step is a `Run`; every call of the recorder and of rclpy may fail.
pub mod Stopped
pub mod Recorded
use robotics_runtime_infra.Base.{
  ℕ, zero, suc, ◌+◌, String, Bool, true, false, not, Option, none, some, min, List, [], ◌∷◌, leb,
  if◌then◌else◌,
}
use robotics_runtime_infra.Base.Result.{Result, ok, err, raise_if, ◌>>=◌, ◌>>◌}
use robotics_runtime_infra.Recorder.Artifact.{
  Error, sdk, cancelled, not_ready, not_written, out_of_fuel, stop_request, before_deadline,
}
use robotics_runtime_infra.Recorder.Run.{
  Subscriptions, topics, covers, ReadyRound, LifeRound, Run, State, initial,
}

-- What a query has found: nothing where it has failed.
abbrev pub subscriptions_of : ReadyRound → Subscriptions
subscriptions_of r = elim r.subscriptions [ none ↦ λ topic. [] | some found ↦ found ]

-- The body of the first loop: the subscriptions, when they have every topic.
unfoldable pub ready_round : (deadline : ℕ) → ReadyRound → Result Error (Option Subscriptions)
ready_round deadline r = do
  raise_if r.is_signalled cancelled
  raise_if (leb deadline r.now) not_ready
  let subscriptions = subscriptions_of r
  before_deadline deadline r.after
  if covers topics subscriptions
      then ok (some subscriptions)
      else (do raise_if (not r.spins) sdk; ok none)

-- The first loop from the round `n` on: its last round, and the subscriptions.
unfoldable pub ready_rounds :
    (fuel n deadline : ℕ) → (ℕ → ReadyRound) → Result Error (ℕ × Subscriptions)
ready_rounds zero n deadline rounds = err out_of_fuel
ready_rounds (suc fuel) n deadline rounds =
    let rest = ready_rounds fuel (suc n) deadline rounds in
    ready_round deadline (rounds n) >>= λ found. elim found [
      | none ↦ rest
      | some subscriptions ↦ ok (n, subscriptions)
    ]

-- The body of the second loop: whether the recording is to stop.
unfoldable pub life_round : String → String → (deadline : ℕ) → LifeRound → Result Error Bool
life_round run_id domain_id deadline r = do
  before_deadline deadline r.now
  stopped ← if r.is_signalled then ok true else stop_request r.stop run_id domain_id
  before_deadline deadline r.after
  if stopped then ok true else (do raise_if (not r.spins) sdk; ok false)

-- The second loop from the round `n` on: its last round.
unfoldable pub life_rounds :
    (fuel n : ℕ) → String → String → (deadline : ℕ) → (ℕ → LifeRound) → Result Error ℕ
life_rounds zero n run_id domain_id deadline rounds = err out_of_fuel
life_rounds (suc fuel) n run_id domain_id deadline rounds =
    let rest = life_rounds fuel (suc n) run_id domain_id deadline rounds in
    life_round run_id domain_id deadline (rounds n) >>= λ stopped. if stopped then ok n else rest

abbrev pub startup_deadline : Run → ℕ
startup_deadline run =
    min (run.started + run.limits.max_lifetime) (run.started + run.limits.startup_timeout)

abbrev pub lifetime_deadline : Run → ℕ
lifetime_deadline run = run.started + run.limits.max_lifetime

-- The steps before the first loop.
unfoldable pub start_recorder : Run → Result Error (Unit {0})
start_recorder run = do
  raise_if (not run.initializes) sdk
  raise_if (not run.creates_observer) sdk
  raise_if (not run.creates_recorder) sdk
  raise_if (not run.starts) sdk

-- The state when an exception has ended the `try`.
abbrev pub with_error : State → Error → State
with_error state e = record state { error = some e }

-- The `try` of `main`, with `failed`.
unfoldable pub record_topics : Run → State × Bool
record_topics run = elim (start_recorder run) [
  | err e ↦ (with_error initial e, true)
  | ok u ↦
      elim (ready_rounds (suc run.limits.startup_timeout) 0 (startup_deadline run)
        run.ready_round) [
          | err e ↦ (with_error initial e, true)
          | ok (n, subscriptions) ↦
              let ready = record initial {
                subscriptions = some subscriptions;
                ready_monotonic_ns = some run.ready_monotonic_ns;
              } in
              if not run.writes_ready
              then (with_error ready not_written, true)
              else elim (life_rounds (suc run.limits.max_lifetime) 0 run.run_id run.domain_id
                  (lifetime_deadline run) run.life_round) [
                    | err e ↦ (with_error ready e, true)
                    | ok m ↦
                        let reason =
                          if run.is_signalled_at_end then "signal" else "run-bound-stop-request" in
                        (
                          record ready {
                            stop_reason = some reason;
                            received_signals = some run.signals_at_closing;
                          },
                          false,
                        )
                  ]
        ]
]
