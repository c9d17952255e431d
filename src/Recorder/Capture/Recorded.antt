-- ===== src/Recorder/Capture/Recorded.antt =====
-- The `try` of `main`: what has been seen where it raises nothing, and that it ends.
use robotics_runtime_infra.Base.{
  ℕ, suc, ◌+◌, ◌<◌, ◌≤◌, ◌≡◌, ◌≢◌, true, false, some, subst, arith, Bool-cases, inl, inr,
}
use robotics_runtime_infra.Base.Result.{ok, err, Result-cases}
use robotics_runtime_infra.Recorder.Artifact.{out_of_fuel}
use robotics_runtime_infra.Recorder.Run.{Run, State, has_error}
use robotics_runtime_infra.Recorder.Capture.{
  subscriptions_of, ready_rounds, life_rounds, startup_deadline, lifetime_deadline, start_recorder,
  record_topics,
}
use robotics_runtime_infra.Recorder.Capture.Stopped.{
  IsReady, IsStop, IsUneventful, ready_rounds-IsReady, ready_rounds-fuel, life_rounds-IsStop,
  life_rounds-fuel,
}

-- A recording that raises nothing, with the last round of each loop.
pub record IsRecorded (run : Run) (state : State) : Type 0 where
  pub started : start_recorder run ≡ ok tt
  pub ready : ℕ
  pub its_ready : IsReady (startup_deadline run) (run.ready_round ready)
  pub its_subscriptions : state.subscriptions ≡ some (subscriptions_of (run.ready_round ready))
  pub writes_ready : run.writes_ready ≡ true
  pub last : ℕ
  pub its_stop : IsStop run.run_id run.domain_id (lifetime_deadline run) (run.life_round last)
  pub before :
      (k : ℕ)
      → k < last
      → IsUneventful run.run_id run.domain_id (lifetime_deadline run) (run.life_round k)
  pub its_signals : state.received_signals ≡ some run.signals_at_closing
  pub no_error : has_error state ≡ false

pub record_topics-IsRecorded :
    (run : Run) (state : State) → record_topics run ≡ (state, false) → IsRecorded run state
unfolding record_topics
record_topics-IsRecorded run state h = elim (Result-cases (start_recorder run)) [
  | inr (e, p) ↦ absurd (ground arith)
  | inl (u, p) ↦
      elim (Result-cases
        (ready_rounds (suc run.limits.startup_timeout) 0 (startup_deadline run) run.ready_round)) [
          | inr (e, q) ↦ absurd (ground arith)
          | inl ((n, subscriptions), q) ↦ elim (Bool-cases run.writes_ready) [
            | inr w ↦ absurd (ground arith)
            | inl w ↦
                elim (Result-cases (
                  life_rounds (suc run.limits.max_lifetime) 0 run.run_id run.domain_id
                    (lifetime_deadline run) run.life_round)) [
                      | inr (e, r) ↦ absurd (ground arith)
                      | inl (m, r) ↦
                          let (ready, found) = ready_rounds-IsReady _ 0 _ run.ready_round q in
                          let (from, stop, before) =
                            life_rounds-IsStop run.run_id run.domain_id _ 0 _ run.life_round r in
                          let kept : state.subscriptions ≡ some subscriptions = ground arith in
                          record {
                            started = p;
                            ready = n;
                            its_ready = ready;
                            its_subscriptions =
                                subst (λ s. state.subscriptions ≡ some s) found kept;
                            writes_ready = w;
                            last = m;
                            its_stop = stop;
                            before = λ k l. before k (omega arith) l;
                            its_signals = ground arith;
                            no_error = ground arith;
                          }
                    ]
          ]
        ]
]

-- `failed` is set exactly with an error in the state.
pub record_topics-error : (run : Run) → (record_topics run).1 ≡ has_error (record_topics run).0
unfolding record_topics
record_topics-error run = elim (Result-cases (start_recorder run)) [
  | inr (e, p) ↦ ground arith
  | inl (u, p) ↦
      elim (Result-cases
        (ready_rounds (suc run.limits.startup_timeout) 0 (startup_deadline run) run.ready_round)) [
          | inr (e, q) ↦ ground arith
          | inl ((n, subscriptions), q) ↦ elim (Bool-cases run.writes_ready) [
            | inr w ↦ ground arith
            | inl w ↦
                elim (Result-cases (
                  life_rounds (suc run.limits.max_lifetime) 0 run.run_id run.domain_id
                    (lifetime_deadline run) run.life_round)) [
                      | inr (e, r) ↦ ground arith
                      | inl (m, r) ↦ ground arith
                    ]
          ]
        ]
]

pub record_topics-incomplete : (run : Run) → (record_topics run).0.capture_status ≡ "incomplete"
unfolding record_topics
record_topics-incomplete run = elim (Result-cases (start_recorder run)) [
  | inr (e, p) ↦ ground arith
  | inl (u, p) ↦
      elim (Result-cases
        (ready_rounds (suc run.limits.startup_timeout) 0 (startup_deadline run) run.ready_round)) [
          | inr (e, q) ↦ ground arith
          | inl ((n, subscriptions), q) ↦ elim (Bool-cases run.writes_ready) [
            | inr w ↦ ground arith
            | inl w ↦
                elim (Result-cases (
                  life_rounds (suc run.limits.max_lifetime) 0 run.run_id run.domain_id
                    (lifetime_deadline run) run.life_round)) [
                      | inr (e, r) ↦ ground arith
                      | inl (m, r) ↦ ground arith
                    ]
          ]
        ]
]

start_recorder-fuel : (run : Run) → start_recorder run ≢ err out_of_fuel
unfolding start_recorder
start_recorder-fuel run h = ground arith

-- When the time goes on from each round to the next, a round for each nanosecond of the startup and of
-- the lifetime is enough: a recording is stopped or ends with an exception of the source.
pub record_topics_ends :
    (run : Run)
    → ((k : ℕ) → (run.ready_round k).now < (run.ready_round (suc k)).now)
    → run.started ≤ (run.ready_round 0).now
    → ((k : ℕ) → (run.life_round k).now < (run.life_round (suc k)).now)
    → run.started ≤ (run.life_round 0).now
    → (record_topics run).0.error ≢ some out_of_fuel
unfolding record_topics
record_topics_ends run goes_on begun lasts recorded h = elim (Result-cases (start_recorder run)) [
  | inr (e, p) ↦ start_recorder-fuel run (ground arith)
  | inl (u, p) ↦
      elim (Result-cases
        (ready_rounds (suc run.limits.startup_timeout) 0 (startup_deadline run) run.ready_round)) [
          | inr (e, q) ↦
              let enough : startup_deadline run
                  ≤ run.limits.startup_timeout + (run.ready_round 0).now =
                ground arith in
              ready_rounds-fuel run.limits.startup_timeout 0 (startup_deadline run) run.ready_round
                goes_on enough (ground arith)
          | inl ((n, subscriptions), q) ↦ elim (Bool-cases run.writes_ready) [
            | inr w ↦ ground arith
            | inl w ↦
                elim (Result-cases (
                  life_rounds (suc run.limits.max_lifetime) 0 run.run_id run.domain_id
                    (lifetime_deadline run) run.life_round)) [
                      | inr (e, r) ↦
                          life_rounds-fuel run.run_id run.domain_id run.limits.max_lifetime 0
                            (lifetime_deadline run) run.life_round lasts (omega arith)
                            (ground arith)
                      | inl (m, r) ↦ ground arith
                    ]
          ]
        ]
]
