-- ===== src/Isaac/Tests.antt =====
-- A wait whose marker is there in the second round.
use robotics_runtime_infra.Base.{
  ℕ, suc, ◌+◌, ◌<◌, ◌≡◌, ◌≢◌, ◌==◌, Bool, true, false, some, refl, arith, str_eq, if◌then◌else◌,
}
use robotics_runtime_infra.Base.Result.{ok, err}
use robotics_runtime_infra.Base.Value.{str, Fields, no_fields, field}
use robotics_runtime_infra.Isaac.Phases.{
  out_of_fuel, Episode, absent, marked, is_of_episode, phase_marker, Reading, wait_round,
  wait_rounds, wait_paused_phase,
}
use robotics_runtime_infra.Isaac.Phases.Paused.{
  IsPhase, wait_paused_phase-IsPhase, wait_paused_phase_ends,
}

abbrev is_finite : ℕ → Bool
is_finite t = true

abbrev is_close : ℕ → ℕ → Bool
is_close a b = a == b

abbrev episode : Episode
episode = record { owner_id = "owner"; phase_token = "token" }

abbrev start_facts : Fields
start_facts =
    field "owner_id" (str "owner")
      (field "phase_token" (str "token") (field "action" (str "start") no_fields))

abbrev reading : ℕ → Reading is_finite is_close
reading n = record {
  is_running = true;
  is_playing = false;
  current = 5;
  written = true;
  marker = λ action.
      if str_eq action "start" then (if n == 0 then absent else marked start_facts) else absent;
  now = 100 + n;
}

started : wait_paused_phase is_finite is_close (some episode) "start" 5 100 10 reading ≡ ok 2
unfolding wait_paused_phase wait_rounds wait_round phase_marker is_of_episode
started = refl

wait_paused_phase-IsPhase_example :
    (last : ℕ) × (2 ≡ suc last) × IsPhase is_finite is_close episode "start" 5 110 0 last reading
wait_paused_phase-IsPhase_example =
    wait_paused_phase-IsPhase is_finite is_close episode "start" 5 100 10 reading 2 started

reading-later : (k : ℕ) → (reading k).now < (reading (suc k)).now
reading-later k = ground arith

wait_paused_phase_ends_example :
    wait_paused_phase is_finite is_close (some episode) "stop" 5 100 10 reading ≢ err out_of_fuel
wait_paused_phase_ends_example =
    wait_paused_phase_ends is_finite is_close (some episode) "stop" 5 100 10 reading reading-later
      (ground arith)
