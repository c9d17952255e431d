-- ===== src/Isaac/Phases.antt =====
-- `phase_marker` and `wait_paused_phase` of native-observe.py.
-- What a round of the wait reads from the application, the timeline, the clock and the phase
-- directory is a `Reading`. Simulation times and `math` on them are outside: `Time`.
pub mod Paused
use robotics_runtime_infra.Base.{
  ℕ, zero, suc, ◌+◌, String, Bool, true, false, not, ◌&&◌, ◌||◌, Option, none, some, List, [], ◌∷◌,
  ◌++◌, leb, ◌==◌, str_eq, if◌then◌else◌,
}
use robotics_runtime_infra.Base.Result.{Result, ok, err, raise_if, or_raise, ◌>>=◌, ◌>>◌}
use robotics_runtime_infra.Base.Value.{Value, str, Fields, no_fields, field, get, is_text}

pub data Error : Type 0 where
  unbounded_marker other_episode closed advanced not_written cancelled released deadline_exceeded
        out_of_fuel :
      Error

pub record Episode : Type 0 where
  pub owner_id : String
  pub phase_token : String

-- The file of a marker: not there, not a bounded regular file with an object, or the object.
pub data Marker : Type 0 where
  absent unusable : Marker
  marked : Fields → Marker

abbrev field_count : Fields → ℕ
field_count no_fields = 0
field_count (field k v fs) = suc (field_count fs)

-- `facts == {"owner_id": …, "phase_token": …, "action": …}`
unfoldable pub is_of_episode : Episode → String → Fields → Bool
is_of_episode episode action facts =
    field_count facts == 3
    && is_text (get facts "owner_id") episode.owner_id
    && is_text (get facts "phase_token") episode.phase_token
    && is_text (get facts "action") action

-- `phase_marker`
unfoldable pub phase_marker : Episode → String → Marker → Result Error Bool
phase_marker episode action absent = ok false
phase_marker episode action unusable = err unbounded_marker
phase_marker episode action (marked facts) =
    if is_of_episode episode action facts then ok true else err other_episode

module _ {Time : Type 0} (is_finite : Time → Bool) (is_close : Time → Time → Bool) where
  pub record Reading : Type 0 where
    pub is_running : Bool
    pub is_playing : Bool
    pub current : Time
    -- Whether `phase_write` succeeds.
    pub written : Bool
    pub marker : String → Marker
    pub now : ℕ

  -- The test on the native timeline.
  abbrev pub is_paused : Time → Reading → Bool
  is_paused baseline reading = not (
      reading.is_playing
      || not (is_finite reading.current)
      || not (is_close reading.current baseline))

  -- The body of the loop: whether the action's marker is there.
  unfoldable pub wait_round : Episode → String → Time → ℕ → Reading → Result Error Bool
  wait_round episode action baseline deadline reading = do
    raise_if (not reading.is_running) closed
    raise_if (not (is_paused baseline reading)) advanced
    raise_if (not reading.written) not_written
    is_cancelled ← phase_marker episode "cancel" (reading.marker "cancel")
    raise_if is_cancelled cancelled
    is_marked ← phase_marker episode action (reading.marker action)
    if is_marked then ok true else (do
      is_released ←
          if str_eq action "start"
          then phase_marker episode "release" (reading.marker "release")
          else ok false
      raise_if is_released released
      raise_if (leb deadline reading.now) deadline_exceeded
      ok false)

  -- The loop from the round `n` on: the number of observations that are written.
  unfoldable pub wait_rounds :
      (fuel n : ℕ) → Episode → String → Time → ℕ → (ℕ → Reading) → Result Error ℕ
  wait_rounds zero n episode action baseline deadline readings = err out_of_fuel
  wait_rounds (suc fuel) n episode action baseline deadline readings =
      let rest = wait_rounds fuel (suc n) episode action baseline deadline readings in
      wait_round episode action baseline deadline (readings n) >>= λ is_marked.
      if is_marked then ok (suc n) else rest

  -- `wait_paused_phase`, without a phase directory at once.
  unfoldable pub wait_paused_phase :
      Option Episode → String → Time → (start timeout : ℕ) → (ℕ → Reading) → Result Error ℕ
  wait_paused_phase none action baseline start timeout readings = ok 0
  wait_paused_phase (some episode) action baseline start timeout readings =
      wait_rounds (suc timeout) 0 episode action baseline (start + timeout) readings
