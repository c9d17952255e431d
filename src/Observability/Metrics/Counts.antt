-- ===== src/Observability/Metrics/Counts.antt =====
-- How often the duration of a callback is exported, and how often an error is logged.
use robotics_runtime_infra.Base.{
  ℕ, ◌-◌, ◌+◌, ◌≡◌, refl, Bool, true, false, Option, none, some, List, [], ◌∷◌, arith, sum_of,
  length, if◌then◌else◌,
}
use robotics_runtime_infra.Base.Value.{Fields}
use robotics_runtime_infra.Observability.Metrics.{
  callback_duration, Log, missing_time_metadata, missing_age, missing_sequence, Effect,
  record_value, log_error, RuntimeMetrics, Readings, observe_clock, observe_data, Message,
  clock_message, data_message, spin, handled, Attributes, record_callback_lag, data_body,
  export_measurement, finish, emit, channel_attributes, publisher_count_duration, milliseconds,
}

abbrev is_callback_duration : Effect → ℕ
is_callback_duration (record_value callback_duration _ _) = 1
is_callback_duration _ = 0

-- How often the duration of a callback has been exported.
abbrev pub durations : RuntimeMetrics → ℕ
durations node = sum_of is_callback_duration node.effects

durations-observe_clock :
    (metadata : Fields) (t : Readings) (node : RuntimeMetrics)
    → durations (observe_clock metadata t node) ≡ durations node + 1
unfolding observe_clock
durations-observe_clock metadata t node = ground arith

durations-observe_data :
    (metadata : Fields) (count : Option ℕ) (t : Readings) (node : RuntimeMetrics)
    → durations (observe_data metadata count t node).0 ≡ durations node + 1
unfolding observe_data record_callback_lag data_body export_measurement finish
durations-observe_data metadata count t node = ground arith

pub raised-none :
    (metadata : Fields) (t : Readings) (node : RuntimeMetrics)
    → (observe_data metadata none t node).1 ≡ true
unfolding observe_data
raised-none metadata t node = refl

pub raised-some :
    (metadata : Fields) (count : ℕ) (t : Readings) (node : RuntimeMetrics)
    → (observe_data metadata (some count) t node).1 ≡ false
unfolding observe_data
raised-some metadata count t node = refl

-- Every callback that runs exports its duration exactly once, whatever path it takes: without
-- timestamps, without a sequence number, and where the publisher query raises. Nothing else
-- exports it.
pub durations-spin :
    (node : RuntimeMetrics) (messages : List Message)
    → durations (spin node messages) ≡ durations node + length (handled messages)
unfolding spin handled
durations-spin node [] = omega arith
durations-spin node (clock_message metadata t ∷ rest) = omega (
  arith,
  durations-spin (observe_clock metadata t node) rest,
  durations-observe_clock metadata t node,
)
durations-spin node (data_message metadata none t ∷ rest) =
    rw raised-none (omega (arith, durations-observe_data metadata none t node))
durations-spin node (data_message metadata (some count) t ∷ rest) = rw raised-some (
    omega (
      arith,
      durations-spin (observe_data metadata (some count) t node).0 rest,
      durations-observe_data metadata (some count) t node,
    ))

abbrev is_log : Log → Effect → ℕ
is_log missing_time_metadata (log_error missing_time_metadata) = 1
is_log missing_age (log_error missing_age) = 1
is_log missing_sequence (log_error missing_sequence) = 1
is_log _ _ = 0

-- How often an error has been logged.
abbrev pub logged : Log → RuntimeMetrics → ℕ
logged l node = sum_of (is_log l) node.effects

abbrev as_count : Bool → ℕ
as_count b = if b then 1 else 0

-- Each flag says whether its error has been logged, and none has been logged twice.
pub record LogsOnce (node : RuntimeMetrics) : Type 0 where
  pub time_metadata : logged missing_time_metadata node ≡ as_count node.missing_time_metadata_logged
  pub age : logged missing_age node ≡ as_count node.missing_age_logged
  pub sequence : logged missing_sequence node ≡ as_count node.missing_sequence_logged

observe_clock-LogsOnce :
    (metadata : Fields) (t : Readings) (node : RuntimeMetrics)
    → LogsOnce node
    → LogsOnce (observe_clock metadata t node)
unfolding observe_clock
observe_clock-LogsOnce metadata t node h = ground arith

record_callback_lag-LogsOnce :
    (metadata : Fields) (entered : ℕ) (attributes : Attributes) (node : RuntimeMetrics)
    → LogsOnce node
    → LogsOnce (record_callback_lag metadata entered attributes node)
unfolding record_callback_lag
record_callback_lag-LogsOnce metadata entered attributes node h = ground arith

data_body-LogsOnce :
    (metadata : Fields) (count : ℕ) (node : RuntimeMetrics)
    → LogsOnce node
    → LogsOnce (data_body metadata count node)
unfolding data_body export_measurement
data_body-LogsOnce metadata count node h = ground arith

observe_data-LogsOnce :
    (metadata : Fields) (count : Option ℕ) (t : Readings) (node : RuntimeMetrics)
    → LogsOnce node
    → LogsOnce (observe_data metadata count t node).0
unfolding observe_data finish
observe_data-LogsOnce metadata none t node h = ground (
  arith,
  record_callback_lag-LogsOnce metadata t.entered (channel_attributes node node.data_topic) node h,
)
observe_data-LogsOnce metadata (some count) t node h =
    let attributes = channel_attributes node node.data_topic in
    let lagged = record_callback_lag metadata t.entered attributes node in
    let queried =
      emit
        (record_value publisher_count_duration (milliseconds (t.query_ended - t.query_started))
          attributes)
        lagged in
    let queried-LogsOnce : LogsOnce queried =
      ground (arith, record_callback_lag-LogsOnce metadata t.entered attributes node h) in
    ground (arith, data_body-LogsOnce metadata count queried queried-LogsOnce)

-- Over any messages, each kind of error is logged at most once, and its flag is set exactly if it
-- was logged: if that holds of the node before, it holds of the node after.
pub spin-LogsOnce :
    (node : RuntimeMetrics) (messages : List Message)
    → LogsOnce node
    → LogsOnce (spin node messages)
unfolding spin
spin-LogsOnce node [] h = h
spin-LogsOnce node (clock_message metadata t ∷ rest) h =
    spin-LogsOnce (observe_clock metadata t node) rest (observe_clock-LogsOnce metadata t node h)
spin-LogsOnce node (data_message metadata none t ∷ rest) h =
    rw raised-none (observe_data-LogsOnce metadata none t node h)
spin-LogsOnce node (data_message metadata (some count) t ∷ rest) h = rw raised-some (
    spin-LogsOnce (observe_data metadata (some count) t node).0 rest
      (observe_data-LogsOnce metadata (some count) t node h))
