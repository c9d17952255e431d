-- ===== src/Observability/Tests.antt =====
-- Runs of the stream and of the metrics node, and the theorems at them.
use robotics_runtime_infra.Base.{ℕ, ◌+◌, ◌≡◌, ◌↔◌, ◌<◌, refl, none, some, List, [], ◌∷◌}
use robotics_runtime_infra.Base.Quotient.{divide}
use robotics_runtime_infra.Base.Value.{pos, int, Fields, no_fields, field, get}
use robotics_runtime_infra.Observability.Measurements.{
  new_stream, observe, usable_sequence, source_to_reception_latency_ms, Observation, observe_all,
  total_received, total_lost, total_errors,
}
use robotics_runtime_infra.Observability.Measurements.Gaps.{received_or_error, span_covered}
use robotics_runtime_infra.Observability.Measurements.Latency.{latency_iff}
use robotics_runtime_infra.Observability.Metrics.{
  RuntimeMetrics, Readings, start, Message, clock_message, data_message, spin, handled,
  messages_received, messages_lost,
}
use robotics_runtime_infra.Observability.Metrics.Counts.{
  durations, durations-spin, LogsOnce, spin-LogsOnce,
}
use robotics_runtime_infra.Observability.Metrics.Totals.{
  exported, observations, Tally, spin-Tally, exported_span,
}

abbrev metadata : ℕ → Fields
metadata n = field "source_timestamp" (int (pos 100)) (
    field "received_timestamp" (int (pos 350))
      (field "publication_sequence_number" (int (pos n)) no_fields))

abbrev observation : ℕ → ℕ → Observation
observation n publishers = record { metadata = metadata n; publisher_count = publishers }

-- 3, then 7 with two publishers, 5, the duplicate 5, and 8.
abbrev run : List Observation
run = observation 3 1 ∷ observation 7 2 ∷ observation 5 1 ∷ observation 5 1 ∷ observation 8 1 ∷ []

run_totals :
    let (ms, s) = observe_all new_stream run in
    (total_received ms ≡ 3)
    × (total_lost ms ≡ 3)
    × (total_errors ms ≡ 2)
    × (s.last_sequence ≡ some 8)
unfolding observe_all observe usable_sequence
run_totals = (refl, refl, refl, refl)

received_or_error_example :
    let (ms, _) = observe_all new_stream run in total_received ms + total_errors ms ≡ 5
received_or_error_example = received_or_error new_stream run

span_covered_example :
    let (ms, s) = observe_all new_stream run in
    (3 + total_received ms + total_lost ms ≡ 9) × (s.last_sequence ≡ some 8)
unfolding usable_sequence
span_covered_example = span_covered run 3 (5 ∷ 5 ∷ 8 ∷ []) refl

latency_iff_example :
    (source_to_reception_latency_ms (metadata 3) ≡ some (divide 250 1_000_000)) ↔ (
      (s : ℕ) × (get (metadata 3) "source_timestamp" ≡ int (pos s))
      × (get (metadata 3) "received_timestamp" ≡ int (pos (s + 250)))
      × (0 < s)
      × ((divide 250 1_000_000).divisor ≡ 1_000_000))
latency_iff_example = latency_iff (metadata 3) (divide 250 1_000_000)

abbrev readings : Readings
readings = record { started = 10; entered = 400; query_started = 11; query_ended = 12; ended = 15 }

abbrev node : RuntimeMetrics
node = start "/data" "/clock" "source" "run-1" "domain-1"

-- The query of the last data message raises, so the clock message behind it is not handled.
abbrev messages : List Message
messages =
    clock_message no_fields readings
    ∷ data_message (metadata 3) (some 1) readings
    ∷ data_message (metadata 9) (some 2) readings
    ∷ data_message (metadata 6) (some 1) readings
    ∷ clock_message (metadata 1) readings
    ∷ data_message (metadata 7) none readings
    ∷ clock_message no_fields readings
    ∷ []

durations-spin_example : durations (spin node messages) ≡ 6
unfolding handled
durations-spin_example = durations-spin node messages

spin-LogsOnce_example : LogsOnce (spin node messages)
spin-LogsOnce_example =
    spin-LogsOnce node messages (record { time_metadata = refl; age = refl; sequence = refl })

spin-Tally_example :
    let (ms, _) = observe_all node.stream (observations messages) in
    Tally (spin node messages) node (total_received ms) (total_lost ms) (total_errors ms)
spin-Tally_example = spin-Tally node messages

exported_span_example :
    3
      + exported messages_received (spin node messages)
      + exported messages_lost (spin node messages)
    ≡ 7
unfolding usable_sequence
exported_span_example =
    exported_span "/data" "/clock" "source" "run-1" "domain-1" messages 3 (6 ∷ []) refl
