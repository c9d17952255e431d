-- ===== src/Observability/Metrics/Totals.antt =====
-- The exported counters against the measurements of the stream.
use robotics_runtime_infra.Base.{ℕ, String, ◌-◌, ◌+◌, ◌≡◌, none, some, List, [], ◌∷◌, arith, sum_of}
use robotics_runtime_infra.Base.Value.{Fields}
use robotics_runtime_infra.Observability.Measurements.{
  observe, Observation, observe_all, total_received, total_lost, total_errors,
}
use robotics_runtime_infra.Observability.Measurements.Gaps.{usable, highest, span_covered}
use robotics_runtime_infra.Observability.Metrics.{
  Instrument, messages_received, messages_lost, sequence_errors, Effect, record_value, add,
  RuntimeMetrics, Readings, start, observe_clock, observe_data, Message, clock_message,
  data_message, spin, Attributes, emit, channel_attributes, publisher_count_duration, milliseconds,
  record_callback_lag, data_body, export_measurement, finish,
}
use robotics_runtime_infra.Observability.Metrics.Counts.{raised-none, raised-some}

abbrev counted : Instrument → Effect → ℕ
counted messages_received (add messages_received n _) = n
counted messages_lost (add messages_lost n _) = n
counted sequence_errors (add sequence_errors n _) = n
counted _ _ = 0

-- The total of a counter so far.
abbrev pub exported : Instrument → RuntimeMetrics → ℕ
exported i node = sum_of (counted i) node.effects

-- What the stream is given by a run: the data messages before the first whose query raises.
abbrev pub observations : List Message → List Observation
observations [] = []
observations (clock_message metadata t ∷ rest) = observations rest
observations (data_message metadata none t ∷ rest) = []
observations (data_message metadata (some count) t ∷ rest) =
    record { metadata = metadata; publisher_count = count } ∷ observations rest

-- The three counters, and the stream, of a node.
pub record Tally (node : RuntimeMetrics) (before : RuntimeMetrics) (received lost errors : ℕ)
    : Type 0 where
  pub received_total :
      exported messages_received node ≡ exported messages_received before + received
  pub lost_total : exported messages_lost node ≡ exported messages_lost before + lost
  pub errors_total : exported sequence_errors node ≡ exported sequence_errors before + errors

observe_clock-Tally :
    (metadata : Fields) (t : Readings) (node : RuntimeMetrics)
    → Tally (observe_clock metadata t node) node 0 0 0
      × ((observe_clock metadata t node).stream ≡ node.stream)
unfolding observe_clock
observe_clock-Tally metadata t node = ground arith

query_raised-Tally :
    (metadata : Fields) (t : Readings) (node : RuntimeMetrics)
    → Tally (observe_data metadata none t node).0 node 0 0 0
unfolding observe_data record_callback_lag finish
query_raised-Tally metadata t node = ground arith

lag-Tally :
    (metadata : Fields) (entered : ℕ) (attributes : Attributes) (node : RuntimeMetrics)
    → let after = record_callback_lag metadata entered attributes node in
      Tally after node 0 0 0 × (after.stream ≡ node.stream)
unfolding record_callback_lag
lag-Tally metadata entered attributes node = ground arith

data_body-Tally :
    (metadata : Fields) (count : ℕ) (node : RuntimeMetrics)
    → let (m, s) = observe node.stream metadata count in
      let after = data_body metadata count node in
      Tally after node (total_received (m ∷ [])) (total_lost (m ∷ [])) (total_errors (m ∷ []))
      × (after.stream ≡ s)
unfolding data_body export_measurement observe
data_body-Tally metadata count node = ground arith

observe_data-Tally :
    (metadata : Fields) (count : ℕ) (t : Readings) (node : RuntimeMetrics)
    → let (m, s) = observe node.stream metadata count in
      let after = (observe_data metadata (some count) t node).0 in
      Tally after node (total_received (m ∷ [])) (total_lost (m ∷ [])) (total_errors (m ∷ []))
      × (after.stream ≡ s)
unfolding observe_data finish
observe_data-Tally metadata count t node =
    let attributes = channel_attributes node node.data_topic in
    let lagged = record_callback_lag metadata t.entered attributes node in
    let query =
      record_value publisher_count_duration (milliseconds (t.query_ended - t.query_started))
        attributes in
    ground (
      arith,
      lag-Tally metadata t.entered attributes node,
      data_body-Tally metadata count (emit query lagged),
    )

-- Over any messages, the exported counters of received messages, lost messages and sequence errors
-- grow by the totals of the measurements that the stream makes of the data messages.
pub spin-Tally :
    (node : RuntimeMetrics) (messages : List Message)
    → let (ms, _) = observe_all node.stream (observations messages) in
      Tally (spin node messages) node (total_received ms) (total_lost ms) (total_errors ms)
unfolding spin observe_all
spin-Tally node [] = omega arith
spin-Tally node (clock_message metadata t ∷ rest) =
    let here = observe_clock-Tally metadata t node in
    let there = spin-Tally (observe_clock metadata t node) rest in
    ground (arith, here, rw here.1 at there)
spin-Tally node (data_message metadata none t ∷ rest) =
    rw raised-none (query_raised-Tally metadata t node)
spin-Tally node (data_message metadata (some count) t ∷ rest) =
    let here = observe_data-Tally metadata count t node in
    let there = spin-Tally (observe_data metadata (some count) t node).0 rest in
    rw raised-some (ground (arith, here, rw here.1 at there))

-- From a new node, if the usable sequence numbers of the run are `first ∷ ns`, the exported counters
-- of received and lost messages add up to the span from `first` to the highest number, both ends
-- included.
pub exported_span :
    (data_topic time_topic source_id run_id domain_id : String) (messages : List Message)
    (first : ℕ) (ns : List ℕ)
    → usable (observations messages) ≡ first ∷ ns
    → let node = spin (start data_topic time_topic source_id run_id domain_id) messages in
      first + exported messages_received node + exported messages_lost node ≡ highest first ns + 1
exported_span data_topic time_topic source_id run_id domain_id messages first ns h = omega (
  arith,
  spin-Tally (start data_topic time_topic source_id run_id domain_id) messages,
  (span_covered (observations messages) first ns h).0,
)
