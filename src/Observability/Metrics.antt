-- ===== src/Observability/Metrics.antt =====
-- runtime_metrics.py: the callbacks of the `RuntimeMetrics` node, as functions from the node before
-- to the node after, with what they export and log kept newest first.
-- The readings of the two clocks and the publisher count come from outside and are arguments.
pub mod Counts
pub mod Totals
use robotics_runtime_infra.Base.{
  ℕ, ◌-◌, ◌*◌, String, Bool, true, false, Option, none, some, List, [], ◌∷◌, ◌||◌, ltb, leb, ◌++◌,
  if◌then◌else◌,
}
use robotics_runtime_infra.Base.Quotient.{Quotient, divide}
use robotics_runtime_infra.Base.Value.{ℤ, pos, negsuc, Value, int, Fields, get}
use robotics_runtime_infra.Observability.Measurements.{
  MessageStream, MessageMeasurement, new_stream, observe, source_to_reception_latency_ms,
}

pub data Instrument : Type 0 where
  delivery_latency message_age callback_lag callback_duration : Instrument
  publisher_count_duration messages_received messages_lost sequence_errors : Instrument

pub data Log : Type 0 where
  missing_time_metadata missing_age missing_sequence : Log

abbrev pub Attributes : Type 0
Attributes = List (String × String)

-- A histogram's value is a duration in milliseconds, a counter's is a count.
pub data Effect : Type 0 where
  record_value : Instrument → Quotient → Attributes → Effect
  add : Instrument → ℕ → Attributes → Effect
  log_error : Log → Effect

pub record RuntimeMetrics : Type 0 where
  pub data_topic : String
  pub time_topic : String
  pub source_id : String
  pub run_id : String
  pub domain_id : String
  pub stream : MessageStream
  pub missing_time_metadata_logged : Bool
  pub missing_age_logged : Bool
  pub missing_sequence_logged : Bool
  pub effects : List Effect

-- The node as `__init__` leaves it.
abbrev pub start : (data_topic time_topic source_id run_id domain_id : String) → RuntimeMetrics
start data_topic time_topic source_id run_id domain_id = record {
  data_topic = data_topic;
  time_topic = time_topic;
  source_id = source_id;
  run_id = run_id;
  domain_id = domain_id;
  stream = new_stream;
  missing_time_metadata_logged = false;
  missing_age_logged = false;
  missing_sequence_logged = false;
  effects = [];
}

-- What a callback reads of `perf_counter_ns` (all but `entered`) and of `time_ns` (`entered`).
pub record Readings : Type 0 where
  pub started : ℕ
  pub entered : ℕ
  pub query_started : ℕ
  pub query_ended : ℕ
  pub ended : ℕ

-- A difference of nanoseconds, in milliseconds.
abbrev pub milliseconds : ℕ → Quotient
milliseconds ns = divide ns 1_000_000

abbrev emit : Effect → RuntimeMetrics → RuntimeMetrics
emit e node = record node { effects = e ∷ node.effects }

abbrev common_attributes : RuntimeMetrics → Attributes
common_attributes node = ("run.id", node.run_id) ∷ ("domain.id", node.domain_id) ∷ []

abbrev channel_attributes : RuntimeMetrics → String → Attributes
channel_attributes node topic = common_attributes node ++ (("channel", topic) ∷ [])

-- `_record_callback_lag`
record_callback_lag : Fields → ℕ → Attributes → RuntimeMetrics → RuntimeMetrics
record_callback_lag metadata entered attributes node = elim (get metadata "received_timestamp") [
  | int n ↦ elim n [
    | pos received ↦
        if leb received 0 || ltb entered received
        then node
        else emit (record_value callback_lag (milliseconds (entered - received)) attributes) node
    | negsuc _ ↦ node
  ]
  | _ ↦ node
]

-- The body of the `try` of `_observe_clock`.
clock_body : Fields → RuntimeMetrics → RuntimeMetrics
clock_body metadata node = elim (source_to_reception_latency_ms metadata) [
  | none ↦
      if node.missing_time_metadata_logged
      then node
      else record (emit (log_error missing_time_metadata) node) {
        missing_time_metadata_logged = true;
      }
  | some latency ↦
      emit
        (record_value delivery_latency latency (
          channel_attributes node node.time_topic
          ++ (("time.measurement.method", "rmw_source_to_reception_latency")
              ∷ ("time.source.id", node.source_id)
              ∷ [])))
        node
]

-- `finally: self._callback_duration.record(…)`
finish : Readings → Attributes → RuntimeMetrics → RuntimeMetrics
finish t attributes node =
    emit (record_value callback_duration (milliseconds (t.ended - t.started)) attributes) node

-- `_observe_clock`
pub observe_clock : Fields → Readings → RuntimeMetrics → RuntimeMetrics
unfolding record_callback_lag clock_body finish
observe_clock metadata t node =
    let attributes = channel_attributes node node.time_topic in
    finish t attributes
      (clock_body metadata (record_callback_lag metadata t.entered attributes node))

record_age : Option Quotient → Attributes → RuntimeMetrics → RuntimeMetrics
record_age none attributes node =
    if node.missing_age_logged
    then node
    else record (emit (log_error missing_age) node) { missing_age_logged = true }
record_age (some age) attributes node = emit (record_value message_age age attributes) node

missing_sequence_metadata : RuntimeMetrics → RuntimeMetrics
missing_sequence_metadata node =
    if node.missing_sequence_logged
    then node
    else record (emit (log_error missing_sequence) node) { missing_sequence_logged = true }

record_delivery : Option ℕ → Option ℕ → Attributes → RuntimeMetrics → RuntimeMetrics
unfolding missing_sequence_metadata
record_delivery (some received) (some lost) attributes node =
    emit (add messages_lost lost attributes) (emit (add messages_received received attributes) node)
record_delivery (some received) none attributes node = missing_sequence_metadata node
record_delivery none lost attributes node = missing_sequence_metadata node

-- What `_observe_data` exports of a measurement.
export_measurement : MessageMeasurement → Attributes → Attributes → RuntimeMetrics → RuntimeMetrics
unfolding record_age record_delivery
export_measurement m channel sequence node =
    record_delivery m.received_delta m.lost_delta sequence (
      emit (add sequence_errors m.sequence_error_delta sequence) (record_age m.age_ms channel node))

-- The body of the outer `try` of `_observe_data`, after the publisher query.
data_body : Fields → ℕ → RuntimeMetrics → RuntimeMetrics
data_body metadata publisher_count node =
    let (m, s) = observe node.stream metadata publisher_count in
    let channel = channel_attributes node node.data_topic in
    export_measurement m channel
      (channel
        ++ (("sequence.measurement.method", "rmw_publication_sequence_single_publisher") ∷ []))
      (record node { stream = s })

-- `_observe_data`. The query of the publisher count may raise (`none`): both `finally` blocks run,
-- and the exception leaves the callback, which the second component says.
pub observe_data : Fields → Option ℕ → Readings → RuntimeMetrics → RuntimeMetrics × Bool
observe_data metadata publisher_count t node =
    let attributes = channel_attributes node node.data_topic in
    let queried =
      emit
        (record_value publisher_count_duration (milliseconds (t.query_ended - t.query_started))
          attributes)
        (record_callback_lag metadata t.entered attributes node) in
    elim publisher_count [
      | none ↦ (finish t attributes queried, true)
      | some count ↦ (finish t attributes (data_body metadata count queried), false)
    ]

-- The messages that the node's executor hands to the two callbacks.
pub data Message : Type 0 where
  clock_message : Fields → Readings → Message
  data_message : Fields → Option ℕ → Readings → Message

-- A callback that raises ends `rclpy.spin`, and no later message is handled.
unfoldable pub spin : RuntimeMetrics → List Message → RuntimeMetrics
spin node [] = node
spin node (clock_message metadata t ∷ rest) = spin (observe_clock metadata t node) rest
spin node (data_message metadata count t ∷ rest) =
    let (node', raised) = observe_data metadata count t node in
    let continued = spin node' rest in if raised then node' else continued

-- The messages whose callback runs.
unfoldable pub handled : List Message → List Message
handled [] = []
handled (clock_message metadata t ∷ rest) = clock_message metadata t ∷ handled rest
handled (data_message metadata none t ∷ rest) = data_message metadata none t ∷ []
handled (data_message metadata (some count) t ∷ rest) =
    data_message metadata (some count) t ∷ handled rest
