-- ===== src/Observability/Measurements.antt =====
-- measurements.py: source-to-reception latency, and the sequence gaps of one publisher's channel.
-- A duration in milliseconds is the exact quotient of its nanoseconds and 10^6.
pub mod Gaps
pub mod Latency
use robotics_runtime_infra.Base.{
  ℕ, ◌-◌, ◌^◌, Bool, true, false, Option, none, some, List, [], ◌∷◌, ltb, leb, ◌==◌, sum_of,
  if◌then◌else◌,
}
use robotics_runtime_infra.Base.Quotient.{Quotient, divide}
use robotics_runtime_infra.Base.Value.{ℤ, pos, negsuc, Value, int, Fields, get}

abbrev pub rmw_unsupported_sequence_number : ℕ
rmw_unsupported_sequence_number = 2 ^ 64 - 1

-- `_optional_int`: a Python bool is no integer here.
pub optional_int : Value → Option ℤ
optional_int (int n) = some n
optional_int _ = none

-- `_positive_int`
pub positive_int : Value → Option ℕ
unfolding optional_int
positive_int v = elim (optional_int v) [
  | none ↦ none
  | some n ↦ elim n [ pos m ↦ if ltb 0 m then some m else none | negsuc _ ↦ none ]
]

-- `_sequence_number`
pub sequence_number : Value → Option ℕ
unfolding optional_int
sequence_number v = elim (optional_int v) [
  | none ↦ none
  | some n ↦ elim n [
    | pos m ↦ if m == rmw_unsupported_sequence_number then none else some m
    | negsuc _ ↦ none
  ]
]

latency_between : Option ℕ → Option ℕ → Option Quotient
latency_between (some source) (some received) =
    if ltb received source then none else some (divide (received - source) 1_000_000)
latency_between _ _ = none

-- `source_to_reception_latency_ms`
unfoldable pub source_to_reception_latency_ms : Fields → Option Quotient
unfolding positive_int latency_between
source_to_reception_latency_ms metadata =
    latency_between (positive_int (get metadata "source_timestamp"))
      (positive_int (get metadata "received_timestamp"))

pub record MessageMeasurement : Type 0 where
  pub age_ms : Option Quotient
  pub received_delta : Option ℕ
  pub lost_delta : Option ℕ
  pub sequence_error_delta : ℕ

pub record MessageStream : Type 0 where
  pub last_sequence : Option ℕ

abbrev pub new_stream : MessageStream
new_stream = record { last_sequence = none }

-- The number that `observe` goes on with: a valid one, from a channel with one publisher.
unfoldable pub usable_sequence : Fields → ℕ → Option ℕ
unfolding sequence_number
usable_sequence metadata publisher_count =
    elim (sequence_number (get metadata "publication_sequence_number")) [
      | none ↦ none
      | some sequence ↦ if publisher_count == 1 then some sequence else none
    ]

abbrev stale : MessageStream → ℕ → Bool
stale s sequence = elim s.last_sequence [ none ↦ false | some last ↦ leb sequence last ]

-- `max(sequence - last_sequence - 1, 0)`: `-` on ℕ stops at 0.
abbrev gap : MessageStream → ℕ → ℕ
gap s sequence = elim s.last_sequence [ none ↦ 0 | some last ↦ sequence - last - 1 ]

-- `MessageStream.observe`
unfoldable pub observe : MessageStream → Fields → ℕ → MessageMeasurement × MessageStream
observe s metadata publisher_count =
    let age_ms = source_to_reception_latency_ms metadata in
    elim (usable_sequence metadata publisher_count) [
      | none ↦ (
        record {
          age_ms = age_ms;
          received_delta = none;
          lost_delta = none;
          sequence_error_delta = 1;
        },
        s,
      )
      | some sequence ↦
          if stale s sequence
          then (
            record {
              age_ms = age_ms;
              received_delta = some 0;
              lost_delta = some 0;
              sequence_error_delta = 1;
            },
            s,
          )
          else (
            record {
              age_ms = age_ms;
              received_delta = some 1;
              lost_delta = some (gap s sequence);
              sequence_error_delta = 0;
            },
            record { last_sequence = some sequence },
          )
    ]

abbrev pub count_of : Option ℕ → ℕ
count_of none = 0
count_of (some n) = n

-- One call of `observe` for each message, in the order of reception.
pub record Observation : Type 0 where
  pub metadata : Fields
  pub publisher_count : ℕ

unfoldable pub observe_all :
    MessageStream → List Observation → List MessageMeasurement × MessageStream
observe_all s [] = ([], s)
observe_all s (o ∷ rest) =
    let (m, s') = observe s o.metadata o.publisher_count in
    let (ms, final) = observe_all s' rest in (m ∷ ms, final)

abbrev pub total_received : List MessageMeasurement → ℕ
total_received = sum_of (λ m. count_of m.received_delta)

abbrev pub total_lost : List MessageMeasurement → ℕ
total_lost = sum_of (λ m. count_of m.lost_delta)

abbrev pub total_errors : List MessageMeasurement → ℕ
total_errors = sum_of (λ m. m.sequence_error_delta)
