-- ===== src/Derivation.antt =====
-- `derive` of derive-otlp.py of examples/nav2-turtlebot3: metrics from the callbacks that were
-- observed. Ages and bounds are nanoseconds; `requests` are the points that are written, a request for
-- each selected row. The output directory is fresh.
pub mod Points
pub mod Derived
mod Tests
use robotics_runtime_infra.Base.{
  ℕ, zero, suc, ◌+◌, ◌-◌, String, Bool, true, false, not, ◌&&◌, ◌||◌, Option, none, some, List, [],
  ◌∷◌, leb, ltb, ◌==◌, str_eq, min, max, if◌then◌else◌,
}
use robotics_runtime_infra.Base.Result.{Result, ok, err, raise_if, or_raise, ◌>>=◌, ◌>>◌}
use robotics_runtime_infra.Base.Text.{is_sha256}
use robotics_runtime_infra.Base.Value.{
  ℤ, pos, negsuc, Value, Fields, get, has_key, as_int, as_str, as_obj, is_text,
}

abbrev pub Bytes : Type 0
Bytes = List ℕ

-- The file of the observations, its digest, and the JSON objects of its lines.
pub record Source : Type 0 where
  pub is_symlink : Bool
  pub is_file : Bool
  pub size : ℕ
  pub raw : Bytes
  pub sha256 : Bytes → String
  pub loads_lines : Bytes → Option (List Fields)

pub data Error : Type 0 where
  unbounded_source other_digest no_json foreign_run missing_key no_odom_or_clock no_window : Error
  no_age moved_backwards no_sequence reordered : Error

pub data Kind : Type 0 where
  odom clock : Kind

pub record Series : Type 0 where
  pub count : ℕ
  pub total : ℕ
  pub buckets : List ℕ

-- `state` and the other variables of the loop.
pub record State : Type 0 where
  pub odom_series : Series
  pub clock_series : Series
  pub previous_odom : ℕ
  pub previous_clock : ℕ
  pub previous_sequence : Option ℕ
  pub received : ℕ
  pub lost : ℕ

pub record Window : Type 0 where
  pub start : ℕ
  pub odom_start : ℕ
  pub clock_start : ℕ

-- A selected row, with its kind.
abbrev pub Row : Type 0
Row = Kind × Fields

-- The point of a histogram, and the counters where the row is of the odometry.
pub record Request : Type 0 where
  pub kind : Kind
  pub time_ns : ℕ
  pub series : Series
  pub counters : Option (ℕ × ℕ)

abbrev pub empty : Series
empty = record { count = 0; total = 0; buckets = 0 ∷ 0 ∷ 0 ∷ 0 ∷ 0 ∷ 0 ∷ 0 ∷ 0 ∷ 0 ∷ [] }

abbrev pub start : State
start = record {
  odom_series = empty;
  clock_series = empty;
  previous_odom = 0;
  previous_clock = 0;
  previous_sequence = none;
  received = 0;
  lost = 0;
}

-- `bounds`
abbrev pub bounds : List ℕ
bounds = 0 ∷ 100_000 ∷ 500_000 ∷ 1_000_000 ∷ 5_000_000 ∷ 10_000_000 ∷ 50_000_000 ∷ 100_000_000 ∷ []

-- `series["buckets"][bucket] += int(include_event)`, where the bucket is the first one whose bound is
-- not below the age, or the last.
unfoldable pub add_to_bucket : (age : ℕ) → (amount : ℕ) → List ℕ → List ℕ → List ℕ
add_to_bucket age amount limits [] = []
add_to_bucket age amount [] (n ∷ ns) = (n + amount) ∷ ns
add_to_bucket age amount (limit ∷ limits) (n ∷ ns) =
    let rest = add_to_bucket age amount limits ns in
    if leb age limit then (n + amount) ∷ ns else n ∷ rest

abbrev pub int_of : Bool → ℕ
int_of b = if b then 1 else 0

-- The series after an event.
abbrev pub observe_age : (age : ℕ) → Bool → Series → Series
observe_age age included s = record {
  count = s.count + int_of included;
  total = s.total + (if included then age else 0);
  buckets = add_to_bucket age (int_of included) bounds s.buckets;
}

-- A natural number of a document.
abbrev pub natural : Value → Option ℕ
natural v = elim (as_int v) [ none ↦ none | some n ↦ elim n [ pos m ↦ some m | negsuc m ↦ none ] ]

-- `received_ns - source_ns`, after the check of both.
unfoldable pub age_of : Fields → Result Error ℕ
age_of info = do
  source ← or_raise (natural (get info "source_timestamp")) no_age
  received ← or_raise (natural (get info "received_timestamp")) no_age
  raise_if (not (ltb 0 source && leb source received)) no_age
  ok (received - source)

-- The time of a row, which is later than `previous`.
unfoldable pub time_of : (first previous : ℕ) → Fields → Result Error ℕ
time_of first previous fs = do
  observed ← or_raise (natural (get fs "observed_unix_ns")) moved_backwards
  raise_if (ltb observed first || leb observed previous) moved_backwards
  ok observed

unfoldable pub sequence_of : Fields → Result Error ℕ
sequence_of info = do
  publishers ← or_raise (natural (get info "publisher_count")) no_sequence
  sequence ← or_raise (natural (get info "publication_sequence_number")) no_sequence
  raise_if (not (publishers == 1) || not (ltb sequence 18_446_744_073_709_551_615)) no_sequence
  ok sequence

-- What is lost between two sequence numbers.
unfoldable pub lost_after : Option ℕ → ℕ → Result Error ℕ
lost_after none sequence = ok 0
lost_after (some previous) sequence =
    if leb sequence previous then err reordered else ok (sequence - previous - 1)

-- The counters of the odometry.
unfoldable pub count_odom : Fields → Bool → State → Result Error State
count_odom info included state = do
  sequence ← sequence_of info
  gap ← lost_after state.previous_sequence sequence
  ok (record state {
    previous_sequence = some sequence;
    received = state.received + int_of included;
    lost = state.lost + gap;
  })

-- The body of the loop.
unfoldable pub derive_row : Window → Row → State → Result Error (State × Request)
derive_row window (odom, fs) state = do
  info ← or_raise (as_obj (get fs "message_info")) missing_key
  age ← age_of info
  observed ← time_of window.odom_start state.previous_odom fs
  let included = ltb window.start observed
  let series = observe_age age included state.odom_series
  next ← count_odom info included (record state { odom_series = series; previous_odom = observed })
  ok (
    next,
    record {
      kind = odom;
      time_ns = observed;
      series = series;
      counters = some (next.received, next.lost);
    },
  )
derive_row window (clock, fs) state = do
  info ← or_raise (as_obj (get fs "message_info")) missing_key
  age ← age_of info
  observed ← time_of window.clock_start state.previous_clock fs
  let included = ltb window.start observed
  let series = observe_age age included state.clock_series
  ok (
    record state { clock_series = series; previous_clock = observed },
    record { kind = clock; time_ns = observed; series = series; counters = none },
  )

unfoldable pub derive_rows : Window → List Row → State → Result Error (State × List Request)
derive_rows window [] state = ok (state, [])
derive_rows window (row ∷ rows) state = do
  first ← derive_row window row state
  rest ← derive_rows window rows first.0
  ok (rest.0, first.1 ∷ rest.1)

-- The rows of the odometry and of the clock.
unfoldable pub selected : List Fields → Result Error (List Row)
selected [] = ok []
selected (fs ∷ rest) = do
  raise_if (not (has_key fs "kind")) missing_key
  rows ← selected rest
  ok (
      if is_text (get fs "kind") "odom"
      then (odom, fs) ∷ rows
      else if is_text (get fs "kind") "clock"
      then (clock, fs) ∷ rows
      else rows)

abbrev pub same_kind : Kind → Kind → Bool
same_kind odom odom = true
same_kind clock clock = true
same_kind odom clock = false
same_kind clock odom = false

-- The rows of a kind.
abbrev pub rows_of : Kind → List Row → List Fields
rows_of kind [] = []
rows_of kind ((k, fs) ∷ rest) =
    if same_kind kind k then fs ∷ rows_of kind rest else rows_of kind rest

abbrev pub first_of : List Fields → Option Fields
first_of [] = none
first_of (fs ∷ rest) = some fs

abbrev pub last_of : List Fields → Option Fields
last_of [] = none
last_of (fs ∷ rest) = elim (last_of rest) [ none ↦ some fs | some last ↦ some last ]

-- `row["observed_unix_ns"]`. One that is no natural number is refused at once; the source refuses it
-- when it comes to that row.
unfoldable pub observed_at : Option Fields → Result Error ℕ
observed_at row = do
  fs ← or_raise row no_odom_or_clock
  or_raise (natural (get fs "observed_unix_ns")) moved_backwards

abbrev pub all_of_run : String → List Fields → Bool
all_of_run run_id [] = true
all_of_run run_id (fs ∷ rest) = is_text (get fs "run_id") run_id && all_of_run run_id rest

-- The file, whose digest is the expected one.
unfoldable pub admitted : Source → String → Result Error (List Fields)
admitted source expected = do
  raise_if (source.is_symlink || not source.is_file || ltb 16_777_216 source.size) unbounded_source
  raise_if (not (is_sha256 expected) || not (str_eq (source.sha256 source.raw) expected))
      other_digest
  or_raise (source.loads_lines source.raw) no_json

-- `starts`, `window_start` and `window_end`.
unfoldable pub window_of : List Row → Result Error (Window × ℕ)
window_of rows = do
  odom_start ← observed_at (first_of (rows_of odom rows))
  clock_start ← observed_at (first_of (rows_of clock rows))
  odom_end ← observed_at (last_of (rows_of odom rows))
  clock_end ← observed_at (last_of (rows_of clock rows))
  raise_if (leb (max odom_end clock_end) (min odom_start clock_start)) no_window
  ok (
    record {
      start = min odom_start clock_start;
      odom_start = odom_start;
      clock_start = clock_start;
    },
    max odom_end clock_end,
  )

-- What `derivation.json` tells, with the written requests.
pub record Derivation : Type 0 where
  pub window_start : ℕ
  pub window_end : ℕ
  pub received : ℕ
  pub rows : ℕ
  pub gaps : ℕ
  pub requests : List Request

abbrev pub row_count : List Fields → ℕ
row_count [] = 0
row_count (fs ∷ rest) = suc (row_count rest)

-- `derive`
unfoldable pub derive : Source → (run_id expected : String) → Result Error Derivation
derive source run_id expected = do
  documents ← admitted source expected
  raise_if (not (all_of_run run_id documents)) foreign_run
  rows ← selected documents
  window ← window_of rows
  derived ← derive_rows window.0 rows start
  ok (record {
    window_start = window.0.start;
    window_end = window.1;
    received = derived.0.received;
    rows = row_count (rows_of odom rows);
    gaps = derived.0.lost;
    requests = derived.1;
  })
