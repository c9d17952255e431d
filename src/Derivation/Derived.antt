-- ===== src/Derivation/Derived.antt =====
-- The sums that hold in derived metrics.
use robotics_runtime_infra.Base.{
  suc, ◌+◌, ◌<◌, ◌≡◌, String, true, some, List, [], ◌∷◌, if◌then◌else◌,
}
use robotics_runtime_infra.Base.Result.{ok}
use robotics_runtime_infra.Base.Value.{Value, Fields, get, is_text}
use robotics_runtime_infra.Derivation.{
  Source, odom, clock, State, Window, Row, Request, selected, rows_of, all_of_run, Derivation,
  row_count,
}
use robotics_runtime_infra.Derivation.Points.{
  IsConsistent, AllPoints, sequence_in, last_sequence, Fills,
}

module _ (window : Window) where
  -- The rows that are written from a state on.
  pub record IsWritten (rows : List Row) (state next : State) (requests : List Request)
      : Type 0 where
    pub consistent : IsConsistent next
    pub all_points : AllPoints rows requests
    pub fills : Fills state.previous_sequence state.lost (rows_of odom rows) next.lost

-- The documents of a kind.
abbrev pub with_kind : String → List Fields → List Fields
with_kind kind [] = []
with_kind kind (fs ∷ rest) =
    if is_text (get fs "kind") kind then fs ∷ with_kind kind rest else with_kind kind rest

abbrev IsSelected : List Row → List Fields → Type 0
IsSelected rows documents =
    (rows_of odom rows ≡ with_kind "odom" documents)
    × (rows_of clock rows ≡ with_kind "clock" documents)

-- Derived metrics.
pub record IsDerived (run_id expected : String) (source : Source) (derivation : Derivation)
    : Type 0 where
  pub its_digest : source.sha256 source.raw ≡ expected
  pub documents : List Fields
  pub its_documents : source.loads_lines source.raw ≡ some documents
  pub all_of_run : all_of_run run_id documents ≡ true
  pub rows : List Row
  pub its_rows : selected documents ≡ ok rows
  pub every_odom : rows_of odom rows ≡ with_kind "odom" documents
  pub every_clock : rows_of clock rows ≡ with_kind "clock" documents
  pub window : derivation.window_start < derivation.window_end
  pub all_points : AllPoints rows derivation.requests
  pub its_count : derivation.rows ≡ row_count (rows_of odom rows)
  pub first : Fields
  pub others : List Fields
  pub its_odom : rows_of odom rows ≡ first ∷ others
  pub fills :
      derivation.gaps + derivation.rows + sequence_in first
      ≡ suc (last_sequence (sequence_in first) others)
