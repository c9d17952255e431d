-- ===== src/Derivation/Tests.antt =====
-- Three rows of the odometry with one that was lost between them, and two of the clock.
use robotics_runtime_infra.Base.{ℕ, String, true, false, none, some, List, [], ◌∷◌}
use robotics_runtime_infra.Base.Value.{pos, str, int, obj, Fields, no_fields, field}
use robotics_runtime_infra.Derivation.{Source, Series, odom, clock, Derivation}

abbrev digest : String
digest = "aaaaaaaaaaaaaaaaaaaaaaaaaaaaaaaaaaaaaaaaaaaaaaaaaaaaaaaaaaaaaaaa"

abbrev row : String → ℕ → ℕ → ℕ → Fields
row kind observed received sequence = field "run_id" (str "run-1") (
    field "kind" (str kind) (
      field "observed_unix_ns" (int (pos observed)) (
        field "message_info"
          (obj (
            field "source_timestamp" (int (pos 5)) (
              field "received_timestamp" (int (pos received)) (
                field "publisher_count" (int (pos 1))
                  (field "publication_sequence_number" (int (pos sequence)) no_fields)))))
          no_fields)))

abbrev source : Source
source = record {
  is_symlink = false;
  is_file = true;
  size = 500;
  raw = 1 ∷ [];
  sha256 = λ b. digest;
  loads_lines = λ b. some (
      row "odom" 10 5 3
      ∷ row "clock" 11 200_005 0
      ∷ row "odom" 12 5 4
      ∷ row "goal" 12 0 0
      ∷ row "odom" 13 600_005 6
      ∷ row "clock" 14 5 0
      ∷ []);
}

abbrev point : ℕ → ℕ → List ℕ → Series
point count total buckets = record { count = count; total = total; buckets = buckets }

abbrev derivation : Derivation
derivation = record {
  window_start = 10;
  window_end = 14;
  received = 2;
  rows = 3;
  gaps = 1;
  requests =
      record {
        kind = odom;
        time_ns = 10;
        series = point 0 0 (0 ∷ 0 ∷ 0 ∷ 0 ∷ 0 ∷ 0 ∷ 0 ∷ 0 ∷ 0 ∷ []);
        counters = some (0, 0);
      }
      ∷ record {
        kind = clock;
        time_ns = 11;
        series = point 1 200_000 (0 ∷ 0 ∷ 1 ∷ 0 ∷ 0 ∷ 0 ∷ 0 ∷ 0 ∷ 0 ∷ []);
        counters = none;
      }
      ∷ record {
        kind = odom;
        time_ns = 12;
        series = point 1 0 (1 ∷ 0 ∷ 0 ∷ 0 ∷ 0 ∷ 0 ∷ 0 ∷ 0 ∷ 0 ∷ []);
        counters = some (1, 0);
      }
      ∷ record {
        kind = odom;
        time_ns = 13;
        series = point 2 600_000 (1 ∷ 0 ∷ 0 ∷ 1 ∷ 0 ∷ 0 ∷ 0 ∷ 0 ∷ 0 ∷ []);
        counters = some (2, 1);
      }
      ∷ record {
        kind = clock;
        time_ns = 14;
        series = point 2 200_000 (1 ∷ 0 ∷ 1 ∷ 0 ∷ 0 ∷ 0 ∷ 0 ∷ 0 ∷ 0 ∷ []);
        counters = none;
      }
      ∷ [];
}
