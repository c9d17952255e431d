-- ===== src/Collection/Tests.antt =====
-- A simulator run whose inventory is collected, assessed and reported. A digest is the text of a
-- path, and each file has one byte.
use Prim.Native.String.{◌++◌ as append_text}
use robotics_runtime_infra.Base.{
  ℕ, ◌≡◌, ◌==◌, String, true, false, Option, none, some, List, [], ◌∷◌, ◌++◌, refl, if◌then◌else◌,
}
use robotics_runtime_infra.Base.Result.{ok}
use robotics_runtime_infra.Base.Text.{strip_prefix}
use robotics_runtime_infra.Base.Value.{
  pos, Value, int, str, obj, arr, Items, no_items, item, Fields, no_fields, field,
}
use robotics_runtime_infra.Export.Admission.{Host}
use robotics_runtime_infra.Export.Admission as Admission
use robotics_runtime_infra.Collection.Add.{
  Found, Sources, Entry, locate, relative_text, is_duplicate, append_payload, add,
}
use robotics_runtime_infra.Collection.Collect.{
  mandatory, set_defaults, Inventory, add_binding, add_bindings, checked_subjects, add_metadata,
  add_recordings, optional_bindings, add_playback, add_found, collect_state, collect,
}
use robotics_runtime_infra.Collection.Collect.Collected.{IsCollected, collect-IsCollected}
use robotics_runtime_infra.Collection.Assessment.{
  Loaded, After, Harness, Completed, Report, exit_verdict, rows_of, only_binding, strip_suffix,
  check_payloads, path_of_source, binding, checked_result, validated, still_sealed, verify_result,
  argument_texts, checked_completed, retained_root, verify_aggregate,
}
use robotics_runtime_infra.Collection.Assessment.Sealed.{IsAssessed}
use robotics_runtime_infra.Collection.Assessment.Aggregate.{IsReported, verify_aggregate-IsReported}

abbrev first_part : List String → Option String
first_part [] = none
first_part (p ∷ ps) = some p

abbrev host : Host
host = record {
  pure_path = λ s. record { text = s; parts = s ∷ []; is_absolute = false };
  is_symlink = λ parts. false;
  resolve = first_part;
  is_relative_to_source = λ s. true;
  stat = λ s. none;
  to_text = λ v. "";
  equals_number = λ v n. false;
  sha256 = λ b. "";
}

abbrev found : String → Found
found s = record { path = s; within = s; is_recording = false }

abbrev sources : Sources
sources = record {
  host = host;
  is_file = λ s. true;
  is_symlink = λ s. false;
  digest = λ s. some s;
  size = λ s. some 1;
  at_destination = λ s. append_text "/d/" s;
  decimal = λ n. if n == 0 then "0" else "n";
  recordings = λ s. found "bag.mcap" ∷ [];
  metadata = λ s. found "metadata.yaml" ∷ [];
  payloads = λ s. [];
  summaries = λ s. found "summary.json" ∷ [];
}

abbrev bound : String → String → String → Value
bound flag subject source = obj (
    field "flag" (str flag) (field "subject" (str subject) (field "source" (str source) no_fields)))

abbrev artifacts : List String → Items → Items
artifacts [] rest = rest
artifacts (s ∷ ss) rest = item (bound "--artifact" s s) (artifacts ss rest)

abbrev bindings : Items
bindings = item (bound "--scenario" "" "scenario") (
    item (bound "--runtime-manifest" "" "manifest") (
      item (bound "--acceptance-run" "" "context") (
        item (bound "--result" "robot" "result") (
          item (bound "--evidence-index" "" "index") (
            artifacts mandatory
              (artifacts ("other_evidence:providers/world.sdf" ∷ []) no_items))))))

abbrev plan : Fields
plan = field "dataSource" (str "simulator") (
    field "runId" (str "run-1") (
      field "maximumBytes" (int (pos 64)) (
        field "bagsDirectory" (str "bags") (
          field "summariesDirectory" (str "summaries")
            (field "bindings" (arr bindings) no_fields)))))

abbrev loaded : Loaded
loaded = record {
  run_id = str "run-1";
  domain_id = str "robot";
  status = str "failed";
  sha256 = "result";
  size = 1;
}

abbrev retained_file : String → Option (String × ℕ)
retained_file s = elim (strip_prefix "payloads/" s) [ none ↦ none | some t ↦ some (t, 1) ]

abbrev after : After
after = record {
  load_result = λ s. some loaded;
  is_unchanged = λ s. true;
  payload = λ s. some (s, 1);
  retained = λ root s. retained_file s;
}

abbrev harness : Harness
harness = record {
  load_result = λ s. some loaded;
  load_aggregate = λ s. some loaded;
  aggregate_results = λ a b c. some "aggregate";
  full_validation = λ ss s. some after;
  below_root = λ s. some s;
  retained = λ root s. retained_file s;
}

abbrev entry : String → Entry
entry s = record {
  name = "payload-n";
  source = s;
  relative_path = append_text "payloads/" s;
  sha256 = s;
  size_bytes = 1;
}

abbrev entries : List String → List Entry
entries [] = []
entries (s ∷ ss) = entry s ∷ entries ss

-- Flags, subjects and sources in the order of the collection.
abbrev artifact_rows : List String → List (String × String × String)
artifact_rows [] = []
artifact_rows (s ∷ ss) = ("--artifact", append_text s "=", s) ∷ artifact_rows ss

abbrev rows : List (String × String × String)
rows =
    ("--scenario", "", "scenario")
      ∷ ("--runtime-manifest", "", "manifest")
      ∷ ("--acceptance-run", "", "context")
      ∷ ("--result", "robot=", "result")
      ∷ ("--evidence-index", "", "index")
      ∷ artifact_rows mandatory
    ++ (("--artifact", "other_evidence:providers/world.sdf=", "other_evidence:providers/world.sdf")
        ∷ ("--artifact", "other_evidence:capture/bags/metadata.yaml=", "metadata.yaml")
        ∷ ("--recording-summary", "primary-0=", "summary.json")
        ∷ ("--evidence", "recording:primary-0.mcap=", "bag.mcap")
        ∷ [])

abbrev texts : String → List (String × String × String) → List String
texts prefix [] = []
texts prefix ((flag, subject, source) ∷ rest) =
    flag ∷ append_text subject (append_text prefix source) ∷ texts prefix rest

abbrev sources_of : List (String × String × String) → List String
sources_of [] = []
sources_of ((flag, subject, source) ∷ rest) = source ∷ sources_of rest

abbrev inventory : Inventory
inventory = record {
  run_id = str "run-1";
  maximum_bytes = int (pos 64);
  entries = entries (sources_of rows);
}

abbrev completed : Completed
completed = record {
  run_id = str "run-1";
  domain_id = "robot";
  verdict = str "failed";
  observer_exit_code = int (pos 1);
  result = record { sha256 = "result"; size_bytes = 1 };
  result_path = "payloads/result";
  inventory = inventory;
  arguments = texts "/d/payloads/" rows;
  source_arguments = texts "" rows;
}

abbrev items_of : List String → Items
items_of [] = no_items
items_of (s ∷ ss) = item (str s) (items_of ss)

abbrev report : Report
report = record {
  run_id = str "run-1";
  verdict = str "failed";
  aggregate_exit_code = int (pos 1);
  aggregate = record { sha256 = "result"; size_bytes = 1 };
  result = record { sha256 = "result"; size_bytes = 1 };
}

collected : collect sources true plan ≡ ok (inventory, texts "" rows, texts "/d/payloads/" rows)
unfolding collect collect_state add_bindings add_binding add locate relative_text append_payload
    is_duplicate checked_subjects add_found add_metadata add_recordings add_playback
    optional_bindings set_defaults Admission.relative Admission.inside
collected = refl

assessed : verify_result sources harness plan (int (pos 1)) ≡ ok completed
unfolding verify_result binding rows_of only_binding checked_result exit_verdict validated
    still_sealed check_payloads path_of_source collect collect_state add_bindings add_binding add
    locate relative_text append_payload is_duplicate checked_subjects add_found add_metadata
    add_recordings add_playback optional_bindings set_defaults Admission.relative Admission.inside
    strip_prefix
assessed = refl

reported :
    verify_aggregate sources harness
      (arr (items_of (texts "/d/payloads/" rows)))
      "aggregate"
      "/d/payloads/result"
      ("d" ∷ "payloads/result" ∷ [])
      completed
      (int (pos 1))
    ≡ ok report
unfolding verify_aggregate argument_texts checked_completed retained_root strip_suffix
    check_payloads exit_verdict Admission.relative strip_prefix
reported = refl

collect-IsCollected_example :
    IsCollected sources true plan inventory (texts "" rows) (texts "/d/payloads/" rows)
collect-IsCollected_example =
    collect-IsCollected sources true plan inventory (texts "" rows) (texts "/d/payloads/" rows)
      collected

verify_aggregate-IsReported_example :
    IsAssessed sources harness plan (int (pos 1)) completed
    × IsReported sources harness
        (arr (items_of (texts "/d/payloads/" rows)))
        "aggregate"
        "/d/payloads/result"
        ("d" ∷ "payloads/result" ∷ [])
        completed
        (int (pos 1))
        report
verify_aggregate-IsReported_example =
    verify_aggregate-IsReported sources harness plan (int (pos 1)) completed assessed
      (arr (items_of (texts "/d/payloads/" rows))) "aggregate" "/d/payloads/result"
      ("d" ∷ "payloads/result" ∷ []) (int (pos 1)) report reported
