-- ===== src/Collection/Assessment.antt =====
-- `_exit_verdict`, `_binding`, `_check_payloads`, `verify_result` and `verify_aggregate` of
-- collect_inventory.py. The acceptance harness and the contract tools are outside: `Harness`. What
-- the files hold once the full validation has run is its answer, an `After`.
pub mod Sealed
pub mod Aggregate
use robotics_runtime_infra.Base.{
  ℕ, suc, ◌+◌, String, Bool, true, false, not, ◌&&◌, ◌||◌, Option, none, some, List, [], ◌∷◌,
  length, sum_of, leb, ltb, ◌==◌, str_eq, if◌then◌else◌,
}
use robotics_runtime_infra.Base.Result.{Result, ok, err, raise_if, or_raise, ◌>>=◌, ◌>>◌}
use robotics_runtime_infra.Base.Value.{
  ℤ, pos, negsuc, Value, str, int, Items, no_items, item, Fields, get, has_key, as_int, as_str,
  as_obj, as_arr, is_text,
}
use robotics_runtime_infra.Base.Documents.{texts_of}
use robotics_runtime_infra.Export.Admission.{text_of, PurePath}
use robotics_runtime_infra.Export.Admission as Admission
use robotics_runtime_infra.Collection.Add.{
  Sources, Error, no_bindings, missing_key, over_bound, not_one_binding, no_result, other_run,
  bad_exit_code, other_verdict, not_valid, other_payload, changed_result, no_entry, bad_arguments,
  other_arguments, other_result, other_path, changed_assessment, unreadable, unsafe_path, Entry,
  locate,
}
use robotics_runtime_infra.Collection.Collect.{Inventory, collect}

-- What the harness reads of a canonical document, with its bytes' digest and size.
pub record Loaded : Type 0 where
  pub run_id : Value
  pub domain_id : Value
  -- `status` of a result, `per_domain_aggregate` of an aggregate.
  pub status : Value
  pub sha256 : String
  pub size : ℕ

-- What is read after a full validation.
pub record After : Type 0 where
  pub load_result : String → Option Loaded
  -- Whether the aggregate's bytes are still those that were loaded.
  pub is_unchanged : String → Bool
  -- Digest and size of the file at a path of the source.
  pub payload : String → Option (String × ℕ)
  -- The file of an output path below a retained directory.
  pub retained : List String → String → Option (String × ℕ)

pub record Harness : Type 0 where
  pub load_result : String → Option Loaded
  pub load_aggregate : String → Option Loaded
  pub aggregate_results : String → String → String → Option String
  -- The validation of the arguments with an aggregate, and what is read after it; `none` where it
  -- fails.
  pub full_validation : List String → String → Option After
  -- The path of an admitted result relative to the source root.
  pub below_root : String → Option String
  -- The file of an output path below a retained directory, before the validation.
  pub retained : List String → String → Option (String × ℕ)

pub record Seal : Type 0 where
  pub sha256 : String
  pub size_bytes : ℕ

-- What `verify_result` returns.
pub record Completed : Type 0 where
  pub run_id : Value
  pub domain_id : String
  pub verdict : Value
  pub observer_exit_code : Value
  pub result : Seal
  pub result_path : String
  pub inventory : Inventory
  pub arguments : List String
  pub source_arguments : List String

-- What `verify_aggregate` returns.
pub record Report : Type 0 where
  pub run_id : Value
  pub verdict : Value
  pub aggregate_exit_code : Value
  pub aggregate : Seal
  pub result : Seal

-- `_exit_verdict`
unfoldable pub exit_verdict : Value → Value → Result Error (Unit {0})
exit_verdict exit_code verdict = elim (as_int exit_code) [
  | none ↦ err bad_exit_code
  | some n ↦ elim n [
    | negsuc m ↦ err bad_exit_code
    | pos m ↦
        if not (m == 0 || m == 1)
        then err bad_exit_code
        else raise_if (not (m == (if is_text verdict "passed" then 0 else 1))) other_verdict
  ]
]

-- `[row for row in plan["bindings"] if row["flag"] == flag]`
unfoldable pub rows_of : String → Items → List Fields
rows_of flag no_items = []
rows_of flag (item v vs) = elim (as_obj v) [
  | none ↦ rows_of flag vs
  | some fs ↦ if is_text (get fs "flag") flag then fs ∷ rows_of flag vs else rows_of flag vs
]

unfoldable pub only_binding : List Fields → Option Fields
only_binding [] = none
only_binding (x ∷ []) = some x
only_binding (x ∷ y ∷ xs) = none

-- `a == b` of two texts.
abbrev pub same_text : Value → Value → Bool
same_text a b = elim (as_str b) [ none ↦ false | some s ↦ is_text a s ]

abbrev pub same_texts : List String → List String → Bool
same_texts [] [] = true
same_texts [] (t ∷ ts) = false
same_texts (s ∷ ss) [] = false
same_texts (s ∷ ss) (t ∷ ts) = str_eq s t && same_texts ss ts

-- The parts before a suffix.
unfoldable pub strip_suffix : List String → List String → Option (List String)
strip_suffix [] suffix = if same_texts [] suffix then some [] else none
strip_suffix (p ∷ ps) suffix =
    let stripped = strip_suffix ps suffix in
    if same_texts (p ∷ ps) suffix
    then some []
    else elim stripped [ none ↦ none | some root ↦ some (p ∷ root) ]

-- The body of `_check_payloads`, of the file that is found for an entry.
abbrev pub is_same_payload : Entry → Option (String × ℕ) → Bool
is_same_payload e found = elim found [
  | none ↦ false
  | some (digest, size) ↦ size == e.size_bytes && str_eq digest e.sha256
]

-- `_check_payloads`
unfoldable pub check_payloads : (Entry → Option (String × ℕ)) → List Entry → Result Error (Unit {0})
check_payloads file [] = ok tt
check_payloads file (e ∷ es) = do
  raise_if (not (is_same_payload e (file e))) other_payload
  check_payloads file es

-- `next(row["relativePath"] for row in … if row["source"] == source)`
unfoldable pub path_of_source : String → List Entry → Option String
path_of_source source [] = none
path_of_source source (e ∷ es) =
    if str_eq e.source source then some e.relative_path else path_of_source source es

abbrev pub bytes_of : List Entry → ℕ
bytes_of = sum_of (λ (e : Entry). e.size_bytes)

-- `total > maximum`
abbrev pub is_over : ℕ → Value → Option Bool
is_over total v = elim (as_int v) [
  | none ↦ none
  | some n ↦ elim n [ pos m ↦ some (ltb m total) | negsuc m ↦ some true ]
]

module _ (sources : Sources) (harness : Harness) where
  -- `_binding`
  unfoldable pub binding : Fields → String → Result Error (String × String)
  binding plan flag = do
    bindings ← or_raise (as_arr (get plan "bindings")) no_bindings
    row ← or_raise (only_binding (rows_of flag bindings)) not_one_binding
    located ← locate sources (text_of sources.host (get row "source"))
    ok ((if has_key row "subject" then text_of sources.host (get row "subject") else ""), located.1)

  -- The file of an entry in the source directory, after a validation.
  abbrev pub source_file : After → Entry → Option (String × ℕ)
  source_file validation e = elim (locate sources e.source) [
    | err x ↦ none
    | ok located ↦ validation.payload located.1
  ]

  -- The result of the admitted run, whose verdict is that of the exit code.
  unfoldable pub checked_result : Fields → Value → String → String → Result Error Loaded
  checked_result plan exit_code domain path = do
    result ← or_raise (harness.load_result path) no_result
    raise_if
        (not (same_text result.run_id (get plan "runId")) || not (is_text result.domain_id domain))
        other_run
    exit_verdict exit_code result.status
    ok result

  -- The aggregate and its full validation.
  unfoldable pub validated : Fields → String → List String → Result Error After
  validated plan path arguments = do
    scenario ← binding plan "--scenario"
    context ← binding plan "--acceptance-run"
    aggregate ← or_raise (harness.aggregate_results scenario.1 context.1 path) not_valid
    or_raise (harness.full_validation arguments aggregate) not_valid

  -- The result is the one that was loaded before.
  unfoldable pub still_sealed : After → String → Loaded → Result Error (Unit {0})
  still_sealed validation path result = do
    current ← or_raise (validation.load_result path) no_result
    raise_if (not (str_eq current.sha256 result.sha256) || not (current.size == result.size))
        changed_result

  -- `verify_result`
  unfoldable pub verify_result : Fields → Value → Result Error Completed
  verify_result plan exit_code = do
    collected ← collect sources true plan
    let inventory = collected.0
    over ← or_raise (is_over (bytes_of inventory.entries) (get plan "maximumBytes")) over_bound
    raise_if over over_bound
    bound ← binding plan "--result"
    result ← checked_result plan exit_code bound.0 bound.1
    validation ← validated plan bound.1 collected.1
    check_payloads (source_file validation) inventory.entries
    still_sealed validation bound.1 result
    relative ← or_raise (harness.below_root bound.1) no_entry
    result_path ← or_raise (path_of_source relative inventory.entries) no_entry
    ok (record {
      run_id = get plan "runId";
      domain_id = bound.0;
      verdict = result.status;
      observer_exit_code = exit_code;
      result = record { sha256 = result.sha256; size_bytes = result.size };
      result_path = result_path;
      inventory = inventory;
      arguments = collected.2;
      source_arguments = collected.1;
    })

  -- `len(arguments) > 8192` and the other tests of the first check.
  unfoldable pub argument_texts : Value → Result Error (List String)
  argument_texts v = do
    items ← or_raise (as_arr v) bad_arguments
    texts ← or_raise (texts_of items) bad_arguments
    raise_if (ltb 8192 (length texts)) bad_arguments
    ok texts

  -- The retained result against the completed assessment.
  unfoldable pub checked_completed : String → Completed → Result Error Loaded
  checked_completed path completed = do
    result ← or_raise (harness.load_result path) no_result
    raise_if
        (not (str_eq result.sha256 completed.result.sha256)
          || not (result.size == completed.result.size_bytes)
          || not (same_text result.run_id completed.run_id)
          || not (is_text result.domain_id completed.domain_id)
          || not (same_text result.status completed.verdict))
        other_result
    exit_verdict completed.observer_exit_code result.status
    ok result

  -- The directory that the result's path leaves when its relative path is taken off.
  unfoldable pub retained_root : List String → String → Result Error (List String)
  retained_root parts relative = elim (Admission.relative sources.host relative) [
    | err e ↦ err unsafe_path
    | ok path ↦ or_raise (strip_suffix parts path.parts) other_path
  ]

  -- `verify_aggregate`; `result_parts` are those of the absolute path of the result.
  unfoldable pub verify_aggregate :
      Value → String → String → List String → Completed → Value → Result Error Report
  verify_aggregate arguments aggregate result_path result_parts completed exit_code = do
    texts ← argument_texts arguments
    raise_if (not (same_texts texts completed.arguments)) other_arguments
    result ← checked_completed result_path completed
    root ← retained_root result_parts completed.result_path
    check_payloads (λ e. harness.retained root e.relative_path) completed.inventory.entries
    document ← or_raise (harness.load_aggregate aggregate) no_result
    exit_verdict exit_code document.status
    validation ← or_raise (harness.full_validation texts aggregate) not_valid
    again ← or_raise (validation.load_result result_path) no_result
    raise_if (not (validation.is_unchanged aggregate) || not (str_eq again.sha256 result.sha256))
        changed_assessment
    check_payloads (λ e. validation.retained root e.relative_path) completed.inventory.entries
    ok (record {
      run_id = completed.run_id;
      verdict = document.status;
      aggregate_exit_code = exit_code;
      aggregate = record { sha256 = document.sha256; size_bytes = document.size };
      result = completed.result;
    })
