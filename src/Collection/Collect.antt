-- ===== src/Collection/Collect.antt =====
-- `collect` of collect_inventory.py.
pub mod Refined
pub mod Collected
use Prim.Native.String.{◌++◌ as append_text}
use robotics_runtime_infra.Base.{
  ℕ, suc, String, Bool, true, false, not, ◌&&◌, ◌||◌, Option, none, some, List, [], ◌∷◌, ◌++◌,
  length, ◌==◌, str_eq, if◌then◌else◌,
}
use robotics_runtime_infra.Base.Result.{Result, ok, err, raise_if, or_raise, ◌>>=◌, ◌>>◌}
use robotics_runtime_infra.Base.Text.{member, all_in}
use robotics_runtime_infra.Base.Value.{
  Value, str, Items, no_items, item, Fields, get, has_key, as_obj, as_arr, is_text,
}
use robotics_runtime_infra.Export.Admission.{text_of}
use robotics_runtime_infra.Collection.Add.{
  Found, Sources, Error, no_bindings, not_an_object, missing_key, incomplete_inventory, no_world,
  no_dataset, incomplete_core, other_recordings, reused_recording, unknown_source, unreadable,
  Entry, State, start, locate, relative_text, add,
}

abbrev pub mandatory : List String
mandatory =
    "metrics:metrics.otlp.jsonl" ∷ "junit:junit.xml" ∷ "other_evidence:fastdds-profile.xml"
    ∷ "other_evidence:host-topology.json" ∷ "other_evidence:runtime-resources.json"
    ∷ "other_evidence:capture/qos-overrides.yaml" ∷ "other_evidence:capture/mcap-writer.yaml"
    ∷ "qualification_profile:providers/profile.json"
    ∷ "provider_conformance:providers/conformance.json"
    ∷ "other_evidence:providers/configuration.json" ∷ "other_evidence:providers/observation.json"
    ∷ "other_evidence:logs/foundation.log" ∷ "other_evidence:logs/observer.log" ∷ []

abbrev pub core_flags : List String
core_flags =
    "--scenario" ∷ "--runtime-manifest" ∷ "--acceptance-run" ∷ "--result" ∷ "--evidence-index" ∷ []

-- `arguments[::2]`
abbrev pub every_other : List String → List String
every_other [] = []
every_other (a ∷ []) = a ∷ []
every_other (a ∷ b ∷ rest) = a ∷ every_other rest

-- `unique.setdefault(entry["relativePath"], entry)` over the entries.
abbrev pub paths_of : List Entry → List String
paths_of [] = []
paths_of (e ∷ es) = e.relative_path ∷ paths_of es

unfoldable pub set_defaults : List Entry → List Entry → List Entry
set_defaults unique [] = unique
set_defaults unique (e ∷ es) =
    set_defaults (if member e.relative_path (paths_of unique) then unique else unique ++ (e ∷ []))
      es

pub record Inventory : Type 0 where
  pub run_id : Value
  pub maximum_bytes : Value
  pub entries : List Entry

module _ (sources : Sources) (source_arguments : Bool) where
  -- `str(item[key])`
  abbrev required_text : Fields → String → Result Error String
  required_text fs key =
      if has_key fs key then ok (text_of sources.host (get fs key)) else err missing_key

  -- `str(item.get("subject", ""))`
  abbrev subject_of : Fields → String
  subject_of fs = if has_key fs "subject" then text_of sources.host (get fs "subject") else ""

  -- The body of the loops over bindings; `optional` is the loop whose subject may be left out.
  unfoldable pub add_binding : Bool → Bool → Value → State → Result Error State
  add_binding optional deduplicate v state = do
    fs ← or_raise (as_obj v) not_an_object
    flag ← required_text fs "flag"
    subject ← if optional then ok (subject_of fs) else required_text fs "subject"
    source ← required_text fs "source"
    add sources source_arguments flag subject source deduplicate state

  unfoldable pub add_bindings : Bool → Bool → Items → State → Result Error State
  add_bindings optional deduplicate no_items state = ok state
  add_bindings optional deduplicate (item v vs) state = do
    next ← add_binding optional deduplicate v state
    add_bindings optional deduplicate vs next

  -- `{str(item.get("subject", "")) for item in bindings}`
  abbrev subjects_of : Items → List String
  subjects_of no_items = []
  subjects_of (item v vs) = elim (as_obj v) [
    | none ↦ subjects_of vs
    | some fs ↦ subject_of fs ∷ subjects_of vs
  ]

  -- The checks after the first loop.
  unfoldable pub checked_subjects : Fields → List String → List String → Result Error (Unit {0})
  checked_subjects plan subjects arguments = do
    raise_if (not (all_in mandatory subjects)) incomplete_inventory
    raise_if
        (is_text (get plan "dataSource") "simulator"
          && not (member "other_evidence:providers/world.sdf" subjects))
        no_world
    raise_if
        (is_text (get plan "dataSource") "recording_playback"
          && not (member "dataset_manifest:dataset-manifest.json" subjects))
        no_dataset
    raise_if (not (all_in core_flags (every_other arguments))) incomplete_core

  unfoldable pub add_metadata : List Found → State → Result Error State
  add_metadata [] state = ok state
  add_metadata (f ∷ fs) state = do
    next ←
        add sources source_arguments "--artifact"
          (append_text "other_evidence:capture/bags/" f.within) f.path false state
    add_metadata fs next

  -- The loop over the summaries with their recordings; the lists are equally long.
  unfoldable pub add_recordings : ℕ → List Found → List Found → State → Result Error State
  add_recordings index [] [] state = ok state
  add_recordings index [] (r ∷ rs) state = err other_recordings
  add_recordings index (s ∷ ss) [] state = err other_recordings
  add_recordings index (s ∷ ss) (r ∷ rs) state = do
    let primary = append_text "primary-" (sources.decimal index)
    next ← add sources source_arguments "--recording-summary" primary s.path false state
    last ←
        add sources source_arguments "--evidence"
          (append_text "recording:" (append_text primary ".mcap")) r.path false next
    add_recordings (suc index) ss rs last

  -- No recording has the bytes of the one that was played. Each was located by `add` before.
  unfoldable pub checked_new : String → List Found → Result Error (Unit {0})
  checked_new original [] = ok tt
  checked_new original (r ∷ rs) = do
    located ← locate sources r.path
    digest ← or_raise (sources.digest located.1) unreadable
    raise_if (str_eq digest original) reused_recording
    checked_new original rs

  unfoldable pub add_payloads : List Found → State → Result Error State
  add_payloads [] state = ok state
  add_payloads (f ∷ fs) state = do
    let kind = if f.is_recording then "recording:" else "other_evidence:"
    next ← add sources source_arguments "--artifact" (append_text kind f.path) f.path true state
    add_payloads fs next

  -- `plan.get(key, [])`
  unfoldable pub optional_bindings : Fields → String → Result Error Items
  optional_bindings plan key =
      if has_key plan key then or_raise (as_arr (get plan key)) no_bindings else ok no_items

  -- The branch on the plan's data source.
  unfoldable pub add_playback : Fields → List Found → State → Result Error State
  add_playback plan recordings state =
      if is_text (get plan "dataSource") "recording_playback"
      then (do
        original ← required_text plan "playbackSourceSha256"
        checked_new original recordings
        directory ← required_text plan "playbackSourceDirectory"
        searched ← relative_text sources directory
        next ← add_payloads (sources.payloads searched) state
        bindings ← optional_bindings plan "playbackBindings"
        add_bindings false true bindings next)
      else if is_text (get plan "dataSource") "simulator"
      then ok state
      else err unknown_source

  -- The searches, from the directories of the plan.
  unfoldable pub add_found : Fields → State → Result Error State
  add_found plan state = do
    bags ← required_text plan "bagsDirectory"
    bag_directory ← relative_text sources bags
    summaries ← required_text plan "summariesDirectory"
    summary_directory ← relative_text sources summaries
    let recordings = sources.recordings bag_directory
    let found = sources.summaries summary_directory
    raise_if (length found == 0 || not (length recordings == length found)) other_recordings
    described ← add_metadata (sources.metadata bag_directory) state
    recorded ← add_recordings 0 found recordings described
    add_playback plan recordings recorded

  -- `collect`, before the entries of one path are joined.
  unfoldable pub collect_state : Fields → Result Error State
  collect_state plan = do
    bindings ← or_raise (as_arr (get plan "bindings")) no_bindings
    bound ← add_bindings true false bindings start
    checked_subjects plan (subjects_of bindings) bound.arguments
    found ← add_found plan bound
    products ← optional_bindings plan "productAndReadinessBindings"
    add_bindings false false products found

  -- `collect`: the inventory, the arguments and the retained arguments.
  unfoldable pub collect : Fields → Result Error (Inventory × List String × List String)
  collect plan = do
    state ← collect_state plan
    raise_if (not (has_key plan "runId") || not (has_key plan "maximumBytes")) missing_key
    ok (
      record {
        run_id = get plan "runId";
        maximum_bytes = get plan "maximumBytes";
        entries = set_defaults [] state.entries;
      },
      state.arguments,
      state.retained_arguments,
    )
