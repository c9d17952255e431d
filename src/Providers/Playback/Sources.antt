-- ===== src/Providers/Playback/Sources.antt =====
-- `reference` and `retained_sources` of create-playback-provider.py.
use Prim.Native.String.{◌++◌ as append_text}
use robotics_runtime_infra.Base.{
  ℕ, String, Bool, true, false, not, ◌&&◌, ◌||◌, Option, none, some, List, [], ◌∷◌, ◌==◌,
  if◌then◌else◌,
}
use robotics_runtime_infra.Base.Result.{Result, ok, raise_if, or_raise, ◌>>=◌, ◌>>◌}
use robotics_runtime_infra.Base.Text.{all_in, same_set, distinct, ends_with}
use robotics_runtime_infra.Base.Value.{
  pos, negsuc, Value, Items, no_items, item, Fields, get, as_int, as_str, as_obj, as_arr, is_text,
}
use robotics_runtime_infra.Base.Documents.{texts_of}
use robotics_runtime_infra.Providers.Playback.{
  Run, Error, unreadable, no_sources, missing_sources, not_regular, changed_file, wrong_source,
  wrong_members, no_topic, at, get_or, load_mapping,
}

-- What `reference` returns.
pub record Reference : Type 0 where
  pub uri : String
  pub sha256 : String
  pub size_bytes : ℕ

pub record Source : Type 0 where
  pub path : String
  pub sha256 : Value
  pub size_bytes : Value

-- The items of `configuration["sources"]`.
unfoldable pub sources_of : Items → Option (List Source)
sources_of no_items = some []
sources_of (item v vs) = elim (as_obj v) [
  | none ↦ none
  | some fs ↦ elim (as_str (get fs "path")) [
    | none ↦ none
    | some path ↦ elim (sources_of vs) [
      | none ↦ none
      | some rest ↦ some (
          record { path = path; sha256 = get fs "sha256"; size_bytes = get fs "size_bytes" } ∷ rest)
    ]
  ]
]

abbrev pub paths_of : List Source → List String
paths_of [] = []
paths_of (s ∷ ss) = s.path ∷ paths_of ss

abbrev pub is_size : Value → ℕ → Bool
is_size v size = elim (as_int v) [
  | none ↦ false
  | some n ↦ elim n [ pos m ↦ m == size | negsuc m ↦ false ]
]

abbrev pub with_prefix : String → List String → List String
with_prefix p [] = []
with_prefix p (s ∷ ss) = append_text p s ∷ with_prefix p ss

abbrev pub with_suffix : String → List String → List String
with_suffix p [] = []
with_suffix p (s ∷ ss) = if ends_with p s then s ∷ with_suffix p ss else with_suffix p ss

module _ (run : Run) where
  -- `reference`
  unfoldable pub reference : String → Result Error Reference
  reference relative = do
    opened ← or_raise (run.open_file relative) unreadable
    raise_if (not opened.is_regular) not_regular
    raise_if (not opened.unchanged) changed_file
    ok (record { uri = run.as_uri relative; sha256 = opened.sha256; size_bytes = opened.size })

  unfoldable pub references : List String → Result Error (List Reference)
  references [] = ok []
  references (n ∷ ns) = do r ← reference n; rs ← references ns; ok (r ∷ rs)

  -- The loop over the sources.
  unfoldable pub checked_sources : List Source → Result Error (List Reference)
  checked_sources [] = ok []
  checked_sources (s ∷ ss) = do
    r ← reference s.path
    raise_if (not (is_text s.sha256 r.sha256) || not (is_size s.size_bytes r.size_bytes))
        wrong_source
    rs ← checked_sources ss
    ok (r ∷ rs)

  -- The topic that the probe was configured for.
  abbrev has_topic : Fields → Items → Bool
  has_topic configuration no_items = false
  has_topic configuration (item v vs) =
      (run.equal (at (at v "topic_metadata") "name")
          (get_or configuration "topic" "/playback_probe")
        && run.equal (at (at v "topic_metadata") "type")
            (get_or configuration "message_type" "std_msgs/msg/Int32"))
      || has_topic configuration vs

  -- The bag's metadata against the sources.
  unfoldable pub checked_metadata : Fields → List Source → Result Error (Unit {0})
  checked_metadata configuration sources = do
    document ← load_mapping run "source/bag/metadata.yaml"
    metadata ← or_raise (as_obj (get document "rosbag2_bagfile_information")) wrong_members
    items ← or_raise (as_arr (get metadata "relative_file_paths")) wrong_members
    names ← or_raise (texts_of items) wrong_members
    raise_if
        (not (is_text (get metadata "storage_identifier") "mcap")
          || not
              (same_set (with_prefix "source/bag/" names) (with_suffix ".mcap" (paths_of sources))))
        wrong_members
    raise_if (elim names [ [] ↦ true | n ∷ ns ↦ false ]) wrong_members
    topics ← or_raise (as_arr (get metadata "topics_with_message_count")) no_topic
    raise_if (not (has_topic configuration topics)) no_topic

  -- `retained_sources`
  unfoldable pub retained_sources : Fields → Result Error (List Reference)
  retained_sources configuration = do
    items ← or_raise (as_arr (get configuration "sources")) no_sources
    sources ← or_raise (sources_of items) no_sources
    raise_if (elim sources [ [] ↦ true | s ∷ ss ↦ false ] || not (distinct (paths_of sources)))
        no_sources
    raise_if
        (not (
          all_in ("source/bag/metadata.yaml" ∷ "source/qos/qos-overrides.yaml" ∷ [])
            (paths_of sources)))
        missing_sources
    found ← checked_sources sources
    checked_metadata configuration sources
    ok found
