-- ===== src/Receipts/Inventory.antt =====
-- `registered_paths` and `inventory` of receipt-inputs.py: the receipts of a finalized evidence
-- index, with the files that they were made from.
pub mod Complete
pub mod Registry
use Prim.Native.Char.{code}
use robotics_runtime_infra.Base.{
  ℕ, suc, ◌+◌, ◌++◌, String, Bool, true, false, not, ◌&&◌, ◌||◌, Option, none, some, List, [], ◌∷◌,
  length, ◌==◌, leb, ltb, str_eq, if◌then◌else◌,
}
use robotics_runtime_infra.Base.Result.{Result, ok, err, raise_if, or_raise, ◌>>=◌, ◌>>◌}
use robotics_runtime_infra.Base.Value.{
  Value, str, obj, arr, Items, no_items, item, Fields, no_fields, field, get, is_text, as_str,
  as_obj, as_arr,
}
use robotics_runtime_infra.Receipts.Chain.{
  Bytes, Evidence, Error, outside_root, not_a_mapping, unreadable, no_registry, unbounded_list,
  not_relative, not_canonical, not_one_receipt, differs_from_index, missing_receipts,
  too_many_files, missing_key, other_run, Dict, Groups, keys, values, member, same_set, first_key,
  relative_file, read_document, chain_files,
}

abbrev pub max_files : ℕ
max_files = 4096

abbrev group_names : List String
group_names = "receipts" ∷ "verifications" ∷ "dependencies" ∷ []

abbrev field_names : Fields → List String
field_names no_fields = []
field_names (field k v fs) = k ∷ field_names fs

abbrev item_count : Items → ℕ
item_count no_items = 0
item_count (item v vs) = suc (item_count vs)

pub record RegisteredPaths : Type 0 where
  pub receipts : List String
  pub verifications : List String
  pub dependencies : List String

-- The first entry of a list of one.
unfoldable pub only : List String → Option String
only [] = none
only (x ∷ []) = some x
only (x ∷ y ∷ xs) = none

-- `text < other` by code points.
abbrev text_less : String → String → Bool
text_less s String.[] = false
text_less String.[] (String.◌∷◌ d t) = true
text_less (String.◌∷◌ c s) (String.◌∷◌ d t) =
    let rest = text_less s t in ltb (code c) (code d) || (code c == code d && rest)

unfoldable pub insert_text : String → List String → List String
insert_text s [] = s ∷ []
insert_text s (t ∷ ts) =
    let rest = insert_text s ts in if text_less t s then t ∷ rest else s ∷ t ∷ ts

-- `sorted(…)` of texts.
unfoldable pub sorted : List String → List String
unfolding insert_text
sorted [] = []
sorted (s ∷ ss) = insert_text s (sorted ss)

-- `groups[digest] = groups.setdefault(digest, path)` for every entry of a chain's group.
unfoldable pub set_defaults : Dict → Dict → Dict
set_defaults [] collected = collected
set_defaults ((d, n) ∷ rest) collected =
    set_defaults rest (if member d (keys collected) then collected else collected ++ ((d, n) ∷ []))

unfoldable pub merge_groups : Groups → Groups → Groups
merge_groups files collected = record {
  receipts = set_defaults files.receipts collected.receipts;
  verifications = set_defaults files.verifications collected.verifications;
  dependencies = set_defaults files.dependencies collected.dependencies;
}

abbrev pub no_groups : Groups
no_groups = record { receipts = []; verifications = []; dependencies = [] }

-- The receipts of the retained artifacts of an index. An artifact without the keys is a KeyError.
unfoldable pub expected_receipts : Items → Result Error (List String)
expected_receipts no_items = ok []
expected_receipts (item artifact artifacts) = do
  fields ← or_raise (as_obj artifact) missing_key
  state ← or_raise (as_str (get fields "storage_state")) missing_key
  rest ← expected_receipts artifacts
  if str_eq state "retained"
      then or_raise (as_str (get fields "receipt_sha256")) missing_key >>= (λ d. ok (d ∷ rest))
      else ok rest

module _ (evidence : Evidence) where
  -- The paths of one group of `registered_paths`.
  unfoldable pub canonical_names : Items → Result Error (List String)
  canonical_names no_items = ok []
  canonical_names (item value vs) = do
    name ← or_raise (as_str value) not_relative
    raise_if (str_eq name "" || evidence.is_absolute name) not_relative
    relative ← relative_file evidence true name
    raise_if (not (str_eq relative name)) not_canonical
    names ← canonical_names vs
    ok (name ∷ names)

  unfoldable pub group_paths : Fields → String → Result Error (List String)
  group_paths inputs group = do
    names ← or_raise (as_arr (get inputs group)) unbounded_list
    raise_if (ltb max_files (item_count names)) unbounded_list
    canonical_names names

  -- `registered_paths`
  unfoldable pub registered_paths : Fields → Result Error RegisteredPaths
  registered_paths registration = do
    inputs ← or_raise (as_obj (get registration "receipt_inputs")) no_registry
    raise_if (not (same_set (field_names inputs) group_names)) no_registry
    receipts ← group_paths inputs "receipts"
    verifications ← group_paths inputs "verifications"
    dependencies ← group_paths inputs "dependencies"
    raise_if (not (length receipts == 1) || not (length verifications == 1)) not_one_receipt
    ok (record { receipts = receipts; verifications = verifications; dependencies = dependencies })

  -- The checks of a chain against its registration and the index.
  unfoldable pub check_chain :
      Fields → List String → Fields → Fields → Groups → Result Error (Unit {0})
  check_chain index expected registration receipt files = do
    raise_if
        (not (is_text (get registration "receipt_sha256") (first_key files.receipts))
          || not (member (first_key files.receipts) expected))
        differs_from_index
    run_id ← or_raise (as_str (get index "run_id")) missing_key
    raise_if
        (not (is_text (get receipt "run_id") run_id)
          || not (is_text (get registration "run_id") run_id))
        other_run

  -- The loop's body for a confirmed registration: the files of its chain.
  unfoldable pub registered_chain : Fields → List String → Fields → Result Error Groups
  registered_chain index expected registration = do
    paths ← registered_paths registration
    receipt_path ← or_raise (only paths.receipts) not_one_receipt
    verification_path ← or_raise (only paths.verifications) not_one_receipt
    chain ← chain_files evidence receipt_path verification_path paths.dependencies
    check_chain index expected registration chain.0 chain.1
    ok chain.1

  -- One line of the registrations.
  unfoldable pub collect_line : Fields → List String → Bytes → Groups → Result Error Groups
  collect_line index expected raw collected = do
    registration ← or_raise (evidence.loads_mapping raw) not_a_mapping
    if is_text (get registration "upload_status") "confirmed"
        then registered_chain index expected registration
          >>= (λ files. ok (merge_groups files collected))
        else ok collected

  unfoldable pub collect : Fields → List String → List Bytes → Groups → Result Error Groups
  collect index expected [] collected = ok collected
  collect index expected (raw ∷ raws) collected = do
    next ← collect_line index expected raw collected
    collect index expected raws next

  -- `inventory`, before its values are sorted.
  unfoldable pub collected_groups : String → String → Result Error Groups
  collected_groups registrations index_path = do
    index ← read_document evidence index_path "evidence_index"
    artifacts ← or_raise (as_arr (get index.0 "artifacts")) missing_key
    expected ← expected_receipts artifacts
    raw ← or_raise (evidence.read registrations) unreadable
    collected ← collect index.0 expected (evidence.splitlines raw) no_groups
    raise_if (not (same_set (keys collected.receipts) expected)) missing_receipts
    raise_if
        (ltb max_files (
          length collected.receipts
          + length collected.verifications
          + length collected.dependencies))
        too_many_files
    ok collected

  -- `inventory`
  unfoldable pub inventory : String → String → Result Error RegisteredPaths
  unfolding sorted
  inventory registrations index_path = do
    collected ← collected_groups registrations index_path
    ok (record {
      receipts = sorted (values collected.receipts);
      verifications = sorted (values collected.verifications);
      dependencies = sorted (values collected.dependencies);
    })
