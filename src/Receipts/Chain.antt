-- ===== src/Receipts/Chain.antt =====
-- `relative_file`, `chain_files` and `bind` of receipt-inputs.py.
-- A path is the text of its file beneath the evidence directory. The file system, the contract
-- package and SHA-256 are outside: `Evidence`, where `none` stands for an exception.
pub mod Bound
use Prim.Native.Char.{code}
use robotics_runtime_infra.Base.{
  ℕ, String, Bool, true, false, not, ◌&&◌, ◌||◌, Option, none, some, List, [], ◌∷◌, ◌==◌, str_eq,
  if◌then◌else◌,
}
pub use robotics_runtime_infra.Base.Text.{member, all_in, distinct}
unfoldable pub use robotics_runtime_infra.Base.Text.{same_set}
use robotics_runtime_infra.Base.Result.{Result, ok, err, raise_if, or_raise, ◌>>=◌, ◌>>◌}
use robotics_runtime_infra.Base.Value.{
  Value, str, obj, arr, Items, no_items, item, Fields, no_fields, field, get, is_text, as_str,
}

abbrev pub Bytes : Type 0
Bytes = List ℕ

pub record Evidence : Type 0 where
  -- `path.resolve(strict=…).relative_to(root)`
  pub resolve : Bool → String → Option String
  pub is_file : String → Bool
  pub read : String → Option Bytes
  pub file_sha256 : String → Option String
  pub sha256 : Bytes → String
  pub loads_mapping : Bytes → Option Fields
  pub is_role : String → Fields → Bool
  -- The digests that a receipt with its verification refers to, of those that are given.
  pub validate_artifact_receipt : Fields → Fields → List String → Option (List String)
  pub is_absolute : String → Bool
  pub splitlines : Bytes → List Bytes

pub data Error : Type 0 where
  outside_root not_portable not_regular unreadable not_a_mapping wrong_role : Error
  replaces_input replaces_inventory changed_verification duplicate_dependency bad_receipt : Error
  unreferenced_dependency not_confirmed other_run : Error
  no_registry unbounded_list not_relative not_canonical not_one_receipt : Error
  differs_from_index missing_receipts too_many_files missing_key : Error

abbrev pub has_char : ℕ → String → Bool
has_char n String.[] = false
has_char n (String.◌∷◌ c s) = code c == n || has_char n s

-- A dict from digests to names, in the order of insertion.
abbrev pub Dict : Type 0
Dict = List (String × String)

abbrev pub keys : Dict → List String
keys [] = []
keys ((k, v) ∷ d) = k ∷ keys d

abbrev pub values : Dict → List String
values [] = []
values ((k, v) ∷ d) = v ∷ values d

-- The three groups of `chain_files` and of `inventory`.
pub record Groups : Type 0 where
  pub receipts : Dict
  pub verifications : Dict
  pub dependencies : Dict

module _ (evidence : Evidence) where
  -- `relative_file`
  unfoldable pub relative_file : Bool → String → Result Error String
  relative_file exists path = do
    relative ← or_raise (evidence.resolve exists path) outside_root
    raise_if (str_eq relative "." || has_char b':' relative || has_char b'\\' relative) not_portable
    raise_if (exists && not (evidence.is_file relative)) not_regular
    ok relative

  unfoldable pub relative_files : List String → Result Error (List String)
  relative_files [] = ok []
  relative_files (p ∷ ps) = do
    name ← relative_file true p
    names ← relative_files ps
    ok (name ∷ names)

  -- `read_document`, where a document without a role has the empty one.
  unfoldable pub read_document : String → String → Result Error (Fields × String)
  read_document name role = do
    raw ← or_raise (evidence.read name) unreadable
    document ← or_raise (evidence.loads_mapping raw) not_a_mapping
    raise_if (not (str_eq role "") && not (evidence.is_role role document)) wrong_role
    ok (document, evidence.sha256 raw)

  -- `{file_sha256(root / name): name for name in names}` before equal keys are joined.
  unfoldable pub digests : List String → Result Error Dict
  digests [] = ok []
  digests (n ∷ ns) = do
    digest ← or_raise (evidence.file_sha256 n) unreadable
    rest ← digests ns
    ok ((digest, n) ∷ rest)

  -- The names of the files of a chain.
  unfoldable pub chain_names :
      String → String → List String → Result Error (String × String × List String)
  unfolding relative_files
  chain_names receipt_path verification_path dependencies = do
    receipt ← relative_file true receipt_path
    verification ← relative_file true verification_path
    names ← relative_files dependencies
    raise_if (member "receipt-inventory.json" (receipt ∷ verification ∷ names)) replaces_input
    ok (receipt, verification, names)

  -- `chain_files`, from the names on.
  unfoldable pub chain_documents : String → String → List String → Result Error (Fields × Groups)
  unfolding digests
  chain_documents receipt_name verification_name names = do
    receipt ← read_document receipt_name "artifact_receipt"
    verification ← read_document verification_name "artifact_verification"
    raise_if (not (is_text (get receipt.0 "verification_sha256") verification.1))
        changed_verification
    files ← digests names
    raise_if (not (distinct (keys files))) duplicate_dependency
    required ←
        or_raise (evidence.validate_artifact_receipt receipt.0 verification.0 (keys files))
          bad_receipt
    raise_if (not (same_set required (keys files))) unreferenced_dependency
    ok (
      receipt.0,
      record {
        receipts = (receipt.1, receipt_name) ∷ [];
        verifications = (verification.1, verification_name) ∷ [];
        dependencies = files;
      },
    )

  -- `chain_files`
  unfoldable pub chain_files : String → String → List String → Result Error (Fields × Groups)
  chain_files receipt_path verification_path dependencies = do
    names ← chain_names receipt_path verification_path dependencies
    chain_documents names.0 names.1 names.2

abbrev pub as_items : List String → Items
as_items [] = no_items
as_items (s ∷ ss) = item (str s) (as_items ss)

-- `document[key] = value`
abbrev pub set_field : String → Value → Fields → Fields
set_field k v no_fields = field k v no_fields
set_field k v (field j w fs) = if str_eq j k then field j v fs else field j w (set_field k v fs)

-- `a.get("run_id") != b.get("run_id")`, where the runs are texts or absent.
abbrev pub same_run : Value → Value → Bool
same_run (str a) v = is_text v a
same_run Value.null Value.null = true
same_run _ v = false

pub record BindArguments : Type 0 where
  pub registration : String
  pub receipt : String
  pub destination : String
  pub verification : String
  pub dependencies : List String

-- `files["receipts"][digest] = destination`, for the only entry.
abbrev pub rename_receipt : String → Dict → Dict
rename_receipt destination [] = []
rename_receipt destination ((d, n) ∷ rest) = (d, destination) ∷ rest

abbrev pub first_key : Dict → String
first_key [] = ""
first_key ((k, v) ∷ d) = k

-- The entry `receipt_inputs` of a registration.
abbrev pub registry : Groups → Value
registry g = obj (
    field "receipts" (arr (as_items (values g.receipts))) (
      field "verifications" (arr (as_items (values g.verifications)))
        (field "dependencies" (arr (as_items (values g.dependencies))) no_fields)))

-- `bind`
unfoldable pub bind : Evidence → BindArguments → Result Error Fields
bind evidence arguments = do
  path ← relative_file evidence true arguments.registration
  destination ← relative_file evidence false arguments.destination
  raise_if (str_eq destination "receipt-inventory.json") replaces_inventory
  registration ← read_document evidence path ""
  chain ← chain_files evidence arguments.receipt arguments.verification arguments.dependencies
  raise_if (not (is_text (get registration.0 "upload_status") "confirmed")) not_confirmed
  raise_if (not (same_run (get chain.0 "run_id") (get registration.0 "run_id"))) other_run
  let groups = record chain.1 { receipts = rename_receipt destination chain.1.receipts }
  ok (
      set_field "receipt_inputs" (registry groups)
        (set_field "receipt_sha256" (str (first_key chain.1.receipts)) registration.0))
