-- ===== src/Receipts/Tests.antt =====
-- A receipt with a verification and a dependency, bound and collected.
use robotics_runtime_infra.Base.{
  ℕ, ◌≡◌, String, Bool, true, false, Option, none, some, [], ◌∷◌, ◌==◌, ◌||◌, refl, arith, str_eq,
  if◌then◌else◌, Bool-cases, inl, inr,
}
use robotics_runtime_infra.Base.Text.{strip_prefix}
use robotics_runtime_infra.Base.Result.{ok}
use robotics_runtime_infra.Base.Value.{str, obj, arr, no_items, item, Fields, no_fields, field}
use robotics_runtime_infra.Receipts.Chain.{
  Bytes, Evidence, Groups, values, same_set, as_items, relative_file, relative_files, digests,
  read_document, chain_names, chain_documents, chain_files, BindArguments, bind,
}
use robotics_runtime_infra.Receipts.Chain.Bound.{IsChain, AreNamed, chain_files-IsChain}
use robotics_runtime_infra.Receipts.Inventory.{
  RegisteredPaths, insert_text, sorted, only, set_defaults, merge_groups, expected_receipts,
  canonical_names, group_paths, registered_paths, check_chain, registered_chain, collect_line,
  collect, collected_groups, inventory,
}
use robotics_runtime_infra.Receipts.Inventory.Complete.{IsInventory, inventory-IsInventory}
use robotics_runtime_infra.Receipts.Inventory.Registry.{
  IsCanonical, ResolvesOnce, bind-registered_paths,
}

abbrev inputs : Fields
inputs = field "receipts" (arr (as_items ("out.json" ∷ []))) (
    field "verifications" (arr (as_items ("verification.json" ∷ [])))
      (field "dependencies" (arr (as_items ("dependency.json" ∷ []))) no_fields))

abbrev receipt : Fields
receipt = field "verification_sha256" (str "digest 2") (field "run_id" (str "run-1") no_fields)

abbrev registration : Fields
registration = field "upload_status" (str "confirmed") (field "run_id" (str "run-1") no_fields)

abbrev bound : Fields
bound = field "upload_status" (str "confirmed") (
    field "run_id" (str "run-1")
      (field "receipt_sha256" (str "digest 1") (field "receipt_inputs" (obj inputs) no_fields)))

abbrev index : Fields
index = field "run_id" (str "run-1") (
    field "artifacts"
      (arr (
        item
          (obj (
            field "storage_state" (str "retained")
              (field "receipt_sha256" (str "digest 1") no_fields)))
          (item (obj (field "storage_state" (str "discarded") no_fields)) no_items)))
      no_fields)

abbrev document_of : ℕ → Fields
document_of n =
    if n == 1
    then receipt
    else if n == 4
    then registration
    else if n == 5
    then index
    else if n == 7
    then bound
    else no_fields

abbrev digest_of : ℕ → String
digest_of n = if n == 1 then "digest 1" else if n == 2 then "digest 2" else "digest 3"

abbrev loads : Bytes → Option Fields
loads [] = none
loads (b ∷ bs) = some (document_of b)

abbrev hash : Bytes → String
hash [] = "empty"
hash (b ∷ bs) = digest_of b

abbrev number_of : String → ℕ
number_of s =
    if str_eq s "out.json" || str_eq s "receipt.json"
    then 1
    else if str_eq s "verification.json"
    then 2
    else if str_eq s "dependency.json"
    then 3
    else if str_eq s "registration.json"
    then 4
    else if str_eq s "index.json"
    then 5
    else 6

abbrev starts_at_root : String → Bool
starts_at_root s = elim (strip_prefix "/" s) [ none ↦ false | some rest ↦ true ]

abbrev evidence : Evidence
evidence = record {
  resolve = λ exists s. if str_eq s "" || starts_at_root s then none else some s;
  is_file = λ s. true;
  read = λ s. some (number_of s ∷ []);
  file_sha256 = λ s. some (digest_of (number_of s));
  sha256 = hash;
  loads_mapping = loads;
  is_role = λ role fs. true;
  validate_artifact_receipt = λ r v ds. some ("digest 3" ∷ []);
  is_absolute = starts_at_root;
  splitlines = λ b. (7 ∷ []) ∷ (8 ∷ []) ∷ [];
}

abbrev arguments : BindArguments
arguments = record {
  registration = "registration.json";
  receipt = "receipt.json";
  destination = "out.json";
  verification = "verification.json";
  dependencies = "dependency.json" ∷ [];
}

abbrev groups : Groups
groups = record {
  receipts = ("digest 1", "receipt.json") ∷ [];
  verifications = ("digest 2", "verification.json") ∷ [];
  dependencies = ("digest 3", "dependency.json") ∷ [];
}

chain_read :
    chain_files evidence "receipt.json" "verification.json" ("dependency.json" ∷ [])
    ≡ ok (receipt, groups)
unfolding chain_files chain_names chain_documents relative_file relative_files digests read_document
    same_set strip_prefix
chain_read = refl

registration_bound : bind evidence arguments ≡ ok bound
unfolding bind chain_files chain_names chain_documents relative_file relative_files digests
    read_document same_set strip_prefix
registration_bound = refl

names : RegisteredPaths
names = record {
  receipts = "out.json" ∷ [];
  verifications = "verification.json" ∷ [];
  dependencies = "dependency.json" ∷ [];
}

inventory_read : inventory evidence "registrations.ndjson" "index.json" ≡ ok names
unfolding inventory collected_groups collect collect_line registered_chain check_chain
    registered_paths group_paths canonical_names only expected_receipts merge_groups set_defaults
    sorted insert_text chain_files chain_names chain_documents relative_file relative_files digests
    read_document same_set strip_prefix names
inventory_read = refl

chain_files-IsChain_example :
    IsChain evidence receipt groups
    × AreNamed evidence "receipt.json" "verification.json" ("dependency.json" ∷ []) groups
chain_files-IsChain_example =
    chain_files-IsChain evidence "receipt.json" "verification.json" ("dependency.json" ∷ [])
      chain_read

inventory-IsInventory_example : IsInventory evidence "registrations.ndjson" "index.json" names
inventory-IsInventory_example =
    inventory-IsInventory evidence "registrations.ndjson" "index.json" names inventory_read

resolves_once : ResolvesOnce evidence
unfolding relative_file
resolves_once path name h = elim (Bool-cases (str_eq path "")) [
  | inl e ↦ absurd (ground arith)
  | inr e ↦ elim (Bool-cases (starts_at_root path)) [
    | inl r ↦ absurd (ground arith)
    | inr r ↦
        let same : path ≡ name = ground arith in
        record { not_empty = ground arith; relative = ground arith; resolved = ground arith }
  ]
]

destination-IsCanonical : IsCanonical evidence "out.json"
unfolding relative_file strip_prefix
destination-IsCanonical = record { not_empty = refl; relative = refl; resolved = refl }

destination_named : relative_file evidence false "out.json" ≡ ok "out.json"
unfolding relative_file strip_prefix
destination_named = refl

bind-registered_paths_example :
    (verification : String) × (values groups.verifications ≡ verification ∷ [])
    × (registered_paths evidence bound
        ≡ ok (record {
          receipts = "out.json" ∷ [];
          verifications = verification ∷ [];
          dependencies = values groups.dependencies;
        }))
bind-registered_paths_example =
    bind-registered_paths evidence resolves_once arguments bound "out.json" destination_named
      destination-IsCanonical registration_bound receipt groups chain_read (omega arith)
