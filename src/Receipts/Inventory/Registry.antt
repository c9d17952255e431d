-- ===== src/Receipts/Inventory/Registry.antt =====
-- The registry that `bind` writes is the one that `registered_paths` reads.
use robotics_runtime_infra.Base.{
  ◌≡◌, ◌≤◌, String, true, false, List, [], ◌∷◌, length, refl, sym, subst, arith, ltb, str_eq,
  str_eq_refl, Option-cases, Bool-cases, inl, inr,
}
use robotics_runtime_infra.Base.Result.{ok, Result-cases}
use robotics_runtime_infra.Base.Value.{Value, str, Fields, no_fields, field, get, is_text}
use robotics_runtime_infra.Receipts.Chain.Bound.{digests-values}
use robotics_runtime_infra.Receipts.Chain.{
  Evidence, Groups, keys, values, same_set, first_key, as_items, set_field, rename_receipt,
  registry, relative_file, relative_files, digests, read_document, chain_names, chain_documents,
  chain_files, BindArguments, bind,
}
use robotics_runtime_infra.Receipts.Inventory.{
  item_count, max_files, canonical_names, group_paths, registered_paths,
}

get-set_field : (k : String) (v : Value) (fs : Fields) → get (set_field k v fs) k ≡ v
get-set_field k v no_fields = rw (str_eq_refl k)
get-set_field k v (field j w fs) = elim (Bool-cases (str_eq j k)) [
  | inl e ↦ rw (e, e)
  | inr e ↦ rw (e, e) (get-set_field k v fs)
]

item_count-as_items : (ns : List String) → item_count (as_items ns) ≡ length ns
item_count-as_items [] = refl
item_count-as_items (n ∷ ns) = ground (arith, item_count-as_items ns)

module _ (evidence : Evidence) where
  -- A name that `registered_paths` takes: it is there, relative and the one that it resolves to.
  pub record IsCanonical (name : String) : Type 0 where
    pub not_empty : str_eq name "" ≡ false
    pub relative : evidence.is_absolute name ≡ false
    pub resolved : relative_file evidence true name ≡ ok name

  -- `pathlib`: what a resolved path is relative to the root is a relative path, and resolves to itself.
  abbrev pub ResolvesOnce : Type 0
  ResolvesOnce =
      (path name : String) → relative_file evidence true path ≡ ok name → IsCanonical name

  abbrev AllCanonical : List String → Type 0
  AllCanonical [] = Unit
  AllCanonical (n ∷ ns) = IsCanonical n × AllCanonical ns

  canonical_names-as_items :
      (ns : List String) → AllCanonical ns → canonical_names evidence (as_items ns) ≡ ok ns
  unfolding canonical_names
  canonical_names-as_items [] c = refl
  canonical_names-as_items (n ∷ ns) (c, cs) =
      rw (c.not_empty, c.relative, c.resolved, str_eq_refl n, canonical_names-as_items ns cs)

  module _ (once : ResolvesOnce) where
    relative_files-AllCanonical :
        (paths : List String) {ns : List String}
        → relative_files evidence paths ≡ ok ns
        → AllCanonical ns
    unfolding relative_files
    relative_files-AllCanonical [] {ns = ns} h =
        let same : [] ≡ ns = ground arith in subst AllCanonical same tt
    relative_files-AllCanonical (p ∷ ps) {ns = ns} h =
        elim (Result-cases (relative_file evidence true p)) [
          | inr (e, q) ↦ absurd (ground arith)
          | inl (n, q) ↦ elim (Result-cases (relative_files evidence ps)) [
            | inr (e, r) ↦ absurd (ground arith)
            | inl (rest, r) ↦
                let same : n ∷ rest ≡ ns = ground arith in
                subst AllCanonical same (once p n q, relative_files-AllCanonical ps r)
          ]
        ]

    chain_names-Canonical :
        (receipt_path verification_path : String) (paths : List String) {rn vn : String}
        {ns : List String}
        → chain_names evidence receipt_path verification_path paths ≡ ok (rn, vn, ns)
        → IsCanonical vn × AllCanonical ns
    unfolding chain_names
    chain_names-Canonical receipt_path verification_path paths {vn = vn} {ns = ns} h =
        elim (Result-cases (relative_file evidence true receipt_path)) [
          | inr (e, p) ↦ absurd (ground arith)
          | inl (rn', p) ↦ elim (Result-cases (relative_file evidence true verification_path)) [
            | inr (e, q) ↦ absurd (ground arith)
            | inl (vn', q) ↦ elim (Result-cases (relative_files evidence paths)) [
              | inr (e, r) ↦ absurd (ground arith)
              | inl (ns', r) ↦
                  let same_name : vn' ≡ vn = ground arith in
                  let same_names : ns' ≡ ns = ground arith in
                  (once verification_path vn (cc), relative_files-AllCanonical paths (cc))
            ]
          ]
        ]

    -- The names in the groups of a chain.
    record HasNames (groups : Groups) : Type 0 where
      receipt_name : String
      receipt_digest : String
      its_receipt : groups.receipts ≡ (receipt_digest, receipt_name) ∷ []
      verification_name : String
      its_verification : values groups.verifications ≡ verification_name ∷ []
      canonical : IsCanonical verification_name
      all_canonical : AllCanonical (values groups.dependencies)

    chain_documents-dependencies :
        (rn vn : String) (ns : List String) {receipt : Fields} {groups : Groups}
        → chain_documents evidence rn vn ns ≡ ok (receipt, groups)
        → (d : String) × (groups.receipts ≡ (d, rn) ∷ [])
          × (values groups.verifications ≡ vn ∷ [])
          × (values groups.dependencies ≡ ns)
    unfolding chain_documents
    chain_documents-dependencies rn vn ns {groups = groups} h =
        elim (Result-cases (read_document evidence rn "artifact_receipt")) [
          | inr (e, p) ↦ absurd (ground arith)
          | inl ((receipt, d), p) ↦
              elim (Result-cases (read_document evidence vn "artifact_verification")) [
                | inr (e, q) ↦ absurd (ground arith)
                | inl ((verification, d'), q) ↦ elim (Result-cases (digests evidence ns)) [
                  | inr (e, r) ↦ absurd (ground arith)
                  | inl (files, r) ↦
                      elim (Option-cases
                        (evidence.validate_artifact_receipt receipt verification (keys files))) [
                          | inl e ↦ absurd (ground arith)
                          | inr (required, e) ↦
                              let same : files ≡ groups.dependencies = ground arith in
                              (
                                d,
                                ground arith,
                                ground arith,
                                rw (← same) (digests-values evidence ns r),
                              )
                        ]
                ]
              ]
        ]

    chain_files-HasNames :
        (receipt_path verification_path : String) (paths : List String) {receipt : Fields}
        {groups : Groups}
        → chain_files evidence receipt_path verification_path paths ≡ ok (receipt, groups)
        → HasNames groups
    unfolding chain_files
    chain_files-HasNames receipt_path verification_path paths {receipt = receipt} {groups = groups}
          h =
        elim (Result-cases (chain_names evidence receipt_path verification_path paths)) [
          | inr (e, p) ↦ absurd (ground arith)
          | inl ((rn, vn, ns), p) ↦
              let documents : chain_documents evidence rn vn ns ≡ ok (receipt, groups) =
                ground arith in
              let (canonical, all_canonical) =
                chain_names-Canonical receipt_path verification_path paths p in
              let (d, its_receipt, its_verification, its_dependencies) =
                chain_documents-dependencies rn vn ns documents in
              record {
                receipt_name = rn;
                receipt_digest = d;
                its_receipt = its_receipt;
                verification_name = vn;
                its_verification = its_verification;
                canonical = canonical;
                all_canonical = subst AllCanonical (sym its_dependencies) all_canonical;
              }
        ]

    -- What `registered_paths` reads from a registry that was written for such groups.
    registered_paths-registry :
        (document : Fields) (destination : String) (groups : Groups) (names : HasNames groups)
        → IsCanonical destination
        → length (values groups.dependencies) ≤ max_files
        → get document "receipt_inputs"
          ≡ registry (record groups { receipts = rename_receipt destination groups.receipts })
        → registered_paths evidence document
          ≡ ok (record {
            receipts = destination ∷ [];
            verifications = names.verification_name ∷ [];
            dependencies = values groups.dependencies;
          })
    unfolding registered_paths group_paths same_set
    registered_paths-registry document destination groups names canonical few h =
        let one : values (rename_receipt destination groups.receipts) ≡ destination ∷ [] =
          rw names.its_receipt in
        let count = item_count-as_items (values groups.dependencies) in
        let bounded : ltb max_files (item_count (as_items (values groups.dependencies))) ≡ false =
          ground arith in
        let receipts = canonical_names-as_items (destination ∷ []) (canonical, tt) in
        let verifications =
          canonical_names-as_items (names.verification_name ∷ []) (names.canonical, tt) in
        let dependencies =
          canonical_names-as_items (values groups.dependencies) names.all_canonical in
        rw (h, one, names.its_verification, receipts, verifications, bounded, dependencies)

    -- What `bind` has written: the names that `registered_paths` reads back.
    record IsBound (arguments : BindArguments) (document : Fields) : Type 0 where
      registration_name : String
      registration : Fields
      registration_digest : String
      read_registration :
          read_document evidence registration_name "" ≡ ok (registration, registration_digest)
      destination : String
      its_destination : relative_file evidence false arguments.destination ≡ ok destination
      receipt : Fields
      groups : Groups
      chain :
          chain_files evidence arguments.receipt arguments.verification arguments.dependencies
          ≡ ok (receipt, groups)
      confirmed : is_text (get registration "upload_status") "confirmed" ≡ true
      written :
          document
          ≡ set_field "receipt_inputs"
              (registry (record groups { receipts = rename_receipt destination groups.receipts }))
              (set_field "receipt_sha256" (str (first_key groups.receipts)) registration)

    bind-IsBound :
        (arguments : BindArguments) (document : Fields)
        → bind evidence arguments ≡ ok document
        → IsBound arguments document
    unfolding bind
    bind-IsBound arguments document h =
        elim (Result-cases (relative_file evidence true arguments.registration)) [
          | inr (e, p) ↦ absurd (ground arith)
          | inl (path, p) ↦
              elim (Result-cases (relative_file evidence false arguments.destination)) [
                | inr (e, q) ↦ absurd (ground arith)
                | inl (destination, q) ↦ elim (Result-cases (read_document evidence path "")) [
                  | inr (e, r) ↦ absurd (ground arith)
                  | inl ((registration, digest), r) ↦
                      elim (Result-cases (
                        chain_files evidence arguments.receipt arguments.verification
                          arguments.dependencies)) [
                            | inr (e, s) ↦ absurd (ground arith)
                            | inl ((receipt, groups), s) ↦ record {
                              registration_name = path;
                              registration = registration;
                              registration_digest = digest;
                              read_registration = r;
                              destination = destination;
                              its_destination = q;
                              receipt = receipt;
                              groups = groups;
                              chain = s;
                              confirmed = ground arith;
                              written = ground arith;
                            }
                          ]
                ]
              ]
        ]

    -- When `bind` has succeeded, with at most 4096 dependencies, and the receipt is then put at its
    -- destination, `registered_paths` accepts the registration that `bind` has written, and reads from
    -- it the destination as the only receipt, one verification, and the dependencies of the chain.
    pub bind-registered_paths :
        (arguments : BindArguments) (document : Fields) (destination : String)
        → relative_file evidence false arguments.destination ≡ ok destination
        → IsCanonical destination
        → bind evidence arguments ≡ ok document
        → (receipt : Fields) (groups : Groups)
        → chain_files evidence arguments.receipt arguments.verification arguments.dependencies
          ≡ ok (receipt, groups)
        → length (values groups.dependencies) ≤ max_files
        → (verification : String) × (values groups.verifications ≡ verification ∷ [])
          × (registered_paths evidence document
              ≡ ok (record {
                receipts = destination ∷ [];
                verifications = verification ∷ [];
                dependencies = values groups.dependencies;
              }))
    bind-registered_paths arguments document destination p canonical h receipt groups chain few =
        let bound = bind-IsBound arguments document h in
        let its_destination = bound.its_destination in
        let its_chain = bound.chain in
        let written = bound.written in
        let same : bound.destination ≡ destination = ground arith in
        let same_groups : bound.groups ≡ groups = ground arith in
        let names =
          chain_files-HasNames arguments.receipt arguments.verification arguments.dependencies
            chain in
        let registered : get document "receipt_inputs"
            ≡ registry (record groups { receipts = rename_receipt destination groups.receipts }) =
          rw (written, get-set_field, same, same_groups) in
        (
          names.verification_name,
          names.its_verification,
          registered_paths-registry document destination groups names canonical few registered,
        )
