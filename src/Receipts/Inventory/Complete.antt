-- ===== src/Receipts/Inventory/Complete.antt =====
-- The receipts that an inventory collects: each is registered for the index's run, and none that
-- the index expects is missing.
use mathlib.Core.List.{Memᴰ}
use robotics_runtime_infra.Base.{
  ◌≡◌, ◌++◌, String, true, ◌||◌, some, List, [], ◌∷◌, refl, sym, subst, arith, str_eq, str_eq_iff,
  str_eq_refl, Option-cases, Bool-cases, inl, inr,
}
use robotics_runtime_infra.Base.Result.{ok, Result-cases}
use robotics_runtime_infra.Base.Value.{Value, str, Items, Fields, get, is_text, as_str, as_arr}
use robotics_runtime_infra.Receipts.Chain.{
  Bytes, Evidence, Dict, Groups, keys, values, member, all_in, same_set, first_key, read_document,
  chain_files,
}
use robotics_runtime_infra.Receipts.Chain.Bound.{
  is_text-eq-str, IsRead, read_document-IsRead, IsChain, chain_files-IsChain,
}
use robotics_runtime_infra.Receipts.Inventory.{
  RegisteredPaths, only, sorted, insert_text, set_defaults, merge_groups, no_groups,
  expected_receipts, registered_paths, check_chain, registered_chain, collect_line, collect,
  collected_groups, inventory,
}

as_str-eq-str : (v : Value) {s : String} → as_str v ≡ some s → v ≡ str s
as_str-eq-str (str s) h = cc
as_str-eq-str _ h = cc

-- A property of every entry of a dict.
abbrev Every : (String → String → Type 0) → Dict → Type 0
Every P [] = Unit
Every P ((d, n) ∷ rest) = P d n × Every P rest

module _ (P : String → String → Type 0) where
  Every-append : (xs ys : Dict) → Every P xs → Every P ys → Every P (xs ++ ys)
  Every-append [] ys e f = f
  Every-append ((d, n) ∷ xs) ys (p, e) f = (p, Every-append xs ys e f)

  set_defaults-Every : (xs ys : Dict) → Every P xs → Every P ys → Every P (set_defaults xs ys)
  unfolding set_defaults
  set_defaults-Every [] ys e f = f
  set_defaults-Every ((d, n) ∷ xs) ys (p, e) f = elim (Bool-cases (member d (keys ys))) [
    | inl h ↦ rw h (set_defaults-Every xs ys e f)
    | inr h ↦
        rw h
          (set_defaults-Every xs (ys ++ ((d, n) ∷ [])) e (Every-append ys ((d, n) ∷ []) f (p, tt)))
  ]

  -- The entry of a key, whose name is among the values.
  Every-member :
      (xs : Dict) (x : String)
      → Every P xs
      → member x (keys xs) ≡ true
      → (n : String) × P x n × (member n (values xs) ≡ true)
  Every-member [] x e h = absurd cc
  Every-member ((d, n) ∷ xs) x (p, e) h = elim (Bool-cases (str_eq x d)) [
    | inl q ↦
        let same : x ≡ d = ground (arith, str_eq_iff x d) in
        (n, subst (λ y. P y n) (sym same) p, ground (arith, str_eq_refl n))
    | inr q ↦ let (m, r, found) = Every-member xs x e (ground arith) in (m, r, ground arith)
  ]

  -- The key of a value.
  Every-value :
      (xs : Dict) (n : String) → Every P xs → member n (values xs) ≡ true → (x : String) × P x n
  Every-value [] n e h = absurd cc
  Every-value ((d, m) ∷ xs) n (p, e) h = elim (Bool-cases (str_eq n m)) [
    | inl q ↦ let same : n ≡ m = ground (arith, str_eq_iff n m) in (d, subst (P d) (sym same) p)
    | inr q ↦ Every-value xs n e (ground arith)
  ]

all_in-member :
    (xs ys : List String) (x : String)
    → member x xs ≡ true
    → all_in xs ys ≡ true
    → member x ys ≡ true
all_in-member [] ys x h a = absurd cc
all_in-member (z ∷ xs) ys x h a = elim (Bool-cases (str_eq x z)) [
  | inl q ↦ ground (arith, str_eq_iff x z)
  | inr q ↦ all_in-member xs ys x (ground arith) (ground arith)
]

insert_text-member :
    (x s : String) (ts : List String) → member x (insert_text s ts) ≡ (str_eq x s || member x ts)
unfolding insert_text
insert_text-member x s [] = refl
insert_text-member x s (t ∷ ts) = ground (arith, insert_text-member x s ts)

sorted-member : (x : String) (ss : List String) → member x (sorted ss) ≡ member x ss
unfolding sorted
sorted-member x [] = refl
sorted-member x (s ∷ ss) = ground (arith, insert_text-member x s (sorted ss), sorted-member x ss)

module _ (evidence : Evidence) (index : Fields) where
  -- A confirmed registration of the index's run, with a chain that was accepted.
  pub record IsAccepted (registration : Fields) (files : Groups) : Type 0 where
    pub run_id : String
    pub run_of_index : get index "run_id" ≡ str run_id
    pub run_of_registration : get registration "run_id" ≡ str run_id
    pub receipt : Fields
    pub run_of_receipt : get receipt "run_id" ≡ str run_id
    pub chain : IsChain evidence receipt files
    pub its_receipt : get registration "receipt_sha256" ≡ str (first_key files.receipts)

  check_chain-IsAccepted :
      (expected : List String) (registration receipt : Fields) (files : Groups)
      → IsChain evidence receipt files
      → check_chain evidence index expected registration receipt files ≡ ok tt
      → IsAccepted registration files
  unfolding check_chain
  check_chain-IsAccepted expected registration receipt files chain h =
      elim (Option-cases (as_str (get index "run_id"))) [
        | inl e ↦ absurd (ground arith)
        | inr (run_id, e) ↦
            let theirs : is_text (get registration "run_id") run_id ≡ true = ground arith in
            let its : is_text (get receipt "run_id") run_id ≡ true = ground arith in
            let named : is_text (get registration "receipt_sha256") (first_key files.receipts)
                ≡ true =
              ground arith in
            record {
              run_id = run_id;
              run_of_index = as_str-eq-str _ e;
              run_of_registration = is_text-eq-str _ run_id theirs;
              receipt = receipt;
              run_of_receipt = is_text-eq-str _ run_id its;
              chain = chain;
              its_receipt = is_text-eq-str _ _ named;
            }
      ]

  registered_chain-IsAccepted :
      (expected : List String) (registration : Fields) (files : Groups)
      → registered_chain evidence index expected registration ≡ ok files
      → IsAccepted registration files
  unfolding registered_chain
  registered_chain-IsAccepted expected registration files h =
      elim (Result-cases (registered_paths evidence registration)) [
        | inr (e, p) ↦ absurd (ground arith)
        | inl (paths, p) ↦ elim (Option-cases (only paths.receipts)) [
          | inl e ↦ absurd (ground arith)
          | inr (receipt_path, e) ↦ elim (Option-cases (only paths.verifications)) [
            | inl e' ↦ absurd (ground arith)
            | inr (verification_path, e') ↦
                elim (Result-cases
                  (chain_files evidence receipt_path verification_path paths.dependencies)) [
                    | inr (e'', q) ↦ absurd (ground arith)
                    | inl ((receipt, files'), q) ↦
                        let same : files' ≡ files = ground arith in
                        let read : chain_files evidence receipt_path verification_path
                              paths.dependencies
                            ≡ ok (receipt, files) =
                          cc in
                        let checked : check_chain evidence index expected registration receipt files
                            ≡ ok tt =
                          ground arith in
                        check_chain-IsAccepted expected registration receipt files
                          (chain_files-IsChain evidence receipt_path verification_path
                            paths.dependencies read).0
                          checked
                  ]
          ]
        ]
      ]

  -- A receipt's digest and its file's name, from one of the lines of the registrations.
  pub record IsRegistered (raws : List Bytes) (digest name : String) : Type 0 where
    pub raw : Bytes
    pub listed : Memᴰ raw raws
    pub registration : Fields
    pub decoded : evidence.loads_mapping raw ≡ some registration
    pub confirmed : get registration "upload_status" ≡ str "confirmed"
    pub files : Groups
    pub entry : files.receipts ≡ (digest, name) ∷ []
    pub accepted : IsAccepted registration files

  module _ (expected : List String) (raws : List Bytes) where
    collect_line-Every :
        (raw : Bytes) (collected next : Groups)
        → Memᴰ raw raws
        → Every (IsRegistered raws) collected.receipts
        → collect_line evidence index expected raw collected ≡ ok next
        → Every (IsRegistered raws) next.receipts
    unfolding collect_line merge_groups
    collect_line-Every raw collected next listed every h =
        elim (Option-cases (evidence.loads_mapping raw)) [
          | inl e ↦ absurd (ground arith)
          | inr (registration, e) ↦
              elim (Bool-cases (is_text (get registration "upload_status") "confirmed")) [
                | inr b ↦
                    let same : collected ≡ next = ground arith in
                    subst (λ g. Every (IsRegistered raws) g.receipts) same every
                | inl b ↦
                    elim (Result-cases (registered_chain evidence index expected registration)) [
                      | inr (e', p) ↦ absurd (ground arith)
                      | inl (files, p) ↦
                          let same : merge_groups files collected ≡ next = ground arith in
                          let accepted =
                            registered_chain-IsAccepted expected registration files p in
                          let one : IsRegistered raws accepted.chain.receipt_digest
                              accepted.chain.receipt_name =
                            record {
                              raw = raw;
                              listed = listed;
                              registration = registration;
                              decoded = e;
                              confirmed = is_text-eq-str _ _ b;
                              files = files;
                              entry = accepted.chain.its_receipt;
                              accepted = accepted;
                            } in
                          let its : Every (IsRegistered raws) files.receipts =
                            subst (Every (IsRegistered raws)) (sym accepted.chain.its_receipt)
                              (one, tt) in
                          subst (λ g. Every (IsRegistered raws) g.receipts) same
                            (set_defaults-Every (IsRegistered raws) files.receipts
                              collected.receipts its every)
                    ]
              ]
        ]

    collect-Every :
        (lines : List Bytes) (collected result : Groups)
        → ((raw : Bytes) → Memᴰ raw lines → Memᴰ raw raws)
        → Every (IsRegistered raws) collected.receipts
        → collect evidence index expected lines collected ≡ ok result
        → Every (IsRegistered raws) result.receipts
    unfolding collect
    collect-Every [] collected result listed every h =
        let same : collected ≡ result = ground arith in
        subst (λ g. Every (IsRegistered raws) g.receipts) same every
    collect-Every (raw ∷ lines) collected result listed every h =
        elim (Result-cases (collect_line evidence index expected raw collected)) [
          | inr (e, p) ↦ absurd (ground arith)
          | inl (next, p) ↦
              let first =
                collect_line-Every raw collected next (listed raw (Memᴰ.head refl)) every p in
              collect-Every lines next result (λ r m. listed r (Memᴰ.tail m)) first (ground arith)
        ]

module _ (evidence : Evidence) where
  -- The index and the registrations of an inventory, and the receipts that it has for them.
  pub record IsComplete (registrations index_path : String) (collected : Groups) : Type 0 where
    pub index : Fields
    pub index_digest : String
    pub read_index : IsRead evidence index_path index index_digest
    pub raw : Bytes
    pub read_registrations : evidence.read registrations ≡ some raw
    pub artifacts : Items
    pub its_artifacts : as_arr (get index "artifacts") ≡ some artifacts
    pub expected : List String
    pub retained : expected_receipts artifacts ≡ ok expected
    pub every_registered :
        Every (IsRegistered evidence index (evidence.splitlines raw)) collected.receipts
    pub same : same_set (keys collected.receipts) expected ≡ true

  collected_groups-IsComplete :
      (registrations index_path : String) (collected : Groups)
      → collected_groups evidence registrations index_path ≡ ok collected
      → IsComplete registrations index_path collected
  unfolding collected_groups
  collected_groups-IsComplete registrations index_path collected h =
      elim (Result-cases (read_document evidence index_path "evidence_index")) [
        | inr (e, p) ↦ absurd (ground arith)
        | inl ((index, index_digest), p) ↦ elim (Option-cases (as_arr (get index "artifacts"))) [
          | inl e ↦ absurd (ground arith)
          | inr (artifacts, e) ↦ elim (Result-cases (expected_receipts artifacts)) [
            | inr (e', q) ↦ absurd (ground arith)
            | inl (expected, q) ↦ elim (Option-cases (evidence.read registrations)) [
              | inl e' ↦ absurd (ground arith)
              | inr (raw, e') ↦
                  elim (Result-cases
                    (collect evidence index expected (evidence.splitlines raw) no_groups)) [
                      | inr (e'', r) ↦ absurd (ground arith)
                      | inl (all, r) ↦
                          let same : all ≡ collected = ground arith in
                          let ran : collect evidence index expected (evidence.splitlines raw)
                                no_groups
                              ≡ ok collected =
                            cc in
                          record {
                            index = index;
                            index_digest = index_digest;
                            read_index =
                                read_document-IsRead evidence index_path "evidence_index" p;
                            raw = raw;
                            read_registrations = e';
                            artifacts = artifacts;
                            its_artifacts = e;
                            expected = expected;
                            retained = q;
                            every_registered =
                                collect-Every evidence index expected (evidence.splitlines raw)
                                  (evidence.splitlines raw) no_groups collected (λ r m. m) tt ran;
                            same = ground arith;
                          }
                    ]
            ]
          ]
        ]
      ]

  -- The receipts of an inventory: a file for every receipt that the index expects, and no other.
  pub record IsInventory (registrations index_path : String) (names : RegisteredPaths)
      : Type 0 where
    pub collected : Groups
    pub complete : IsComplete registrations index_path collected
    pub none_missing :
        (digest : String)
        → member digest complete.expected ≡ true
        → (name : String) × IsRegistered evidence complete.index
            (evidence.splitlines complete.raw)
            digest
            name
          × (member name names.receipts ≡ true)
    pub none_other :
        (name : String)
        → member name names.receipts ≡ true
        → (digest : String) × IsRegistered evidence complete.index
            (evidence.splitlines complete.raw)
            digest
            name

  -- When `inventory` succeeds, each receipt that the index expects of its retained artifacts has a
  -- file in the inventory, and each receipt file in the inventory is there for a line of the
  -- registrations: a confirmed one that names the receipt's digest, with the run of the index, whose
  -- chain of receipt, verification and dependencies is accepted.
  pub inventory-IsInventory :
      (registrations index_path : String) (names : RegisteredPaths)
      → inventory evidence registrations index_path ≡ ok names
      → IsInventory registrations index_path names
  unfolding inventory same_set
  inventory-IsInventory registrations index_path names h =
      elim (Result-cases (collected_groups evidence registrations index_path)) [
        | inr (e, p) ↦ absurd (ground arith)
        | inl (collected, p) ↦
            let complete = collected_groups-IsComplete registrations index_path collected p in
            let P = IsRegistered evidence complete.index (evidence.splitlines complete.raw) in
            let receipts : sorted (values collected.receipts) ≡ names.receipts = ground arith in
            let same = complete.same in
            let all : all_in complete.expected (keys collected.receipts) ≡ true = ground arith in
            record {
              collected = collected;
              complete = complete;
              none_missing = λ digest m.
                  let found =
                    all_in-member complete.expected (keys collected.receipts) digest m all in
                  let (name, registered, listed) =
                    Every-member P collected.receipts digest complete.every_registered found in
                  (
                    name,
                    registered,
                    ground (arith, sorted-member name (values collected.receipts)),
                  );
              none_other = λ name m.
                  let listed : member name (values collected.receipts) ≡ true =
                    ground (arith, sorted-member name (values collected.receipts)) in
                  Every-value P collected.receipts name complete.every_registered listed;
            }
      ]
