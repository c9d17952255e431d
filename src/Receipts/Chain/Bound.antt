-- ===== src/Receipts/Chain/Bound.antt =====
-- What the documents of an accepted chain say of one another.
use robotics_runtime_infra.Base.{
  ◌≡◌, String, true, some, List, [], ◌∷◌, sym, subst, ap, ◌∙◌, arith, str_eq_iff, Option-cases, inl,
  inr,
}
use robotics_runtime_infra.Base.Result.{ok, Result-cases}
use robotics_runtime_infra.Base.Value.{Value, str, Fields, get, is_text}
use robotics_runtime_infra.Receipts.Chain.{
  Bytes, Evidence, Dict, Groups, keys, values, distinct, same_set, relative_file, relative_files,
  read_document, digests, chain_names, chain_documents, chain_files,
}

pub is_text-eq-str : (v : Value) (s : String) → is_text v s ≡ true → v ≡ str s
is_text-eq-str (str t) s h = ground (arith, str_eq_iff t s)
is_text-eq-str _ s h = cc

module _ (evidence : Evidence) where
  -- The document in a file, with the digest of the file's bytes.
  pub record IsRead (name : String) (document : Fields) (digest : String) : Type 0 where
    pub raw : Bytes
    pub bytes : evidence.read name ≡ some raw
    pub decoded : evidence.loads_mapping raw ≡ some document
    pub its_digest : evidence.sha256 raw ≡ digest

  pub read_document-IsRead :
      (name role : String) {document : Fields} {digest : String}
      → read_document evidence name role ≡ ok (document, digest)
      → IsRead name document digest
  unfolding read_document
  read_document-IsRead name role h = elim (Option-cases (evidence.read name)) [
    | inl e ↦ absurd (ground arith)
    | inr (raw, e) ↦ elim (Option-cases (evidence.loads_mapping raw)) [
      | inl e' ↦ absurd (ground arith)
      | inr (document', e') ↦ record {
        raw = raw;
        bytes = e;
        decoded = ground arith;
        its_digest = ground arith;
      }
    ]
  ]

  -- Each entry has the digest of its file's bytes.
  abbrev pub AllDigests : Dict → Type 0
  AllDigests [] = Unit
  AllDigests ((digest, name) ∷ rest) = (evidence.file_sha256 name ≡ some digest) × AllDigests rest

  pub digests-values : (ns : List String) {d : Dict} → digests evidence ns ≡ ok d → values d ≡ ns
  unfolding digests
  digests-values [] h = ground arith
  digests-values (n ∷ ns) {d = d} h = elim (Option-cases (evidence.file_sha256 n)) [
    | inl e ↦ absurd (ground arith)
    | inr (x, e) ↦ elim (Result-cases (digests evidence ns)) [
      | inr (e', p) ↦ absurd (ground arith)
      | inl (rest, p) ↦
          let tail = digests-values ns p in
          let whole : (x, n) ∷ rest ≡ d = ground arith in rw (← whole) (ap (λ l. n ∷ l) tail)
    ]
  ]

  digests-AllDigests : (ns : List String) {d : Dict} → digests evidence ns ≡ ok d → AllDigests d
  unfolding digests
  digests-AllDigests [] {d = d} h =
      let nothing : [] ≡ d = ground arith in subst AllDigests nothing tt
  digests-AllDigests (n ∷ ns) {d = d} h = elim (Option-cases (evidence.file_sha256 n)) [
    | inl e ↦ absurd (ground arith)
    | inr (x, e) ↦ elim (Result-cases (digests evidence ns)) [
      | inr (e', p) ↦ absurd (ground arith)
      | inl (rest, p) ↦
          let whole : (x, n) ∷ rest ≡ d = ground arith in
          subst AllDigests whole (e, digests-AllDigests ns p)
    ]
  ]

  -- A receipt and its verification, and the dependencies the two refer to.
  pub record IsChain (receipt : Fields) (groups : Groups) : Type 0 where
    pub receipt_name : String
    pub receipt_digest : String
    pub its_receipt : groups.receipts ≡ (receipt_digest, receipt_name) ∷ []
    pub read_receipt : IsRead receipt_name receipt receipt_digest
    pub verification : Fields
    pub verification_name : String
    pub verification_digest : String
    pub its_verification : groups.verifications ≡ (verification_digest, verification_name) ∷ []
    pub read_verification : IsRead verification_name verification verification_digest
    pub names_verification : get receipt "verification_sha256" ≡ str verification_digest
    pub required : List String
    pub referred :
        evidence.validate_artifact_receipt receipt verification (keys groups.dependencies)
        ≡ some required
    pub all_given : same_set required (keys groups.dependencies) ≡ true
    pub all_digests : AllDigests groups.dependencies
    pub no_duplicates : distinct (keys groups.dependencies) ≡ true

  chain_documents-IsChain :
      (receipt_name verification_name : String) (names : List String) {receipt : Fields}
      {groups : Groups}
      → chain_documents evidence receipt_name verification_name names ≡ ok (receipt, groups)
      → IsChain receipt groups
  unfolding chain_documents
  chain_documents-IsChain receipt_name verification_name names {receipt = receipt} {groups = groups}
        h =
      elim (Result-cases (read_document evidence receipt_name "artifact_receipt")) [
        | inr (e, p) ↦ absurd (ground arith)
        | inl ((receipt', d), p) ↦
            elim (Result-cases (read_document evidence verification_name "artifact_verification")) [
              | inr (e, q) ↦ absurd (ground arith)
              | inl ((verification, d'), q) ↦ elim (Result-cases (digests evidence names)) [
                | inr (e, r) ↦ absurd (ground arith)
                | inl (files, r) ↦
                    elim (Option-cases
                      (evidence.validate_artifact_receipt receipt' verification (keys files))) [
                        | inl e ↦ absurd (ground arith)
                        | inr (required, e) ↦
                            let text : is_text (get receipt' "verification_sha256") d' ≡ true =
                              ground arith in
                            let same : receipt' ≡ receipt = ground arith in
                            let given : files ≡ groups.dependencies = ground arith in
                            record {
                              receipt_name = receipt_name;
                              receipt_digest = d;
                              its_receipt = ground arith;
                              read_receipt =
                                  read_document-IsRead receipt_name "artifact_receipt" (cc);
                              verification = verification;
                              verification_name = verification_name;
                              verification_digest = d';
                              its_verification = ground arith;
                              read_verification =
                                  read_document-IsRead verification_name "artifact_verification" q;
                              names_verification = is_text-eq-str _ d' (cc);
                              required = required;
                              referred = ground arith;
                              all_given = ground arith;
                              all_digests = subst AllDigests given (digests-AllDigests names r);
                              no_duplicates = ground arith;
                            }
                      ]
              ]
            ]
      ]

  chain_documents-names :
      (receipt_name verification_name : String) (names : List String) {receipt : Fields}
      {groups : Groups}
      → chain_documents evidence receipt_name verification_name names ≡ ok (receipt, groups)
      → (values groups.receipts ≡ receipt_name ∷ [])
        × (values groups.verifications ≡ verification_name ∷ [])
        × (values groups.dependencies ≡ names)
  unfolding chain_documents
  chain_documents-names receipt_name verification_name names {groups = groups} h =
      elim (Result-cases (read_document evidence receipt_name "artifact_receipt")) [
        | inr (e, p) ↦ absurd (ground arith)
        | inl ((receipt, d), p) ↦
            elim (Result-cases (read_document evidence verification_name "artifact_verification")) [
              | inr (e, q) ↦ absurd (ground arith)
              | inl ((verification, d'), q) ↦ elim (Result-cases (digests evidence names)) [
                | inr (e, r) ↦ absurd (ground arith)
                | inl (files, r) ↦
                    elim (Option-cases
                      (evidence.validate_artifact_receipt receipt verification (keys files))) [
                        | inl e ↦ absurd (ground arith)
                        | inr (required, e) ↦
                            let given : files ≡ groups.dependencies = ground arith in
                            let first : (d, receipt_name) ∷ [] ≡ groups.receipts = ground arith in
                            let second : (d', verification_name) ∷ [] ≡ groups.verifications =
                              ground arith in
                            (
                              ap values (sym first),
                              ap values (sym second),
                              ap values (sym given) ∙ digests-values names r,
                            )
                      ]
              ]
            ]
      ]

  -- Each name is that of a regular file at its path.
  abbrev pub AllFiles : List String → List String → Type 0
  AllFiles [] [] = Unit
  AllFiles [] (n ∷ ns) = ⊥
  AllFiles (p ∷ ps) [] = ⊥
  AllFiles (p ∷ ps) (n ∷ ns) =
      (evidence.resolve true p ≡ some n) × (evidence.is_file n ≡ true) × AllFiles ps ns

  relative_file-file :
      (path : String) {name : String}
      → relative_file evidence true path ≡ ok name
      → (evidence.resolve true path ≡ some name) × (evidence.is_file name ≡ true)
  unfolding relative_file
  relative_file-file path h = elim (Option-cases (evidence.resolve true path)) [
    | inl e ↦ absurd (ground arith)
    | inr (n, e) ↦ (ground arith, ground arith)
  ]

  relative_files-AllFiles :
      (paths : List String) {names : List String}
      → relative_files evidence paths ≡ ok names
      → AllFiles paths names
  unfolding relative_files
  relative_files-AllFiles [] {names = names} h =
      let nothing : [] ≡ names = ground arith in subst (AllFiles []) nothing tt
  relative_files-AllFiles (p ∷ ps) {names = names} h =
      elim (Result-cases (relative_file evidence true p)) [
        | inr (e, q) ↦ absurd (ground arith)
        | inl (n, q) ↦ elim (Result-cases (relative_files evidence ps)) [
          | inr (e, r) ↦ absurd (ground arith)
          | inl (ns, r) ↦
              let whole : n ∷ ns ≡ names = ground arith in
              let (found, regular) = relative_file-file p q in
              subst (AllFiles (p ∷ ps)) whole (found, regular, relative_files-AllFiles ps r)
        ]
      ]

  -- The groups name the files of the arguments, in order.
  pub record AreNamed (receipt_path verification_path : String) (dependencies : List String)
      (groups : Groups) : Type 0 where
    pub its_receipts : AllFiles (receipt_path ∷ []) (values groups.receipts)
    pub its_verifications : AllFiles (verification_path ∷ []) (values groups.verifications)
    pub its_dependencies : AllFiles dependencies (values groups.dependencies)

  chain_names-AllFiles :
      (receipt_path verification_path : String) (dependencies : List String)
      {receipt_name verification_name : String} {names : List String}
      → chain_names evidence receipt_path verification_path dependencies
        ≡ ok (receipt_name, verification_name, names)
      → AllFiles (receipt_path ∷ []) (receipt_name ∷ [])
        × AllFiles (verification_path ∷ []) (verification_name ∷ [])
        × AllFiles dependencies names
  unfolding chain_names
  chain_names-AllFiles receipt_path verification_path dependencies {receipt_name = receipt_name}
        {verification_name = verification_name} {names = names} h =
      elim (Result-cases (relative_file evidence true receipt_path)) [
        | inr (e, p) ↦ absurd (ground arith)
        | inl (r, p) ↦ elim (Result-cases (relative_file evidence true verification_path)) [
          | inr (e, q) ↦ absurd (ground arith)
          | inl (v, q) ↦ elim (Result-cases (relative_files evidence dependencies)) [
            | inr (e, s) ↦ absurd (ground arith)
            | inl (ns, s) ↦
                let first : r ≡ receipt_name = ground arith in
                let second : v ≡ verification_name = ground arith in
                let third : ns ≡ names = ground arith in
                let (found, regular) = relative_file-file receipt_path p in
                let (found', regular') = relative_file-file verification_path q in
                (
                  subst (λ n. AllFiles (receipt_path ∷ []) (n ∷ [])) first (found, regular, tt),
                  subst (λ n. AllFiles (verification_path ∷ []) (n ∷ [])) second
                      (found', regular', tt),
                  subst (AllFiles dependencies) third (relative_files-AllFiles dependencies s),
                )
          ]
        ]
      ]

  -- An accepted chain: the groups name regular files at the paths of the arguments, the receipt and
  -- the verification are the documents in their files, the receipt names the digest of the
  -- verification's bytes, every dependency has the digest of its file, no two of them have the same
  -- digest, and they are exactly those that the receipt with its verification refers to.
  pub chain_files-IsChain :
      (receipt_path verification_path : String) (dependencies : List String) {receipt : Fields}
      {groups : Groups}
      → chain_files evidence receipt_path verification_path dependencies ≡ ok (receipt, groups)
      → IsChain receipt groups × AreNamed receipt_path verification_path dependencies groups
  unfolding chain_files
  chain_files-IsChain receipt_path verification_path dependencies {receipt = receipt}
        {groups = groups} h =
      elim (Result-cases (chain_names evidence receipt_path verification_path dependencies)) [
        | inr (e, p) ↦ absurd (ground arith)
        | inl ((receipt_name, verification_name, names), p) ↦
            let read =
              chain_documents-names receipt_name verification_name names {receipt = receipt}
                {groups = groups} (ground arith) in
            let files = chain_names-AllFiles receipt_path verification_path dependencies p in
            (
              chain_documents-IsChain receipt_name verification_name names (ground arith),
              record {
                its_receipts = rw read.0 files.0;
                its_verifications = rw read.1 files.1;
                its_dependencies = rw read.2 files.2;
              },
            )
      ]
