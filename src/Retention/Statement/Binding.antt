-- ===== src/Retention/Statement/Binding.antt =====
-- What a statement binds that `authenticated_statement` accepts.
use robotics_runtime_infra.Base.{
  ◌≡◌, String, true, some, arith, str_eq_iff, bytes_eq, bytes_eq-eq, sym, subst, Option-cases, inl,
  inr,
}
use robotics_runtime_infra.Base.Result.{ok}
use robotics_runtime_infra.Base.Value.{
  Value, str, no_items, item, Fields, no_fields, field, get, as_str, as_obj, is_text, obj, arr,
}
use robotics_runtime_infra.Retention.Registration.{Descriptor}
use robotics_runtime_infra.Retention.Download.{Bytes, Codec}
use robotics_runtime_infra.Retention.Statement.{
  Decoder, descriptor_fields, is_digest, only_subject, has_exactly, predicate_keys, predicate_type,
  same_document, statement_payload, check_type, check_subject, retention_producer,
  authenticated_statement,
}

as_obj-eq-some : (v : Value) {fs : Fields} → as_obj v ≡ some fs → v ≡ obj fs
as_obj-eq-some (obj fs) h = cc
as_obj-eq-some _ h = cc

as_str-eq-some : (v : Value) {s : String} → as_str v ≡ some s → v ≡ str s
as_str-eq-some (str s) h = cc
as_str-eq-some _ h = cc

is_text-eq-true : (v : Value) (s : String) → is_text v s ≡ true → v ≡ str s
is_text-eq-true (str t) s h = ground (arith, str_eq_iff t s)
is_text-eq-true _ s h = cc

is_digest-eq-true :
    (v : Value) (d : String) → is_digest v d ≡ true → v ≡ obj (field "sha256" (str d) no_fields)
is_digest-eq-true (obj (field k v no_fields)) d h =
    ground (arith, str_eq_iff k "sha256", is_text-eq-true v d)
is_digest-eq-true _ d h = cc

only_subject-eq-some :
    (v : Value) {s : Fields} → only_subject v ≡ some s → v ≡ arr (item (obj s) no_items)
unfolding only_subject
only_subject-eq-some (arr (item x no_items)) h = ground (arith, as_obj-eq-some x h)
only_subject-eq-some _ h = cc

check_type-eq-ok :
    (statement : Fields) {u : Unit {0}}
    → check_type statement ≡ ok u
    → get statement "predicateType" ≡ str predicate_type
unfolding check_type
check_type-eq-ok statement h =
    let kind : is_text (get statement "predicateType") predicate_type ≡ true = ground arith in
    is_text-eq-true _ predicate_type kind

check_subject-eq-ok :
    (statement : Fields) (digest : String) {u : Unit {0}}
    → check_subject statement digest ≡ ok u
    → (subject : Fields) × (get statement "subject" ≡ arr (item (obj subject) no_items))
      × (get subject "digest" ≡ obj (field "sha256" (str digest) no_fields))
unfolding check_subject
check_subject-eq-ok statement digest h =
    elim (Option-cases (only_subject (get statement "subject"))) [
      | inl e ↦ absurd (ground arith)
      | inr (subject, e) ↦
          let same : is_digest (get subject "digest") digest ≡ true = ground arith in
          (subject, only_subject-eq-some _ e, is_digest-eq-true _ digest same)
    ]

module _ (codec : Codec) (decoder : Decoder) where
  -- A statement with one subject, the digest, and a predicate that says the descriptor and the run.
  pub record Binds (raw : Bytes) (descriptor : Descriptor) (run_id producer : String) : Type 0 where
    pub statement : Fields
    pub decoded : codec.loads_mapping raw ≡ some statement
    pub type_of_predicate : get statement "predicateType" ≡ str predicate_type
    pub subject : Fields
    pub one_subject : get statement "subject" ≡ arr (item (obj subject) no_items)
    pub digest : get subject "digest" ≡ obj (field "sha256" (str descriptor.sha256) no_fields)
    pub predicate : Fields
    pub its_predicate : get statement "predicate" ≡ obj predicate
    pub artifact : Fields
    pub its_artifact : get predicate "artifact" ≡ obj artifact
    pub keys : has_exactly predicate predicate_keys ≡ true
    pub canonical : Bytes
    pub its_form : decoder.dumps_canonical artifact ≡ some canonical
    pub descriptor_form : decoder.dumps_canonical (descriptor_fields descriptor) ≡ some canonical
    pub run : get predicate "run_id" ≡ str run_id
    pub its_producer : get predicate "producer_implementation" ≡ str producer

  same_document-canonical :
      (a b : Fields)
      → same_document codec decoder a b ≡ true
      → (canonical : Bytes) × (decoder.dumps_canonical a ≡ some canonical)
        × (decoder.dumps_canonical b ≡ some canonical)
  unfolding same_document
  same_document-canonical a b h = elim (Option-cases (decoder.dumps_canonical a)) [
    | inl e ↦ absurd (ground arith)
    | inr (x, e) ↦ elim (Option-cases (decoder.dumps_canonical b)) [
      | inl f ↦ absurd (ground arith)
      | inr (y, f) ↦
          let equal : bytes_eq x y ≡ true = ground arith in
          (x, e, subst (λ z. decoder.dumps_canonical b ≡ some z) (sym (bytes_eq-eq x y equal)) f)
    ]
  ]

  -- What a predicate says whose producer is accepted.
  abbrev Says : Fields → Descriptor → String → String → Type 0
  Says predicate descriptor run_id producer =
      (artifact : Fields) × (get predicate "artifact" ≡ obj artifact)
      × (has_exactly predicate predicate_keys ≡ true)
      × ((canonical : Bytes) × (decoder.dumps_canonical artifact ≡ some canonical)
          × (decoder.dumps_canonical (descriptor_fields descriptor) ≡ some canonical))
      × (get predicate "run_id" ≡ str run_id)
      × (get predicate "producer_implementation" ≡ str producer)

  retention_producer-Says :
      (predicate : Fields) (descriptor : Descriptor) (run_id producer : String)
      → retention_producer codec decoder predicate descriptor run_id ≡ ok producer
      → Says predicate descriptor run_id producer
  unfolding retention_producer
  retention_producer-Says predicate descriptor run_id producer h =
      elim (Option-cases (as_obj (get predicate "artifact"))) [
        | inl e ↦ absurd (ground arith)
        | inr (artifact, e) ↦
            let same : same_document codec decoder artifact (descriptor_fields descriptor) ≡ true =
              ground arith in
            let run : is_text (get predicate "run_id") run_id ≡ true = ground arith in
            let made : as_str (get predicate "producer_implementation") ≡ some producer =
              ground arith in
            (
              artifact,
              as_obj-eq-some _ e,
              ground arith,
              same_document-canonical artifact (descriptor_fields descriptor) same,
              is_text-eq-true _ run_id run,
              as_str-eq-some _ made,
            )
      ]

  -- A statement that is accepted is the payload of the bundle, and it binds the registered artifact
  -- and the run: one subject with exactly the registered digest, and a predicate with exactly the
  -- three keys, whose artifact has the same canonical bytes as the descriptor and whose run is the
  -- registered one.
  pub authenticated_statement-Binds :
      (bundle_raw : Bytes) (descriptor : Descriptor) (run_id : String) (raw : Bytes)
      (producer : String)
      → authenticated_statement codec decoder bundle_raw descriptor run_id ≡ ok (raw, producer)
      → (statement_payload codec decoder bundle_raw ≡ ok raw) × Binds raw descriptor run_id producer
  unfolding authenticated_statement
  authenticated_statement-Binds bundle_raw descriptor run_id raw producer h =
      let payload : statement_payload codec decoder bundle_raw ≡ ok raw = ground arith in
      elim (Option-cases (codec.loads_mapping raw)) [
        | inl e ↦ absurd (ground arith)
        | inr (statement, e) ↦ elim (Option-cases (as_obj (get statement "predicate"))) [
          | inl e' ↦ absurd (ground arith)
          | inr (predicate, e') ↦
              let kind : check_type statement ≡ ok tt = ground arith in
              let bound : check_subject statement descriptor.sha256 ≡ ok tt = ground arith in
              let made : retention_producer codec decoder predicate descriptor run_id
                  ≡ ok producer =
                ground arith in
              let (subject, one_subject, digest) =
                check_subject-eq-ok statement descriptor.sha256 bound in
              let (
                artifact,
                its_artifact,
                keys,
                (canonical, its_form, descriptor_form),
                run,
                its_producer,
              ) =
                retention_producer-Says predicate descriptor run_id producer made in
              (
                payload,
                record {
                  statement = statement;
                  decoded = e;
                  type_of_predicate = check_type-eq-ok statement kind;
                  subject = subject;
                  one_subject = one_subject;
                  digest = digest;
                  predicate = predicate;
                  its_predicate = as_obj-eq-some _ e';
                  artifact = artifact;
                  its_artifact = its_artifact;
                  keys = keys;
                  canonical = canonical;
                  its_form = its_form;
                  descriptor_form = descriptor_form;
                  run = run;
                  its_producer = its_producer;
                },
              )
        ]
      ]
