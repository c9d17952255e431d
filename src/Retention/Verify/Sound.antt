-- ===== src/Retention/Verify/Sound.antt =====
-- What a published verification shows.
use robotics_runtime_infra.Base.{
  ℕ, ◌≡◌, ◌≤◌, String, true, false, Option, some, arith, length, Option-cases, inl, inr, refl,
}
use robotics_runtime_infra.Base.Result.{ok, Result-cases}
use robotics_runtime_infra.Base.Value.{ℤ, pos, negsuc, Fields}
use robotics_runtime_infra.Retention.Registration.{
  Registered, max_artifact_bytes, artifact_byte_limit, registration_descriptor,
}
use robotics_runtime_infra.Retention.Registration.Admission.{
  IsAdmitted, registration_descriptor-IsAdmitted,
}
use robotics_runtime_infra.Retention.Download.{Bytes, S3Object, download_version}
use robotics_runtime_infra.Retention.Download.Whole.{Serves, download_version_whole}
use robotics_runtime_infra.Retention.Statement.{authenticated_statement}
use robotics_runtime_infra.Retention.Statement.Binding.{Binds, authenticated_statement-Binds}
use robotics_runtime_infra.Retention.Verify.{
  Tools, Arguments, Published, cosign_version, object_of, document_of, registered, verify_object,
  verify,
}

artifact_byte_limit-le : (n : ℤ) {m : ℕ} → artifact_byte_limit n ≡ ok m → m ≤ max_artifact_bytes
unfolding artifact_byte_limit
artifact_byte_limit-le (pos n) h = ground arith
artifact_byte_limit-le (negsuc n) h = cc

module _ (tools : Tools) (arguments : Arguments) where
  registered-eq-ok :
      (r : Registered)
      → registered tools arguments ≡ ok r
      → (document : Fields) × (maximum : ℕ) × (tools.codec.loads_mapping arguments.registration
          ≡ some document)
        × (maximum ≤ max_artifact_bytes)
        × IsAdmitted tools.lib document maximum r
        × (arguments.output_exists ≡ false)
  unfolding registered
  registered-eq-ok r h = elim (Result-cases (artifact_byte_limit arguments.max_artifact_bytes)) [
    | inr (x, e) ↦ absurd (ground arith)
    | inl (maximum, e) ↦ elim (Option-cases (tools.codec.loads_mapping arguments.registration)) [
      | inl e' ↦ absurd (ground arith)
      | inr (document, e') ↦
          let made : registration_descriptor tools.lib document maximum ≡ ok r = ground arith in
          (
            document,
            maximum,
            e',
            artifact_byte_limit-le _ e,
            registration_descriptor-IsAdmitted tools.lib document maximum r made,
            ground arith,
          )
    ]
  ]

  -- What stands behind a published directory `p` of the registration `r`.
  pub record IsVerified (stored : S3Object → Option Bytes) (r : Registered) (p : Published)
      : Type 0 where
    pub artifact : p.document.artifact ≡ r.descriptor
    pub blob : Bytes
    pub whole : stored (object_of tools r) ≡ some blob
    pub digest : tools.codec.sha256 blob ≡ p.document.artifact.sha256
    pub size : length blob ≡ p.document.artifact.size_bytes
    pub signed : tools.verify_blob arguments.bundle arguments.key blob ≡ true
    pub bound :
        Binds tools.codec tools.decoder p.statement r.descriptor r.run_id
          p.document.producer_implementation
    pub statement_digest : p.document.statement_sha256 ≡ tools.codec.sha256 p.statement
    pub policy : p.policy ≡ arguments.key
    pub policy_digest : p.document.trust_policy_sha256 ≡ tools.codec.sha256 p.policy
    pub evidence : p.bundle ≡ arguments.bundle
    pub evidence_digest : p.document.verification_evidence_sha256 ≡ tools.codec.sha256 p.bundle

  verify_object-IsVerified :
      (stored : S3Object → Option Bytes)
      → Serves tools.client stored
      → (r : Registered) (version : String) (p : Published)
      → verify_object tools arguments r version ≡ ok p
      → IsVerified stored r p
  unfolding verify_object
  verify_object-IsVerified stored serves r version p h =
      elim (Result-cases
        (download_version tools.codec tools.client (object_of tools r) r.descriptor)) [
          | inr (x, e) ↦ absurd (ground arith)
          | inl ((response, blob), e) ↦
              elim (Result-cases (
                authenticated_statement tools.codec tools.decoder arguments.bundle r.descriptor
                  r.run_id)) [
                    | inr (x, e') ↦ absurd (ground arith)
                    | inl ((statement, producer), e') ↦
                        let (held, digest, size) =
                          download_version_whole tools.codec tools.client (object_of tools r)
                            r.descriptor stored serves response blob e in
                        let (_, binds) =
                          authenticated_statement-Binds tools.codec tools.decoder arguments.bundle
                            r.descriptor r.run_id statement producer e' in
                        let signed : tools.verify_blob arguments.bundle arguments.key blob ≡ true =
                          ground arith in
                        let made : p ≡ record {
                          bundle = arguments.bundle;
                          policy = arguments.key;
                          statement = statement;
                          response = response;
                          document = document_of tools arguments r version statement producer;
                        } =
                          ground arith in
                        rw made (record {
                          artifact = refl;
                          blob = blob;
                          whole = held;
                          digest = digest;
                          size = size;
                          signed = signed;
                          bound = binds;
                          statement_digest = refl;
                          policy = refl;
                          policy_digest = refl;
                          evidence = refl;
                          evidence_digest = refl;
                        })
                  ]
        ]

  -- If the store answers a GET with the bytes that it holds, cut to the range, then a directory that
  -- `verify` publishes did not exist before, its registration was admitted within the byte limit of
  -- 2 ^ 30, the whole stored object version has the registered digest and size and passed the
  -- signature check with the given key, the statement binds the registered artifact and run, and the
  -- document's digests are those of the published files.
  pub verify-IsVerified :
      (stored : S3Object → Option Bytes)
      → Serves tools.client stored
      → (p : Published) → verify tools arguments ≡ ok p
      → (r : Registered) × (document : Fields) × (maximum : ℕ) × (tools.codec.loads_mapping
            arguments.registration
          ≡ some document)
        × (maximum ≤ max_artifact_bytes)
        × IsAdmitted tools.lib document maximum r
        × (arguments.output_exists ≡ false)
        × IsVerified stored r p
  unfolding verify
  verify-IsVerified stored serves p h = elim (Result-cases (registered tools arguments)) [
    | inr (x, e) ↦ absurd (ground arith)
    | inl (r, e) ↦ elim (Result-cases (cosign_version tools)) [
      | inr (x, e') ↦ absurd (ground arith)
      | inl (version, e') ↦
          let made : verify_object tools arguments r version ≡ ok p = ground arith in
          let (document, maximum, read, bound, admitted, fresh) = registered-eq-ok r e in
          (
            r,
            document,
            maximum,
            read,
            bound,
            admitted,
            fresh,
            verify_object-IsVerified stored serves r version p made,
          )
    ]
  ]
