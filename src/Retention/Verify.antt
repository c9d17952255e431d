-- ===== src/Retention/Verify.antt =====
-- `cosign_version` and `verify` of retained-artifact.py. The work directory is deleted on every error
-- and renamed to the output at the end, so that the result is the published directory or an error.
-- The tools that it runs, the clock and the contract check of the document are in `Tools`.
pub mod Sound
use Prim.Native.String.{◌++◌ as append_text}
use robotics_runtime_infra.Base.{
  ℕ, String, Bool, true, false, not, ◌&&◌, ◌||◌, Option, none, some, ltb, leb, ◌==◌, str_eq,
  if◌then◌else◌,
}
use robotics_runtime_infra.Base.Result.{Result, ok, err, raise_if, or_raise, ◌>>=◌, ◌>>◌}
use robotics_runtime_infra.Base.Value.{ℤ, Value, Fields, get, as_str}
use robotics_runtime_infra.Retention.Registration.{
  Library, Descriptor, Registered, Error, artifact_byte_limit, registration_descriptor,
}
use robotics_runtime_infra.Retention.Download.{
  Bytes, Codec, S3Object, Client, DownloadError, download_version,
}
use robotics_runtime_infra.Retention.Statement.{Decoder, StatementError, authenticated_statement}

pub record Version : Type 0 where
  pub major : ℕ
  pub minor : ℕ
  pub patch : ℕ

-- The document that `verify` writes; the fields that are constants are left out.
pub record Verification : Type 0 where
  pub verification_id : String
  pub statement_sha256 : String
  pub artifact : Descriptor
  pub producer_identity : String
  pub producer_implementation : String
  pub trust_policy_sha256 : String
  pub verification_evidence_sha256 : String
  pub verifier_version : String
  pub verified_at : String

pub record Tools : Type 0 where
  pub lib : Library
  pub codec : Codec
  pub decoder : Decoder
  pub client : Client
  -- The output of `cosign version --json`; none if the command fails.
  pub version_output : Option Bytes
  -- The groups of `v(\\d+)\\.(\\d+)\\.(\\d+)(?:\\+[^\\s]+)?`, if a text matches.
  pub match_version : String → Option Version
  -- `cosign verify-blob-attestation` with a bundle, a key and a blob.
  pub verify_blob : Bytes → Bytes → Bytes → Bool
  pub validate_document : Verification → Bool
  pub now : String

pub data VerifyError : Type 0 where
  output_exists not_a_document bad_version not_verified not_valid : VerifyError
  registration_error : Error → VerifyError
  download_error : DownloadError → VerifyError
  statement_error : StatementError → VerifyError

-- The files of the published directory.
pub record Published : Type 0 where
  pub bundle : Bytes
  pub policy : Bytes
  pub statement : Bytes
  pub response : Bytes
  pub document : Verification

pub record Arguments : Type 0 where
  pub output_exists : Bool
  pub max_artifact_bytes : ℤ
  pub registration : Bytes
  pub bundle : Bytes
  pub key : Bytes

-- The order of tuples, `(3, 1, 3) <= version`.
unfoldable pub is_supported : Version → Bool
is_supported v =
    if v.major == 3 then (if v.minor == 1 then leb 3 v.patch else ltb 1 v.minor) else ltb 3 v.major

abbrev in_verify {ℓ} :
    {E : Type 0} {A : Type ℓ} → (E → VerifyError) → Result E A → Result VerifyError A
in_verify f (ok a) = ok a
in_verify f (err e) = err (f e)

module _ (tools : Tools) where
  -- `cosign_version`
  unfoldable pub cosign_version : Result VerifyError String
  cosign_version = do
    output ← or_raise tools.version_output bad_version
    observed ← or_raise (tools.codec.loads_mapping output) bad_version
    text ← or_raise (as_str (get observed "gitVersion")) bad_version
    version ← or_raise (tools.match_version text) bad_version
    raise_if (not (is_supported version)) bad_version
    ok text

  abbrev pub object_of : Registered → S3Object
  object_of r = record {
    bucket = r.bucket;
    key = r.key;
    version_id = r.descriptor.immutable_revision;
  }

  abbrev pub document_of : Arguments → Registered → String → Bytes → String → Verification
  document_of arguments r version statement producer =
      let sha256 = tools.codec.sha256 in
      record {
        verification_id = append_text "retention-" r.descriptor.sha256;
        statement_sha256 = sha256 statement;
        artifact = r.descriptor;
        producer_identity = append_text "key-sha256:" (sha256 arguments.key);
        producer_implementation = producer;
        trust_policy_sha256 = sha256 arguments.key;
        verification_evidence_sha256 = sha256 arguments.bundle;
        verifier_version = version;
        verified_at = tools.now;
      }

  -- The registration, within the byte limit.
  unfoldable pub registered : Arguments → Result VerifyError Registered
  registered arguments = do
    raise_if arguments.output_exists output_exists
    maximum ← in_verify registration_error (artifact_byte_limit arguments.max_artifact_bytes)
    document ← or_raise (tools.codec.loads_mapping arguments.registration) not_a_document
    in_verify registration_error (registration_descriptor tools.lib document maximum)

  -- The work in the temporary directory.
  unfoldable pub verify_object : Arguments → Registered → String → Result VerifyError Published
  verify_object arguments r version = do
    fetched ←
        in_verify download_error
          (download_version tools.codec tools.client (object_of r) r.descriptor)
    raise_if (not (tools.verify_blob arguments.bundle arguments.key fetched.1)) not_verified
    statement ←
        in_verify statement_error
          (authenticated_statement tools.codec tools.decoder arguments.bundle r.descriptor r.run_id)
    let document = document_of arguments r version statement.0 statement.1
    raise_if (not (tools.validate_document document)) not_valid
    ok (record {
      bundle = arguments.bundle;
      policy = arguments.key;
      statement = statement.0;
      response = fetched.0;
      document = document;
    })

  -- `verify`
  unfoldable pub verify : Arguments → Result VerifyError Published
  verify arguments = do
    r ← registered arguments
    version ← cosign_version
    verify_object arguments r version
