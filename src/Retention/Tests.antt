-- ===== src/Retention/Tests.antt =====
-- A registration and its verification with small stand-ins for the tools.
use Prim.Native.Char.{code}
use robotics_runtime_infra.Base.{
  ℕ, ◌≡◌, ◌≤◌, ◌==◌, String, true, false, Option, none, some, [], ◌∷◌, ◌++◌, length, refl, arith,
  str_eq, if◌then◌else◌,
}
use robotics_runtime_infra.Base.Result.{ok}
use robotics_runtime_infra.Base.Text.{strip_prefix, is_sha256}
use robotics_runtime_infra.Base.Value.{
  pos, Value, int, str, no_items, item, Fields, no_fields, field, obj, arr,
}
use robotics_runtime_infra.Retention.Registration.{
  Library, Descriptor, Registered, registration_descriptor, registered_run, registered_location,
  bounded_size, version_of, sha256_of, is_bucket, artifact_byte_limit, max_artifact_bytes,
}
use robotics_runtime_infra.Retention.Registration.Admission.{
  IsAdmitted, registration_descriptor-IsAdmitted,
}
use robotics_runtime_infra.Retention.Download.{
  Bytes, Codec, S3Object, Client, require_object_version, is_size, is_expected_range,
  download_version,
}
use robotics_runtime_infra.Retention.Download.Whole.{ranged, Serves, download_version_whole}
use robotics_runtime_infra.Retention.Statement.{
  Decoder, descriptor_fields, predicate_type, has_exactly, only_subject, same_document,
  statement_payload, check_type, check_subject, retention_producer, authenticated_statement,
}
use robotics_runtime_infra.Retention.Statement.Binding.{Binds, authenticated_statement-Binds}
use robotics_runtime_infra.Retention.Verify.{
  Tools, Arguments, Published, is_supported, cosign_version, registered, document_of, verify_object,
  verify,
}
use robotics_runtime_infra.Retention.Verify.Sound.{IsVerified, verify-IsVerified}

abbrev digest : String
digest = "aaaaaaaaaaaaaaaaaaaaaaaaaaaaaaaaaaaaaaaaaaaaaaaaaaaaaaaaaaaaaaaa"

abbrev run_uuid : String
run_uuid = "00000000-0000-4000-8000-000000000000"

abbrev run_name : String
run_name = "run-00000000-0000-4000-8000-000000000000"

abbrev lib : Library
lib = record {
  parse_uuid = λ s. some (record { version = 4; text = s });
  urlsplit = λ s.
      some (record {
        scheme = "s3";
        netloc = "bucket";
        path = "/run/a.bin";
        query = "";
        fragment = "";
      });
  unquote = λ s. some s;
  quote = λ s. s;
  is_media_type = λ s. str_eq s "application/octet-stream";
}

abbrev document : Fields
document = field "upload_status" (str "confirmed") (
    field "run_id" (str run_name) (
      field "size_bytes" (int (pos 3)) (
        field "media_type" (str "application/octet-stream") (
          field "sha256" (str digest) (
            field "version_id" (str "v1") (field "uri" (str "s3://bucket/run/a.bin") no_fields))))))

abbrev descriptor : Descriptor
descriptor = record {
  uri = "s3://bucket/run/a.bin";
  sha256 = digest;
  size_bytes = 3;
  media_type = "application/octet-stream";
  immutable_revision = "v1";
}

abbrev registration : Registered
registration = record {
  descriptor = descriptor;
  run_id = run_name;
  bucket = "bucket";
  key = "run/a.bin";
}

registered-document : registration_descriptor lib document 100 ≡ ok registration
unfolding registration_descriptor registered_run registered_location bounded_size version_of
    sha256_of is_bucket is_sha256 strip_prefix
registered-document = refl

registration_descriptor-IsAdmitted_example : IsAdmitted lib document 100 registration
registration_descriptor-IsAdmitted_example =
    registration_descriptor-IsAdmitted lib document 100 registration registered-document

abbrev response : Fields
response = field "VersionId" (str "v1") (
    field "ContentType" (str "application/octet-stream")
      (field "ContentLength" (int (pos 3)) (field "ContentRange" (str "bytes 0-2/3") no_fields)))

abbrev predicate : Fields
predicate =
    field "artifact" (obj (descriptor_fields descriptor))
      (field "run_id" (str run_name) (field "producer_implementation" (str "sink") no_fields))

abbrev statement : Fields
statement = field "_type" (str "https://in-toto.io/Statement/v1") (
    field "predicateType" (str predicate_type) (
      field "subject"
        (arr (
          item (obj (field "digest" (obj (field "sha256" (str digest) no_fields)) no_fields))
            no_items))
        (field "predicate" (obj predicate) no_fields)))

abbrev bundle : Fields
bundle =
    field "dsseEnvelope"
      (obj (
        field "payloadType" (str "application/vnd.in-toto+json")
          (field "payload" (str "c3RhdGVtZW50") no_fields)))
      no_fields

-- The documents by their first byte.
abbrev decode : Bytes → Option Fields
decode [] = none
decode (b ∷ bs) =
    if b == 1
    then some document
    else if b == 2
    then some bundle
    else if b == 3
    then some statement
    else if b == 4
    then some response
    else if b == 5
    then some (field "gitVersion" (str "v3.1.3") no_fields)
    else none

abbrev codec : Codec
codec = record {
  sha256 = λ b. digest;
  loads_mapping = decode;
  decimal = λ n. if n == 2 then "2" else "3";
}

-- The key and the value of each entry, in order: a text, or a natural number.
abbrev text_bytes : String → Bytes
text_bytes String.[] = 0 ∷ []
text_bytes (String.◌∷◌ c s) = code c ∷ text_bytes s

abbrev value_bytes : Value → Bytes
value_bytes (str s) = 1 ∷ text_bytes s
value_bytes (int (pos n)) = 2 ∷ n ∷ []
value_bytes _ = 3 ∷ []

abbrev canonical : Fields → Bytes
canonical no_fields = []
canonical (field k v fs) = text_bytes k ++ (value_bytes v ++ canonical fs)

abbrev decoder : Decoder
decoder = record { b64decode = λ s. some (3 ∷ []); dumps_canonical = λ fs. some (canonical fs) }

abbrev content : Bytes
content = 10 ∷ 20 ∷ 30 ∷ []

abbrev client : Client
client = record {
  head_object = λ o. some (4 ∷ []);
  get_object = λ o r. some ((4 ∷ []), ranged r content);
}

abbrev stored : S3Object → Option Bytes
stored o = some content

client-Serves : Serves client stored
client-Serves = record { sent = λ o r response bytes e. (content, refl, ground arith) }

abbrev object : S3Object
object = record { bucket = "bucket"; key = "run/a.bin"; version_id = "v1" }

downloaded : download_version codec client object descriptor ≡ ok ((4 ∷ []), content)
unfolding download_version require_object_version is_size is_expected_range
downloaded = refl

download_version_whole_example :
    (stored object ≡ some content) × (codec.sha256 content ≡ digest) × (length content ≡ 3)
download_version_whole_example =
    download_version_whole codec client object descriptor stored client-Serves (4 ∷ []) content
      downloaded

stated : authenticated_statement codec decoder (2 ∷ []) descriptor run_name ≡ ok ((3 ∷ []), "sink")
unfolding authenticated_statement statement_payload check_type check_subject retention_producer
    has_exactly only_subject same_document
stated = refl

authenticated_statement-Binds_example :
    (statement_payload codec decoder (2 ∷ []) ≡ ok (3 ∷ []))
    × Binds codec decoder (3 ∷ []) descriptor run_name "sink"
authenticated_statement-Binds_example =
    authenticated_statement-Binds codec decoder (2 ∷ []) descriptor run_name (3 ∷ []) "sink" stated

abbrev tools : Tools
tools = record {
  lib = lib;
  codec = codec;
  decoder = decoder;
  client = client;
  version_output = some (5 ∷ []);
  match_version = λ s. some (record { major = 3; minor = 1; patch = 3 });
  verify_blob = λ b k blob. true;
  validate_document = λ d. true;
  now = "2026-01-01T00:00:00+00:00";
}

abbrev arguments : Arguments
arguments = record {
  output_exists = false;
  max_artifact_bytes = pos 100;
  registration = 1 ∷ [];
  bundle = 2 ∷ [];
  key = 9 ∷ [];
}

abbrev published : Published
published = record {
  bundle = 2 ∷ [];
  policy = 9 ∷ [];
  statement = 3 ∷ [];
  response = 4 ∷ [];
  document = document_of tools arguments registration "v3.1.3" (3 ∷ []) "sink";
}

verified : verify tools arguments ≡ ok published
unfolding verify verify_object registered cosign_version is_supported artifact_byte_limit
    registration_descriptor registered_run registered_location bounded_size version_of sha256_of
    is_bucket is_sha256 strip_prefix download_version require_object_version is_size
    is_expected_range authenticated_statement statement_payload check_type check_subject
    retention_producer has_exactly only_subject same_document
verified = refl

verify-IsVerified_example :
    (r : Registered) × (d : Fields) × (maximum : ℕ) × (codec.loads_mapping (1 ∷ []) ≡ some d)
    × (maximum ≤ max_artifact_bytes)
    × IsAdmitted lib d maximum r
    × (arguments.output_exists ≡ false)
    × IsVerified tools arguments stored r published
verify-IsVerified_example =
    verify-IsVerified tools arguments stored client-Serves published verified
