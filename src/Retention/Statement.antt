-- ===== src/Retention/Statement.antt =====
-- `authenticated_statement` of retained-artifact.py: the in-toto statement in a verified bundle.
-- Base64 and the canonical JSON writer are outside: `Decoder`.
pub mod Binding
use robotics_runtime_infra.Base.{
  ℕ, String, Bool, true, false, not, ◌&&◌, ◌||◌, Option, none, some, List, [], ◌∷◌, bytes_eq,
  str_eq, if◌then◌else◌,
}
use robotics_runtime_infra.Base.Result.{Result, ok, err, raise_if, or_raise, ◌>>=◌, ◌>>◌}
use robotics_runtime_infra.Base.Value.{
  ℤ, pos, Value, int, str, Items, no_items, item, Fields, no_fields, field, get, has_key, as_str,
  as_obj, as_arr, is_text,
}
use robotics_runtime_infra.Retention.Registration.{Descriptor}
use robotics_runtime_infra.Retention.Download.{Bytes, Codec}

pub record Decoder : Type 0 where
  pub b64decode : String → Option Bytes
  pub dumps_canonical : Fields → Option Bytes

pub data StatementError : Type 0 where
  not_json not_an_envelope no_payload bad_base64 wrong_type wrong_subject bad_predicate :
      StatementError
  wrong_artifact : StatementError

abbrev pub predicate_type : String
predicate_type = "https://robotics-runtime.dev/attestations/artifact-retention/v1"

-- The dict `descriptor`, in the order of its keys.
abbrev pub descriptor_fields : Descriptor → Fields
descriptor_fields d = field "uri" (Value.str d.uri) (
    field "sha256" (Value.str d.sha256) (
      field "size_bytes" (int (pos d.size_bytes)) (
        field "media_type" (Value.str d.media_type)
          (field "immutable_revision" (Value.str d.immutable_revision) no_fields))))

-- `value == {"sha256": digest}`, on a decoded value, whose keys are distinct.
abbrev pub is_digest : Value → String → Bool
is_digest (Value.obj (field k v no_fields)) digest = str_eq k "sha256" && is_text v digest
is_digest _ digest = false

abbrev among : List String → String → Bool
among [] k = false
among (n ∷ ns) k = if str_eq n k then true else among ns k

abbrev pub keys_among : List String → Fields → Bool
keys_among names no_fields = true
keys_among names (field k v fs) = among names k && keys_among names fs

abbrev pub all_keys : List String → Fields → Bool
all_keys [] fs = true
all_keys (n ∷ ns) fs = has_key fs n && all_keys ns fs

abbrev pub predicate_keys : List String
predicate_keys = "artifact" ∷ "run_id" ∷ "producer_implementation" ∷ []

-- `set(predicate) == {…}`
unfoldable pub has_exactly : Fields → List String → Bool
has_exactly fs names = keys_among names fs && all_keys names fs

-- The first of the subjects, if it is the only one, as a dict.
unfoldable pub only_subject : Value → Option Fields
only_subject (Value.arr (item s no_items)) = as_obj s
only_subject _ = none

-- The test on the types of the statement and of its predicate.
unfoldable pub check_type : Fields → Result StatementError (Unit {0})
check_type statement =
    raise_if
      (not (
          is_text (get statement "_type") "https://in-toto.io/Statement/v0.1"
          || is_text (get statement "_type") "https://in-toto.io/Statement/v1")
        || not (is_text (get statement "predicateType") predicate_type))
      wrong_type

-- The test on the subjects.
unfoldable pub check_subject : Fields → String → Result StatementError (Unit {0})
check_subject statement digest = do
  subject ← or_raise (only_subject (get statement "subject")) wrong_subject
  raise_if (not (is_digest (get subject "digest") digest)) wrong_subject

module _ (codec : Codec) (decoder : Decoder) where
  -- `dumps_canonical(a) == dumps_canonical(b)`
  unfoldable pub same_document : Fields → Fields → Bool
  same_document a b = elim (decoder.dumps_canonical a) [
    | none ↦ false
    | some x ↦ elim (decoder.dumps_canonical b) [ none ↦ false | some y ↦ bytes_eq x y ]
  ]

  -- The payload of the envelope.
  unfoldable pub statement_payload : Bytes → Result StatementError Bytes
  statement_payload bundle_raw = do
    bundle ← or_raise (codec.loads_mapping bundle_raw) not_json
    envelope ← or_raise (as_obj (get bundle "dsseEnvelope")) not_an_envelope
    raise_if (not (is_text (get envelope "payloadType") "application/vnd.in-toto+json"))
        not_an_envelope
    encoded ← or_raise (as_str (get envelope "payload")) no_payload
    or_raise (decoder.b64decode encoded) bad_base64

  -- The tests on the predicate: its producer.
  unfoldable pub retention_producer : Fields → Descriptor → String → Result StatementError String
  retention_producer predicate descriptor run_id = do
    raise_if (not (has_exactly predicate predicate_keys)) bad_predicate
    artifact ← or_raise (as_obj (get predicate "artifact")) wrong_artifact
    raise_if
        (not (same_document artifact (descriptor_fields descriptor))
          || not (is_text (get predicate "run_id") run_id))
        wrong_artifact
    or_raise (as_str (get predicate "producer_implementation")) wrong_artifact

  -- `authenticated_statement`: the statement's bytes and its producer.
  unfoldable pub authenticated_statement :
      Bytes → Descriptor → String → Result StatementError (Bytes × String)
  authenticated_statement bundle_raw descriptor run_id = do
    raw ← statement_payload bundle_raw
    statement ← or_raise (codec.loads_mapping raw) not_json
    check_type statement
    check_subject statement descriptor.sha256
    predicate ← or_raise (as_obj (get statement "predicate")) bad_predicate
    producer ← retention_producer predicate descriptor run_id
    ok (raw, producer)
