-- ===== src/Retention/Registration.antt =====
-- `registration_descriptor` of retained-artifact.py: what a confirmed upload registration must say
-- before its object is fetched.
-- `uuid.UUID`, `urlsplit`, `quote`, `unquote` and the media type schema are library code: `Library`.
pub mod Admission
use Prim.Native.String.{◌++◌ as append_text}
use robotics_runtime_infra.Base.{
  ℕ, ◌<◌, String, Bool, true, false, not, ◌&&◌, ◌||◌, Option, none, some, ltb, leb, ◌==◌, str_eq,
  if◌then◌else◌,
}
use robotics_runtime_infra.Base.Result.{Result, ok, err, raise_if, or_raise, ◌>>=◌, ◌>>◌}
use robotics_runtime_infra.Base.Text.{
  strip_prefix, all_chars, char_count, is_digit, is_lower, is_sha256,
}
use robotics_runtime_infra.Base.Value.{
  ℤ, pos, negsuc, Value, int, str, Fields, get, as_int, as_str, is_text,
}

pub record Uuid : Type 0 where
  pub version : ℕ
  pub text : String

pub record Url : Type 0 where
  pub scheme : String
  pub netloc : String
  pub path : String
  pub query : String
  pub fragment : String

-- `none` stands for the ValueError that the call raises.
pub record Library : Type 0 where
  pub parse_uuid : String → Option Uuid
  pub urlsplit : String → Option Url
  pub unquote : String → Option String
  pub quote : String → String
  -- The schema of a media type, which admits texts only.
  pub is_media_type : String → Bool

pub data Error : Type 0 where
  not_confirmed no_run not_a_uuid not_canonical_run bad_size bad_media_type : Error
  empty_recording bad_sha256 no_version no_uri not_an_s3_uri not_canonical_key : Error
  bad_byte_limit : Error

pub record Descriptor : Type 0 where
  pub uri : String
  pub sha256 : String
  pub size_bytes : ℕ
  pub media_type : String
  pub immutable_revision : String

-- What `registration_descriptor` returns.
pub record Registered : Type 0 where
  pub descriptor : Descriptor
  pub run_id : String
  pub bucket : String
  pub key : String

abbrev pub max_artifact_bytes : ℕ
max_artifact_bytes = 1_073_741_824

-- `artifact_byte_limit`; the argument comes from `int(…)`.
unfoldable pub artifact_byte_limit : ℤ → Result Error ℕ
artifact_byte_limit (pos n) =
    if ltb 0 n && leb n max_artifact_bytes then ok n else err bad_byte_limit
artifact_byte_limit (negsuc n) = err bad_byte_limit

-- `0 <= size <= maximum_size`, with the size.
unfoldable pub bounded_size : Option ℤ → ℕ → Option ℕ
bounded_size none maximum = none
bounded_size (some (pos n)) maximum = if leb n maximum then some n else none
bounded_size (some (negsuc n)) maximum = none

abbrev is_alnum : ℕ → Bool
is_alnum c = is_lower c || is_digit c

first_char : (ℕ → Bool) → String → Bool
first_char p s = elim s [
  | String.[] ↦ false
  | String.◌∷◌ c r ↦ all_chars p (String.◌∷◌ c String.[])
]

last_char : (ℕ → Bool) → String → Bool
last_char p String.[] = false
last_char p (String.◌∷◌ c s) =
    let rest = last_char p s in
    if char_count s == 0 then all_chars p (String.◌∷◌ c String.[]) else rest

-- `re.fullmatch(r"[a-z0-9][a-z0-9.-]{1,61}[a-z0-9]", bucket)`
unfoldable pub is_bucket : String → Bool
unfolding first_char last_char
is_bucket s =
    leb 3 (char_count s)
    && leb (char_count s) 63
    && first_char is_alnum s
    && last_char is_alnum s
    && all_chars (λ c. is_alnum c || c == b'.' || c == b'-') s

-- `location.path.removeprefix("/")`
abbrev pub object_path : String → String
object_path path = elim (strip_prefix "/" path) [ none ↦ path | some rest ↦ rest ]

-- A text that is there and not empty, and is not "null".
unfoldable pub version_of : Value → Option String
version_of v = elim (as_str v) [
  | none ↦ none
  | some s ↦ if str_eq s "" || str_eq s "null" then none else some s
]

unfoldable pub sha256_of : Value → Option String
sha256_of v = elim (as_str v) [ none ↦ none | some s ↦ if is_sha256 s then some s else none ]

module _ (lib : Library) where
  -- The checks of the run identity.
  unfoldable pub registered_run : Fields → Result Error String
  registered_run document = do
    raise_if (not (is_text (get document "upload_status") "confirmed")) not_confirmed
    run_id ← or_raise (as_str (get document "run_id")) no_run
    tail ← or_raise (strip_prefix "run-" run_id) no_run
    uuid ← or_raise (lib.parse_uuid tail) not_a_uuid
    raise_if (not (uuid.version == 4) || not (str_eq run_id (append_text "run-" uuid.text)))
        not_canonical_run
    ok run_id

  -- The checks of the location: the bucket and the key.
  unfoldable pub registered_location : String → Result Error (String × String)
  registered_location uri = do
    location ← or_raise (lib.urlsplit uri) not_an_s3_uri
    raise_if
        (not (str_eq location.scheme "s3")
          || not (is_bucket location.netloc)
          || not (str_eq location.query "")
          || not (str_eq location.fragment ""))
        not_an_s3_uri
    key ← or_raise (lib.unquote (object_path location.path)) not_canonical_key
    raise_if
        (str_eq key ""
          || not (
              str_eq uri (
                append_text "s3://"
                  (append_text location.netloc (append_text "/" (lib.quote key))))))
        not_canonical_key
    ok (location.netloc, key)

  -- `registration_descriptor`
  unfoldable pub registration_descriptor : Fields → ℕ → Result Error Registered
  registration_descriptor document maximum = do
    run_id ← registered_run document
    size ← or_raise (bounded_size (as_int (get document "size_bytes")) maximum) bad_size
    media_type ← or_raise (as_str (get document "media_type")) bad_media_type
    raise_if (not (lib.is_media_type media_type)) bad_media_type
    raise_if (str_eq media_type "application/mcap" && size == 0) empty_recording
    digest ← or_raise (sha256_of (get document "sha256")) bad_sha256
    revision ← or_raise (version_of (get document "version_id")) no_version
    uri ← or_raise (as_str (get document "uri")) no_uri
    location ← registered_location uri
    ok (record {
      descriptor = record {
        uri = uri;
        sha256 = digest;
        size_bytes = size;
        media_type = media_type;
        immutable_revision = revision;
      };
      run_id = run_id;
      bucket = location.0;
      key = location.1;
    })
