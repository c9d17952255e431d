-- ===== src/Retention/Download.antt =====
-- `require_object_version` and `download_version` of retained-artifact.py.
-- The AWS client, SHA-256, the JSON decoder and decimal printing are outside: `Client` and `Codec`.
pub mod Whole
use Prim.Native.String.{◌++◌ as append_text}
use robotics_runtime_infra.Base.{
  ℕ, ◌+◌, ◌-◌, String, Bool, true, false, not, ◌&&◌, ◌||◌, Option, none, some, List, length, ◌==◌,
  str_eq, if◌then◌else◌,
}
use robotics_runtime_infra.Base.Result.{Result, ok, err, raise_if, or_raise, ◌>>=◌, ◌>>◌}
use robotics_runtime_infra.Base.Value.{
  ℤ, pos, negsuc, Value, int, bool, null, Fields, get, has_key, is_text,
}
use robotics_runtime_infra.Retention.Registration.{Descriptor}

abbrev pub Bytes : Type 0
Bytes = List ℕ

pub record Codec : Type 0 where
  pub sha256 : Bytes → String
  pub loads_mapping : Bytes → Option Fields
  pub decimal : ℕ → String

pub record S3Object : Type 0 where
  pub bucket : String
  pub key : String
  pub version_id : String

-- A failed command is `none`. `get_object` gives the client's output and the bytes that it wrote;
-- the range `some n` stands for `--range=bytes=0-n`.
pub record Client : Type 0 where
  pub head_object : S3Object → Option Bytes
  pub get_object : S3Object → Option ℕ → Option (Bytes × Bytes)

pub data DownloadError : Type 0 where
  command_failed not_a_mapping wrong_version wrong_range wrong_bytes : DownloadError

-- `metadata.get("DeleteMarker", False) is not False`
delete_marker : Fields → Bool
delete_marker metadata =
    if has_key metadata "DeleteMarker"
    then (elim (get metadata "DeleteMarker") [ bool b ↦ b | _ ↦ true ])
    else false

-- `type(value) is int and value == n`
unfoldable pub is_size : Value → ℕ → Bool
is_size (int (pos m)) n = m == n
is_size _ n = false

-- `require_object_version`
unfoldable pub require_object_version : Fields → Descriptor → Result DownloadError (Unit {0})
unfolding delete_marker
require_object_version metadata descriptor =
    raise_if
      (not (is_text (get metadata "VersionId") descriptor.immutable_revision)
        || not (is_text (get metadata "ContentType") descriptor.media_type)
        || not (is_size (get metadata "ContentLength") descriptor.size_bytes)
        || delete_marker metadata)
      wrong_version

module _ (codec : Codec) where
  -- The test on `ContentRange`: absent for an empty object, else `bytes 0-(size - 1)/size`.
  unfoldable pub is_expected_range : Value → ℕ → Bool
  is_expected_range value size =
      if size == 0
      then (elim value [ null ↦ true | _ ↦ false ])
      else is_text value (
          append_text "bytes 0-"
            (append_text (codec.decimal (size - 1)) (append_text "/" (codec.decimal size))))

  -- The confirmation of an empty object before its download.
  unfoldable pub confirm_empty : Client → S3Object → Descriptor → Result DownloadError (Unit {0})
  confirm_empty client object descriptor = do
    head ← or_raise (client.head_object object) command_failed
    metadata ← or_raise (codec.loads_mapping head) not_a_mapping
    require_object_version metadata descriptor

  -- `download_version`: the client's output and the downloaded bytes.
  unfoldable pub download_version :
      Client → S3Object → Descriptor → Result DownloadError (Bytes × Bytes)
  download_version client object descriptor = do
    let size = descriptor.size_bytes
    if size == 0 then confirm_empty client object descriptor else ok tt
    fetched ←
        or_raise (client.get_object object (if size == 0 then none else some size)) command_failed
    metadata ← or_raise (codec.loads_mapping fetched.0) not_a_mapping
    require_object_version metadata descriptor
    raise_if (not (is_expected_range (get metadata "ContentRange") size)) wrong_range
    raise_if
        (not (str_eq (codec.sha256 fetched.1) descriptor.sha256) || not (length fetched.1 == size))
        wrong_bytes
    ok fetched
