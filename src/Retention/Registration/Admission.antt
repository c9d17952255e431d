-- ===== src/Retention/Registration/Admission.antt =====
-- Which registrations `registration_descriptor` admits.
use Prim.Native.String.{◌++◌ as append_text}
use robotics_runtime_infra.Base.{
  ℕ, ◌<◌, ◌≤◌, ◌≡◌, ◌≢◌, String, true, some, arith, str_eq_iff, Option-cases, inl, inr,
}
use robotics_runtime_infra.Base.Result.{ok}
use robotics_runtime_infra.Base.Text.{strip_prefix, strip_prefix-eq-some, is_sha256}
use robotics_runtime_infra.Base.Value.{
  pos, negsuc, Value, int, str, Fields, get, as_int, as_str, is_text,
}
use robotics_runtime_infra.Retention.Registration.{
  Uuid, Library, Registered, bounded_size, is_bucket, version_of, sha256_of, registered_run,
  registered_location, registration_descriptor,
}

-- A run identity is "run-" before the canonical text of a version 4 UUID.
abbrev pub HasUuid : Library → String → Type 0
HasUuid lib run_id =
    (tail : String) × (u : Uuid) × (run_id ≡ append_text "run-" tail)
    × (lib.parse_uuid tail ≡ some u)
    × (u.version ≡ 4)
    × (run_id ≡ append_text "run-" u.text)

module _ (lib : Library) (document : Fields) (maximum : ℕ) where
  -- What a registration says, and what was made of it.
  pub record IsAdmitted (r : Registered) : Type 0 where
    pub confirmed : is_text (get document "upload_status") "confirmed" ≡ true
    pub run : get document "run_id" ≡ str r.run_id
    pub run_uuid : HasUuid lib r.run_id
    pub size : get document "size_bytes" ≡ int (pos r.descriptor.size_bytes)
    pub size_bounded : r.descriptor.size_bytes ≤ maximum
    pub media_type : get document "media_type" ≡ str r.descriptor.media_type
    pub media_type_valid : lib.is_media_type r.descriptor.media_type ≡ true
    pub recording_size : r.descriptor.media_type ≡ "application/mcap" → 0 < r.descriptor.size_bytes
    pub digest : get document "sha256" ≡ str r.descriptor.sha256
    pub digest_form : is_sha256 r.descriptor.sha256 ≡ true
    pub version : get document "version_id" ≡ str r.descriptor.immutable_revision
    pub version_set :
        (r.descriptor.immutable_revision ≢ "") × (r.descriptor.immutable_revision ≢ "null")
    pub uri : get document "uri" ≡ str r.descriptor.uri
    pub bucket : is_bucket r.bucket ≡ true
    pub key_set : r.key ≢ ""
    pub location :
        r.descriptor.uri
        ≡ append_text "s3://" (append_text r.bucket (append_text "/" (lib.quote r.key)))

as_str-eq-some : (v : Value) {s : String} → as_str v ≡ some s → v ≡ str s
as_str-eq-some (str s) h = cc
as_str-eq-some _ h = cc

sha256_of-eq-some :
    (v : Value) {s : String} → sha256_of v ≡ some s → (v ≡ str s) × (is_sha256 s ≡ true)
unfolding sha256_of
sha256_of-eq-some (str s) h = ground arith
sha256_of-eq-some _ h = cc

version_of-eq-some :
    (v : Value) {s : String} → version_of v ≡ some s → (v ≡ str s) × (s ≢ "") × (s ≢ "null")
unfolding version_of
version_of-eq-some (str t) h = ground (arith, str_eq_iff t "", str_eq_iff t "null")
version_of-eq-some _ h = cc

bounded_size-eq-some :
    (v : Value) (m : ℕ) {n : ℕ} → bounded_size (as_int v) m ≡ some n → (v ≡ int (pos n)) × (n ≤ m)
unfolding bounded_size
bounded_size-eq-some (int (pos k)) m h = ground arith
bounded_size-eq-some (int (negsuc k)) m h = cc
bounded_size-eq-some _ m h = cc

module _ (lib : Library) where
  registered_run-eq-ok :
      (document : Fields) (run_id : String)
      → registered_run lib document ≡ ok run_id
      → (is_text (get document "upload_status") "confirmed" ≡ true)
        × (get document "run_id" ≡ str run_id)
        × HasUuid lib run_id
  unfolding registered_run
  registered_run-eq-ok document run_id h = elim (Option-cases (as_str (get document "run_id"))) [
    | inl e ↦ absurd (ground arith)
    | inr (r, e) ↦ elim (Option-cases (strip_prefix "run-" r)) [
      | inl e' ↦ absurd (ground arith)
      | inr (tail, e') ↦ elim (Option-cases (lib.parse_uuid tail)) [
        | inl e'' ↦ absurd (ground arith)
        | inr (u, e'') ↦
            let canonical = append_text "run-" u.text in
            let same : r ≡ run_id = ground arith in
            (
              ground arith,
              ground (arith, as_str-eq-some (get document "run_id") e),
              (
                tail,
                u,
                ground (arith, strip_prefix-eq-some "run-" r e'),
                e'',
                ground arith,
                ground (arith, str_eq_iff r canonical),
              ),
            )
      ]
    ]
  ]

  registered_location-eq-ok :
      (uri bucket key : String)
      → registered_location lib uri ≡ ok (bucket, key)
      → (is_bucket bucket ≡ true)
        × (key ≢ "")
        × (uri ≡ append_text "s3://" (append_text bucket (append_text "/" (lib.quote key))))
  unfolding registered_location
  registered_location-eq-ok uri bucket key h = elim (Option-cases (lib.urlsplit uri)) [
    | inl e ↦ absurd (ground arith)
    | inr (l, e) ↦
        let canonical =
          append_text "s3://" (append_text bucket (append_text "/" (lib.quote key))) in
        (ground arith, ground (arith, str_eq_iff key ""), ground (arith, str_eq_iff uri canonical))
  ]

  -- If a registration is accepted, then the document says what the descriptor, the run, the bucket and
  -- the key say: the upload is confirmed, the run is a canonical UUID4, the size is an integer within
  -- the limit and positive for a recording, the media type is valid, the digest is a lower-case
  -- SHA-256, the version is set, and the URI is the canonical one of the bucket and the key.
  pub registration_descriptor-IsAdmitted :
      (document : Fields) (maximum : ℕ) (r : Registered)
      → registration_descriptor lib document maximum ≡ ok r
      → IsAdmitted lib document maximum r
  unfolding registration_descriptor
  registration_descriptor-IsAdmitted document maximum r h =
      let run : registered_run lib document ≡ ok r.run_id = ground arith in
      let size : bounded_size (as_int (get document "size_bytes")) maximum
          ≡ some r.descriptor.size_bytes =
        ground arith in
      let media_type : as_str (get document "media_type") ≡ some r.descriptor.media_type =
        ground arith in
      let digest : sha256_of (get document "sha256") ≡ some r.descriptor.sha256 = ground arith in
      let version : version_of (get document "version_id") ≡ some r.descriptor.immutable_revision =
        ground arith in
      let uri : as_str (get document "uri") ≡ some r.descriptor.uri = ground arith in
      let place : registered_location lib r.descriptor.uri ≡ ok (r.bucket, r.key) = ground arith in
      let run_facts = registered_run-eq-ok document r.run_id run in
      let size_facts = bounded_size-eq-some _ maximum size in
      let digest_facts = sha256_of-eq-some _ digest in
      let version_facts = version_of-eq-some _ version in
      let place_facts = registered_location-eq-ok r.descriptor.uri r.bucket r.key place in
      record {
        confirmed = run_facts.0;
        run = run_facts.1;
        run_uuid = run_facts.2;
        size = size_facts.0;
        size_bounded = size_facts.1;
        media_type = as_str-eq-some _ media_type;
        media_type_valid = ground arith;
        recording_size = ground (arith, str_eq_iff r.descriptor.media_type "application/mcap");
        digest = digest_facts.0;
        digest_form = digest_facts.1;
        version = version_facts.0;
        version_set = (version_facts.1, version_facts.2);
        uri = as_str-eq-some _ uri;
        bucket = place_facts.0;
        key_set = place_facts.1;
        location = place_facts.2;
      }
