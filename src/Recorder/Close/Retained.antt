-- ===== src/Recorder/Close/Retained.antt =====
-- What a bag that is read has retained.
use robotics_runtime_infra.Base.{
  ℕ, suc, ◌<◌, ◌≡◌, String, true, false, Option, none, some, List, [], ◌∷◌, ◌++◌, append-nil,
  append_assoc, refl, sym, subst, ap, ◌∙◌, arith, Option-cases, inl, inr,
}
use robotics_runtime_infra.Base.Result.{ok, Result-cases, ok-injective}
use robotics_runtime_infra.Base.Text.{member}
use robotics_runtime_infra.Base.Value.{ℤ}
use robotics_runtime_infra.Export.Admission.{PurePath, Stat, identity, identity_eq}
use robotics_runtime_infra.Recorder.Artifact.{
  Bytes, FileReading, Artifact, read_chunks, artifact_file,
}
use robotics_runtime_infra.Recorder.Run.{Metadata, Closing, Bag}
use robotics_runtime_infra.Recorder.Close.{read_members, read_bag}

-- The bytes of all chunks.
abbrev pub contents : List (Option Bytes × ℕ) → Bytes
contents [] = []
contents ((none, now) ∷ rest) = contents rest
contents ((some bytes, now) ∷ rest) = bytes ++ contents rest

read_chunks-contents :
    (deadline : ℕ) (content : Bytes) (chunks : List (Option Bytes × ℕ)) {all : Bytes}
    → read_chunks deadline content chunks ≡ ok all
    → all ≡ content ++ contents chunks
unfolding read_chunks
read_chunks-contents deadline content [] h = sym (ok-injective h) ∙ sym (append-nil content)
read_chunks-contents deadline content ((none, now) ∷ rest) h = absurd (ground arith)
read_chunks-contents deadline content ((some bytes, now) ∷ rest) h =
    read_chunks-contents deadline (content ++ bytes) rest (ground arith)
    ∙ append_assoc content bytes (contents rest)

identity_eq-same :
    (a b : Stat) → identity_eq (identity a) (identity b) ≡ true → identity a ≡ identity b
identity_eq-same a b h = ground arith

-- A file below the output that is not a link, that was the same before and after its bytes were read,
-- with the size and the digest of these bytes.
pub record IsCaptured (sha256 : Bytes → String) (path : String) (file : FileReading) (deadline : ℕ)
    (artifact : Artifact) : Type 0 where
  pub its_path : artifact.path ≡ path
  pub confined : (file.is_symlink ≡ false) × (file.is_file ≡ true) × (file.is_confined ≡ true)
  pub original : Stat
  pub after : Stat
  pub current : Stat
  pub its_stats :
      (file.original ≡ some original) × (file.after ≡ some after) × (file.current ≡ some current)
  pub unchanged : (identity original ≡ identity after) × (identity after ≡ identity current)
  pub its_size : artifact.size_bytes ≡ after.st_size
  pub its_digest : artifact.sha256 ≡ sha256 (contents file.chunks)
  pub in_time : (file.begun < deadline) × (file.ended < deadline)

module _ (sha256 : Bytes → String) where
  artifact_file-IsCaptured :
      (path : String) (file : FileReading) (deadline : ℕ) {artifact : Artifact}
      → artifact_file sha256 path file deadline ≡ ok artifact
      → IsCaptured sha256 path file deadline artifact
  unfolding artifact_file
  artifact_file-IsCaptured path file deadline {artifact = artifact} h =
      elim (Option-cases file.original) [
        | inl o ↦ absurd (ground arith)
        | inr (original, o) ↦ elim (Result-cases (read_chunks deadline [] file.chunks)) [
          | inr (e, c) ↦ absurd (ground arith)
          | inl (content, c) ↦ elim (Option-cases file.after) [
            | inl a ↦ absurd (ground arith)
            | inr (after, a) ↦ elim (Option-cases file.current) [
              | inl u ↦ absurd (ground arith)
              | inr (current, u) ↦
                  let first : identity_eq (identity original) (identity after) ≡ true =
                    ground arith in
                  let second : identity_eq (identity after) (identity current) ≡ true =
                    ground arith in
                  let same : record {
                    path = path;
                    size_bytes = after.st_size;
                    sha256 = sha256 content;
                  }
                      ≡ artifact =
                    ground arith in
                  let digest = read_chunks-contents deadline [] file.chunks c in
                  subst (IsCaptured sha256 path file deadline) same (record {
                    its_path = refl;
                    confined = (ground arith, ground arith, ground arith);
                    original = original;
                    after = after;
                    current = current;
                    its_stats = (o, a, u);
                    unchanged = (
                      identity_eq-same original after first,
                      identity_eq-same after current second,
                    );
                    its_size = refl;
                    its_digest = ap sha256 digest;
                    in_time = (ground arith, ground arith);
                  })
            ]
          ]
        ]
      ]

  -- The members with their names and files, from the number `n` on.
  abbrev pub AllCaptured :
      (pure_path : String → PurePath) (deadline n : ℕ)
      → (ℕ → FileReading)
      → List String
      → List Artifact
      → Type 0
  AllCaptured pure_path deadline n files [] [] = Unit
  AllCaptured pure_path deadline n files [] (a ∷ rest) = ⊥
  AllCaptured pure_path deadline n files (name ∷ names) [] = ⊥
  AllCaptured pure_path deadline n files (name ∷ names) (a ∷ rest) =
      ((pure_path name).is_absolute ≡ false)
      × (member ".." (pure_path name).parts ≡ false)
      × IsCaptured sha256 (pure_path name).text (files n) deadline a
      × AllCaptured pure_path deadline (suc n) files names rest

  module _ (pure_path : String → PurePath) where
    read_members-AllCaptured :
        (deadline n : ℕ) (files : ℕ → FileReading) (names : List String) {artifacts : List Artifact}
        → read_members pure_path sha256 deadline n files names ≡ ok artifacts
        → AllCaptured pure_path deadline n files names artifacts
    unfolding read_members
    read_members-AllCaptured deadline n files [] {artifacts = artifacts} h =
        subst (AllCaptured pure_path deadline n files []) (ok-injective h) tt
    read_members-AllCaptured deadline n files (name ∷ names) {artifacts = artifacts} h =
        elim (Result-cases (artifact_file sha256 (pure_path name).text (files n) deadline)) [
          | inr (e, p) ↦ absurd (ground arith)
          | inl (artifact, p) ↦
              elim (Result-cases (read_members pure_path sha256 deadline (suc n) files names)) [
                | inr (e, q) ↦ absurd (ground arith)
                | inl (rest, q) ↦
                    let same : artifact ∷ rest ≡ artifacts = ground arith in
                    subst (AllCaptured pure_path deadline n files (name ∷ names)) same (
                      ground arith,
                      ground arith,
                      artifact_file-IsCaptured (pure_path name).text (files n) deadline p,
                      read_members-AllCaptured deadline (suc n) files names q,
                    )
              ]
        ]

    -- A bag of the metadata, whose members were all captured, before the deadline.
    pub record IsRead (closing : Closing) (deadline : ℕ) (bag : Bag) (duration : ℤ) : Type 0 where
      pub stops : closing.stops ≡ true
      pub metadata : Metadata
      pub its_metadata : closing.metadata ≡ some metadata
      pub in_time : (closing.after_stop < deadline) × (closing.after_metadata < deadline)
      pub its_reference :
          IsCaptured sha256 "metadata.yaml" closing.metadata_file deadline bag.metadata
      pub its_members :
          AllCaptured pure_path deadline 0 closing.member_file metadata.relative_file_paths
            bag.members
      pub its_count : bag.message_count ≡ metadata.message_count
      pub its_duration : duration ≡ metadata.duration_ns

    pub read_bag-IsRead :
        (closing : Closing) (deadline : ℕ) {bag : Bag} {duration : ℤ}
        → read_bag pure_path sha256 closing deadline ≡ ok (bag, duration)
        → IsRead closing deadline bag duration
    unfolding read_bag
    read_bag-IsRead closing deadline {bag = bag} {duration = duration} h =
        elim (Option-cases closing.metadata) [
          | inl m ↦ absurd (ground arith)
          | inr (metadata, m) ↦
              elim (Result-cases
                (artifact_file sha256 "metadata.yaml" closing.metadata_file deadline)) [
                  | inr (e, p) ↦ absurd (ground arith)
                  | inl (reference, p) ↦
                      elim (Result-cases (
                        read_members pure_path sha256 deadline 0 closing.member_file
                          metadata.relative_file_paths)) [
                            | inr (e, q) ↦ absurd (ground arith)
                            | inl (members, q) ↦
                                let found : record {
                                  message_count = metadata.message_count;
                                  metadata = reference;
                                  members = members;
                                  topics = metadata.topics;
                                  measured = none;
                                }
                                    ≡ bag =
                                  ground arith in
                                let lasted : metadata.duration_ns ≡ duration = ground arith in
                                subst (λ b. IsRead closing deadline b duration) found
                                  (record {
                                    stops = ground arith;
                                    metadata = metadata;
                                    its_metadata = m;
                                    in_time = (ground arith, ground arith);
                                    its_reference =
                                        artifact_file-IsCaptured "metadata.yaml"
                                          closing.metadata_file deadline p;
                                    its_members =
                                        read_members-AllCaptured deadline 0 closing.member_file
                                          metadata.relative_file_paths q;
                                    its_count = refl;
                                    its_duration = sym lasted;
                                  })
                          ]
                ]
        ]
