-- ===== src/Retention/Download/Whole.antt =====
-- A download that is accepted is the whole stored object.
use robotics_runtime_infra.Base.{
  ℕ, zero, suc, ◌≡◌, refl, ap, Option, none, some, [], ◌∷◌, length, arith, ◌==◌, str_eq_iff,
  Bool-cases, inl, inr, if◌then◌else◌,
}
use robotics_runtime_infra.Base.Result.{ok}
use robotics_runtime_infra.Retention.Registration.{Descriptor}
use robotics_runtime_infra.Retention.Download.{Bytes, Codec, S3Object, Client, download_version}

abbrev pub take : ℕ → Bytes → Bytes
take zero xs = []
take (suc n) [] = []
take (suc n) (x ∷ xs) = x ∷ take n xs

-- What a GET with a range sends of an object's bytes.
abbrev pub ranged : Option ℕ → Bytes → Bytes
ranged none content = content
ranged (some n) content = take (suc n) content

-- A store answers a GET with the bytes that it holds, cut to the range.
pub record Serves (client : Client) (stored : S3Object → Option Bytes) : Type 0 where
  pub sent :
      (object : S3Object) (range : Option ℕ) (response bytes : Bytes)
      → client.get_object object range ≡ some (response, bytes)
      → (content : Bytes) × (stored object ≡ some content) × (bytes ≡ ranged range content)

take_short : (n : ℕ) (xs : Bytes) → length (take (suc n) xs) ≡ n → take (suc n) xs ≡ xs
take_short n [] h = refl
take_short zero (x ∷ xs) h = absurd (omega arith)
take_short (suc n) (x ∷ xs) h = ap (λ ys. x ∷ ys) (take_short n xs (omega arith))

module _ (codec : Codec) (client : Client) (object : S3Object) (descriptor : Descriptor) where
  -- What an accepted download has been checked for.
  pub download_version-checked :
      (response bytes : Bytes)
      → download_version codec client object descriptor ≡ ok (response, bytes)
      → (client.get_object object
            (if descriptor.size_bytes == 0 then none else some descriptor.size_bytes)
          ≡ some (response, bytes))
        × (codec.sha256 bytes ≡ descriptor.sha256)
        × (length bytes ≡ descriptor.size_bytes)
  unfolding download_version
  download_version-checked response bytes h =
      ground (arith, str_eq_iff (codec.sha256 bytes) descriptor.sha256)

  -- If the store answers a GET with the bytes that it holds, cut to the range, then a download that
  -- is accepted is the whole stored object, and has the digest and the size of the descriptor: an
  -- object that is longer than the registered size is not accepted.
  pub download_version_whole :
      (stored : S3Object → Option Bytes)
      → Serves client stored
      → (response bytes : Bytes)
      → download_version codec client object descriptor ≡ ok (response, bytes)
      → (stored object ≡ some bytes)
        × (codec.sha256 bytes ≡ descriptor.sha256)
        × (length bytes ≡ descriptor.size_bytes)
  download_version_whole stored serves response bytes h =
      let (got, digest, size) = download_version-checked response bytes h in
      let (content, held, cut) = serves.sent object _ response bytes got in
      elim (Bool-cases (descriptor.size_bytes == 0)) [
        | inl empty ↦ (ground (arith, held, cut), digest, size)
        | inr nonempty ↦
            let sent : bytes ≡ take (suc descriptor.size_bytes) content = ground (arith, cut) in
            let whole = take_short descriptor.size_bytes content (rw sent at size) in
            (ground (arith, held, sent, whole), digest, size)
      ]
