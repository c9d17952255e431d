-- ===== src/Recorder/Arguments/Bounds.antt =====
-- The limits of an accepted recording.
use robotics_runtime_infra.Base.{ℕ, ◌<◌, ◌≤◌, ◌≡◌, true, false, subst, arith}
use robotics_runtime_infra.Base.Result.{ok, >>=-eq-ok, >>-eq-ok, ok-injective, raise_if-neither}
use robotics_runtime_infra.Base.Value.{ℤ, pos, negsuc}
use robotics_runtime_infra.Recorder.Arguments.{
  Seconds, nanoseconds, not_finite, Arguments, Limits, bad_identifier, is_identifier,
  positive_seconds, checked_size, is_within, checked_arguments,
}

-- Limits with the arguments that they were read from.
pub record IsLimited (args : Arguments) (limits : Limits) : Type 0 where
  pub startup :
      (args.startup_timeout ≡ nanoseconds (pos limits.startup_timeout))
      × (0 < limits.startup_timeout)
  pub lifetime :
      (args.max_lifetime ≡ nanoseconds (pos limits.max_lifetime))
      × (limits.startup_timeout ≤ limits.max_lifetime)
  pub at_most_five_minutes : limits.max_lifetime ≤ 300_000_000_000
  pub close :
      (args.close_timeout ≡ nanoseconds (pos limits.close_timeout)) × (0 < limits.close_timeout)
  pub at_most_half_a_minute : limits.close_timeout ≤ 30_000_000_000
  pub size :
      (args.max_recording_bytes ≡ pos limits.max_recording_bytes) × (0 < limits.max_recording_bytes)
  pub at_most_256_mib : limits.max_recording_bytes ≤ 268_435_456
  pub identifiers : (is_identifier args.run_id ≡ true) × (is_identifier args.domain_id ≡ true)
  pub fresh : (args.output.exists ≡ false) × (args.facts_dir.exists ≡ false)
  pub no_links : (args.output.is_symlink ≡ false) × (args.facts_dir.is_symlink ≡ false)
  pub apart :
      (is_within args.output.parts args.facts_dir.parts ≡ false)
      × (is_within args.facts_dir.parts args.output.parts ≡ false)

positive_seconds-eq-ok :
    (s : Seconds) {n : ℕ} → positive_seconds s ≡ ok n → (s ≡ nanoseconds (pos n)) × (0 < n)
positive_seconds-eq-ok not_finite h = ground arith
positive_seconds-eq-ok (nanoseconds (negsuc m)) h = ground arith
positive_seconds-eq-ok (nanoseconds (pos n)) h = ground arith

checked_size-eq-ok :
    (v : ℤ) {n : ℕ} → checked_size v ≡ ok n → (v ≡ pos n) × (0 < n) × (n ≤ 268_435_456)
checked_size-eq-ok (negsuc m) h = ground arith
checked_size-eq-ok (pos m) h = ground arith

-- The arguments that are accepted: the identifiers are bounded, the timeouts are finite and positive,
-- the startup takes no longer than the recording, which takes at most five minutes, the close at most
-- thirty seconds, the bytes at most 256 MiB, and neither path exists or contains the other.
pub checked_arguments-IsLimited :
    (args : Arguments) (limits : Limits)
    → checked_arguments args ≡ ok limits
    → IsLimited args limits
unfolding checked_arguments
checked_arguments-IsLimited args limits h =
    let (identified, h) = >>-eq-ok _ _ h in
    let (startup, s, h) = >>=-eq-ok _ _ h in
    let (lifetime, l, h) = >>=-eq-ok _ _ h in
    let (close, c, h) = >>=-eq-ok _ _ h in
    let (budget, h) = >>-eq-ok _ _ h in
    let (size, z, h) = >>=-eq-ok _ _ h in
    let (fresh, h) = >>-eq-ok _ _ h in
    let (apart, h) = >>-eq-ok _ _ h in
    let (startup_is, startup_positive) = positive_seconds-eq-ok args.startup_timeout s in
    let (lifetime_is, lifetime_positive) = positive_seconds-eq-ok args.max_lifetime l in
    let (close_is, close_positive) = positive_seconds-eq-ok args.close_timeout c in
    let (size_is, size_positive, size_bounded) = checked_size-eq-ok args.max_recording_bytes z in
    subst (IsLimited args) (ok-injective h) (record {
      startup = (startup_is, startup_positive);
      lifetime = (lifetime_is, ground arith);
      at_most_five_minutes = ground arith;
      close = (close_is, close_positive);
      at_most_half_a_minute = ground arith;
      size = (size_is, size_positive);
      at_most_256_mib = size_bounded;
      identifiers =
          raise_if-neither (is_identifier args.run_id) (is_identifier args.domain_id) bad_identifier
            identified;
      fresh = (ground arith, ground arith);
      no_links = (ground arith, ground arith);
      apart = (ground arith, ground arith);
    })
