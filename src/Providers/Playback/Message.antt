-- ===== src/Providers/Playback/Message.antt =====
-- The bounds of the message that the probe must have received.
use robotics_runtime_infra.Base.{
  ℕ, suc, ◌≤◌, ◌<◌, ◌≡◌, ◌↔◌, String, false, List, [], ◌∷◌, refl, arith, str_eq,
}
use robotics_runtime_infra.Base.Result.{ok, err}
use robotics_runtime_infra.Base.Value.{ℤ, pos, negsuc}
use robotics_runtime_infra.Providers.Playback.{
  Bytes, Run, no_message, unsupported_message, in_range, checked_probe_message,
}

-- `-lower <= n < upper`
abbrev pub Within : ℕ → ℕ → ℤ → Type 0
Within lower upper (pos n) = n < upper
Within lower upper (negsuc n) = suc n ≤ lower

module _ (run : Run) where
  int32 :
      (raw : Bytes) (n : ℤ) (rest : List ℤ)
      → run.data_values raw ≡ n ∷ rest
      → (checked_probe_message run raw "std_msgs/msg/Int32" ≡ ok tt)
        ↔ Within 2_147_483_648 2_147_483_648 n
  unfolding checked_probe_message in_range
  int32 raw (pos n) rest h = rw (h, checked_probe_message) (λ c. ground arith, λ w. ground arith)
  int32 raw (negsuc n) rest h = rw (h, checked_probe_message) (λ c. ground arith, λ w. ground arith)

  uint64 :
      (raw : Bytes) (n : ℤ) (rest : List ℤ)
      → run.data_values raw ≡ n ∷ rest
      → (checked_probe_message run raw "std_msgs/msg/UInt64" ≡ ok tt)
        ↔ Within 0 18_446_744_073_709_551_616 n
  unfolding checked_probe_message in_range
  uint64 raw (pos n) rest h = rw (h, checked_probe_message) (λ c. ground arith, λ w. ground arith)
  uint64 raw (negsuc n) rest h =
      rw (h, checked_probe_message) (λ c. absurd (ground arith), λ w. absurd (omega arith))

  -- The first integer of the log decides: it is accepted as an Int32 exactly from -2^31 to
  -- 2^31 - 1, as a UInt64 exactly from 0 to 2^64 - 1, and a log without an integer is refused for
  -- both; a log is accepted for no other type of messages.
  pub checked_probe_message_iff :
      (raw : Bytes)
      → ((n : ℤ) (rest : List ℤ)
          → run.data_values raw ≡ n ∷ rest
          → ((checked_probe_message run raw "std_msgs/msg/Int32" ≡ ok tt)
              ↔ Within 2_147_483_648 2_147_483_648 n)
            × ((checked_probe_message run raw "std_msgs/msg/UInt64" ≡ ok tt)
                ↔ Within 0 18_446_744_073_709_551_616 n))
        × (run.data_values raw ≡ []
            → (checked_probe_message run raw "std_msgs/msg/Int32" ≡ err no_message)
              × (checked_probe_message run raw "std_msgs/msg/UInt64" ≡ err no_message))
        × ((message_type : String)
            → str_eq message_type "std_msgs/msg/Int32" ≡ false
            → str_eq message_type "std_msgs/msg/UInt64" ≡ false
            → checked_probe_message run raw message_type ≡ err unsupported_message)
  unfolding checked_probe_message in_range
  checked_probe_message_iff raw = (
    (λ n rest h. (int32 raw n rest h, uint64 raw n rest h)),
    (λ h. rw (h, checked_probe_message) (refl, refl)),
    (λ message_type a b. ground arith),
  )
