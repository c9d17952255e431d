-- ===== src/Base/Quotient.antt =====
-- The division of two integers that Python rounds to a float: its exact value.
use Prim.Native.Nat.{ℕ}

pub record Quotient : Type 0 where
  pub dividend : ℕ
  pub divisor : ℕ

-- `dividend / divisor`
abbrev pub divide : ℕ → ℕ → Quotient
divide dividend divisor = record { dividend = dividend; divisor = divisor }
