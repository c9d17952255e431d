-- ===== src/Observability/Measurements/Latency.antt =====
-- When `source_to_reception_latency_ms` gives evidence, and which.
use robotics_runtime_infra.Base.{ℕ, ◌+◌, ◌<◌, ◌≡◌, ◌↔◌, some, none, arith, Option}
use robotics_runtime_infra.Base.Quotient.{Quotient}
use robotics_runtime_infra.Base.Value.{pos, Value, int, Fields, get}
use robotics_runtime_infra.Observability.Measurements.{
  source_to_reception_latency_ms, positive_int, latency_between,
}

positive_int-eq-some : (v : Value) {n : ℕ} → positive_int v ≡ some n → (v ≡ int (pos n)) × (0 < n)
unfolding positive_int
positive_int-eq-some (int (pos m)) h = ground arith
positive_int-eq-some _ h = cc

positive_int-int : (n : ℕ) → 0 < n → positive_int (int (pos n)) ≡ some n
unfolding positive_int
positive_int-int n h = ground arith

latency_between-eq-some :
    (a b : Option ℕ) {q : Quotient}
    → latency_between a b ≡ some q
    → (s : ℕ) × (a ≡ some s) × (b ≡ some (s + q.dividend)) × (q.divisor ≡ 1_000_000)
unfolding latency_between
latency_between-eq-some (some s) (some r) h = (s, ground arith, ground arith, ground arith)
latency_between-eq-some (some s) none h = cc
latency_between-eq-some none b h = cc

-- The latency is reported exactly when both timestamps are positive integers (a Python bool is
-- none) and the reception is no earlier than the source; in milliseconds, it is then their
-- difference divided by a million.
pub latency_iff :
    (metadata : Fields) (q : Quotient)
    → (source_to_reception_latency_ms metadata ≡ some q) ↔ (
        (s : ℕ) × (get metadata "source_timestamp" ≡ int (pos s))
        × (get metadata "received_timestamp" ≡ int (pos (s + q.dividend)))
        × (0 < s)
        × (q.divisor ≡ 1_000_000))
unfolding source_to_reception_latency_ms
latency_iff metadata q = (
  λ h.
      let (s, hs, hr, d) = latency_between-eq-some _ _ h in
      let source = positive_int-eq-some _ hs in
      (s, source.0, (positive_int-eq-some _ hr).0, source.1, d),
  λ (s, hs, hr, p, d).
      rw (hs, hr)
        (rw (positive_int-int s p) (
          rw (positive_int-int (s + q.dividend) (omega arith))
            (unfold latency_between in ground arith))),
)
