-- ===== src/Observability/Measurements/Gaps.antt =====
-- The sums of what `MessageStream.observe` reports over a whole run.
use robotics_runtime_infra.Base.{
  ℕ, ◌+◌, ◌≡◌, refl, inl, inr, none, some, List, [], ◌∷◌, arith, length, Option-cases, max,
}
use robotics_runtime_infra.Observability.Measurements.{
  MessageStream, new_stream, observe, usable_sequence, Observation, observe_all, total_received,
  total_lost, total_errors,
}

-- The usable sequence numbers of a run, in the order of reception.
abbrev pub usable : List Observation → List ℕ
usable [] = []
usable (o ∷ rest) = elim (usable_sequence o.metadata o.publisher_count) [
  | none ↦ usable rest
  | some n ↦ n ∷ usable rest
]

-- The largest of `h` and the numbers `ns`.
abbrev pub highest : ℕ → List ℕ → ℕ
highest h [] = h
highest h (n ∷ ns) = highest (max h n) ns

-- Over any run, from any state of the stream, each message counts exactly once: as received, or as
-- a sequence error.
pub received_or_error :
    (s : MessageStream) (obs : List Observation)
    → let (ms, _) = observe_all s obs in total_received ms + total_errors ms ≡ length obs
unfolding observe_all observe
received_or_error s [] = refl
received_or_error s (o ∷ rest) = ground (
  arith,
  received_or_error s rest,
  received_or_error (observe s o.metadata o.publisher_count).1 rest,
)

abbrev at_level : ℕ → MessageStream
at_level l = record { last_sequence = some l }

-- A stream that stands at `l` ends at `l` plus what it counts as received and as lost, and this is
-- the highest number that it has met.
from_level :
    (l : ℕ) (obs : List Observation)
    → let (ms, s) = observe_all (at_level l) obs in
      (s ≡ at_level (l + total_received ms + total_lost ms))
      × (l + total_received ms + total_lost ms ≡ highest l (usable obs))
unfolding observe_all observe
from_level l [] = ground arith
from_level l (o ∷ rest) = elim (Option-cases (usable_sequence o.metadata o.publisher_count)) [
  | inl e ↦ ground (arith, from_level l rest)
  | inr (n, e) ↦ ground (arith, from_level l rest, from_level n rest)
]

-- From a new stream, if the usable sequence numbers of the run are `first ∷ ns`, the received and
-- lost counts add up to the whole span from `first` to the highest number met, both ends included,
-- and the stream ends at that number.
pub span_covered :
    (obs : List Observation) (first : ℕ) (ns : List ℕ)
    → usable obs ≡ first ∷ ns
    → let (ms, s) = observe_all new_stream obs in
      (first + total_received ms + total_lost ms ≡ highest first ns + 1)
      × (s.last_sequence ≡ some (highest first ns))
unfolding observe_all observe
span_covered [] first ns h = cc
span_covered (o ∷ rest) first ns h =
    elim (Option-cases (usable_sequence o.metadata o.publisher_count)) [
      | inl e ↦ ground (arith, span_covered rest first ns)
      | inr (n, e) ↦ ground (arith, from_level n rest)
    ]
