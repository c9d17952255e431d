-- ===== src/Derivation/Points.antt =====
-- The points of a row, and what a row does to the counters.
use robotics_runtime_infra.Base.{
  ℕ, suc, ◌+◌, ◌<◌, ◌≡◌, Bool, Option, none, some, List, [], ◌∷◌, length, ltb, refl, sym, subst, ap,
  ◌∙◌, arith, Option-cases, inl, inr,
}
use robotics_runtime_infra.Base.Result.{ok, Result-cases}
use robotics_runtime_infra.Base.Value.{Fields, get, as_obj}
use robotics_runtime_infra.Derivation.{
  odom, clock, Series, State, Window, Row, Request, bounds, add_to_bucket, int_of, observe_age,
  natural, age_of, time_of, sequence_of, lost_after, count_odom, derive_row, row_count,
}

abbrev pub bucket_sum : List ℕ → ℕ
bucket_sum [] = 0
bucket_sum (n ∷ ns) = n + bucket_sum ns

-- As many buckets as bounds and one, with the counted events.
abbrev pub IsCounted : Series → Type 0
IsCounted s = (length s.buckets ≡ 9) × (bucket_sum s.buckets ≡ s.count)

add_to_bucket-length :
    (age amount : ℕ) (limits ns : List ℕ) → length (add_to_bucket age amount limits ns) ≡ length ns
unfolding add_to_bucket
add_to_bucket-length age amount limits [] = refl
add_to_bucket-length age amount [] (n ∷ ns) = refl
add_to_bucket-length age amount (limit ∷ limits) (n ∷ ns) =
    ground (arith, add_to_bucket-length age amount limits ns)

add_to_bucket-sum :
    (age amount : ℕ) (limits ns : List ℕ)
    → length limits < length ns
    → bucket_sum (add_to_bucket age amount limits ns) ≡ bucket_sum ns + amount
unfolding add_to_bucket
add_to_bucket-sum age amount limits [] h = absurd (ground arith)
add_to_bucket-sum age amount [] (n ∷ ns) h = omega arith
add_to_bucket-sum age amount (limit ∷ limits) (n ∷ ns) h =
    ground (arith, add_to_bucket-sum age amount limits ns)

observe_age-IsCounted :
    (age : ℕ) (b : Bool) (s : Series) → IsCounted s → IsCounted (observe_age age b s)
observe_age-IsCounted age b s (l, c) =
    let long : length bounds < length s.buckets = omega arith in
    (
      add_to_bucket-length age (int_of b) bounds s.buckets ∙ l,
      add_to_bucket-sum age (int_of b) bounds s.buckets long ∙ ap (λ n. n + int_of b) c,
    )

-- Both series are counted, and what is received is what the series of the odometry has.
pub record IsConsistent (state : State) : Type 0 where
  pub odom_counted : IsCounted state.odom_series
  pub clock_counted : IsCounted state.clock_series
  pub same_received : state.received ≡ state.odom_series.count

-- A point of a row, with its kind and its time, whose buckets have the counted events, and whose received messages are those.
abbrev pub HasReceived : Option (ℕ × ℕ) → ℕ → Type 0
HasReceived none count = Unit
HasReceived (some (received, lost)) count = received ≡ count

abbrev pub IsPoint : Row → Request → Type 0
IsPoint (kind, fs) r =
    (r.kind ≡ kind)
    × (natural (get fs "observed_unix_ns") ≡ some r.time_ns)
    × IsCounted r.series
    × HasReceived r.counters r.series.count

-- A point for each row, in order.
abbrev pub AllPoints : List Row → List Request → Type 0
AllPoints [] [] = Unit
AllPoints [] (r ∷ rs) = ⊥
AllPoints (row ∷ rows) [] = ⊥
AllPoints (row ∷ rows) (r ∷ rs) = IsPoint row r × AllPoints rows rs

-- The publication sequence number of a row.
abbrev pub sequence_in : Fields → ℕ
sequence_in fs = elim (as_obj (get fs "message_info")) [
  | none ↦ 0
  | some info ↦ elim (natural (get info "publication_sequence_number")) [ none ↦ 0 | some n ↦ n ]
]

-- The number of the last row, where `previous` is the one before the rows.
abbrev pub last_sequence : ℕ → List Fields → ℕ
last_sequence previous [] = previous
last_sequence previous (fs ∷ rest) = last_sequence (sequence_in fs) rest

-- The lost messages and the rows fill the numbers from the first row to the last.
abbrev pub Fills : Option ℕ → ℕ → List Fields → ℕ → Type 0
Fills (some p) before rows after = after + row_count rows + p ≡ before + last_sequence p rows
Fills none before [] after = after ≡ before
Fills none before (fs ∷ rest) after =
    after + row_count rest + sequence_in fs ≡ before + last_sequence (sequence_in fs) rest

-- What a row of the odometry does.
pub record IsOdom (fs : Fields) (state next : State) : Type 0 where
  pub its_sequence : next.previous_sequence ≡ some (sequence_in fs)
  pub gap : ℕ
  pub its_lost : next.lost ≡ state.lost + gap
  pub its_gap : (p : ℕ) → state.previous_sequence ≡ some p → suc (p + gap) ≡ sequence_in fs
  pub first_gap : state.previous_sequence ≡ none → gap ≡ 0

sequence_of-natural :
    (info : Fields) {n : ℕ}
    → sequence_of info ≡ ok n
    → natural (get info "publication_sequence_number") ≡ some n
unfolding sequence_of
sequence_of-natural info h = elim (Option-cases (natural (get info "publisher_count"))) [
  | inl e ↦ absurd (ground arith)
  | inr (c, e) ↦ elim (Option-cases (natural (get info "publication_sequence_number"))) [
    | inl f ↦ absurd (ground arith)
    | inr (m, f) ↦ ground arith
  ]
]

-- The gap after a number, or without one.
lost_after-gap :
    (previous : Option ℕ) (sequence : ℕ) {gap : ℕ}
    → lost_after previous sequence ≡ ok gap
    → ((p : ℕ) → previous ≡ some p → suc (p + gap) ≡ sequence) × (previous ≡ none → gap ≡ 0)
unfolding lost_after
lost_after-gap none sequence h = (λ p e. absurd cc, λ e. ground arith)
lost_after-gap (some q) sequence h = (λ p e. ground arith, λ e. absurd cc)

count_odom-counts :
    (info : Fields) (included : Bool) (state next : State)
    → count_odom info included state ≡ ok next
    → (sequence : ℕ) × (natural (get info "publication_sequence_number") ≡ some sequence)
      × (gap : ℕ) × (lost_after state.previous_sequence sequence ≡ ok gap)
      × (next ≡ record state {
        previous_sequence = some sequence;
        received = state.received + int_of included;
        lost = state.lost + gap;
      })
unfolding count_odom
count_odom-counts info included state next h = elim (Result-cases (sequence_of info)) [
  | inr (e, p) ↦ absurd (ground arith)
  | inl (sequence, p) ↦ elim (Result-cases (lost_after state.previous_sequence sequence)) [
    | inr (e, q) ↦ absurd (ground arith)
    | inl (gap, q) ↦ (sequence, sequence_of-natural info p, gap, q, ground arith)
  ]
]

sequence_in-natural :
    (fs info : Fields) {n : ℕ}
    → as_obj (get fs "message_info") ≡ some info
    → natural (get info "publication_sequence_number") ≡ some n
    → sequence_in fs ≡ n
sequence_in-natural fs info e h = ground arith

time_of-natural :
    (first previous : ℕ) (fs : Fields) {n : ℕ}
    → time_of first previous fs ≡ ok n
    → natural (get fs "observed_unix_ns") ≡ some n
unfolding time_of
time_of-natural first previous fs h = elim (Option-cases (natural (get fs "observed_unix_ns"))) [
  | inl e ↦ absurd (ground arith)
  | inr (m, e) ↦ ground arith
]

module _ (window : Window) where
  -- A row of the odometry that is written.
  pub derive_row-odom :
      (fs : Fields) (state next : State) (request : Request)
      → IsConsistent state
      → derive_row window (odom, fs) state ≡ ok (next, request)
      → IsConsistent next × IsPoint (odom, fs) request × IsOdom fs state next
  unfolding derive_row
  derive_row-odom fs state next request c h = elim (Option-cases (as_obj (get fs "message_info"))) [
    | inl e ↦ absurd (ground arith)
    | inr (info, e) ↦ elim (Result-cases (age_of info)) [
      | inr (x, a) ↦ absurd (ground arith)
      | inl (age, a) ↦ elim (Result-cases (time_of window.odom_start state.previous_odom fs)) [
        | inr (x, t) ↦ absurd (ground arith)
        | inl (observed, t) ↦
            let included = ltb window.start observed in
            let series = observe_age age included state.odom_series in
            let before = record state { odom_series = series; previous_odom = observed } in
            elim (Result-cases (count_odom info included before)) [
              | inr (x, o) ↦ absurd (ground arith)
              | inl (after, o) ↦
                  let (sequence, its_sequence, gap, its_gap, ends) =
                    count_odom-counts info included before after o in
                  let (after_previous, after_none) =
                    lost_after-gap state.previous_sequence sequence its_gap in
                  let named = sequence_in-natural fs info e its_sequence in
                  let counted =
                    observe_age-IsCounted age included state.odom_series c.odom_counted in
                  let same : after ≡ next = ground arith in
                  let last = record before {
                    previous_sequence = some sequence;
                    received = state.received + int_of included;
                    lost = state.lost + gap;
                  } in
                  let its_time = time_of-natural window.odom_start state.previous_odom fs t in
                  let received = ap (λ n. n + int_of included) c.same_received in
                  let written : record {
                    kind = odom;
                    time_ns = observed;
                    series = series;
                    counters = some (after.received, after.lost);
                  }
                      ≡ request =
                    ground arith in
                  let point = ap (λ t. t.received) ends ∙ received in
                  let whole : last ≡ next = sym ends ∙ same in
                  (
                    subst IsConsistent whole (record {
                      odom_counted = counted;
                      clock_counted = c.clock_counted;
                      same_received = received;
                    }),
                    subst (IsPoint (odom, fs)) written (refl, its_time, counted, point),
                    subst (IsOdom fs state) whole (record {
                      its_sequence = ap some (sym named);
                      gap = gap;
                      its_lost = refl;
                      its_gap = λ p q. after_previous p q ∙ sym named;
                      first_gap = after_none;
                    }),
                  )
            ]
      ]
    ]
  ]

  pub derive_row-clock :
      (fs : Fields) (state next : State) (request : Request)
      → IsConsistent state
      → derive_row window (clock, fs) state ≡ ok (next, request)
      → IsConsistent next
        × IsPoint (clock, fs) request
        × (next.previous_sequence ≡ state.previous_sequence)
        × (next.lost ≡ state.lost)
  unfolding derive_row
  derive_row-clock fs state next request c h =
      elim (Option-cases (as_obj (get fs "message_info"))) [
        | inl e ↦ absurd (ground arith)
        | inr (info, e) ↦ elim (Result-cases (age_of info)) [
          | inr (x, a) ↦ absurd (ground arith)
          | inl (age, a) ↦
              elim (Result-cases (time_of window.clock_start state.previous_clock fs)) [
                | inr (x, t) ↦ absurd (ground arith)
                | inl (observed, t) ↦
                    let included = ltb window.start observed in
                    let series = observe_age age included state.clock_series in
                    let counted =
                      observe_age-IsCounted age included state.clock_series c.clock_counted in
                    let same : record state { clock_series = series; previous_clock = observed }
                        ≡ next =
                      ground arith in
                    let its_time = time_of-natural window.clock_start state.previous_clock fs t in
                    let written : record {
                      kind = clock;
                      time_ns = observed;
                      series = series;
                      counters = none;
                    }
                        ≡ request =
                      ground arith in
                    (
                      subst IsConsistent same (record {
                        odom_counted = c.odom_counted;
                        clock_counted = counted;
                        same_received = c.same_received;
                      }),
                      subst (IsPoint (clock, fs)) written (refl, its_time, counted, tt),
                      ap (λ s. s.previous_sequence) (sym same),
                      ap (λ s. s.lost) (sym same),
                    )
              ]
        ]
      ]
