-- ===== src/Recorder/Capture/Stopped.antt =====
-- What a recording has seen has seen when a loop of it returns, and that its loops end.
use robotics_runtime_infra.Base.{
  ℕ, zero, suc, ◌+◌, ◌<◌, ◌≤◌, ◌≡◌, ◌≢◌, ◌⊎◌, String, true, false, none, some, subst, arith,
  Bool-cases, inl, inr,
}
use robotics_runtime_infra.Base.Result.{ok, err, Result-cases}
use robotics_runtime_infra.Recorder.Artifact.{out_of_fuel, StopFile, stop_request}
use robotics_runtime_infra.Recorder.Run.{Subscriptions, topics, covers, ReadyRound, LifeRound}
use robotics_runtime_infra.Recorder.Capture.{
  subscriptions_of, ready_round, ready_rounds, life_round, life_rounds,
}

-- A round, before the deadline, whose node subscribes to every topic with its type.
pub record IsReady (deadline : ℕ) (r : ReadyRound) : Type 0 where
  pub not_signalled : r.is_signalled ≡ false
  pub covers_topics : covers topics (subscriptions_of r) ≡ true
  pub in_time : (r.now < deadline) × (r.after < deadline)

ready_round-IsReady :
    (deadline : ℕ) (r : ReadyRound) {subscriptions : Subscriptions}
    → ready_round deadline r ≡ ok (some subscriptions)
    → IsReady deadline r × (subscriptions ≡ subscriptions_of r)
unfolding ready_round
ready_round-IsReady deadline r h = (
  record {
    not_signalled = ground arith;
    covers_topics = ground arith;
    in_time = (ground arith, ground arith);
  },
  ground arith,
)

ready_round-none :
    (deadline : ℕ) (r : ReadyRound)
    → ready_round deadline r ≡ ok none
    → (r.is_signalled ≡ false) × (r.now < deadline)
unfolding ready_round
ready_round-none deadline r h = (ground arith, ground arith)

ready_round-fuel : (deadline : ℕ) (r : ReadyRound) → ready_round deadline r ≢ err out_of_fuel
unfolding ready_round
ready_round-fuel deadline r h = ground arith

pub ready_rounds-IsReady :
    (fuel n deadline : ℕ) (rounds : ℕ → ReadyRound) {last : ℕ} {subscriptions : Subscriptions}
    → ready_rounds fuel n deadline rounds ≡ ok (last, subscriptions)
    → IsReady deadline (rounds last) × (subscriptions ≡ subscriptions_of (rounds last))
unfolding ready_rounds
ready_rounds-IsReady zero n deadline rounds h = absurd (ground arith)
ready_rounds-IsReady (suc fuel) n deadline rounds {last = last} {subscriptions = subscriptions} h =
    elim (Result-cases (ready_round deadline (rounds n))) [
      | inr (e, p) ↦ absurd (ground arith)
      | inl (none, p) ↦ ready_rounds-IsReady fuel (suc n) deadline rounds (ground arith)
      | inl (some found, p) ↦
          let at_last : n ≡ last = ground arith in
          let same : found ≡ subscriptions = ground arith in
          let (ready, its_subscriptions) = ready_round-IsReady deadline (rounds n) p in
          subst (λ k. IsReady deadline (rounds k) × (subscriptions ≡ subscriptions_of (rounds k)))
            at_last (ready, subst (λ s. s ≡ subscriptions_of (rounds n)) same its_subscriptions)
    ]

pub ready_rounds-fuel :
    (fuel n deadline : ℕ) (rounds : ℕ → ReadyRound)
    → ((k : ℕ) → (rounds k).now < (rounds (suc k)).now)
    → deadline ≤ fuel + (rounds n).now
    → ready_rounds (suc fuel) n deadline rounds ≢ err out_of_fuel
unfolding ready_rounds
ready_rounds-fuel zero n deadline rounds later enough h =
    elim (Result-cases (ready_round deadline (rounds n))) [
      | inr (e, p) ↦ ready_round-fuel deadline (rounds n) (ground arith)
      | inl (none, p) ↦ let (quiet, early) = ready_round-none deadline (rounds n) p in ground arith
      | inl (some found, p) ↦ ground arith
    ]
ready_rounds-fuel (suc fuel) n deadline rounds later enough h =
    elim (Result-cases (ready_round deadline (rounds n))) [
      | inr (e, p) ↦ ready_round-fuel deadline (rounds n) (ground arith)
      | inl (none, p) ↦
          let next = later n in
          ready_rounds-fuel fuel (suc n) deadline rounds later (omega arith) (ground arith)
      | inl (some found, p) ↦ ground arith
    ]

first_or_later : (n k : ℕ) → n ≤ k → (n ≡ k) ⊎ (suc n ≤ k)
first_or_later n k h = ground arith

module _ (run_id domain_id : String) where
  -- A round, before the deadline, in which a signal has come or the request of this run is there.
  pub record IsStop (deadline : ℕ) (r : LifeRound) : Type 0 where
    pub its_reason : (r.is_signalled ≡ true) ⊎ (stop_request r.stop run_id domain_id ≡ ok true)
    pub in_time : (r.now < deadline) × (r.after < deadline)

  -- A round without a signal and without a request.
  abbrev pub IsUneventful : (deadline : ℕ) → LifeRound → Type 0
  IsUneventful deadline r = (r.is_signalled ≡ false) × (r.stop.exists ≡ false) × (r.now < deadline)

  stop_request-false :
      (file : StopFile) → stop_request file run_id domain_id ≡ ok false → file.exists ≡ false
  unfolding stop_request
  stop_request-false file h = ground arith

  stop_request-fuel : (file : StopFile) → stop_request file run_id domain_id ≢ err out_of_fuel
  unfolding stop_request
  stop_request-fuel file h = ground arith

  life_round-IsStop :
      (deadline : ℕ) (r : LifeRound)
      → life_round run_id domain_id deadline r ≡ ok true
      → IsStop deadline r
  unfolding life_round
  life_round-IsStop deadline r h = elim (Bool-cases r.is_signalled) [
    | inl s ↦ record { its_reason = inl s; in_time = (ground arith, ground arith) }
    | inr s ↦ record { its_reason = inr (ground arith); in_time = (ground arith, ground arith) }
  ]

  life_round-false :
      (deadline : ℕ) (r : LifeRound)
      → life_round run_id domain_id deadline r ≡ ok false
      → IsUneventful deadline r
  unfolding life_round
  life_round-false deadline r h =
      let unsignalled : r.is_signalled ≡ false = ground arith in
      let unrequested : stop_request r.stop run_id domain_id ≡ ok false = ground arith in
      (unsignalled, stop_request-false r.stop unrequested, ground arith)

  life_round-fuel :
      (deadline : ℕ) (r : LifeRound) → life_round run_id domain_id deadline r ≢ err out_of_fuel
  unfolding life_round
  life_round-fuel deadline r h = ground (arith, stop_request-fuel r.stop)

  pub life_rounds-IsStop :
      (fuel n deadline : ℕ) (rounds : ℕ → LifeRound) {last : ℕ}
      → life_rounds fuel n run_id domain_id deadline rounds ≡ ok last
      → (n ≤ last)
        × IsStop deadline (rounds last)
        × ((k : ℕ) → n ≤ k → k < last → IsUneventful deadline (rounds k))
  unfolding life_rounds
  life_rounds-IsStop zero n deadline rounds h = absurd (ground arith)
  life_rounds-IsStop (suc fuel) n deadline rounds {last = last} h =
      elim (Result-cases (life_round run_id domain_id deadline (rounds n))) [
        | inr (e, p) ↦ absurd (ground arith)
        | inl (true, p) ↦
            let at_last : n ≡ last = ground arith in
            (
              ground arith,
              subst (λ k. IsStop deadline (rounds k)) at_last
                  (life_round-IsStop deadline (rounds n) p),
              λ k l u. absurd (ground arith),
            )
        | inl (false, p) ↦
            let (from, stop, before) =
              life_rounds-IsStop fuel (suc n) deadline rounds (ground arith) in
            (
              ground arith,
              stop,
              λ k l u. elim (first_or_later n k l) [
                | inl same ↦
                    subst (λ j. IsUneventful deadline (rounds j)) same
                      (life_round-false deadline (rounds n) p)
                | inr more ↦ before k more u
              ],
            )
      ]

  pub life_rounds-fuel :
      (fuel n deadline : ℕ) (rounds : ℕ → LifeRound)
      → ((k : ℕ) → (rounds k).now < (rounds (suc k)).now)
      → deadline ≤ fuel + (rounds n).now
      → life_rounds (suc fuel) n run_id domain_id deadline rounds ≢ err out_of_fuel
  unfolding life_rounds
  life_rounds-fuel zero n deadline rounds later enough h =
      elim (Result-cases (life_round run_id domain_id deadline (rounds n))) [
        | inr (e, p) ↦ life_round-fuel deadline (rounds n) (ground arith)
        | inl (true, p) ↦ ground arith
        | inl (false, p) ↦
            let (a, b, early) = life_round-false deadline (rounds n) p in ground arith
      ]
  life_rounds-fuel (suc fuel) n deadline rounds later enough h =
      elim (Result-cases (life_round run_id domain_id deadline (rounds n))) [
        | inr (e, p) ↦ life_round-fuel deadline (rounds n) (ground arith)
        | inl (true, p) ↦ ground arith
        | inl (false, p) ↦
            let next = later n in
            life_rounds-fuel fuel (suc n) deadline rounds later (omega arith) (ground arith)
      ]
