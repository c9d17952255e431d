-- ===== src/Isaac/Phases/Paused.antt =====
-- A wait that returns has seen its marker in a paused application, and every wait ends.
use robotics_runtime_infra.Base.{
  ℕ, zero, suc, ◌+◌, ◌<◌, ◌≤◌, ◌≡◌, ◌≢◌, ◌⊎◌, String, Bool, true, false, Option, none, some, arith,
  Bool-cases, inl, inr, refl, subst,
}
use robotics_runtime_infra.Base.Result.{ok, err, Result-cases}
use robotics_runtime_infra.Base.Value.{Fields}
use robotics_runtime_infra.Isaac.Phases.{
  out_of_fuel, Episode, Marker, absent, unusable, marked, is_of_episode, phase_marker, Reading,
  is_paused, wait_round, wait_rounds, wait_paused_phase,
}

-- The marker of an action, from this episode.
abbrev pub IsMarked : Episode → String → Marker → Type 0
IsMarked episode action marker =
    (facts : Fields) × (marker ≡ marked facts) × (is_of_episode episode action facts ≡ true)

phase_marker-IsMarked :
    (episode : Episode) (action : String) (marker : Marker)
    → phase_marker episode action marker ≡ ok true
    → IsMarked episode action marker
unfolding phase_marker
phase_marker-IsMarked episode action absent h = absurd (ground arith)
phase_marker-IsMarked episode action unusable h = absurd (ground arith)
phase_marker-IsMarked episode action (marked facts) h = (facts, refl, ground arith)

phase_marker-absent :
    (episode : Episode) (action : String) (marker : Marker)
    → phase_marker episode action marker ≡ ok false
    → marker ≡ absent
unfolding phase_marker
phase_marker-absent episode action absent h = refl
phase_marker-absent episode action unusable h = absurd (ground arith)
phase_marker-absent episode action (marked facts) h = absurd (ground arith)

module _ {Time : Type 0} (is_finite : Time → Bool) (is_close : Time → Time → Bool) where
  module _ (episode : Episode) (action : String) (baseline : Time) (deadline : ℕ) where
    -- A round of a running application that is paused at the baseline, with no request to cancel.
    pub record IsQuiet (reading : Reading is_finite is_close) : Type 0 where
      pub running : reading.is_running ≡ true
      pub paused : is_paused is_finite is_close baseline reading ≡ true
      pub written : reading.written ≡ true
      pub not_cancelled : reading.marker "cancel" ≡ absent

    wait_round-IsQuiet :
        (reading : Reading is_finite is_close) (b : Bool)
        → wait_round is_finite is_close episode action baseline deadline reading ≡ ok b
        → IsQuiet reading
    unfolding wait_round
    wait_round-IsQuiet reading b h =
        elim (Result-cases (phase_marker episode "cancel" (reading.marker "cancel"))) [
          | inr (e, p) ↦ absurd (ground arith)
          | inl (c, p) ↦
              let quiet : c ≡ false = ground arith in
              let none_there : phase_marker episode "cancel" (reading.marker "cancel") ≡ ok false =
                cc in
              record {
                running = ground arith;
                paused = ground arith;
                written = ground arith;
                not_cancelled = phase_marker-absent episode "cancel" _ none_there;
              }
        ]

    wait_round-true :
        (reading : Reading is_finite is_close)
        → wait_round is_finite is_close episode action baseline deadline reading ≡ ok true
        → IsMarked episode action (reading.marker action)
    unfolding wait_round
    wait_round-true reading h = phase_marker-IsMarked episode action _ (ground arith)

    wait_round-false :
        (reading : Reading is_finite is_close)
        → wait_round is_finite is_close episode action baseline deadline reading ≡ ok false
        → (reading.marker action ≡ absent) × (reading.now < deadline)
    unfolding wait_round
    wait_round-false reading h = (phase_marker-absent episode action _ (ground arith), ground arith)

    wait_round-fuel :
        (reading : Reading is_finite is_close)
        → wait_round is_finite is_close episode action baseline deadline reading ≢ err out_of_fuel
    unfolding wait_round phase_marker
    wait_round-fuel reading h = ground arith

    -- What a wait has seen that returns after the round `last`, from the round `n` on.
    pub record IsPhase (n last : ℕ) (readings : ℕ → Reading is_finite is_close) : Type 0 where
      pub from : n ≤ last
      pub its_marker : IsMarked episode action ((readings last).marker action)
      pub quiet : (k : ℕ) → n ≤ k → k ≤ last → IsQuiet (readings k)
      pub not_before :
          (k : ℕ)
          → n ≤ k
          → k < last
          → ((readings k).marker action ≡ absent) × ((readings k).now < deadline)

    -- The bounds of the first round are split off.
    le-cases : (n k : ℕ) → n ≤ k → (n ≡ k) ⊎ (suc n ≤ k)
    le-cases n k h = ground arith

    wait_rounds-IsPhase :
        (fuel n : ℕ) (readings : ℕ → Reading is_finite is_close) (count : ℕ)
        → wait_rounds is_finite is_close fuel n episode action baseline deadline readings ≡ ok count
        → (last : ℕ) × (count ≡ suc last) × IsPhase n last readings
    unfolding wait_rounds
    wait_rounds-IsPhase zero n readings count h = absurd (ground arith)
    wait_rounds-IsPhase (suc fuel) n readings count h =
        elim (Result-cases
          (wait_round is_finite is_close episode action baseline deadline (readings n))) [
            | inr (e, p) ↦ absurd (ground arith)
            | inl (b, p) ↦ elim (Bool-cases b) [
              | inl t ↦
                  let marks : wait_round is_finite is_close episode action baseline deadline
                        (readings n)
                      ≡ ok true =
                    cc in
                  (
                    n,
                    ground arith,
                    record {
                      from = ground arith;
                      its_marker = wait_round-true (readings n) marks;
                      quiet = λ k l u.
                          let same : n ≡ k = ground arith in
                          subst (λ j. IsQuiet (readings j)) same
                            (wait_round-IsQuiet (readings n) b p);
                      not_before = λ k l u. absurd (ground arith);
                    },
                  )
              | inr f ↦
                  let goes_on : wait_round is_finite is_close episode action baseline deadline
                        (readings n)
                      ≡ ok false =
                    cc in
                  let (last, its_count, phase) =
                    wait_rounds-IsPhase fuel (suc n) readings count (ground arith) in
                  let from = phase.from in
                  (
                    last,
                    its_count,
                    record {
                      from = ground arith;
                      its_marker = phase.its_marker;
                      quiet = λ k l u. elim (le-cases n k l) [
                        | inl same ↦
                            subst (λ j. IsQuiet (readings j)) same
                              (wait_round-IsQuiet (readings n) b p)
                        | inr more ↦ phase.quiet k more u
                      ];
                      not_before = λ k l u. elim (le-cases n k l) [
                        | inl same ↦
                            subst
                              (λ j.
                                ((readings j).marker action ≡ absent)
                                × ((readings j).now < deadline))
                              same (wait_round-false (readings n) goes_on)
                        | inr more ↦ phase.not_before k more u
                      ];
                    },
                  )
            ]
          ]

    wait_rounds-fuel :
        (fuel n : ℕ) (readings : ℕ → Reading is_finite is_close)
        → ((k : ℕ) → (readings k).now < (readings (suc k)).now)
        → deadline ≤ fuel + (readings n).now
        → wait_rounds is_finite is_close (suc fuel) n episode action baseline deadline readings
          ≢ err out_of_fuel
    unfolding wait_rounds
    wait_rounds-fuel zero n readings later enough h =
        elim (Result-cases
          (wait_round is_finite is_close episode action baseline deadline (readings n))) [
            | inr (e, p) ↦ wait_round-fuel (readings n) (ground arith)
            | inl (true, p) ↦ ground arith
            | inl (false, p) ↦
                let (none_there, early) = wait_round-false (readings n) p in ground arith
          ]
    wait_rounds-fuel (suc fuel) n readings later enough h =
        elim (Result-cases
          (wait_round is_finite is_close episode action baseline deadline (readings n))) [
            | inr (e, p) ↦ wait_round-fuel (readings n) (ground arith)
            | inl (true, p) ↦ ground arith
            | inl (false, p) ↦
                let next = later n in
                wait_rounds-fuel fuel (suc n) readings later (omega arith) (ground arith)
          ]

  -- A wait of an episode that returns, with the number of observations that it has written: in the
  -- last round, and not before, the marker of the action was there and of this episode, and in every
  -- round the application ran, the timeline was paused at the baseline, the observation was written,
  -- and there was no request to cancel; each round but the last was before the deadline.
  pub wait_paused_phase-IsPhase :
      (episode : Episode) (action : String) (baseline : Time) (start timeout : ℕ)
      (readings : ℕ → Reading is_finite is_close) (count : ℕ)
      → wait_paused_phase is_finite is_close (some episode) action baseline start timeout readings
        ≡ ok count
      → (last : ℕ) × (count ≡ suc last)
        × IsPhase episode action baseline (start + timeout) 0 last readings
  unfolding wait_paused_phase
  wait_paused_phase-IsPhase episode action baseline start timeout readings count h =
      wait_rounds-IsPhase episode action baseline (start + timeout) (suc timeout) 0 readings count h

  -- When the time goes on from each round to the next, `suc timeout` rounds are enough: a wait ends
  -- with its marker or with an error of the source.
  pub wait_paused_phase_ends :
      (episode : Option Episode) (action : String) (baseline : Time) (start timeout : ℕ)
      (readings : ℕ → Reading is_finite is_close)
      → ((k : ℕ) → (readings k).now < (readings (suc k)).now)
      → start ≤ (readings 0).now
      → wait_paused_phase is_finite is_close episode action baseline start timeout readings
        ≢ err out_of_fuel
  unfolding wait_paused_phase
  wait_paused_phase_ends none action baseline start timeout readings later begun h = ground arith
  wait_paused_phase_ends (some episode) action baseline start timeout readings later begun h =
      wait_rounds-fuel episode action baseline (start + timeout) timeout 0 readings later
        (omega arith) h
