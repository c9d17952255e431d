-- ===== src/Collection/Collect/Refined.antt =====
-- The loops of `collect` keep the rows that were bound, and the subjects that those have.
use Prim.Native.String.{◌++◌ as append_text}
use robotics_runtime_infra.Base.{
  ℕ, suc, ◌≡◌, String, Bool, true, false, List, [], ◌∷◌, ◌++◌, refl, subst, arith, Option-cases,
  inl, inr, if◌then◌else◌,
}
use robotics_runtime_infra.Base.Result.{ok, Result-cases}
use robotics_runtime_infra.Base.Text.{member, all_in}
use robotics_runtime_infra.Base.Value.{Value, Items, no_items, item, as_obj}
use robotics_runtime_infra.Collection.Add.{Found, Sources, State, add}
use robotics_runtime_infra.Collection.Add.Rows.{Row, subjects, Holds, add-rows}
use robotics_runtime_infra.Collection.Collect.{
  required_text, subject_of, add_binding, add_bindings, add_metadata, add_recordings, add_payloads,
}

module _ (sources : Sources) (source_arguments : Bool) where
  -- A state with its rows, that have all of some subjects.
  abbrev pub Covers : List String → State → Type 0
  Covers wanted state =
      (rows : List Row) × Holds sources source_arguments state rows
      × (all_in wanted (subjects rows) ≡ true)

  member-append :
      (x : String) (rows : List Row) (row : Row)
      → member x (subjects rows) ≡ true
      → member x (subjects (rows ++ (row ∷ []))) ≡ true
  member-append x [] row h = absurd cc
  member-append x (r ∷ rows) row h = ground (arith, member-append x rows row)

  all_in-append :
      (wanted : List String) (rows : List Row) (row : Row)
      → all_in wanted (subjects rows) ≡ true
      → all_in wanted (subjects (rows ++ (row ∷ []))) ≡ true
  all_in-append [] rows row h = refl
  all_in-append (w ∷ wanted) rows row h =
      ground (arith, member-append w rows row, all_in-append wanted rows row)

  module _ (wanted : List String) where
    pub add-Covers :
        (flag subject source : String) (deduplicate : Bool) (state : State) {next : State}
        → Covers wanted state
        → add sources source_arguments flag subject source deduplicate state ≡ ok next
        → Covers wanted next
    add-Covers flag subject source deduplicate state {next = next} (rows, holds, all) h =
        elim (add-rows sources source_arguments flag subject source deduplicate state next rows
          holds h) [
            | inl (row, f, s, holds') ↦
                (rows ++ (row ∷ []), holds', all_in-append wanted rows row all)
            | inr (d, holds') ↦ (rows, holds', all)
          ]

    pub add_binding-Covers :
        (optional deduplicate : Bool) (v : Value) (state : State) {next : State}
        → Covers wanted state
        → add_binding sources source_arguments optional deduplicate v state ≡ ok next
        → Covers wanted next
    unfolding add_binding
    add_binding-Covers optional deduplicate v state c h = elim (Option-cases (as_obj v)) [
      | inl e ↦ absurd (ground arith)
      | inr (fs, e) ↦ elim (Result-cases (required_text sources source_arguments fs "flag")) [
        | inr (x, p) ↦ absurd (ground arith)
        | inl (flag, p) ↦
            elim (Result-cases (
              if optional
              then ok (subject_of sources source_arguments fs)
              else required_text sources source_arguments fs "subject")) [
                | inr (x, q) ↦ absurd (ground arith)
                | inl (subject, q) ↦
                    elim (Result-cases (required_text sources source_arguments fs "source")) [
                      | inr (x, r) ↦ absurd (ground arith)
                      | inl (source, r) ↦
                          add-Covers flag subject source deduplicate state c (ground arith)
                    ]
              ]
      ]
    ]

    pub add_bindings-Covers :
        (optional deduplicate : Bool) (vs : Items) (state : State) {next : State}
        → Covers wanted state
        → add_bindings sources source_arguments optional deduplicate vs state ≡ ok next
        → Covers wanted next
    unfolding add_bindings
    add_bindings-Covers optional deduplicate no_items state {next = next} c h =
        let same : state ≡ next = ground arith in subst (Covers wanted) same c
    add_bindings-Covers optional deduplicate (item v vs) state c h =
        elim (Result-cases (add_binding sources source_arguments optional deduplicate v state)) [
          | inr (e, p) ↦ absurd (ground arith)
          | inl (mid, p) ↦
              add_bindings-Covers optional deduplicate vs mid
                (add_binding-Covers optional deduplicate v state c p) (ground arith)
        ]

    pub add_metadata-Covers :
        (fs : List Found) (state : State) {next : State}
        → Covers wanted state
        → add_metadata sources source_arguments fs state ≡ ok next
        → Covers wanted next
    unfolding add_metadata
    add_metadata-Covers [] state {next = next} c h =
        let same : state ≡ next = ground arith in subst (Covers wanted) same c
    add_metadata-Covers (f ∷ fs) state c h =
        let subject = append_text "other_evidence:capture/bags/" f.within in
        elim (Result-cases (add sources source_arguments "--artifact" subject f.path false state)) [
          | inr (e, p) ↦ absurd (ground arith)
          | inl (mid, p) ↦
              add_metadata-Covers fs mid (add-Covers "--artifact" subject f.path false state c p)
                (ground arith)
        ]

    pub add_recordings-Covers :
        (index : ℕ) (ss rs : List Found) (state : State) {next : State}
        → Covers wanted state
        → add_recordings sources source_arguments index ss rs state ≡ ok next
        → Covers wanted next
    unfolding add_recordings
    add_recordings-Covers index [] [] state {next = next} c h =
        let same : state ≡ next = ground arith in subst (Covers wanted) same c
    add_recordings-Covers index [] (r ∷ rs) state c h = absurd (ground arith)
    add_recordings-Covers index (s ∷ ss) [] state c h = absurd (ground arith)
    add_recordings-Covers index (s ∷ ss) (r ∷ rs) state c h =
        let primary = append_text "primary-" (sources.decimal index) in
        let recorded = append_text "recording:" (append_text primary ".mcap") in
        elim (Result-cases
          (add sources source_arguments "--recording-summary" primary s.path false state)) [
            | inr (e, p) ↦ absurd (ground arith)
            | inl (mid, p) ↦
                elim (Result-cases
                  (add sources source_arguments "--evidence" recorded r.path false mid)) [
                    | inr (e, q) ↦ absurd (ground arith)
                    | inl (last, q) ↦
                        let first =
                          add-Covers "--recording-summary" primary s.path false state c p in
                        add_recordings-Covers (suc index) ss rs last
                          (add-Covers "--evidence" recorded r.path false mid first q) (ground arith)
                  ]
          ]

    pub add_payloads-Covers :
        (fs : List Found) (state : State) {next : State}
        → Covers wanted state
        → add_payloads sources source_arguments fs state ≡ ok next
        → Covers wanted next
    unfolding add_payloads
    add_payloads-Covers [] state {next = next} c h =
        let same : state ≡ next = ground arith in subst (Covers wanted) same c
    add_payloads-Covers (f ∷ fs) state c h =
        let subject =
          append_text (if f.is_recording then "recording:" else "other_evidence:") f.path in
        elim (Result-cases (add sources source_arguments "--artifact" subject f.path true state)) [
          | inr (e, p) ↦ absurd (ground arith)
          | inl (mid, p) ↦
              add_payloads-Covers fs mid (add-Covers "--artifact" subject f.path true state c p)
                (ground arith)
        ]
