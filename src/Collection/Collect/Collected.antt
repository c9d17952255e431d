-- ===== src/Collection/Collect/Collected.antt =====
-- The inventory and the arguments of `collect` as one list of bound payloads.
use robotics_runtime_infra.Base.{
  ◌≡◌, String, Bool, true, false, ◌||◌, some, List, [], ◌∷◌, ◌++◌, refl, sym, subst, ◌∙◌, arith,
  str_eq, str_eq_iff, Bool-cases, Option-cases, inl, inr,
}
use robotics_runtime_infra.Base.Result.{ok, Result-cases}
use robotics_runtime_infra.Base.Text.{member, all_in, distinct}
use robotics_runtime_infra.Base.Value.{
  Value, Items, no_items, item, Fields, get, as_obj, as_arr, is_text,
}
use robotics_runtime_infra.Collection.Add.{Found, Sources, Entry, State, start, relative_text, add}
use robotics_runtime_infra.Collection.Add.Rows.{
  Row, subjects, retained_of, target_of, flatten, entries_from, AllPayload, Holds, start-Holds,
  add-rows,
}
use robotics_runtime_infra.Collection.Collect.{
  mandatory, paths_of, set_defaults, Inventory, required_text, subject_of, add_binding,
  add_bindings, subjects_of, checked_subjects, add_metadata, add_recordings, add_payloads,
  optional_bindings, add_playback, add_found, collect_state, collect,
}
use robotics_runtime_infra.Collection.Collect.Refined.{
  Covers, add_bindings-Covers, add_metadata-Covers, add_recordings-Covers, add_payloads-Covers,
}

module _ (sources : Sources) (source_arguments : Bool) where
  module _ (wanted : List String) where
    add_playback-Covers :
        (plan : Fields) (recordings : List Found) (state : State) {next : State}
        → Covers sources source_arguments wanted state
        → add_playback sources source_arguments plan recordings state ≡ ok next
        → Covers sources source_arguments wanted next
    unfolding add_playback
    add_playback-Covers plan recordings state {next = next} c h =
        elim (Bool-cases (is_text (get plan "dataSource") "recording_playback")) [
          | inr b ↦
              let same : state ≡ next = ground arith in
              subst (Covers sources source_arguments wanted) same c
          | inl b ↦
              elim (Result-cases
                (required_text sources source_arguments plan "playbackSourceSha256")) [
                  | inr (e, p) ↦ absurd (ground arith)
                  | inl (original, p) ↦
                      elim (Result-cases
                        (required_text sources source_arguments plan "playbackSourceDirectory")) [
                          | inr (e, q) ↦ absurd (ground arith)
                          | inl (directory, q) ↦
                              elim (Result-cases (relative_text sources directory)) [
                                | inr (e, r) ↦ absurd (ground arith)
                                | inl (searched, r) ↦
                                    elim (Result-cases (
                                      add_payloads sources source_arguments
                                        (sources.payloads searched) state)) [
                                          | inr (e, s) ↦ absurd (ground arith)
                                          | inl (mid, s) ↦
                                              elim (Result-cases (
                                                optional_bindings sources source_arguments plan
                                                  "playbackBindings")) [
                                                    | inr (e, t) ↦ absurd (ground arith)
                                                    | inl (bindings, t) ↦
                                                        let added =
                                                          add_payloads-Covers sources
                                                            source_arguments wanted
                                                            (sources.payloads searched) state c s in
                                                        add_bindings-Covers sources source_arguments
                                                          wanted false true bindings mid added
                                                          (ground arith)
                                                  ]
                                        ]
                              ]
                        ]
                ]
        ]

    add_found-Covers :
        (plan : Fields) (state : State) {next : State}
        → Covers sources source_arguments wanted state
        → add_found sources source_arguments plan state ≡ ok next
        → Covers sources source_arguments wanted next
    unfolding add_found
    add_found-Covers plan state c h =
        elim (Result-cases (required_text sources source_arguments plan "bagsDirectory")) [
          | inr (e, p) ↦ absurd (ground arith)
          | inl (bags, p) ↦ elim (Result-cases (relative_text sources bags)) [
            | inr (e, q) ↦ absurd (ground arith)
            | inl (bag_directory, q) ↦
                elim (Result-cases
                  (required_text sources source_arguments plan "summariesDirectory")) [
                    | inr (e, r) ↦ absurd (ground arith)
                    | inl (summaries, r) ↦ elim (Result-cases (relative_text sources summaries)) [
                      | inr (e, s) ↦ absurd (ground arith)
                      | inl (summary_directory, s) ↦
                          let recordings = sources.recordings bag_directory in
                          let found = sources.summaries summary_directory in
                          let described = sources.metadata bag_directory in
                          elim (Result-cases
                            (add_metadata sources source_arguments described state)) [
                              | inr (e, t) ↦ absurd (ground arith)
                              | inl (mid, t) ↦
                                  elim (Result-cases (
                                    add_recordings sources source_arguments 0 found recordings
                                      mid)) [
                                        | inr (e, u) ↦ absurd (ground arith)
                                        | inl (last, u) ↦
                                            let first =
                                              add_metadata-Covers sources source_arguments wanted
                                                described state c t in
                                            let second =
                                              add_recordings-Covers sources source_arguments wanted
                                                0 found recordings mid first u in
                                            add_playback-Covers plan recordings last second
                                              (ground arith)
                                      ]
                            ]
                    ]
                  ]
          ]
        ]

  member-snoc :
      (x : String) (rows : List Row) (row : Row)
      → member x (subjects (rows ++ (row ∷ [])))
        ≡ (member x (subjects rows) || str_eq x row.subject)
  member-snoc x [] row = ground arith
  member-snoc x (r ∷ rows) row = ground (arith, member-snoc x rows row)

  -- The rows after the first loop, which have every subject of the bindings and of the rows before.
  abbrev Gains : Items → List Row → State → Type 0
  Gains vs rows next =
      (rows' : List Row) × Holds sources source_arguments next rows'
      × ((s : String)
          → (member s (subjects_of sources source_arguments vs) || member s (subjects rows)) ≡ true
          → member s (subjects rows') ≡ true)

  -- One binding gives a row with its subject.
  abbrev GainsOne : Fields → List Row → State → Type 0
  GainsOne fs rows next =
      (row : Row) × (row.subject ≡ subject_of sources source_arguments fs)
      × Holds sources source_arguments next (rows ++ (row ∷ []))

  add_binding-GainsOne :
      (v : Value) (state next : State) (rows : List Row)
      → Holds sources source_arguments state rows
      → add_binding sources source_arguments true false v state ≡ ok next
      → (fs : Fields) × (as_obj v ≡ some fs) × GainsOne fs rows next
  unfolding add_binding
  add_binding-GainsOne v state next rows holds h = elim (Option-cases (as_obj v)) [
    | inl e ↦ absurd (ground arith)
    | inr (fs, e) ↦ elim (Result-cases (required_text sources source_arguments fs "flag")) [
      | inr (x, p) ↦ absurd (ground arith)
      | inl (flag, p) ↦ elim (Result-cases (required_text sources source_arguments fs "source")) [
        | inr (x, r) ↦ absurd (ground arith)
        | inl (source, r) ↦
            let subject = subject_of sources source_arguments fs in
            let added : add sources source_arguments flag subject source false state ≡ ok next =
              ground arith in
            elim (add-rows sources source_arguments flag subject source false state next rows holds
              added) [
                | inl (row, f, s, holds') ↦ (fs, e, (row, s, holds'))
                | inr (d, holds') ↦ absurd (ground arith)
              ]
      ]
    ]
  ]

  add_bindings-Gains :
      (vs : Items) (state next : State) (rows : List Row)
      → Holds sources source_arguments state rows
      → add_bindings sources source_arguments true false vs state ≡ ok next
      → Gains vs rows next
  unfolding add_bindings
  add_bindings-Gains no_items state next rows holds h =
      let same : state ≡ next = ground arith in
      (rows, subst (λ t. Holds sources source_arguments t rows) same holds, λ s m. ground arith)
  add_bindings-Gains (item v vs) state next rows holds h =
      elim (Result-cases (add_binding sources source_arguments true false v state)) [
        | inr (e, p) ↦ absurd (ground arith)
        | inl (mid, p) ↦
            let (fs, its_fields, (row, its_subject, holds')) =
              add_binding-GainsOne v state mid rows holds p in
            let (rows', holds'', gains) =
              add_bindings-Gains vs mid next (rows ++ (row ∷ [])) holds' (ground arith) in
            (rows', holds'', λ s m. gains s (ground (arith, member-snoc s rows row)))
      ]

  all_in-gains :
      (wanted xs ys : List String)
      → ((s : String) → member s xs ≡ true → member s ys ≡ true)
      → all_in wanted xs ≡ true
      → all_in wanted ys ≡ true
  all_in-gains [] xs ys gains h = refl
  all_in-gains (w ∷ wanted) xs ys gains h =
      let first = gains w (ground arith) in
      let rest = all_in-gains wanted xs ys gains (ground arith) in ground arith

  path-snoc :
      (p : String) (es : List Entry) (e : Entry)
      → member p (paths_of (es ++ (e ∷ []))) ≡ (member p (paths_of es) || str_eq p e.relative_path)
  path-snoc p [] e = ground arith
  path-snoc p (x ∷ es) e = ground (arith, path-snoc p es e)

  distinct-snoc :
      (es : List Entry) (e : Entry)
      → distinct (paths_of es) ≡ true
      → member e.relative_path (paths_of es) ≡ false
      → distinct (paths_of (es ++ (e ∷ []))) ≡ true
  distinct-snoc [] e d m = refl
  distinct-snoc (x ∷ es) e d m = ground (
    arith,
    path-snoc x.relative_path es e,
    distinct-snoc es e,
    str_eq_iff x.relative_path e.relative_path,
    str_eq_iff e.relative_path x.relative_path,
  )

  set_defaults-distinct :
      (unique es : List Entry)
      → distinct (paths_of unique) ≡ true
      → distinct (paths_of (set_defaults unique es)) ≡ true
  unfolding set_defaults
  set_defaults-distinct unique [] d = d
  set_defaults-distinct unique (e ∷ es) d =
      elim (Bool-cases (member e.relative_path (paths_of unique))) [
        | inl m ↦ rw m (set_defaults-distinct unique es d)
        | inr m ↦ rw m (set_defaults-distinct (unique ++ (e ∷ [])) es (distinct-snoc unique e d m))
      ]

  set_defaults-member :
      (unique es : List Entry) (p : String)
      → (member p (paths_of unique) || member p (paths_of es)) ≡ true
      → member p (paths_of (set_defaults unique es)) ≡ true
  unfolding set_defaults
  set_defaults-member unique [] p h = ground arith
  set_defaults-member unique (e ∷ es) p h =
      elim (Bool-cases (member e.relative_path (paths_of unique))) [
        | inl m ↦
            rw m (set_defaults-member unique es p (ground (arith, str_eq_iff p e.relative_path)))
        | inr m ↦
            rw m
              (set_defaults-member (unique ++ (e ∷ [])) es p (ground (arith, path-snoc p unique e)))
      ]

  checked_subjects-mandatory :
      (plan : Fields) (subjects arguments : List String)
      → checked_subjects sources source_arguments plan subjects arguments ≡ ok tt
      → all_in mandatory subjects ≡ true
  unfolding checked_subjects
  checked_subjects-mandatory plan subjects arguments h = ground arith

  collect_state-Covers :
      (plan : Fields) (state : State)
      → collect_state sources source_arguments plan ≡ ok state
      → Covers sources source_arguments mandatory state
  unfolding collect_state
  collect_state-Covers plan state h = elim (Option-cases (as_arr (get plan "bindings"))) [
    | inl e ↦ absurd (ground arith)
    | inr (bindings, e) ↦
        elim (Result-cases (add_bindings sources source_arguments true false bindings start)) [
          | inr (x, p) ↦ absurd (ground arith)
          | inl (bound, p) ↦ elim (Result-cases (add_found sources source_arguments plan bound)) [
            | inr (x, q) ↦ absurd (ground arith)
            | inl (found, q) ↦
                elim (Result-cases
                  (optional_bindings sources source_arguments plan "productAndReadinessBindings")) [
                    | inr (x, r) ↦ absurd (ground arith)
                    | inl (products, r) ↦
                        let subjects' = subjects_of sources source_arguments bindings in
                        let checked : checked_subjects sources source_arguments plan subjects'
                              bound.arguments
                            ≡ ok tt =
                          ground arith in
                        let (rows, holds, gains) =
                          add_bindings-Gains bindings start bound []
                            (start-Holds sources source_arguments) p in
                        let all =
                          checked_subjects-mandatory plan subjects' bound.arguments checked in
                        let covered =
                          all_in-gains mandatory subjects' (subjects rows)
                            (λ s m. gains s (ground arith)) all in
                        let found' =
                          add_found-Covers mandatory plan bound (rows, holds, covered) q in
                        add_bindings-Covers sources source_arguments mandatory false false products
                          found found' (ground arith)
                  ]
          ]
        ]
  ]

  -- What `collect` returns, for the rows that it has bound.
  pub record IsCollected (plan : Fields) (inventory : Inventory) (arguments retained : List String)
      : Type 0 where
    pub rows : List Row
    pub all_payload : AllPayload sources rows
    pub its_arguments : arguments ≡ flatten sources (target_of sources source_arguments) rows
    pub its_retained : retained ≡ flatten sources (retained_of sources) rows
    pub its_entries : inventory.entries ≡ set_defaults [] (entries_from sources 0 rows)
    pub all_mandatory : all_in mandatory (subjects rows) ≡ true
    pub one_path : distinct (paths_of inventory.entries) ≡ true
    pub every_path :
        (path : String)
        → member path (paths_of (entries_from sources 0 rows)) ≡ true
        → member path (paths_of inventory.entries) ≡ true
    pub its_run : inventory.run_id ≡ get plan "runId"

  -- A collection is one list of rows, each a regular file below the source with a flag of the
  -- tools: both lists of arguments have a flag and a target for each row in this order, every
  -- mandatory subject is among the rows, and the inventory has exactly one entry for every output
  -- path of a row.
  pub collect-IsCollected :
      (plan : Fields) (inventory : Inventory) (arguments retained : List String)
      → collect sources source_arguments plan ≡ ok (inventory, arguments, retained)
      → IsCollected plan inventory arguments retained
  unfolding collect
  collect-IsCollected plan inventory arguments retained h =
      elim (Result-cases (collect_state sources source_arguments plan)) [
        | inr (e, p) ↦ absurd (ground arith)
        | inl (state, p) ↦
            let (rows, holds, all) = collect_state-Covers plan state p in
            let entries : set_defaults [] state.entries ≡ inventory.entries = ground arith in
            let its_arguments : state.arguments ≡ arguments = ground arith in
            let its_retained : state.retained_arguments ≡ retained = ground arith in
            let whole : set_defaults [] (entries_from sources 0 rows) ≡ inventory.entries =
              rw (← holds.its_entries) entries in
            record {
              rows = rows;
              all_payload = holds.all_payload;
              its_arguments = sym its_arguments ∙ holds.its_arguments;
              its_retained = sym its_retained ∙ holds.its_retained;
              its_entries = sym whole;
              all_mandatory = all;
              one_path = rw (← whole) (set_defaults-distinct [] (entries_from sources 0 rows) refl);
              every_path = λ path m.
                  rw (← whole)
                    (set_defaults-member [] (entries_from sources 0 rows) path (ground arith));
              its_run = ground arith;
            }
      ]
