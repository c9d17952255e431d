-- ===== src/Collection/Assessment/Sealed.antt =====
-- What an assessment is sealed to.
use robotics_runtime_infra.Base.{
  ℕ, ◌≤◌, ◌≡◌, ◌⊎◌, String, true, false, Option, none, some, List, [], ◌∷◌, refl, subst, arith,
  str_eq, str_eq_iff, Bool-cases, Option-cases, inl, inr,
}
use robotics_runtime_infra.Base.Result.{ok, Result-cases, >>=-eq-ok, >>-eq-ok, or_raise-eq-ok}
use robotics_runtime_infra.Base.Value.{pos, negsuc, Value, int, Fields, get, as_int, is_text}
use robotics_runtime_infra.Base.Documents.{as_int-some}
use robotics_runtime_infra.Collection.Add.{Sources, Entry, not_valid}
use robotics_runtime_infra.Collection.Collect.{collect}
use robotics_runtime_infra.Collection.Collect.Collected.{IsCollected, collect-IsCollected}
use robotics_runtime_infra.Collection.Assessment.{
  Loaded, After, Harness, Completed, exit_verdict, same_texts, is_same_payload, check_payloads,
  path_of_source, bytes_of, is_over, binding, source_file, checked_result, validated, still_sealed,
  verify_result,
}

-- Exit code zero with the verdict "passed", or one with another verdict.
abbrev pub Agrees : Value → Value → Type 0
Agrees exit_code verdict =
    ((exit_code ≡ int (pos 0)) × (is_text verdict "passed" ≡ true))
    ⊎ ((exit_code ≡ int (pos 1)) × (is_text verdict "passed" ≡ false))

pub exit_verdict-Agrees :
    (exit_code verdict : Value) → exit_verdict exit_code verdict ≡ ok tt → Agrees exit_code verdict
unfolding exit_verdict
exit_verdict-Agrees exit_code verdict h = elim (Option-cases (as_int exit_code)) [
  | inl e ↦ absurd (ground arith)
  | inr (negsuc m, e) ↦ absurd (ground arith)
  | inr (pos m, e) ↦ elim (Bool-cases (is_text verdict "passed")) [
    | inl b ↦ let code : m ≡ 0 = ground arith in inl (rw code at (as_int-some exit_code e), b)
    | inr b ↦ let code : m ≡ 1 = ground arith in inr (rw code at (as_int-some exit_code e), b)
  ]
]

-- Every entry's file has its digest and its size.
abbrev pub AllSame : (Entry → Option (String × ℕ)) → List Entry → Type 0
AllSame file [] = Unit
AllSame file (e ∷ es) = (file e ≡ some (e.sha256, e.size_bytes)) × AllSame file es

is_same_payload-some :
    (e : Entry) (found : Option (String × ℕ))
    → is_same_payload e found ≡ true
    → found ≡ some (e.sha256, e.size_bytes)
is_same_payload-some e none h = absurd cc
is_same_payload-some e (some (digest, size)) h = ground (arith, str_eq_iff digest e.sha256)

pub check_payloads-AllSame :
    (file : Entry → Option (String × ℕ)) (es : List Entry)
    → check_payloads file es ≡ ok tt
    → AllSame file es
unfolding check_payloads
check_payloads-AllSame file [] h = tt
check_payloads-AllSame file (e ∷ es) h =
    let same : is_same_payload e (file e) ≡ true = ground arith in
    (is_same_payload-some e (file e) same, check_payloads-AllSame file es (ground arith))

is_over-false :
    (total : ℕ) (v : Value)
    → is_over total v ≡ some false
    → (m : ℕ) × (v ≡ int (pos m)) × (total ≤ m)
is_over-false total v h = elim (Option-cases (as_int v)) [
  | inl e ↦ absurd (ground arith)
  | inr (negsuc m, e) ↦ absurd (ground arith)
  | inr (pos m, e) ↦ (m, as_int-some v e, ground arith)
]

pub same_texts-eq : (ss ts : List String) → same_texts ss ts ≡ true → ss ≡ ts
same_texts-eq [] [] h = refl
same_texts-eq [] (t ∷ ts) h = absurd cc
same_texts-eq (s ∷ ss) [] h = absurd cc
same_texts-eq (s ∷ ss) (t ∷ ts) h = ground (arith, str_eq_iff s t, same_texts-eq ss ts)

module _ (sources : Sources) (harness : Harness) where
  -- An aggregate of the result, the scenario and the context of the plan, that was fully validated
  -- with the arguments.
  pub record IsValidated (plan : Fields) (path : String) (arguments : List String)
      (validation : After) : Type 0 where
    pub scenario : String × String
    pub its_scenario : binding sources harness plan "--scenario" ≡ ok scenario
    pub context : String × String
    pub its_context : binding sources harness plan "--acceptance-run" ≡ ok context
    pub aggregate : String
    pub aggregated : harness.aggregate_results scenario.1 context.1 path ≡ some aggregate
    pub validated : harness.full_validation arguments aggregate ≡ some validation

  validated-IsValidated :
      (plan : Fields) (path : String) (arguments : List String) {validation : After}
      → validated sources harness plan path arguments ≡ ok validation
      → IsValidated plan path arguments validation
  unfolding validated
  validated-IsValidated plan path arguments h =
      elim (Result-cases (binding sources harness plan "--scenario")) [
        | inr (e, p) ↦ absurd (ground arith)
        | inl (scenario, p) ↦
            elim (Result-cases (binding sources harness plan "--acceptance-run")) [
              | inr (e, q) ↦ absurd (ground arith)
              | inl (context, q) ↦
                  elim (Option-cases (harness.aggregate_results scenario.1 context.1 path)) [
                    | inl e ↦ absurd (ground arith)
                    | inr (aggregate, a) ↦ record {
                      scenario = scenario;
                      its_scenario = p;
                      context = context;
                      its_context = q;
                      aggregate = aggregate;
                      aggregated = a;
                      validated = or_raise-eq-ok _ not_valid (ground arith);
                    }
                  ]
            ]
      ]

  -- A completed assessment of a plan.
  pub record IsAssessed (plan : Fields) (exit_code : Value) (completed : Completed) : Type 0 where
    pub collected :
        IsCollected sources true plan completed.inventory completed.source_arguments
          completed.arguments
    pub agrees : Agrees exit_code completed.verdict
    pub maximum : ℕ
    pub its_maximum : get plan "maximumBytes" ≡ int (pos maximum)
    pub within : bytes_of completed.inventory.entries ≤ maximum
    pub path : String
    pub its_path : binding sources harness plan "--result" ≡ ok (completed.domain_id, path)
    pub validation : After
    pub valid : IsValidated plan path completed.source_arguments validation
    pub all_same : AllSame (source_file sources harness validation) completed.inventory.entries
    pub before : Loaded
    pub its_result : harness.load_result path ≡ some before
    pub its_verdict : completed.verdict ≡ before.status
    pub after : Loaded
    pub still_there : validation.load_result path ≡ some after
    pub same_result :
        (after.sha256 ≡ completed.result.sha256) × (after.size ≡ completed.result.size_bytes)
    pub its_exit_code : completed.observer_exit_code ≡ exit_code

  checked_result-Agrees :
      (plan : Fields) (exit_code : Value) (domain path : String) {result : Loaded}
      → checked_result sources harness plan exit_code domain path ≡ ok result
      → (harness.load_result path ≡ some result) × Agrees exit_code result.status
  unfolding checked_result
  checked_result-Agrees plan exit_code domain path {result = result} h =
      let (loaded, e, tested) = >>=-eq-ok _ _ h in
      let (others, judged) = >>-eq-ok _ _ tested in
      let (agrees, returned) = >>-eq-ok _ _ judged in
      let same : loaded ≡ result = ground arith in
      subst (λ l. (harness.load_result path ≡ some l) × Agrees exit_code l.status) same
        (or_raise-eq-ok _ _ e, exit_verdict-Agrees exit_code loaded.status agrees)

  still_sealed-same :
      (validation : After) (path : String) (result : Loaded)
      → still_sealed sources harness validation path result ≡ ok tt
      → (after : Loaded) × (validation.load_result path ≡ some after)
        × (after.sha256 ≡ result.sha256)
        × (after.size ≡ result.size)
  unfolding still_sealed
  still_sealed-same validation path result h = elim (Option-cases (validation.load_result path)) [
    | inl e ↦ absurd (ground arith)
    | inr (after, e) ↦
        let same : str_eq after.sha256 result.sha256 ≡ true = ground arith in
        (after, e, (str_eq_iff after.sha256 result.sha256).0 same, ground arith)
  ]

  pub verify_result-IsAssessed :
      (plan : Fields) (exit_code : Value) (completed : Completed)
      → verify_result sources harness plan exit_code ≡ ok completed
      → IsAssessed plan exit_code completed
  unfolding verify_result
  verify_result-IsAssessed plan exit_code completed h =
      elim (Result-cases (collect sources true plan)) [
        | inr (e, p) ↦ absurd (ground arith)
        | inl ((inventory, arguments, retained), p) ↦
            elim (Option-cases (is_over (bytes_of inventory.entries) (get plan "maximumBytes"))) [
              | inl e ↦ absurd (ground arith)
              | inr (over, o) ↦ elim (Result-cases (binding sources harness plan "--result")) [
                | inr (e, q) ↦ absurd (ground arith)
                | inl ((domain, path), q) ↦
                    elim (Result-cases
                      (checked_result sources harness plan exit_code domain path)) [
                        | inr (e, r) ↦ absurd (ground arith)
                        | inl (result, r) ↦
                            elim (Result-cases (validated sources harness plan path arguments)) [
                              | inr (e, v) ↦ absurd (ground arith)
                              | inl (validation, v) ↦
                                  elim (Option-cases (harness.below_root path)) [
                                    | inl e ↦ absurd (ground arith)
                                    | inr (relative, b) ↦
                                        elim (Option-cases
                                          (path_of_source relative inventory.entries)) [
                                            | inl e ↦ absurd (ground arith)
                                            | inr (result_path, f) ↦
                                                let not_over : over ≡ false = ground arith in
                                                let (maximum, its_maximum, within) =
                                                  is_over-false _ _ (rw not_over at o) in
                                                let checked : check_payloads
                                                      (source_file sources harness validation)
                                                      inventory.entries
                                                    ≡ ok tt =
                                                  ground arith in
                                                let sealed : still_sealed sources harness validation
                                                      path result
                                                    ≡ ok tt =
                                                  ground arith in
                                                let (loaded, agrees) =
                                                  checked_result-Agrees plan exit_code domain path
                                                    r in
                                                let (after, again, digest, size) =
                                                  still_sealed-same validation path result sealed in
                                                let same : record {
                                                  run_id = get plan "runId";
                                                  domain_id = domain;
                                                  verdict = result.status;
                                                  observer_exit_code = exit_code;
                                                  result = record {
                                                    sha256 = result.sha256;
                                                    size_bytes = result.size;
                                                  };
                                                  result_path = result_path;
                                                  inventory = inventory;
                                                  arguments = retained;
                                                  source_arguments = arguments;
                                                }
                                                    ≡ completed =
                                                  ground arith in
                                                rw (← same) (record {
                                                  collected =
                                                      collect-IsCollected sources true plan
                                                        inventory arguments retained p;
                                                  agrees = agrees;
                                                  maximum = maximum;
                                                  its_maximum = its_maximum;
                                                  within = within;
                                                  all_same =
                                                      check_payloads-AllSame _ inventory.entries
                                                        checked;
                                                  path = path;
                                                  its_path = q;
                                                  validation = validation;
                                                  valid =
                                                      validated-IsValidated plan path arguments v;
                                                  before = result;
                                                  its_result = loaded;
                                                  its_verdict = refl;
                                                  after = after;
                                                  still_there = again;
                                                  same_result = (digest, size);
                                                  its_exit_code = refl;
                                                })
                                          ]
                                  ]
                            ]
                      ]
              ]
            ]
      ]
