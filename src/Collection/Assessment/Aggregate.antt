-- ===== src/Collection/Assessment/Aggregate.antt =====
-- `verify_aggregate` against the assessment that `verify_result` has sealed.
use robotics_runtime_infra.Base.{
  ◌≡◌, String, true, some, List, refl, subst, ap, ◌∙◌, arith, ◌==◌, str_eq, str_eq_iff,
}
use robotics_runtime_infra.Base.Result.{
  ok, or_raise, >>=-eq-ok, >>-eq-ok, or_raise-eq-ok, ok-injective, raise_if-not, raise_if-neither,
}
use robotics_runtime_infra.Base.Value.{Value, Fields}
use robotics_runtime_infra.Collection.Add.{Sources, no_result, not_valid, changed_assessment}
use robotics_runtime_infra.Collection.Assessment.{
  Loaded, After, Harness, Completed, Report, same_texts, verify_result, argument_texts,
  checked_completed, retained_root, verify_aggregate,
}
use robotics_runtime_infra.Collection.Assessment.Sealed.{
  Agrees, exit_verdict-Agrees, AllSame, check_payloads-AllSame, same_texts-eq, IsAssessed,
  verify_result-IsAssessed,
}

module _ (sources : Sources) (harness : Harness) where
  -- The result that a retained path still holds.
  abbrev pub IsRetained : String → Completed → Loaded → Type 0
  IsRetained path completed result =
      (harness.load_result path ≡ some result)
      × (result.sha256 ≡ completed.result.sha256)
      × (result.size ≡ completed.result.size_bytes)
      × Agrees completed.observer_exit_code result.status

  checked_completed-IsRetained :
      (path : String) (completed : Completed) {result : Loaded}
      → checked_completed sources harness path completed ≡ ok result
      → IsRetained path completed result
  unfolding checked_completed
  checked_completed-IsRetained path completed {result = result} h =
      let (loaded, e, tested) = >>=-eq-ok _ _ h in
      let (others, judged) = >>-eq-ok _ _ tested in
      let (agrees, returned) = >>-eq-ok _ _ judged in
      let digest : str_eq loaded.sha256 completed.result.sha256 ≡ true = ground arith in
      let size : (loaded.size == completed.result.size_bytes) ≡ true = ground arith in
      let same : loaded ≡ result = ground arith in
      subst (IsRetained path completed) same (
        or_raise-eq-ok _ _ e,
        (str_eq_iff loaded.sha256 completed.result.sha256).0 digest,
        ground arith,
        exit_verdict-Agrees completed.observer_exit_code loaded.status agrees,
      )

  -- A report on the retained files of a completed assessment.
  pub record IsReported (arguments : Value) (aggregate result_path : String)
      (result_parts : List String) (completed : Completed) (exit_code : Value) (report : Report)
      : Type 0 where
    pub its_arguments : argument_texts sources harness arguments ≡ ok completed.arguments
    pub result : Loaded
    pub its_result : IsRetained result_path completed result
    pub root : List String
    pub its_root : retained_root sources harness result_parts completed.result_path ≡ ok root
    pub all_before :
        AllSame (λ e. harness.retained root e.relative_path) completed.inventory.entries
    pub document : Loaded
    pub its_document : harness.load_aggregate aggregate ≡ some document
    pub agrees : Agrees exit_code report.verdict
    pub its_verdict : report.verdict ≡ document.status
    pub validation : After
    pub validated : harness.full_validation completed.arguments aggregate ≡ some validation
    pub unchanged : validation.is_unchanged aggregate ≡ true
    pub all_after :
        AllSame (λ e. validation.retained root e.relative_path) completed.inventory.entries
    pub same_result : report.result ≡ completed.result
    pub same_run : report.run_id ≡ completed.run_id

  report-IsReported :
      (arguments : Value) (aggregate result_path : String) (result_parts : List String)
      (completed : Completed) (exit_code : Value) (report : Report)
      → verify_aggregate sources harness arguments aggregate result_path result_parts completed
          exit_code
        ≡ ok report
      → IsReported arguments aggregate result_path result_parts completed exit_code report
  unfolding verify_aggregate
  report-IsReported arguments aggregate result_path result_parts completed exit_code report h =
      let (texts, t, h) = >>=-eq-ok _ _ h in
      let (compared, h) = >>-eq-ok _ _ h in
      let (result, r, h) = >>=-eq-ok _ _ h in
      let (root, o, h) = >>=-eq-ok _ _ h in
      let (before, h) = >>-eq-ok _ _ h in
      let (document, d, h) = >>=-eq-ok _ _ h in
      let (judged, h) = >>-eq-ok _ _ h in
      let (validation, valid, h) =
        >>=-eq-ok (or_raise (harness.full_validation texts aggregate) not_valid) _ h in
      let (again, a, h) = >>=-eq-ok (or_raise (validation.load_result result_path) no_result) _ h in
      let (kept, h) = >>-eq-ok _ _ h in
      let (after, h) = >>-eq-ok _ _ h in
      let alike : same_texts texts completed.arguments ≡ true = raise_if-not _ _ compared in
      let same = same_texts-eq texts completed.arguments alike in
      let same_report : record {
        run_id = completed.run_id;
        verdict = document.status;
        aggregate_exit_code = exit_code;
        aggregate = record { sha256 = document.sha256; size_bytes = document.size };
        result = completed.result;
      }
          ≡ report =
        ok-injective h in
      rw (← same_report) (record {
        its_arguments = t ∙ ap ok same;
        result = result;
        its_result = checked_completed-IsRetained result_path completed r;
        root = root;
        its_root = o;
        all_before = check_payloads-AllSame _ completed.inventory.entries before;
        document = document;
        its_document = or_raise-eq-ok _ _ d;
        agrees = exit_verdict-Agrees exit_code document.status judged;
        its_verdict = refl;
        validation = validation;
        validated =
            subst (λ ts. harness.full_validation ts aggregate ≡ some validation) same
              (or_raise-eq-ok _ _ valid);
        unchanged =
            (raise_if-neither (validation.is_unchanged aggregate)
              (str_eq again.sha256 result.sha256) changed_assessment kept).0;
        all_after = check_payloads-AllSame _ completed.inventory.entries after;
        same_result = refl;
        same_run = refl;
      })

  -- An aggregate that is accepted for an assessment that was completed for a plan: its arguments are
  -- those of the assessment, so a flag and a retained target for each collected row; the retained
  -- result is the sealed one; every entry's retained file had its digest and its size before the
  -- aggregate was validated and after it; the aggregate was not changed, and its verdict is "passed"
  -- exactly if the given exit code is zero.
  pub verify_aggregate-IsReported :
      (plan : Fields) (observer_exit_code : Value) (completed : Completed)
      → verify_result sources harness plan observer_exit_code ≡ ok completed
      → (arguments : Value) (aggregate result_path : String) (result_parts : List String)
        (exit_code : Value) (report : Report)
      → verify_aggregate sources harness arguments aggregate result_path result_parts completed
          exit_code
        ≡ ok report
      → IsAssessed sources harness plan observer_exit_code completed
        × IsReported arguments aggregate result_path result_parts completed exit_code report
  verify_aggregate-IsReported plan observer_exit_code completed h arguments aggregate result_path
        result_parts exit_code report g =
      (
        verify_result-IsAssessed sources harness plan observer_exit_code completed h,
        report-IsReported arguments aggregate result_path result_parts completed exit_code report g,
      )
