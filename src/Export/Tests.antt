-- ===== src/Export/Tests.antt =====
-- Two entries that are exported, and a source that changes on the way.
use robotics_runtime_infra.Base.{
  ℕ, ◌≡◌, ◌≤◌, ◌==◌, String, true, false, Option, none, some, List, [], ◌∷◌, length, sum_of, refl,
  str_eq, if◌then◌else◌,
}
use robotics_runtime_infra.Base.Result.{ok}
use robotics_runtime_infra.Base.Value.{
  pos, int, str, obj, arr, no_items, item, Fields, no_fields, field,
}
use robotics_runtime_infra.Export.Admission.{
  Host, changed, Stat, Admitted, relative, inside, admit_names, admit_source, admit_one, admit,
}
use robotics_runtime_infra.Export.Copy.{
  Bytes, Attempt, Completed, copy_blocks, copy_entry, copy_all, Roots, entries_of, admitted_plan,
  complete, incomplete, export,
}
use robotics_runtime_infra.Export.Copy.Whole.{
  CopiedFirst, IsPlanned, export_complete, export_incomplete,
}

abbrev facts_of : String → Stat
facts_of s = record {
  is_regular = true;
  st_dev = 1;
  st_ino = if str_eq s "a" then 1 else 2;
  st_size = if str_eq s "a" then 3 else 2;
  st_mtime_ns = 10;
  st_ctime_ns = 10;
}

abbrev first_part : List String → Option String
first_part [] = none
first_part (p ∷ ps) = some p

abbrev host : Host
host = record {
  pure_path = λ s. record { text = s; parts = s ∷ []; is_absolute = false };
  is_symlink = λ parts. false;
  resolve = first_part;
  is_relative_to_source = λ s. true;
  stat = λ s. some (facts_of s);
  to_text = λ v. "";
  equals_number = λ v n. false;
  sha256 = λ b. if length b == 3 then "three" else "other";
}

abbrev entry : String → String → Fields
entry name source =
    field "name" (str name)
      (field "relativePath" (str name) (field "source" (str source) no_fields))

abbrev plan : Fields
plan = field "version" (int (pos 1)) (
    field "runId" (str "run-1") (
      field "entries" (arr (item (obj (entry "one" "a")) (item (obj (entry "two" "b")) no_items)))
        (field "maximumBytes" (int (pos 5)) no_fields)))

abbrev roots : Roots
roots = record {
  is_directory = true;
  is_absolute = true;
  parent_exists = true;
  overlap = false;
  made = true;
}

abbrev attempt : Stat → List Bytes → Bytes → Attempt
attempt facts blocks content = record {
  opened = some facts;
  blocks = blocks;
  after = some facts;
  current = some facts;
  retained = some content;
  retained_size = length content;
}

abbrev attempts : Admitted → Attempt
attempts a =
    if str_eq a.actual "a"
    then attempt (facts_of "a") ((7 ∷ 8 ∷ []) ∷ (9 ∷ []) ∷ []) (7 ∷ 8 ∷ 9 ∷ [])
    else attempt (facts_of "b") ((4 ∷ 5 ∷ []) ∷ []) (4 ∷ 5 ∷ [])

-- The second source is another file when it is opened.
abbrev late_attempts : Admitted → Attempt
late_attempts a = attempt (facts_of "a") ((7 ∷ 8 ∷ []) ∷ (9 ∷ []) ∷ []) (7 ∷ 8 ∷ 9 ∷ [])

abbrev one : Completed
one = record { name = "one"; relative_path = "one"; sha256 = "three"; size_bytes = 3 }

abbrev two : Completed
two = record { name = "two"; relative_path = "two"; sha256 = "other"; size_bytes = 2 }

exported : export host roots attempts plan ≡ ok (complete (one ∷ two ∷ []) 5)
unfolding export admitted_plan entries_of copy_all copy_entry copy_blocks admit admit_one
    admit_names admit_source relative inside
exported = refl

stopped : export host roots late_attempts plan ≡ ok (incomplete (one ∷ []) changed)
unfolding export admitted_plan entries_of copy_all copy_entry copy_blocks admit admit_one
    admit_names admit_source relative inside
stopped = refl

export_complete_example :
    (admitted : List Admitted) × (maximum : ℕ) × IsPlanned host attempts roots plan admitted 5
      maximum
    × CopiedFirst host attempts admitted (one ∷ two ∷ [])
    × (2 ≡ length admitted)
    × (sum_of (λ (c : Completed). c.size_bytes) (one ∷ two ∷ []) ≡ 5)
export_complete_example = export_complete host attempts roots plan (one ∷ two ∷ []) 5 exported

export_incomplete_example :
    (admitted : List Admitted) × (total : ℕ) × (maximum : ℕ) × IsPlanned host late_attempts roots
      plan admitted total maximum
    × CopiedFirst host late_attempts admitted (one ∷ [])
    × (sum_of (λ (c : Completed). c.size_bytes) (one ∷ []) ≤ maximum)
export_incomplete_example =
    export_incomplete host late_attempts roots plan (one ∷ []) changed stopped
