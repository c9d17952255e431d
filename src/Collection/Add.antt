-- ===== src/Collection/Add.antt =====
-- The nested `add` of `collect`: one binding of a payload to a flag of the qualification tools.
-- `relative` and `inside` are those of Export.Admission, which the source imports too.
pub mod Rows
use Prim.Native.Char.{code}
use Prim.Native.String.{◌++◌ as append_text}
use robotics_runtime_infra.Base.{
  ℕ, suc, ◌+◌, String, Bool, true, false, not, ◌&&◌, ◌||◌, Option, none, some, List, [], ◌∷◌, ◌++◌,
  ◌==◌, str_eq, if◌then◌else◌,
}
use robotics_runtime_infra.Base.Result.{Result, ok, err, raise_if, or_raise, ◌>>=◌, ◌>>◌}
use robotics_runtime_infra.Base.Text.{member}
use robotics_runtime_infra.Export.Admission.{Host, PurePath}
use robotics_runtime_infra.Export.Admission as Admission

-- A file that a search has found, relative to the source root and to the searched directory.
pub record Found : Type 0 where
  pub path : String
  pub within : String
  pub is_recording : Bool

-- The source directory. `host` has `pathlib` and the file system of the admission.
pub record Sources : Type 0 where
  pub host : Host
  pub is_file : String → Bool
  pub is_symlink : String → Bool
  pub digest : String → Option String
  pub size : String → Option ℕ
  -- `str(destination / output)`
  pub at_destination : String → String
  pub decimal : ℕ → String
  -- The sorted searches: MCAP files, `metadata.yaml` and all files of a directory in the tree, and
  -- the summaries of a directory.
  pub recordings : String → List Found
  pub metadata : String → List Found
  pub payloads : String → List Found
  pub summaries : String → List Found

pub data Error : Type 0 where
  unsupported_flag unsafe_path escapes not_regular unreadable : Error
  no_bindings not_an_object missing_key incomplete_inventory no_world no_dataset incomplete_core :
      Error
  other_recordings reused_recording unknown_source : Error
  over_bound not_one_binding no_result other_run bad_exit_code other_verdict not_valid : Error
  other_payload changed_result no_entry bad_arguments other_arguments other_result other_path
        changed_assessment :
      Error

pub record Entry : Type 0 where
  pub name : String
  pub source : String
  pub relative_path : String
  pub sha256 : String
  pub size_bytes : ℕ

-- The variables that `add` writes. Both lists of arguments are kept; the source keeps the second one
-- only when it is asked for.
pub record State : Type 0 where
  pub entries : List Entry
  pub arguments : List String
  pub retained_arguments : List String
  pub identities : List (String × String × ℕ)
  pub counter : ℕ

abbrev pub start : State
start = record {
  entries = [];
  arguments = [];
  retained_arguments = [];
  identities = [];
  counter = 0;
}

abbrev pub flags : List String
flags =
    "--scenario" ∷ "--runtime-manifest" ∷ "--acceptance-run" ∷ "--result" ∷ "--evidence-index"
    ∷ "--recording-summary" ∷ "--artifact" ∷ "--evidence" ∷ []

-- The part of a text before its first colon; `none` where it has none.
abbrev pub before_colon : String → Option String
before_colon String.[] = none
before_colon (String.◌∷◌ c s) =
    let rest = before_colon s in
    if code c == b':'
    then some String.[]
    else elim rest [ none ↦ none | some t ↦ some (String.◌∷◌ c t) ]

-- `subject.split(":", 1)[0] if ":" in subject else ""`
abbrev pub kind_of : String → String
kind_of subject = elim (before_colon subject) [ none ↦ "" | some t ↦ t ]

-- The test of the loop over `identities`.
unfoldable pub is_duplicate : String → String → ℕ → List (String × String × ℕ) → Bool
is_duplicate kind digest size [] = false
is_duplicate kind digest size ((previous_kind, previous_digest, previous_size) ∷ previous) =
    (str_eq previous_digest digest
      && previous_size == size
      && member previous_kind ("recording" ∷ "metrics" ∷ "junit" ∷ "other_evidence" ∷ [])
      && (not (str_eq kind "recording") || str_eq previous_kind "recording"))
    || is_duplicate kind digest size previous

-- `(subject + "=" + target) if subject else target`
abbrev pub argument_of : String → String → String
argument_of subject target =
    if str_eq subject "" then target else append_text subject (append_text "=" target)

module _ (sources : Sources) where
  -- `relative` and `inside` with the errors of this module.
  unfoldable pub locate : String → Result Error (String × String)
  locate source = elim (Admission.relative sources.host source) [
    | err e ↦ err unsafe_path
    | ok rel ↦ elim (Admission.inside sources.host rel.parts) [
      | err e ↦ err escapes
      | ok actual ↦ ok (rel.text, actual)
    ]
  ]

  unfoldable pub relative_text : String → Result Error String
  relative_text value = elim (Admission.relative sources.host value) [
    | err e ↦ err unsafe_path
    | ok path ↦ ok path.text
  ]

  -- The entry of a payload with its number.
  abbrev pub entry_of : ℕ → String → String → ℕ → Entry
  entry_of counter rel digest size = record {
    name = append_text "payload-" (sources.decimal counter);
    source = rel;
    relative_path = append_text "payloads/" rel;
    sha256 = digest;
    size_bytes = size;
  }

  -- What `add` appends.
  unfoldable pub append_payload :
      Bool → String → String → String → String → String → ℕ → State → State
  append_payload source_arguments flag subject rel actual digest size state =
      let retained = sources.at_destination (append_text "payloads/" rel) in
      let target = if source_arguments then actual else retained in
      record {
        entries = state.entries ++ (entry_of (suc state.counter) rel digest size ∷ []);
        arguments = state.arguments ++ (flag ∷ argument_of subject target ∷ []);
        retained_arguments = state.retained_arguments ++ (flag ∷ argument_of subject retained ∷ []);
        identities = state.identities ++ ((kind_of subject, digest, size) ∷ []);
        counter = suc state.counter;
      }

  -- `add`
  unfoldable pub add : Bool → String → String → String → Bool → State → Result Error State
  add source_arguments flag subject source deduplicate state = do
    raise_if (not (member flag flags)) unsupported_flag
    located ← locate source
    raise_if (not (sources.is_file located.1) || sources.is_symlink located.1) not_regular
    digest ← or_raise (sources.digest located.1) unreadable
    size ← or_raise (sources.size located.1) unreadable
    if deduplicate && is_duplicate (kind_of subject) digest size state.identities
        then ok state
        else ok (append_payload source_arguments flag subject located.0 located.1 digest size state)
