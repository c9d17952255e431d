-- ===== src/Recorder/Artifact.antt =====
-- `stop_request`, `before_deadline` and `artifact_file` of record-topics.py.
use robotics_runtime_infra.Base.{
  ℕ, suc, String, Bool, true, false, not, ◌&&◌, ◌||◌, Option, none, some, List, [], ◌∷◌, ◌++◌, leb,
  ltb, ◌==◌, if◌then◌else◌,
}
use robotics_runtime_infra.Base.Result.{Result, ok, raise_if, or_raise, ◌>>=◌, ◌>>◌}
use robotics_runtime_infra.Base.Value.{Value, Fields, no_fields, field, get, as_obj, is_text}
use robotics_runtime_infra.Export.Admission.{Stat, identity, identity_eq}

abbrev pub Bytes : Type 0
Bytes = List ℕ

pub data Error : Type 0 where
  unbounded_request no_document other_request timed_out not_confined unreadable changed : Error
  sdk cancelled not_ready not_written out_of_fuel : Error
  unsafe_member no_messages over_size over_duration : Error

-- The file `stop.json`, as it is at one time.
pub record StopFile : Type 0 where
  pub exists : Bool
  pub is_symlink : Bool
  pub is_file : Bool
  pub size : ℕ
  pub document : Option Value

abbrev field_count : Fields → ℕ
field_count no_fields = 0
field_count (field k v fs) = suc (field_count fs)

-- `document == {"run_id": run_id, "domain_id": domain_id}`
unfoldable pub is_request : String → String → Value → Bool
is_request run_id domain_id document = elim (as_obj document) [
  | none ↦ false
  | some fs ↦
      field_count fs == 2
      && is_text (get fs "run_id") run_id
      && is_text (get fs "domain_id") domain_id
]

-- `stop_request`
unfoldable pub stop_request : StopFile → String → String → Result Error Bool
stop_request file run_id domain_id = if not file.exists then ok false else (do
  raise_if (file.is_symlink || not file.is_file || ltb 4096 file.size) unbounded_request
  document ← or_raise file.document no_document
  raise_if (not (is_request run_id domain_id document)) other_request
  ok true)

-- `before_deadline`, where the time is `now`.
abbrev pub before_deadline : (deadline now : ℕ) → Result Error (Unit {0})
before_deadline deadline now = raise_if (leb deadline now) timed_out

-- What `artifact_file` reads, with the times of its checks.
pub record FileReading : Type 0 where
  pub begun : ℕ
  pub is_symlink : Bool
  pub is_file : Bool
  pub is_confined : Bool
  pub original : Option Stat
  -- Each chunk with the time after it.
  pub chunks : List (Option Bytes × ℕ)
  pub after : Option Stat
  pub current : Option Stat
  pub ended : ℕ

pub record Artifact : Type 0 where
  pub path : String
  pub size_bytes : ℕ
  pub sha256 : String

-- The loop over the chunks, with the bytes that the digest has.
unfoldable pub read_chunks : (deadline : ℕ) → Bytes → List (Option Bytes × ℕ) → Result Error Bytes
read_chunks deadline content [] = ok content
read_chunks deadline content ((chunk, now) ∷ rest) = do
  bytes ← or_raise chunk unreadable
  before_deadline deadline now
  read_chunks deadline (content ++ bytes) rest

module _ (sha256 : Bytes → String) where
  -- `artifact_file`
  unfoldable pub artifact_file : String → FileReading → (deadline : ℕ) → Result Error Artifact
  artifact_file path file deadline = do
    before_deadline deadline file.begun
    raise_if (file.is_symlink || not file.is_file || not file.is_confined) not_confined
    original ← or_raise file.original unreadable
    content ← read_chunks deadline [] file.chunks
    after ← or_raise file.after unreadable
    current ← or_raise file.current unreadable
    raise_if
        (not (identity_eq (identity original) (identity after))
          || not (identity_eq (identity after) (identity current)))
        changed
    before_deadline deadline file.ended
    ok (record { path = path; size_bytes = after.st_size; sha256 = sha256 content })
