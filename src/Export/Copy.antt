-- ===== src/Export/Copy.antt =====
-- `export` of export_retained.py, from its checks of the plan to the manifest.
-- What the file system answers while an entry is copied is an `Attempt`; a read, write or link that
-- raises OSError is `none` at the next reading. Attempts are an argument, so that a source may change at any time.
pub mod Whole
use robotics_runtime_infra.Base.{
  ℕ, ◌+◌, ◌*◌, ◌^◌, ◌++◌, String, Bool, true, false, not, ◌&&◌, ◌||◌, Option, none, some, List, [],
  ◌∷◌, length, leb, ltb, ◌==◌, str_eq, if◌then◌else◌,
}
use robotics_runtime_infra.Base.Result.{Result, ok, err, raise_if, or_raise, ◌>>=◌, ◌>>◌}
use robotics_runtime_infra.Base.Value.{
  ℤ, pos, negsuc, Value, int, Items, no_items, item, Fields, get, has_key, as_int, as_arr, is_text,
}
use robotics_runtime_infra.Export.Admission.{
  Host, Error, unsupported_inventory, bad_roots, bad_entries, bad_bound, missing_key, unreadable,
  overlapping_roots, exists, changed, grew, other_bytes, other_retained, Stat, Identity, identity,
  identity_eq, Admitted, admit, is_number,
}

abbrev pub Bytes : Type 0
Bytes = List ℕ

pub record Attempt : Type 0 where
  pub opened : Option Stat
  -- The blocks that `reader.read` returns before the empty one.
  pub blocks : List Bytes
  pub after : Option Stat
  pub current : Option Stat
  -- The bytes of the target, and its size, once it is written.
  pub retained : Option Bytes
  pub retained_size : ℕ

pub record Completed : Type 0 where
  pub name : String
  pub relative_path : String
  pub sha256 : String
  pub size_bytes : ℕ

-- `identity(…) != before`, of a file that is there.
abbrev pub is_same : Option Stat → Identity → Bool
is_same none before = false
is_same (some s) before = identity_eq (identity s) before

-- `before[2]`
abbrev pub admitted_size : Identity → ℕ
admitted_size (dev, ino, size, mtime, ctime) = size

-- The read loop: what is written, and its count.
unfoldable pub copy_blocks : ℕ → Bytes → List Bytes → Result Error Bytes
copy_blocks size written [] = ok written
copy_blocks size written (block ∷ blocks) =
    let rest = copy_blocks size (written ++ block) blocks in
    if ltb size (length (written ++ block)) then err grew else rest

-- The destination: its roots are absolute directories, its parent is there, neither directory is
-- within the other, and it is new.
pub record Roots : Type 0 where
  pub is_directory : Bool
  pub is_absolute : Bool
  pub parent_exists : Bool
  pub overlap : Bool
  pub made : Bool

-- `export-manifest.json`, or `export-incomplete.json` with the exception.
pub data Outcome : Type 0 where
  complete : List Completed → ℕ → Outcome
  incomplete : List Completed → Error → Outcome

module _ (host : Host) where
  -- The body of the copy loop.
  unfoldable pub copy_entry : Admitted → Attempt → Result Error Completed
  copy_entry admitted attempt = do
    raise_if (not (is_same attempt.opened admitted.before)) changed
    content ← copy_blocks (admitted_size admitted.before) [] attempt.blocks
    raise_if
        (not (is_same attempt.after admitted.before)
          || not (is_same attempt.current admitted.before))
        changed
    let sha = host.sha256 content
    raise_if
        (not (length content == admitted_size admitted.before)
          || (has_key admitted.entry "sha256" && not (is_text (get admitted.entry "sha256") sha)))
        other_bytes
    retained ← or_raise attempt.retained unreadable
    raise_if
        (not (str_eq (host.sha256 retained) sha) || not (attempt.retained_size == length content))
        other_retained
    ok (record {
      name = admitted.name;
      relative_path = admitted.output;
      sha256 = sha;
      size_bytes = length content;
    })

  -- The copy loop: what is completed, and the error that ended it.
  unfoldable pub copy_all : (Admitted → Attempt) → List Admitted → List Completed × Option Error
  copy_all attempts [] = ([], none)
  copy_all attempts (a ∷ rest_of) = elim (copy_entry a (attempts a)) [
    | err e ↦ ([], some e)
    | ok c ↦ let rest = copy_all attempts rest_of in (c ∷ rest.0, rest.1)
  ]

  abbrev pub entry_count : Items → ℕ
  entry_count no_items = 0
  entry_count (item v vs) = 1 + entry_count vs

  -- `not 0 < maximum <= 1024**4`, of an integer that is not a bool.
  abbrev bound_of : Value → Option ℕ
  bound_of v = elim (as_int v) [
    | none ↦ none
    | some n ↦ elim n [
      | pos m ↦ if ltb 0 m && leb m (1024 ^ 4) then some m else none
      | negsuc m ↦ none
    ]
  ]

  -- The entries of a plan, when there are from 1 to 4096 of them.
  unfoldable pub entries_of : Value → Option Items
  entries_of v = elim (as_arr v) [
    | none ↦ none
    | some items ↦
        if ltb 0 (entry_count items) && leb (entry_count items) 4096 then some items else none
  ]

  -- What is admitted, its total of bytes and the bound.
  unfoldable pub admitted_plan : Roots → Fields → Result Error (List Admitted × ℕ × ℕ)
  admitted_plan roots plan = do
    raise_if (not (is_number host (get plan "version") 1)) unsupported_inventory
    raise_if (not (has_key plan "entries") || not (has_key plan "maximumBytes")) missing_key
    raise_if (not roots.is_directory || not roots.is_absolute) bad_roots
    items ← or_raise (entries_of (get plan "entries")) bad_entries
    maximum ← or_raise (bound_of (get plan "maximumBytes")) bad_bound
    admitted ← admit host maximum [] [] 0 items
    raise_if (not roots.parent_exists) unreadable
    raise_if roots.overlap overlapping_roots
    raise_if (not roots.made) exists
    ok (admitted.0, admitted.1, maximum)

  abbrev outcome_of : List Completed × Option Error → ℕ → Bool → Outcome
  outcome_of (completed, none) total has_run =
      if has_run then complete completed total else incomplete completed missing_key
  outcome_of (completed, some e) total has_run = incomplete completed e

  -- `export`: an error before the destination is made, or what is in the destination. The manifest
  -- needs the plan's run.
  unfoldable pub export : Roots → (Admitted → Attempt) → Fields → Result Error Outcome
  export roots attempts plan = do
    admitted ← admitted_plan roots plan
    ok (outcome_of (copy_all attempts admitted.0) admitted.1 (has_key plan "runId"))
