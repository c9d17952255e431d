-- ===== src/Export/Admission.antt =====
-- The admission of `export`, with `relative`, `identity` and `inside`: the whole inventory is checked
-- before a destination is made.
-- A file below the source directory is the text of its path. `pathlib`, the file system and Python's
-- `str` and `==` on values that are not texts or integers are outside: `Host`.
pub mod Bounded
use robotics_runtime_infra.Base.{
  ℕ, suc, ◌+◌, String, Bool, true, false, not, ◌&&◌, ◌||◌, Option, none, some, List, [], ◌∷◌, leb,
  ltb, ◌==◌, str_eq, if◌then◌else◌,
}
use robotics_runtime_infra.Base.Result.{Result, ok, err, raise_if, or_raise, ◌>>=◌, ◌>>◌}
use robotics_runtime_infra.Base.Text.{member, all_chars}
use robotics_runtime_infra.Base.Value.{
  ℤ, pos, negsuc, Value, str, int, Items, no_items, item, Fields, get, has_key, as_int, as_str,
  as_obj, as_arr,
}

pub record PurePath : Type 0 where
  pub text : String
  pub parts : List String
  pub is_absolute : Bool

pub record Stat : Type 0 where
  pub is_regular : Bool
  pub st_dev : ℕ
  pub st_ino : ℕ
  pub st_size : ℕ
  pub st_mtime_ns : ℕ
  pub st_ctime_ns : ℕ

pub record Host : Type 0 where
  pub pure_path : String → PurePath
  -- `is_symlink` of the path of these parts, the last one first, below the source.
  pub is_symlink : List String → Bool
  -- `resolve(strict=True)`, and whether a path is the source or below it.
  pub resolve : List String → Option String
  pub is_relative_to_source : String → Bool
  pub stat : String → Option Stat
  pub to_text : Value → String
  pub equals_number : Value → ℕ → Bool
  pub sha256 : List ℕ → String

pub data Error : Type 0 where
  unsupported_inventory bad_roots bad_entries bad_bound not_an_object missing_key bad_name : Error
  unsafe_path control_character repeated_path symbolic_link escapes unreadable : Error
  not_regular other_size over_bound overlapping_roots : Error
  exists changed grew other_bytes other_retained : Error

-- `identity`
abbrev pub Identity : Type 0
Identity = ℕ × ℕ × ℕ × ℕ × ℕ

abbrev pub identity : Stat → Identity
identity value = (value.st_dev, value.st_ino, value.st_size, value.st_mtime_ns, value.st_ctime_ns)

abbrev pub identity_eq : Identity → Identity → Bool
identity_eq (a, b, c, d, e) (a', b', c', d', e') =
    a == a' && b == b' && c == c' && d == d' && e == e'

pub record Admitted : Type 0 where
  pub name : String
  pub entry : Fields
  pub actual : String
  pub output : String
  pub before : Identity

abbrev is_dots : String → Bool
is_dots part = str_eq part "" || str_eq part "." || str_eq part ".."

abbrev any_dots : List String → Bool
any_dots [] = false
any_dots (p ∷ ps) = is_dots p || any_dots ps

module _ (host : Host) where
  -- `str(value)`
  abbrev pub text_of : Value → String
  text_of (str s) = s
  text_of v = host.to_text v

  -- `value == size`, where a value that is neither an integer nor a text is the host's.
  abbrev pub is_number : Value → ℕ → Bool
  is_number (int (pos n)) size = n == size
  is_number (int (negsuc n)) size = false
  is_number (str s) size = false
  is_number v size = host.equals_number v size

  -- `relative`
  unfoldable pub relative : String → Result Error PurePath
  relative value = do
    let path = host.pure_path value
    raise_if (is_dots value || path.is_absolute || any_dots path.parts) unsafe_path
    raise_if (not (all_chars (λ c. leb 32 c && not (c == 127)) value)) control_character
    ok path

  -- The walk of the cursor from the declared path up to the source.
  abbrev has_symlink : List String → Bool
  has_symlink [] = false
  has_symlink (p ∷ ps) = host.is_symlink (p ∷ ps) || has_symlink ps

  abbrev reverse_onto : List String → List String → List String
  reverse_onto [] ys = ys
  reverse_onto (x ∷ xs) ys = reverse_onto xs (x ∷ ys)

  -- `inside`
  unfoldable pub inside : List String → Result Error String
  inside parts = do
    resolved ← or_raise (host.resolve parts) unreadable
    raise_if (not (host.is_relative_to_source resolved)) escapes
    ok resolved

  -- `item[key]`
  abbrev required : Fields → String → Result Error Value
  required entry key = if has_key entry key then ok (get entry key) else err missing_key

  -- The checks of a name and of an output path against those that are taken.
  unfoldable pub admit_names : List String → List String → Fields → Result Error (String × String)
  admit_names names paths entry = do
    value ← required entry "name"
    name ← or_raise (as_str value) bad_name
    raise_if (str_eq name "" || member name names) bad_name
    target ← required entry "relativePath"
    output ← relative (text_of target)
    raise_if
        (member output.text paths
          || member output.text ("export-manifest.json" ∷ "export-incomplete.json" ∷ []))
        repeated_path
    ok (name, output.text)

  -- The checks of the source file of an entry.
  unfoldable pub admit_source : Fields → Result Error (String × Stat)
  admit_source entry = do
    value ← required entry "source"
    declared ← relative (text_of value)
    raise_if (has_symlink (reverse_onto declared.parts [])) symbolic_link
    actual ← inside declared.parts
    facts ← or_raise (host.stat actual) unreadable
    raise_if (not facts.is_regular) not_regular
    raise_if (has_key entry "size_bytes" && not (is_number (get entry "size_bytes") facts.st_size))
        other_size
    ok (actual, facts)

  -- The body of the admission loop: the admitted entry and the total of bytes after it.
  unfoldable pub admit_one : ℕ → List String → List String → ℕ → Value → Result Error (Admitted × ℕ)
  admit_one maximum names paths total value = do
    entry ← or_raise (as_obj value) not_an_object
    named ← admit_names names paths entry
    source ← admit_source entry
    let sum = total + source.1.st_size
    raise_if (ltb maximum sum) over_bound
    ok (
      record {
        name = named.0;
        entry = entry;
        actual = source.0;
        output = named.1;
        before = identity source.1;
      },
      sum,
    )

  -- The admission loop.
  unfoldable pub admit :
      ℕ → List String → List String → ℕ → Items → Result Error (List Admitted × ℕ)
  admit maximum names paths total no_items = ok ([], total)
  admit maximum names paths total (item value items) = do
    one ← admit_one maximum names paths total value
    rest ← admit maximum (one.0.name ∷ names) (one.0.output ∷ paths) one.1 items
    ok (one.0 ∷ rest.0, rest.1)
