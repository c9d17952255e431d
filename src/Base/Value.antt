-- ===== src/Base/Value.antt =====
-- The values of decoded JSON and of message metadata, and Python's tests on them.
-- A float is kept as its text: the modelled code only tells it from an integer.
use Prim.Native.Nat.{ℕ}
use Prim.Native.String.{String}
use mathlib.Core.Bool.{Bool, true, false}
use mathlib.Core.Option.{Option, none, some}
use robotics_runtime_infra.Base.Tests.{str_eq, if◌then◌else◌}

-- `negsuc n` is -(n + 1).
pub data ℤ : Type 0 where
  pos : ℕ → ℤ
  negsuc : ℕ → ℤ

mutual
  pub data Fields : Type 0 where
    no_fields : Fields
    field : String → Value → Fields → Fields

  pub data Items : Type 0 where
    no_items : Items
    item : Value → Items → Items

  pub data Value : Type 0 where
    obj : Fields → Value
    arr : Items → Value
    str : String → Value
    int : ℤ → Value
    float : String → Value
    bool : Bool → Value
    null : Value

-- `mapping.get(key)`, where a missing key is `None`.
abbrev pub get : Fields → String → Value
get no_fields k = null
get (field j v fs) k = if str_eq j k then v else get fs k

-- `key in mapping`
abbrev pub has_key : Fields → String → Bool
has_key no_fields k = false
has_key (field j v fs) k = if str_eq j k then true else has_key fs k

-- `type(value) is int`, with the value: a bool is not one.
abbrev pub as_int : Value → Option ℤ
as_int (int n) = some n
as_int _ = none

-- `isinstance(value, str)`, with the value.
abbrev pub as_str : Value → Option String
as_str (str s) = some s
as_str _ = none

-- `isinstance(value, dict)`, with the value.
abbrev pub as_obj : Value → Option Fields
as_obj (obj fs) = some fs
as_obj _ = none

-- `isinstance(value, list)`, with the value.
abbrev pub as_arr : Value → Option Items
as_arr (arr xs) = some xs
as_arr _ = none

-- `value == "text"`
abbrev pub is_text : Value → String → Bool
is_text (str s) t = str_eq s t
is_text _ t = false

-- `value is True`
abbrev pub is_true : Value → Bool
is_true (bool b) = b
is_true _ = false
