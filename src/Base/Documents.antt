-- ===== src/Base/Documents.antt =====
-- What the tests on decoded values say when they succeed, and lists of texts.
use mathlib.Core.Path.{◌≡◌}
use mathlib.Core.Bool.{true}
use mathlib.Core.List.{List, [], ◌∷◌}
use mathlib.Core.Option.{Option, none, some}
use native.Mathlib.Omega.{arith}
use Prim.Native.String.{String}
use robotics_runtime_infra.Base.Tests.{str_eq_iff, str_eq_refl}
use robotics_runtime_infra.Base.Value.{
  ℤ, Value, obj, arr, str, int, Items, no_items, item, Fields, as_int, as_str, as_obj, as_arr,
  is_text,
}

pub is_text-str : (v : Value) (s : String) → is_text v s ≡ true → v ≡ str s
is_text-str (str t) s h = ground (arith, str_eq_iff t s)
is_text-str _ s h = cc

pub is_text_self : (s : String) → is_text (str s) s ≡ true
is_text_self s = str_eq_refl s

pub as_int-some : (v : Value) {n : ℤ} → as_int v ≡ some n → v ≡ int n
as_int-some (int n) h = cc
as_int-some _ h = cc

pub as_str-some : (v : Value) {s : String} → as_str v ≡ some s → v ≡ str s
as_str-some (str s) h = cc
as_str-some _ h = cc

pub as_obj-some : (v : Value) {fs : Fields} → as_obj v ≡ some fs → v ≡ obj fs
as_obj-some (obj fs) h = cc
as_obj-some _ h = cc

pub as_arr-some : (v : Value) {xs : Items} → as_arr v ≡ some xs → v ≡ arr xs
as_arr-some (arr xs) h = cc
as_arr-some _ h = cc

-- The texts of a list; `none` where an item is no text.
abbrev pub texts_of : Items → Option (List String)
texts_of no_items = some []
texts_of (item v vs) = elim (as_str v) [
  | none ↦ none
  | some s ↦ elim (texts_of vs) [ none ↦ none | some ss ↦ some (s ∷ ss) ]
]
