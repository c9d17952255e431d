-- ===== src/Base/Text.antt =====
-- Texts as characters: classes of characters, and a prefix taken off.
use Prim.Native.Nat.{ℕ, suc}
use Prim.Native.Char.{code}
use text.Mathlib.TextEquality.{Char-path}
use Prim.Native.String.{String, ◌++◌ as append_text}
use Prim.Native.String.append
use mathlib.Core.Path.{◌≡◌, sym, ◌∙◌}
use mathlib.Core.Bool.{Bool, true, false, not, ◌&&◌, ◌||◌}
use mathlib.Core.Logic.{inl, inr}
use mathlib.Core.List.{List, [], ◌∷◌}
use mathlib.Core.Option.{Option, none, some}
use native.Mathlib.Omega.{arith}
use robotics_runtime_infra.Base.Tests.{str_eq, leb, Bool-cases, ◌==◌, if◌then◌else◌}

-- `text.removeprefix(prefix)` and `text.startswith(prefix)` in one.
unfoldable pub strip_prefix : String → String → Option String
strip_prefix String.[] s = some s
strip_prefix (String.◌∷◌ c p) String.[] = none
strip_prefix (String.◌∷◌ c p) (String.◌∷◌ d s) =
    let rest = strip_prefix p s in if code c == code d then rest else none

-- Every character is in a class.
abbrev pub all_chars : (ℕ → Bool) → String → Bool
all_chars p String.[] = true
all_chars p (String.◌∷◌ c s) = p (code c) && all_chars p s

-- The number of characters, `len(text)`.
abbrev pub char_count : String → ℕ
char_count String.[] = 0
char_count (String.◌∷◌ c s) = suc (char_count s)

-- `text in texts`
abbrev pub member : String → List String → Bool
member x [] = false
member x (y ∷ ys) = str_eq x y || member x ys

abbrev pub all_in : List String → List String → Bool
all_in [] ys = true
all_in (x ∷ xs) ys = member x ys && all_in xs ys

-- `set(xs) == set(ys)`
unfoldable pub same_set : List String → List String → Bool
same_set xs ys = all_in xs ys && all_in ys xs

-- `len(set(xs)) == len(xs)`
abbrev pub distinct : List String → Bool
distinct [] = true
distinct (x ∷ xs) = not (member x xs) && distinct xs

-- `text.endswith(suffix)`
abbrev pub ends_with : String → String → Bool
ends_with suffix String.[] = str_eq suffix String.[]
ends_with suffix (String.◌∷◌ c s) = str_eq suffix (String.◌∷◌ c s) || ends_with suffix s

abbrev pub is_digit : ℕ → Bool
is_digit c = leb b'0' c && leb c b'9'

abbrev pub is_lower : ℕ → Bool
is_lower c = leb b'a' c && leb c b'z'

-- The class `[0-9a-f]`.
abbrev pub is_hex : ℕ → Bool
is_hex c = is_digit c || (leb b'a' c && leb c b'f')

-- `re.fullmatch("[0-9a-f]{64}", text)`
unfoldable pub is_sha256 : String → Bool
is_sha256 s = char_count s == 64 && all_chars is_hex s

-- What is left after a prefix is what followed it.
pub strip_prefix-eq-some :
    (p s : String) {t : String} → strip_prefix p s ≡ some t → s ≡ append_text p t
unfolding strip_prefix
strip_prefix-eq-some String.[] s {t} h = cc (append.nil t)
strip_prefix-eq-some (String.◌∷◌ c p) String.[] h = cc
strip_prefix-eq-some (String.◌∷◌ c p) (String.◌∷◌ d s) {t} h =
    elim (Bool-cases (code c == code d)) [
      | inl e ↦
          let same : code c ≡ code d = ground arith in
          let rest = strip_prefix-eq-some p s (rw e at h) in
          (λ i. String.◌∷◌ (Char-path d c (sym same) i) (rest i)) ∙ sym (append.cons c p t)
      | inr e ↦ absurd (ground arith)
    ]
