-- ===== src/Recorder/Arguments.antt =====
-- The checks of `arguments`, after the command line is parsed.
pub mod Bounds
use Prim.Native.Char.{code}
use robotics_runtime_infra.Base.{
  ℕ, String, Bool, true, false, not, ◌&&◌, ◌||◌, List, [], ◌∷◌, leb, ltb, ◌==◌, str_eq,
  if◌then◌else◌,
}
use robotics_runtime_infra.Base.Result.{Result, ok, err, raise_if, ◌>>=◌, ◌>>◌}
use robotics_runtime_infra.Base.Text.{all_chars, char_count, is_digit}
use robotics_runtime_infra.Base.Value.{ℤ, pos, negsuc}

-- A float of seconds: a number of nanoseconds, or one that is not finite.
pub data Seconds : Type 0 where
  nanoseconds : ℤ → Seconds
  not_finite : Seconds

-- A resolved path, with what is there.
pub record Place : Type 0 where
  pub parts : List String
  pub exists : Bool
  pub is_symlink : Bool

pub record Arguments : Type 0 where
  pub output : Place
  pub facts_dir : Place
  pub run_id : String
  pub domain_id : String
  pub startup_timeout : Seconds
  pub max_lifetime : Seconds
  pub close_timeout : Seconds
  pub max_recording_bytes : ℤ

pub data Usage : Type 0 where
  bad_identifier bad_timeout over_budget bad_size not_fresh not_independent : Usage

-- What the recording goes by.
pub record Limits : Type 0 where
  pub startup_timeout : ℕ
  pub max_lifetime : ℕ
  pub close_timeout : ℕ
  pub max_recording_bytes : ℕ

-- `[A-Za-z0-9_.:-]`
abbrev is_identifier_char : ℕ → Bool
is_identifier_char c =
    (leb b'A' c && leb c b'Z')
    || (leb b'a' c && leb c b'z')
    || is_digit c
    || c == b'_'
    || c == b'.'
    || c == b':'
    || c == b'-'

-- `re.fullmatch(r"[A-Za-z0-9_.:-]{1,128}", …)`
unfoldable pub is_identifier : String → Bool
is_identifier s = all_chars is_identifier_char s && ltb 0 (char_count s) && leb (char_count s) 128

-- `math.isfinite(value) and value > 0`, with the number.
abbrev pub positive_seconds : Seconds → Result Usage ℕ
positive_seconds not_finite = err bad_timeout
positive_seconds (nanoseconds (negsuc m)) = err bad_timeout
positive_seconds (nanoseconds (pos n)) = if n == 0 then err bad_timeout else ok n

-- `0 < args.max_recording_bytes <= 256 * 1024 * 1024`, with the number.
abbrev pub checked_size : ℤ → Result Usage ℕ
checked_size (negsuc m) = err bad_size
checked_size (pos n) = if ltb 0 n && leb n 268_435_456 then ok n else err bad_size

-- Whether the first path is a parent of the second, or the same.
abbrev pub is_within : List String → List String → Bool
is_within [] qs = true
is_within (p ∷ ps) [] = false
is_within (p ∷ ps) (q ∷ qs) = str_eq p q && is_within ps qs

-- `arguments`, after the parser and `resolve`.
unfoldable pub checked_arguments : Arguments → Result Usage Limits
checked_arguments args = do
  raise_if (not (is_identifier args.run_id) || not (is_identifier args.domain_id)) bad_identifier
  startup ← positive_seconds args.startup_timeout
  lifetime ← positive_seconds args.max_lifetime
  close ← positive_seconds args.close_timeout
  raise_if (not (leb startup lifetime && leb lifetime 300_000_000_000) || ltb 30_000_000_000 close)
      over_budget
  size ← checked_size args.max_recording_bytes
  raise_if
      (args.output.exists || args.output.is_symlink || args.facts_dir.exists
        || args.facts_dir.is_symlink)
      not_fresh
  raise_if
      (is_within args.output.parts args.facts_dir.parts
        || is_within args.facts_dir.parts args.output.parts)
      not_independent
  ok (record {
    startup_timeout = startup;
    max_lifetime = lifetime;
    close_timeout = close;
    max_recording_bytes = size;
  })
