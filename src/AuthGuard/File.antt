-- ===== src/AuthGuard/File.antt =====
-- ise_exporter/auth_guard.py: `_open`, `_read`, `_write` and `_update`. The file is its kind, its
-- size and the fields of its ASCII text; Python's reading and printing of numbers is a parameter.
-- Opening creates a missing file; ownership, permissions and the lock are left out.
use ise_exporter_v.Base.{
  ℕ, suc, ◌≤◌, ltb, ◌==◌, str_eq, if◌then◌else◌, Bool, true, not, ◌&&◌, ◌≡◌, Option, none, some,
  List, [], ◌∷◌, String,
}
use ise_exporter_v.Base.Int.{ℤ, pos}
use ise_exporter_v.Base.Float.{PyFloat, finite}
use ise_exporter_v.AuthGuard.State.{GuardState, clean}

pub data Fault : Type 0 where
  not_regular too_large not_ascii bad_number invalid_state : Fault

pub data Outcome {ℓ} (A : Type ℓ) : Type ℓ where
  ok : A → Outcome A
  raised : Fault → Outcome A

-- `fields` is raw.split(), or `none` where the bytes are no ASCII text.
pub record GuardFile : Type 0 where
  pub regular : Bool
  pub size : ℕ
  pub fields : Option (List String)

abbrev pub max_guard_bytes : ℕ
max_guard_bytes = 128

abbrev pub max_failures : ℕ
max_failures = 1000000

-- The latest time for which the written line is known to fit (some three thousand years).
abbrev pub max_time : ℕ
max_time = 100000000000000000

-- int(), float(), the formats `{failures}` and `{deadline:.6f}`, and the length of the line.
pub record Codec : Type 0 where
  pub int : String → Option ℤ
  pub float : String → Option PyFloat
  pub show_int : ℕ → String
  pub show_float : ℕ → String
  pub line_size : String → ℕ → ℕ → ℕ
  pub int-show_int : (n : ℕ) → int (show_int n) ≡ some (pos n)
  pub float-show_float : (t : ℕ) → float (show_float t) ≡ some (finite (pos t))
  pub line_size_fits :
      (identity : String) (f t : ℕ)
      → f ≤ suc max_failures
      → t ≤ max_time
      → line_size identity f t ≤ max_guard_bytes

-- The tests on the two numbers of `_read`.
unfoldable pub checked : Option ℤ → Option PyFloat → Outcome GuardState
checked none d = raised bad_number
checked (some n) none = raised bad_number
checked (some (pos n)) (some (finite (pos t))) =
    if ltb max_failures n then raised invalid_state else ok (record { failures = n; deadline = t })
checked (some n) (some d) = raised invalid_state

module _ (codec : Codec) (identity : String) where
  unfoldable pub read_fields : List String → Outcome GuardState
  unfolding checked
  read_fields (version ∷ owner ∷ count ∷ deadline ∷ []) =
      if str_eq version "v1" && str_eq owner identity
      then checked (codec.int count) (codec.float deadline)
      else ok clean
  read_fields _ = ok clean

  unfoldable pub read_text : Option (List String) → Outcome GuardState
  unfolding read_fields
  read_text none = raised not_ascii
  read_text (some fields) = read_fields fields

  unfoldable pub read : GuardFile → Outcome GuardState
  unfolding read_text
  read f = read_text f.fields

  -- `_open`: a missing file is created empty
  unfoldable pub open_guard : Option GuardFile → Outcome GuardFile
  open_guard none = ok (record { regular = true; size = 0; fields = some [] })
  open_guard (some f) =
      if not f.regular
      then raised not_regular
      else if ltb max_guard_bytes f.size
      then raised too_large
      else ok f

  unfoldable pub write : GuardState → GuardFile
  write s = record {
    regular = true;
    size = codec.line_size identity s.failures s.deadline;
    fields = some ("v1" ∷ identity ∷ codec.show_int s.failures ∷ codec.show_float s.deadline ∷ []);
  }

  abbrev same_state : GuardState → GuardState → Bool
  same_state s t = s.failures == t.failures && s.deadline == t.deadline

  -- `state != current` decides whether the file is written
  unfoldable pub store {ℓ} :
      {R : Type ℓ} → GuardFile → GuardState → GuardState × R → Outcome R × GuardFile
  unfolding write
  store f current (state, result) = (ok result, if same_state state current then f else write state)

  unfoldable pub apply_to {ℓ} :
      {R : Type ℓ}
      → (GuardState → GuardState × R)
      → GuardFile
      → Outcome GuardState
      → Outcome R × GuardFile
  unfolding store
  apply_to callback f (ok current) = store f current (callback current)
  apply_to callback f (raised e) = (raised e, f)

  unfoldable pub with_file {ℓ} :
      {R : Type ℓ}
      → (GuardState → GuardState × R)
      → Option GuardFile
      → Outcome GuardFile
      → Outcome R × Option GuardFile
  unfolding apply_to read
  with_file callback old (ok f) = let (r, f') = apply_to callback f (read f) in (r, some f')
  with_file callback old (raised e) = (raised e, old)

  -- `_update` of a guard that has a path
  unfoldable pub update {ℓ} :
      {R : Type ℓ} → (GuardState → GuardState × R) → Option GuardFile → Outcome R × Option GuardFile
  unfolding with_file open_guard
  update callback file = with_file callback file (open_guard file)
