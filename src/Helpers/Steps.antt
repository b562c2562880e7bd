-- ===== src/Helpers/Steps.antt =====
-- ise_exporter/util.py: parse_step_latencies. `int_of` and `float_of` are int() and float(), with `none`
-- where they raise ValueError, and `is_digits` is str.isdigit(). A latency stays in milliseconds.
use ise_exporter_v.Base.{
  ℕ, zero, suc, List, [], ◌∷◌, map, Bool, true, ◌&&◌, Option, none, some, String, str_eq, leb, ◌==◌,
  if◌then◌else◌, ◌≡◌, refl, inl, inr, In, Bool-cases, Option-cases, arith,
}
use ise_exporter_v.Base.Int.{ℤ, pos, negsuc}
use ise_exporter_v.Base.Float.{PyFloat, finite, not_finite}
use Prim.Native.Char.{code}
use ise_exporter_v.Helpers.Text.{strip}
use ise_exporter_v.Helpers.Attrs.{cons_head, partition}

abbrev max_ise_step_code : ℕ
max_ise_step_code = 99999

-- s.split(separator), of one character
unfoldable pub split_char : ℕ → String → List String
split_char separator String.[] = "" ∷ []
split_char separator (String.◌∷◌ c s) =
    let r = split_char separator s in if code c == separator then "" ∷ r else cons_head c r

-- codes[position - 1], where that is in range and not negative
abbrev code_at : List String → ℤ → Option String
code_at (c ∷ codes) (pos (suc zero)) = some c
code_at (c ∷ codes) (pos (suc (suc n))) = code_at codes (pos (suc n))
code_at _ _ = none

-- The test on int(codes[index]) and the latency; `none` where int() raises.
unfoldable pub accept_code : Option ℤ → PyFloat → Option (Option (ℕ × ℕ))
accept_code none milliseconds = none
accept_code (some (pos n)) (finite (pos milliseconds)) =
    some (if leb 1 n && leb n max_ise_step_code then some (n, milliseconds) else none)
accept_code (some n) milliseconds = some none

module _ (int_of : String → Option ℤ) (float_of : String → Option PyFloat)
    (is_digits : String → Bool) where
  -- One item, from its position and its latency.
  unfoldable pub sample_at : List String → Option ℤ → Option PyFloat → Option (Option (ℕ × ℕ))
  unfolding accept_code
  sample_at codes (some position) (some milliseconds) = elim (code_at codes position) [
    | none ↦ some none
    | some c ↦ if is_digits c then accept_code (int_of c) milliseconds else some none
  ]
  sample_at codes position milliseconds = some none

  -- One turn of the loop: `none` where it raises, `some none` where the item is passed over.
  unfoldable pub sample_of : List String → String → Option (Option (ℕ × ℕ))
  unfolding partition strip sample_at
  sample_of codes item = elim (partition item) [
    | none ↦ some none
    | some (position, raw_ms) ↦ sample_at codes (int_of (strip position)) (float_of (strip raw_ms))
  ]

  unfoldable pub samples_of : List String → List String → Option (List (ℕ × ℕ))
  unfolding sample_of
  samples_of codes [] = some []
  samples_of codes (item ∷ items) =
      let rest = samples_of codes items in
      elim (sample_of codes item) [
        | none ↦ none
        | some none ↦ rest
        | some (some x) ↦ elim rest [ none ↦ none | some xs ↦ some (x ∷ xs) ]
      ]

  -- parse_step_latencies(execution_steps, step_latency), of two texts; `none` where it raises
  unfoldable pub parse_step_latencies : String → String → Option (List (ℕ × ℕ))
  unfolding split_char strip samples_of
  parse_step_latencies execution_steps step_latency =
      if str_eq step_latency ""
      then some []
      else samples_of (map strip (split_char 44 execution_steps)) (split_char 59 step_latency)

  -- A code that isdigit() accepts and int() refuses.
  abbrev pub BadCode : List String → Type 0
  BadCode codes = (c : String) × In c codes × (is_digits c ≡ true) × (int_of c ≡ none)

  code_at-In : (codes : List String) (i : ℤ) (c : String) → code_at codes i ≡ some c → In c codes
  code_at-In [] (pos zero) c h = cc
  code_at-In [] (pos (suc n)) c h = cc
  code_at-In [] (negsuc n) c h = cc
  code_at-In (x ∷ codes) (pos zero) c h = cc
  code_at-In (x ∷ codes) (pos (suc zero)) c h = inl (ground (arith, h))
  code_at-In (x ∷ codes) (pos (suc (suc n))) c h = inr (code_at-In codes (pos (suc n)) c h)
  code_at-In (x ∷ codes) (negsuc n) c h = cc

  accept_code-raises :
      (n : Option ℤ) (milliseconds : PyFloat) → accept_code n milliseconds ≡ none → n ≡ none
  unfolding accept_code
  accept_code-raises none milliseconds h = refl
  accept_code-raises (some (pos n)) (finite (pos m)) h = cc
  accept_code-raises (some (pos n)) (finite (negsuc m)) h = cc
  accept_code-raises (some (pos n)) not_finite h = cc
  accept_code-raises (some (negsuc n)) f h = cc

  sample_at-raises :
      (codes : List String) (position : Option ℤ) (milliseconds : Option PyFloat)
      → sample_at codes position milliseconds ≡ none
      → BadCode codes
  unfolding sample_at
  sample_at-raises codes none f h = cc
  sample_at-raises codes (some i) none h = cc
  sample_at-raises codes (some i) (some f) h = elim (Option-cases (code_at codes i)) [
    | inl n ↦ absurd (ground (arith, n, h))
    | inr (c, n) ↦ elim (Bool-cases (is_digits c)) [
      | inr other ↦ absurd (ground (arith, n, other, h))
      | inl yes_ ↦ (
        c,
        code_at-In codes i c n,
        yes_,
        accept_code-raises (int_of c) f (ground (arith, n, yes_, h)),
      )
    ]
  ]

  sample_of-raises :
      (codes : List String) (item : String) → sample_of codes item ≡ none → BadCode codes
  unfolding sample_of
  sample_of-raises codes item h = elim (Option-cases (partition item)) [
    | inl n ↦ absurd (ground (arith, n, h))
    | inr ((position, raw_ms), n) ↦
        sample_at-raises codes (int_of (strip position)) (float_of (strip raw_ms))
          (ground (arith, n, h))
  ]

  samples_of-raises : (codes items : List String) → samples_of codes items ≡ none → BadCode codes
  unfolding samples_of
  samples_of-raises codes [] h = cc
  samples_of-raises codes (item ∷ items) h = elim (Option-cases (sample_of codes item)) [
    | inl n ↦ sample_of-raises codes item n
    | inr (none, n) ↦ samples_of-raises codes items (ground (arith, n, h))
    | inr (some x, n) ↦ samples_of-raises codes items (ground (arith, n, h))
  ]

  -- It raises only where a code is such that isdigit() accepts it and int() refuses it.
  pub parse_step_latencies-raises :
      (execution_steps step_latency : String)
      → parse_step_latencies execution_steps step_latency ≡ none
      → BadCode (map strip (split_char 44 execution_steps))
  unfolding parse_step_latencies
  parse_step_latencies-raises execution_steps step_latency h =
      elim (Bool-cases (str_eq step_latency "")) [
        | inl e ↦ absurd (ground (arith, e, h))
        | inr e ↦
            samples_of-raises (map strip (split_char 44 execution_steps))
              (split_char 59 step_latency) (ground (arith, e, h))
      ]
