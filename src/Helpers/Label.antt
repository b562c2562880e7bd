-- ===== src/Helpers/Label.antt =====
-- ise_exporter/util.py: metric_label. `sha` is the hexadecimal SHA-256 of a text.
use ise_exporter_v.Base.{
  ℕ, suc, zero, ◌-◌, ◌≤◌, String, str_eq, str_append, leb, leb→le, if◌then◌else◌, ◌≡◌, refl, arith,
  Bool-cases, inl, inr, min, max,
}
use Prim.Native.Char.{len_utf8}
use Prim.Native.String.{len}
use Prim.Native.String.len.{cons as len_cons, nil as len_nil}
use text.Mathlib.TextPositions.{len-append}
use ise_exporter_v.Helpers.Text.{strip, fit}

abbrev pub max_metric_label_bytes : ℕ
max_metric_label_bytes = 256

-- text[:n]
abbrev pub take_chars : ℕ → String → String
take_chars zero s = ""
take_chars (suc n) String.[] = ""
take_chars (suc n) (String.◌∷◌ c s) = String.◌∷◌ c (take_chars n s)

abbrev pub label_limit : ℕ → ℕ
label_limit max_bytes = max 32 (min max_metric_label_bytes max_bytes)

module _ (sha : String → String) where
  -- `digest` is the first sixteen digits; its length in the source is that of a text of digits.
  unfoldable pub shortened : ℕ → String → String
  unfolding fit
  shortened limit text =
      let digest = take_chars 16 (sha text) in
      str_append (fit (limit - len digest - 1) text) (str_append "~" digest)

  -- metric_label(value, default, max_bytes), of a text
  unfoldable pub metric_label : String → String → ℕ → String
  unfolding strip shortened
  metric_label value default max_bytes =
      let text = if str_eq (strip value) "" then default else strip value in
      if leb (len text) (label_limit max_bytes)
      then text
      else shortened (label_limit max_bytes) text

pub len-fit_le : (n : ℕ) (s : String) → len (fit n s) ≤ n
unfolding fit
len-fit_le n String.[] = omega (arith, len_nil)
len-fit_le n (String.◌∷◌ c s) =
    let ih = len-fit_le (n - len_utf8 c) s in
    elim (Bool-cases (leb (len_utf8 c) n)) [
      | inl e ↦ rw (e, fit) (ground (arith, ih, e, len_cons c (fit (n - len_utf8 c) s)))
      | inr e ↦ rw (e, fit) (omega (arith, len_nil))
    ]

len-shortened_le :
    (sha : String → String) (limit : ℕ) (text : String)
    → len (take_chars 16 (sha text)) ≡ 16
    → 17 ≤ limit
    → len (shortened sha limit text) ≤ limit
unfolding shortened
len-shortened_le sha limit text d h =
    let digest = take_chars 16 (sha text) in
    let prefix = fit (limit - len digest - 1) text in
    let f = len-fit_le (limit - len digest - 1) text in
    let l = len-append prefix (str_append "~" digest) in
    let m = len-append "~" digest in let t : len "~" ≡ 1 = refl in omega (arith, f, l, m, t, d, h)

-- A label never exceeds `max_bytes` in bytes, where that lies from 32 to 256, and otherwise the nearer
-- of these two, whatever the value and the default are. (The first sixteen digits of a SHA-256 are
-- taken to be sixteen bytes.)
pub metric_label_bounds :
    (sha : String → String) (value default : String) (max_bytes : ℕ)
    → ((s : String) → len (take_chars 16 (sha s)) ≡ 16)
    → len (metric_label sha value default max_bytes) ≤ max 32 (min 256 max_bytes)
unfolding metric_label
metric_label_bounds sha value default max_bytes digits =
    let text = if str_eq (strip value) "" then default else strip value in
    elim (Bool-cases (leb (len text) (label_limit max_bytes))) [
      | inl e ↦ rw (e, metric_label) (leb→le (len text) (label_limit max_bytes) e)
      | inr e ↦
          rw (e, metric_label)
            (len-shortened_le sha (label_limit max_bytes) text (digits text) (omega arith))
    ]
