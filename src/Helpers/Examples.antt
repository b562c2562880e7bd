-- ===== src/Helpers/Examples.antt =====
-- Tests of the helpers.
use ise_exporter_v.Base.{
  Bool-cases, inl, inr, suc, ◌==◌, ◌≤◌, ap, ◌∙◌, ◌↔◌, arith, String, [], ◌∷◌, true, ◌≡◌, refl,
  if◌then◌else◌, ◌&&◌,
}
use Prim.Native.Char.{Char, code}
use Prim.Native.String.{len}
use ise_exporter_v.Helpers.Text.{strip, num_chars, all_chars, map_chars}
use ise_exporter_v.Helpers.Mac.{normalize_mac, is_mac, compact, is_hex, is_upper_hex}
use ise_exporter_v.Helpers.MacLaws.{HexUpper, normalize_mac_iff}
use ise_exporter_v.Helpers.Label.{metric_label, metric_label_bounds}
use ise_exporter_v.Helpers.Attrs.{parse_other_attr_string}

strip_test : strip " a b  " ≡ "a b"
unfolding strip
strip_test = refl

mac_test : normalize_mac (λ s. s) " 00-11.22:33 44 55" ≡ "00:11:22:33:44:55"
unfolding normalize_mac
mac_test = refl

is_mac_test : is_mac (λ s. s) "0011.2233.4455" ≡ true
unfolding is_mac
is_mac_test = refl

attrs_test : parse_other_attr_string "a=1:!:b = x=2 :!:c:!:a=3" ≡ ("a", "3") ∷ ("b", "x=2") ∷ []
unfolding parse_other_attr_string
attrs_test = refl

-- str.upper() on the digits.
abbrev upper_char : Char → Char
upper_char c =
    if code c == 97
    then "A"
    else if code c == 98
    then "B"
    else if code c == 99
    then "C"
    else if code c == 100
    then "D"
    else if code c == 101
    then "E"
    else if code c == 102
    then "F"
    else c

upper : String → String
upper s = map_chars upper_char s

upper_char-hex : (c : Char) → is_hex c ≡ true → is_upper_hex (upper_char c) ≡ true
upper_char-hex c h = elim (Bool-cases (code c == 97)) [
  | inl e97 ↦ rw e97 refl
  | inr e97 ↦ rw e97 (elim (Bool-cases (code c == 98)) [
    | inl e98 ↦ rw e98 refl
    | inr e98 ↦ rw e98 (elim (Bool-cases (code c == 99)) [
      | inl e99 ↦ rw e99 refl
      | inr e99 ↦ rw e99 (elim (Bool-cases (code c == 100)) [
        | inl e100 ↦ rw e100 refl
        | inr e100 ↦ rw e100 (elim (Bool-cases (code c == 101)) [
          | inl e101 ↦ rw e101 refl
          | inr e101 ↦ rw e101 (elim (Bool-cases (code c == 102)) [
            | inl e102 ↦ rw e102 refl
            | inr e102 ↦ rw e102 (ground (arith, h, e97, e98, e99, e100, e101, e102))
          ])
        ])
      ])
    ])
  ])
]

upper-hex : (s : String) → all_chars is_hex s ≡ true → all_chars is_upper_hex (upper s) ≡ true
unfolding upper
upper-hex String.[] h = refl
upper-hex (String.◌∷◌ c s) h =
    let ih = upper-hex s (ground (arith, h)) in
    let u = upper_char-hex c (ground (arith, h)) in
    ap (λ b. b && all_chars is_upper_hex (upper s)) u ∙ ih

upper-num_chars : (s : String) → num_chars (upper s) ≡ num_chars s
unfolding upper
upper-num_chars String.[] = refl
upper-num_chars (String.◌∷◌ c s) = ap suc (upper-num_chars s)

upper_same : (s : String) → all_chars is_upper_hex s ≡ true → upper s ≡ s
unfolding upper
upper_same String.[] h = refl
upper_same (String.◌∷◌ c s) h =
    let ih = upper_same s (ground (arith, h)) in
    let e : upper_char c ≡ c = ground (arith, h) in
    ap (λ d. String.◌∷◌ d (upper s)) e ∙ ap (String.◌∷◌ c) ih

upper-HexUpper : HexUpper upper
upper-HexUpper = record { hex = upper-hex; size = λ s h. upper-num_chars s; same = upper_same }

normalize_mac_iff_example :
    (normalize_mac upper "00-1a-2B-33-44-55" ≡ normalize_mac upper "001A.2b33.4455")
    ↔ (upper (compact "00-1a-2B-33-44-55") ≡ upper (compact "001A.2b33.4455"))
unfolding compact
normalize_mac_iff_example =
    normalize_mac_iff upper "00-1a-2B-33-44-55" "001A.2b33.4455" upper-HexUpper refl refl

metric_label_bounds_example :
    len (metric_label (λ s. "0123456789abcdef") "node" "unknown" 128) ≤ 128
metric_label_bounds_example =
    metric_label_bounds (λ s. "0123456789abcdef") "node" "unknown" 128 (λ s. refl)
