-- ===== src/Posture/Rows.antt =====
-- ise_exporter/collectors/mnt_active_posture.py: the addresses of the active rows.
use ise_exporter_v.Base.{
  ℕ, zero, suc, ◌+◌, ◌*◌, ◌≤◌, List, [], ◌∷◌, map, mem, any, Distinct, true, false, String, str_eq,
  str_eq_refl, mem_subst, ltb, ◌≡◌, refl, ap, ◌∙◌, arith, All, Bool-cases, inl, inr,
}
use Prim.Native.Char.{Char, code, len_utf8, len_utf8_def, width}
use Prim.Native.String.{len}
use Prim.Native.String.len.{cons as len_cons, nil as len_nil}
use Prim.Native.Nat.{compare, Ordering}
use ise_exporter_v.Helpers.Mac.{full_match, is_mac, normalize_mac}
use ise_exporter_v.Helpers.Attrs.{Attrs, first_nonempty}
use ise_exporter_v.Helpers.Text.{num_chars}
use ise_exporter_v.State.Total.{IsKey}
use ise_exporter_v.Posture.Session.{checked_mac, mac_keys, active_mac, active_rows}

width_le : (a b c : Ordering) → width a b c ≤ 4
width_le Ordering.lt b c = omega arith
width_le Ordering.eq Ordering.lt c = omega arith
width_le Ordering.eq Ordering.eq Ordering.lt = omega arith
width_le Ordering.eq Ordering.eq Ordering.eq = omega arith
width_le Ordering.eq Ordering.eq Ordering.gt = omega arith
width_le Ordering.eq Ordering.gt Ordering.lt = omega arith
width_le Ordering.eq Ordering.gt Ordering.eq = omega arith
width_le Ordering.eq Ordering.gt Ordering.gt = omega arith
width_le Ordering.gt Ordering.lt c = omega arith
width_le Ordering.gt Ordering.eq Ordering.lt = omega arith
width_le Ordering.gt Ordering.eq Ordering.eq = omega arith
width_le Ordering.gt Ordering.eq Ordering.gt = omega arith
width_le Ordering.gt Ordering.gt Ordering.lt = omega arith
width_le Ordering.gt Ordering.gt Ordering.eq = omega arith
width_le Ordering.gt Ordering.gt Ordering.gt = omega arith

len_utf8_le : (c : Char) → len_utf8 c ≤ 4
len_utf8_le c =
    let w = width_le (compare (code c) 128) (compare (code c) 2048) (compare (code c) 65536) in
    omega (arith, w, len_utf8_def c)

-- What matches the pattern is not empty and short.
full_match-len : (n : ℕ) (t : String) → full_match n t ≡ true → len t ≤ 12 * n + 8
unfolding full_match
full_match-len zero String.[] h = cc
full_match-len zero (String.◌∷◌ a String.[]) h = cc
full_match-len zero (String.◌∷◌ a (String.◌∷◌ b (String.◌∷◌ c s))) h = cc
full_match-len (suc n) String.[] h = cc
full_match-len (suc n) (String.◌∷◌ a String.[]) h = cc
full_match-len (suc n) (String.◌∷◌ a (String.◌∷◌ b String.[])) h = cc
full_match-len zero (String.◌∷◌ a (String.◌∷◌ b String.[])) h =
    omega
      (arith, len_cons a (String.◌∷◌ b ""), len_cons b "", len_nil, len_utf8_le a, len_utf8_le b)
full_match-len (suc n) (String.◌∷◌ a (String.◌∷◌ b (String.◌∷◌ c s))) h =
    let ih = full_match-len n s (ground (arith, h)) in
    let l1 = len_cons a (String.◌∷◌ b (String.◌∷◌ c s)) in
    let l2 = len_cons b (String.◌∷◌ c s) in
    omega (arith, ih, l1, l2, len_cons c s, len_utf8_le a, len_utf8_le b, len_utf8_le c)

mem_apart :
    (x y : String) (xs : List String) → mem x xs ≡ true → mem y xs ≡ false → str_eq x y ≡ false
mem_apart x y xs h k = elim (Bool-cases (str_eq x y)) [
  | inl e ↦ let q = mem_subst x y xs e in absurd (ground (arith, q, h, k))
  | inr e ↦ e
]

is_mac-full_match :
    (upper : String → String) (raw : String)
    → is_mac upper raw ≡ true
    → full_match 5 (normalize_mac upper raw) ≡ true
unfolding is_mac
is_mac-full_match upper raw h = h

abbrev pub macs_of : List (String × Attrs) → List String
macs_of entries = map (λ (e : String × Attrs). e.0) entries

module _ (upper : String → String) where
  checked_mac-full_match :
      (raw : String)
      → str_eq (checked_mac upper raw) "" ≡ false
      → full_match 5 (checked_mac upper raw) ≡ true
  unfolding checked_mac
  checked_mac-full_match raw h =
      let empty : str_eq "" "" ≡ true = refl in
      elim (Bool-cases (ltb 64 (num_chars raw))) [
        | inl e ↦
            let c : checked_mac upper raw ≡ "" = rw e refl in
            let k : str_eq (checked_mac upper raw) "" ≡ true = ap (λ z. str_eq z "") c in cc
        | inr e ↦ elim (Bool-cases (is_mac upper raw)) [
          | inl i ↦
              let c : checked_mac upper raw ≡ normalize_mac upper raw = rw (e, i) refl in
              ap (full_match 5) c ∙ is_mac-full_match upper raw i
          | inr i ↦
              let c : checked_mac upper raw ≡ "" = rw (e, i) refl in
              let k : str_eq (checked_mac upper raw) "" ≡ true = ap (λ z. str_eq z "") c in cc
        ]
      ]

  active_mac-full_match :
      (row : Attrs)
      → str_eq (active_mac upper row) "" ≡ false
      → full_match 5 (active_mac upper row) ≡ true
  unfolding active_mac
  active_mac-full_match row h = checked_mac-full_match (first_nonempty row mac_keys) h

  active_mac-IsKey :
      (row : Attrs) → str_eq (active_mac upper row) "" ≡ false → IsKey (active_mac upper row)
  active_mac-IsKey row h =
      let l = full_match-len 5 (active_mac upper row) (active_mac-full_match row h) in
      (h, ground (arith, l))

  mem-active_rows :
      (mac : String) (seen : List String) (rows : List Attrs)
      → mem mac seen ≡ true
      → mem mac (macs_of (active_rows upper seen rows)) ≡ false
  unfolding active_rows
  mem-active_rows mac seen [] m = refl
  mem-active_rows mac seen (row ∷ rows) m =
      let skipped = mem-active_rows mac seen rows m in
      let taken = mem-active_rows mac (active_mac upper row ∷ seen) rows (ground (arith, m)) in
      elim (Bool-cases (str_eq (active_mac upper row) "")) [
        | inl e ↦ rw (e, active_rows) skipped
        | inr e ↦ elim (Bool-cases (any (str_eq (active_mac upper row)) seen)) [
          | inl i ↦ rw (e, i, active_rows) skipped
          | inr i ↦
              let n : str_eq mac (active_mac upper row) ≡ false =
                mem_apart mac (active_mac upper row) seen m i in
              rw (e, i, active_rows) (ground (arith, n, taken))
        ]
      ]

  -- The active rows stand under distinct addresses, each a key of the cache.
  pub active_rows-IsKey :
      (seen : List String) (rows : List Attrs)
      → All IsKey (macs_of (active_rows upper seen rows))
        × Distinct (macs_of (active_rows upper seen rows))
  unfolding active_rows
  active_rows-IsKey seen [] = (tt, tt)
  active_rows-IsKey seen (row ∷ rows) =
      let mac = active_mac upper row in
      let skipped = active_rows-IsKey seen rows in
      let taken = active_rows-IsKey (mac ∷ seen) rows in
      elim (Bool-cases (str_eq mac "")) [
        | inl e ↦ rw (e, active_rows) skipped
        | inr e ↦ elim (Bool-cases (any (str_eq mac) seen)) [
          | inl i ↦ rw (e, i, active_rows) skipped
          | inr i ↦
              let n = mem-active_rows mac (mac ∷ seen) rows (ground (arith, str_eq_refl mac)) in
              rw (e, i, active_rows) ((active_mac-IsKey row e, taken.0), (n, taken.1))
        ]
      ]
