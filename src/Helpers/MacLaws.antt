-- ===== src/Helpers/MacLaws.antt =====
-- ise_exporter/util.py: the normal form of a MAC address.
use ise_exporter_v.Base.{
  ℕ, zero, suc, ◌+◌, ◌*◌, true, false, ◌&&◌, not, String, str_eq, ◌==◌, if◌then◌else◌, Bool-cases,
  ◌≡◌, ◌↔◌, refl, sym, ap, ◌∙◌, inl, inr, arith, eq_iff,
}
use Prim.Native.Char.{Char, code}
use text.Mathlib.TextEquality.{Char-path}
use ise_exporter_v.Helpers.Text.{is_space, lstrip, rstrip, strip, num_chars, all_chars}
use ise_exporter_v.Helpers.Mac.{
  is_upper_hex, is_hex, compact, join_pairs, full_match, normalize_mac, is_mac,
}

pub compact-hex : (s : String) → all_chars is_hex (compact s) ≡ true
unfolding compact
compact-hex String.[] = refl
compact-hex (String.◌∷◌ c s) =
    let ih = compact-hex s in
    elim (Bool-cases (is_hex c)) [ inl e ↦ rw (e, compact) (rw e ih) | inr e ↦ rw (e, compact) ih ]

-- Upper-case hexadecimal text is its own compact form, with the separators put in too.
pub compact-join_pairs : (s : String) → all_chars is_upper_hex s ≡ true → compact (join_pairs s) ≡ s
unfolding compact join_pairs
compact-join_pairs String.[] h = refl
compact-join_pairs (String.◌∷◌ a String.[]) h = ground (arith, h)
compact-join_pairs (String.◌∷◌ a (String.◌∷◌ b String.[])) h = ground (arith, h)
compact-join_pairs (String.◌∷◌ a (String.◌∷◌ b (String.◌∷◌ c s))) h =
    let ih = compact-join_pairs (String.◌∷◌ c s) (ground (arith, h)) in ground (arith, h, ih)

pub full_match-join_pairs :
    (n : ℕ) (s : String)
    → all_chars is_upper_hex s ≡ true
    → num_chars s ≡ 2 * n + 2
    → full_match n (join_pairs s) ≡ true
unfolding full_match join_pairs
full_match-join_pairs n String.[] h e = absurd (omega (arith, e))
full_match-join_pairs n (String.◌∷◌ a String.[]) h e = absurd (omega (arith, e))
full_match-join_pairs zero (String.◌∷◌ a (String.◌∷◌ b String.[])) h e = ground (arith, h)
full_match-join_pairs (suc n) (String.◌∷◌ a (String.◌∷◌ b String.[])) h e =
    absurd (omega (arith, e))
full_match-join_pairs zero (String.◌∷◌ a (String.◌∷◌ b (String.◌∷◌ c s))) h e =
    absurd (omega (arith, e))
full_match-join_pairs (suc n) (String.◌∷◌ a (String.◌∷◌ b (String.◌∷◌ c s))) h e =
    let ih = full_match-join_pairs n (String.◌∷◌ c s) (ground (arith, h)) (omega (arith, e)) in
    ground (arith, h, ih)

hex_not_space : (c : Char) → is_hex c ≡ true → is_space c ≡ false
unfolding is_space
hex_not_space c h = ground (arith, h)

-- Text without spaces is its own strip.
lstrip_lem : (s : String) → all_chars (λ c. not (is_space c)) s ≡ true → lstrip s ≡ s
unfolding lstrip
lstrip_lem String.[] h = refl
lstrip_lem (String.◌∷◌ c s) h =
    let e : is_space c ≡ false = ground (arith, h) in rw (e, lstrip) refl

rstrip_lem : (s : String) → all_chars (λ c. not (is_space c)) s ≡ true → rstrip s ≡ s
unfolding rstrip
rstrip_lem String.[] h = refl
rstrip_lem (String.◌∷◌ c s) h =
    let e : is_space c ≡ false = ground (arith, h) in
    let ih = rstrip_lem s (ground (arith, h)) in rw (e, rstrip) (ap (λ r. String.◌∷◌ c r) ih)

strip_lem : (s : String) → all_chars (λ c. not (is_space c)) s ≡ true → strip s ≡ s
unfolding strip
strip_lem s h = ap rstrip (lstrip_lem s h) ∙ rstrip_lem s h

-- What matches the pattern is its own normal form.
record Canonical (n : ℕ) (t : String) : Type 0 where
  pub hex : all_chars is_upper_hex (compact t) ≡ true
  pub size : num_chars (compact t) ≡ 2 * n + 2
  pub joined : join_pairs (compact t) ≡ t
  pub no_space : all_chars (λ c. not (is_space c)) t ≡ true

upper_not_space : (c : Char) → is_upper_hex c ≡ true → not (is_space c) ≡ true
upper_not_space c h = let e = hex_not_space c (ground (arith, h)) in rw e refl

colon_not_space : (c : Char) → code c ≡ 58 → not (is_space c) ≡ true
unfolding is_space
colon_not_space c h = ground (arith, h)

join_pairs_more :
    (a b : Char) (s : String) (k : ℕ)
    → num_chars s ≡ suc k
    → join_pairs (String.◌∷◌ a (String.◌∷◌ b s))
      ≡ String.◌∷◌ a (String.◌∷◌ b (String.◌∷◌ ":" (join_pairs s)))
unfolding join_pairs
join_pairs_more a b String.[] k e = absurd (omega (arith, e))
join_pairs_more a b (String.◌∷◌ c s) k e = refl

full_match-Canonical : (n : ℕ) (t : String) → full_match n t ≡ true → Canonical n t
unfolding full_match compact join_pairs
full_match-Canonical zero String.[] h = cc
full_match-Canonical zero (String.◌∷◌ a String.[]) h = cc
full_match-Canonical zero (String.◌∷◌ a (String.◌∷◌ b (String.◌∷◌ c s))) h = cc
full_match-Canonical (suc n) String.[] h = cc
full_match-Canonical (suc n) (String.◌∷◌ a String.[]) h = cc
full_match-Canonical (suc n) (String.◌∷◌ a (String.◌∷◌ b String.[])) h = cc
full_match-Canonical zero (String.◌∷◌ a (String.◌∷◌ b String.[])) h =
    let ha : is_upper_hex a ≡ true = ground (arith, h) in
    let hb : is_upper_hex b ≡ true = ground (arith, h) in
    record {
      hex = ground (arith, ha, hb);
      size = ground (arith, ha, hb);
      joined = ground (arith, ha, hb);
      no_space = rw (upper_not_space a ha, upper_not_space b hb) refl;
    }
full_match-Canonical (suc n) (String.◌∷◌ a (String.◌∷◌ b (String.◌∷◌ c s))) h =
    let ha : is_upper_hex a ≡ true = ground (arith, h) in
    let hb : is_upper_hex b ≡ true = ground (arith, h) in
    let hc : code c ≡ 58 = ground (arith, h) in
    let ih = full_match-Canonical n s (ground (arith, h)) in
    let e : c ≡ ":" = Char-path c ":" hc in
    let k : compact (String.◌∷◌ a (String.◌∷◌ b (String.◌∷◌ c s)))
        ≡ String.◌∷◌ a (String.◌∷◌ b (compact s)) =
      ground (arith, ha, hb, hc) in
    let j = join_pairs_more a b (compact s) (2 * n + 1) (omega (arith, ih.size)) in
    record {
      hex = rw k (ground (arith, ha, hb, ih.hex));
      size = rw k (omega (arith, ih.size));
      joined = rw k (
          j
          ∙ ap (λ z. String.◌∷◌ a (String.◌∷◌ b z))
              (ap (String.◌∷◌ ":") ih.joined ∙ ap (λ z. String.◌∷◌ z s) (sym e)));
      no_space = rw (upper_not_space a ha, upper_not_space b hb, colon_not_space c hc) ih.no_space;
    }

-- The strip takes no digit away.
space_not_hex : (c : Char) → is_space c ≡ true → is_hex c ≡ false
space_not_hex c h = elim (Bool-cases (is_hex c)) [
  | inl e ↦ let n = hex_not_space c e in cc
  | inr e ↦ e
]

compact-lstrip : (s : String) → compact (lstrip s) ≡ compact s
unfolding compact lstrip
compact-lstrip String.[] = refl
compact-lstrip (String.◌∷◌ c s) = elim (Bool-cases (is_space c)) [
  | inl e ↦ let n = space_not_hex c e in rw (e, lstrip, n, compact) (compact-lstrip s)
  | inr e ↦ rw (e, lstrip) refl
]

compact-rstrip : (s : String) → compact (rstrip s) ≡ compact s
unfolding compact rstrip
compact-rstrip String.[] = refl
compact-rstrip (String.◌∷◌ c s) =
    let ih = compact-rstrip s in
    elim (Bool-cases (is_space c && str_eq (rstrip s) "")) [
      | inl e ↦
          let n = space_not_hex c (ground (arith, e)) in
          let r : rstrip s ≡ "" = (eq_iff (rstrip s) "").0 (ground (arith, e)) in
          rw (e, rstrip, n, compact) (sym (ap compact r) ∙ ih)
      | inr e ↦ rw e (ap (λ r. if is_hex c then String.◌∷◌ c r else r) ih)
    ]

compact-strip : (s : String) → compact (strip s) ≡ compact s
unfolding strip
compact-strip s = compact-rstrip (lstrip s) ∙ compact-lstrip s

-- What str.upper() does with hexadecimal digits.
pub record HexUpper (upper : String → String) : Type 0 where
  pub hex : (s : String) → all_chars is_hex s ≡ true → all_chars is_upper_hex (upper s) ≡ true
  pub size : (s : String) → all_chars is_hex s ≡ true → num_chars (upper s) ≡ num_chars s
  pub same : (s : String) → all_chars is_upper_hex s ≡ true → upper s ≡ s

module _ (upper : String → String) where
  normalize_mac_lem :
      (v : String)
      → num_chars (compact v) ≡ 12
      → normalize_mac upper v ≡ join_pairs (upper (compact v))
  unfolding normalize_mac
  normalize_mac_lem v h =
      let n : num_chars (compact (strip v)) ≡ 12 = ap num_chars (compact-strip v) ∙ h in
      elim (Bool-cases (str_eq v "")) [
        | inl e ↦
            let z : num_chars (compact v) ≡ 0 =
              ap (λ x. num_chars (compact x)) ((eq_iff v "").0 e) in
            absurd (omega (arith, z, h))
        | inr e ↦
            let t : (num_chars (compact (strip v)) == 12) ≡ true = ground (arith, n) in
            let s : normalize_mac upper v ≡ join_pairs (upper (compact (strip v))) =
              rw (e, t) refl in
            s ∙ ap (λ x. join_pairs (upper x)) (compact-strip v)
      ]

  pub normalize_mac-compact :
      (v : String)
      → HexUpper upper
      → num_chars (compact v) ≡ 12
      → (is_mac upper v ≡ true) × (compact (normalize_mac upper v) ≡ upper (compact v))
  unfolding is_mac
  normalize_mac-compact v u h =
      let e = normalize_mac_lem v h in
      let x = u.hex (compact v) (compact-hex v) in
      let n = u.size (compact v) (compact-hex v) in
      (
        ap (full_match 5) e ∙ full_match-join_pairs 5 (upper (compact v)) x (omega (arith, n, h)),
        ap compact e ∙ compact-join_pairs (upper (compact v)) x,
      )

  pub normalize_mac-normalize_mac :
      (v : String)
      → HexUpper upper
      → is_mac upper v ≡ true
      → normalize_mac upper (normalize_mac upper v) ≡ normalize_mac upper v
  unfolding is_mac
  normalize_mac-normalize_mac v u h =
      let t = normalize_mac upper v in
      let c = full_match-Canonical 5 t h in
      normalize_mac_lem t (omega (arith, c.size))
      ∙ ap join_pairs (u.same (compact t) c.hex)
      ∙ c.joined

  -- Two texts with twelve hexadecimal digits each have one normal form just when they have the same
  -- digits, up to the case: separators, spaces and case make no difference, and two addresses are
  -- never merged.
  pub normalize_mac_iff :
      (v w : String)
      → HexUpper upper
      → num_chars (compact v) ≡ 12
      → num_chars (compact w) ≡ 12
      → (normalize_mac upper v ≡ normalize_mac upper w) ↔ (upper (compact v) ≡ upper (compact w))
  normalize_mac_iff v w u h k =
      let a = normalize_mac-compact v u h in
      let b = normalize_mac-compact w u k in
      (
        λ e. sym a.1 ∙ ap compact e ∙ b.1,
        λ e. normalize_mac_lem v h ∙ ap join_pairs e ∙ sym (normalize_mac_lem w k),
      )
