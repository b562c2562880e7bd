-- ===== src/State/Selection.antt =====
-- ise_exporter/state.py: entries, rows and keys by name, and what a selection of a table keeps.
use ise_exporter_v.Base.{
  List, [], ◌∷◌, filter, mem, unique, mem-unique, mem-filter, eq_iff, Bool, true, false, ◌&&◌, not,
  Option, none, some, String, str_eq, if◌then◌else◌, ◌≡◌, refl, sym, ap, ◌∙◌, arith, Bool-cases,
  inl, inr,
}
use mathlib.Core.Path.{subst}
use ise_exporter_v.State.Cache.{Row, Entry, cache_keys}
use ise_exporter_v.State.Keyed.{lookup_row, Keyed, keys_of}

module _ {B : Type 0} where
  -- The entry under a key.
  abbrev pub lookup_entry : String → List (Entry B) → Option (Entry B)
  lookup_entry k [] = none
  lookup_entry k (e ∷ es) = if str_eq k e.id then some e else lookup_entry k es

module _ {B : Type 0} where
  pub lookup_entry-id :
      (k : String) (es : List (Entry B)) (e : Entry B)
      → lookup_entry k es ≡ some e
      → str_eq k e.id ≡ true
  lookup_entry-id k [] e q = cc
  lookup_entry-id k (x ∷ xs) e q = elim (Bool-cases (str_eq k x.id)) [
    | inl f ↦
        let c : lookup_entry k (x ∷ xs) ≡ some x = simp f refl in
        let d : x ≡ e = ground (arith, c, q) in subst (λ (y : Entry B). str_eq k y.id ≡ true) d f
    | inr f ↦
        let c : lookup_entry k (x ∷ xs) ≡ lookup_entry k xs = simp f refl in
        lookup_entry-id k xs e (sym c ∙ q)
  ]

-- Whether a selection of the keys `values` includes the key.
abbrev pub asked : String → List String → Bool
asked k values = mem k values && not (str_eq k "")

pub cache_keys-mem :
    (k : String) (values keys : List String)
    → cache_keys values ≡ some keys
    → mem k keys ≡ asked k values
unfolding cache_keys
cache_keys-mem k values keys h =
    let fresh = filter (λ v. not (str_eq v "")) values in
    let e : unique fresh ≡ keys = ground (arith, h) in
    ap (mem k) (sym e) ∙ mem-unique k fresh ∙ mem-filter (λ v. not (str_eq v "")) k values

module _ {V : Type 0} where
  pub lookup-filter :
      (p : String → Bool) (k : String) (rows : List (Row V))
      → lookup_row k (filter (λ (r : Row V). p r.key) rows)
        ≡ (if p k then lookup_row k rows else none)
  lookup-filter p k [] = elim (Bool-cases (p k)) [ inl e ↦ rw e refl | inr e ↦ rw e refl ]
  lookup-filter p k (r ∷ rs) =
      let ih = lookup-filter p k rs in
      elim (Bool-cases (str_eq k r.key)) [
        | inl f ↦
            let g : p r.key ≡ p k = ap p (sym ((eq_iff k r.key).0 f)) in
            elim (Bool-cases (p k)) [
              | inl e ↦ let q = g ∙ e in simp (q, e, f) refl
              | inr e ↦ let q = g ∙ e in simp (q, e) (ih ∙ simp e refl)
            ]
        | inr f ↦ elim (Bool-cases (p r.key)) [ inl e ↦ simp (e, f) ih | inr e ↦ simp (e, f) ih ]
      ]

  pub mem-filter_keys :
      (p : String → Bool) (k : String) (rows : List (Row V))
      → mem k (keys_of rows) ≡ false
      → mem k (keys_of (filter (λ (r : Row V). p r.key) rows)) ≡ false
  mem-filter_keys p k [] h = refl
  mem-filter_keys p k (r ∷ rs) h =
      let ih = mem-filter_keys p k rs (ground (arith, h)) in
      elim (Bool-cases (p r.key)) [ inl e ↦ simp e (ground (arith, h, ih)) | inr e ↦ simp e ih ]

  pub filter-Keyed :
      (p : String → Bool) (rows : List (Row V))
      → Keyed rows
      → Keyed (filter (λ (r : Row V). p r.key) rows)
  filter-Keyed p [] h = tt
  filter-Keyed p (r ∷ rs) h =
      let ih = filter-Keyed p rs h.1 in
      elim (Bool-cases (p r.key)) [
        | inl e ↦ simp e (mem-filter_keys p r.key rs h.0, ih)
        | inr e ↦ simp e ih
      ]
