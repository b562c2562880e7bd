-- ===== src/State/Keyed.antt =====
-- ise_exporter/state.py: a cache table as a function from keys to rows.
use ise_exporter_v.Base.{
  ℕ, List, [], ◌∷◌, map, mem, Distinct, mem_subst, eq_iff, false, ◌||◌, Option, none, some, String,
  str_eq, if◌then◌else◌, ◌≡◌, refl, sym, ap, ◌∙◌, arith, Bool-cases, Option-cases, inl, inr,
}
use mathlib.Core.Path.{subst}
use ise_exporter_v.State.Cache.{
  Row, upsert, cycle_row, finish_cache_cycle, finish_cycle, cache_keys, valid_timestamp,
}
use ise_exporter_v.Base.Float.{PyFloat}

module _ {V : Type 0} where
  -- The row under a key.
  abbrev pub lookup_row : String → List (Row V) → Option (Row V)
  lookup_row k [] = none
  lookup_row k (r ∷ rs) = if str_eq k r.key then some r else lookup_row k rs

  -- What PRIMARY KEY guarantees.
  abbrev pub Keyed : List (Row V) → Type 0
  Keyed rows = Distinct (map (λ (r : Row V). r.key) rows)

  abbrev pub keys_of : List (Row V) → List String
  keys_of rows = map (λ (r : Row V). r.key) rows

  -- The abstract step of a cycle: a map from keys to rows, one key at a time.
  abbrev pub cycle_at : String → List String → ℕ → ℕ → Option (Row V) → Option (Row V)
  cycle_at k active now grace none = none
  cycle_at k active now grace (some r) = cycle_row active now grace r

  pub lookup_row-key :
      (k : String) (rows : List (Row V)) (r : Row V) → lookup_row k rows ≡ some r → k ≡ r.key
  lookup_row-key k [] r h = cc
  lookup_row-key k (x ∷ xs) r h = elim (Bool-cases (str_eq k x.key)) [
    | inl e ↦
        let c : lookup_row k (x ∷ xs) ≡ some x = simp e refl in
        let d : x ≡ r = ground (arith, c, h) in (eq_iff k x.key).0 e ∙ ap (λ (y : Row V). y.key) d
    | inr e ↦
        let c : lookup_row k (x ∷ xs) ≡ lookup_row k xs = simp e refl in
        lookup_row-key k xs r (sym c ∙ h)
  ]

  pub lookup-upsert :
      (k : String) (r : Row V) (rows : List (Row V))
      → lookup_row k (upsert r rows) ≡ (if str_eq k r.key then some r else lookup_row k rows)
  unfolding upsert
  lookup-upsert k r [] = refl
  lookup-upsert k r (x ∷ xs) =
      let ih = lookup-upsert k r xs in
      elim (Bool-cases (str_eq x.key r.key)) [
        | inl e ↦
            let s = (eq_iff x.key r.key).0 e in
            elim (Bool-cases (str_eq k r.key)) [
              | inl f ↦ simp (e, f) refl
              | inr f ↦ let g : str_eq k x.key ≡ false = ap (str_eq k) s ∙ f in simp (e, f, g) refl
            ]
        | inr e ↦ elim (Bool-cases (str_eq k x.key)) [
          | inl f ↦
              let g : str_eq k r.key ≡ false =
                ap (λ z. str_eq z r.key) ((eq_iff k x.key).0 f) ∙ e in
              simp (e, f, g) refl
          | inr f ↦ simp (e, f) ih
        ]
      ]

  pub mem-upsert :
      (k : String) (r : Row V) (rows : List (Row V))
      → mem k (keys_of (upsert r rows)) ≡ (str_eq k r.key || mem k (keys_of rows))
  unfolding upsert
  mem-upsert k r [] = refl
  mem-upsert k r (x ∷ xs) =
      let ih = mem-upsert k r xs in
      elim (Bool-cases (str_eq x.key r.key)) [
        | inl e ↦
            let s : str_eq k x.key ≡ str_eq k r.key = ap (str_eq k) ((eq_iff x.key r.key).0 e) in
            simp (e, s) (ground arith)
        | inr e ↦ simp (e, ih) (ground arith)
      ]

  pub upsert-Keyed : (r : Row V) (rows : List (Row V)) → Keyed rows → Keyed (upsert r rows)
  unfolding upsert
  upsert-Keyed r [] h = (refl, tt)
  upsert-Keyed r (x ∷ xs) h = elim (Bool-cases (str_eq x.key r.key)) [
    | inl e ↦
        let s : mem r.key (keys_of xs) ≡ false =
          subst (λ z. mem z (keys_of xs) ≡ false) ((eq_iff x.key r.key).0 e) h.0 in
        simp e (s, h.1)
    | inr e ↦
        let m : mem x.key (keys_of (upsert r xs)) ≡ false =
          mem-upsert x.key r xs ∙ ground (arith, h.0) in
        simp e (m, upsert-Keyed r xs h.1)
  ]

  -- A cycle looks at each row alone and keeps its key.
  cycle_row-key :
      (active : List String) (now grace : ℕ) (r s : Row V)
      → cycle_row active now grace r ≡ some s
      → s.key ≡ r.key
  cycle_row-key active now grace r s h = ground arith

  pub mem-finish :
      (k : String) (active : List String) (now grace : ℕ) (rows : List (Row V))
      → mem k (keys_of rows) ≡ false
      → mem k (keys_of (finish_cache_cycle active now grace rows)) ≡ false
  unfolding finish_cache_cycle
  mem-finish k active now grace [] h = refl
  mem-finish k active now grace (r ∷ rs) h =
      let ih = mem-finish k active now grace rs (ground (arith, h)) in
      elim (Option-cases (cycle_row active now grace r)) [
        | inl e ↦ rw (e, finish_cache_cycle) ih
        | inr (s, e) ↦
            let f : str_eq k s.key ≡ false =
              ap (str_eq k) (cycle_row-key active now grace r s e) ∙ ground (arith, h) in
            rw (e, finish_cache_cycle) (ground (arith, f, ih))
      ]

  pub lookup_none :
      (k : String) (rows : List (Row V)) → mem k (keys_of rows) ≡ false → lookup_row k rows ≡ none
  lookup_none k [] h = refl
  lookup_none k (r ∷ rs) h = let ih = lookup_none k rs in ground arith

  pub finish-Keyed :
      (active : List String) (now grace : ℕ) (rows : List (Row V))
      → Keyed rows
      → Keyed (finish_cache_cycle active now grace rows)
  unfolding finish_cache_cycle
  finish-Keyed active now grace [] h = tt
  finish-Keyed active now grace (r ∷ rs) h =
      let ih = finish-Keyed active now grace rs h.1 in
      elim (Option-cases (cycle_row active now grace r)) [
        | inl e ↦ rw (e, finish_cache_cycle) ih
        | inr (s, e) ↦
            let f : mem s.key (keys_of (finish_cache_cycle active now grace rs)) ≡ false =
              ap (λ z. mem z (keys_of (finish_cache_cycle active now grace rs)))
                (cycle_row-key active now grace r s e)
              ∙ mem-finish r.key active now grace rs h.0 in
            rw (e, finish_cache_cycle) (f, ih)
      ]

  pub lookup-finish :
      (k : String) (active : List String) (now grace : ℕ) (rows : List (Row V))
      → Keyed rows
      → lookup_row k (finish_cache_cycle active now grace rows)
        ≡ cycle_at k active now grace (lookup_row k rows)
  unfolding finish_cache_cycle
  lookup-finish k active now grace [] h = refl
  lookup-finish k active now grace (r ∷ rs) h =
      let ih = lookup-finish k active now grace rs h.1 in
      elim (Option-cases (cycle_row active now grace r)) [
        | inl e ↦ elim (Bool-cases (str_eq k r.key)) [
          | inl f ↦
              let m : mem k (keys_of rs) ≡ false = mem_subst k r.key (keys_of rs) f ∙ h.0 in
              let l =
                lookup_none k (finish_cache_cycle active now grace rs)
                  (mem-finish k active now grace rs m) in
              rw (e, finish_cache_cycle) (simp f (l ∙ sym e))
          | inr f ↦ rw (e, finish_cache_cycle) (simp f ih)
        ]
        | inr (s, e) ↦
            let f : str_eq k s.key ≡ str_eq k r.key =
              ap (str_eq k) (cycle_row-key active now grace r s e) in
            elim (Bool-cases (str_eq k r.key)) [
              | inl g ↦ rw (e, finish_cache_cycle) (simp (f, g) (sym e))
              | inr g ↦ rw (e, finish_cache_cycle) (simp (f, g) ih)
            ]
      ]

  -- What a cycle that returns has done.
  pub finish_cycle-some :
      (active : List String) (now : PyFloat) (grace : ℕ) (rows : List (Row V)) {left : List (Row V)}
      → finish_cycle active now grace rows ≡ some left
      → (t : ℕ) × (keys : List String) × (valid_timestamp now ≡ some t)
        × (cache_keys active ≡ some keys)
        × (left ≡ finish_cache_cycle keys t grace rows)
  unfolding finish_cycle
  finish_cycle-some active now grace rows {left = left} e =
      elim (Option-cases (valid_timestamp now)) [
        | inl n ↦
            let c : finish_cycle active now grace rows ≡ none = rw (n, finish_cycle) refl in cc
        | inr (t, n) ↦ elim (Option-cases (cache_keys active)) [
          | inl m ↦
              let c : finish_cycle active now grace rows ≡ none = rw (n, m, finish_cycle) refl in cc
          | inr (keys, m) ↦
              let c : finish_cycle active now grace rows
                  ≡ some (finish_cache_cycle keys t grace rows) =
                rw (n, m, finish_cycle) refl in
              (t, keys, n, m, cc)
        ]
      ]
