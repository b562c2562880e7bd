-- ===== src/Snapshots/Items.antt =====
-- ise_exporter/snapshots.py: one entry of a serialized snapshot, read back.
use ise_exporter_v.Base.{
  length-map, ℕ, ◌+◌, ◌≤◌, ◌<◌, List, [], ◌∷◌, map, true, false, ==_iff, String, eq_iff, none, some,
  get_or, ltb, all, any, length, ◌≡◌, refl, sym, ap, ◌∙◌, arith, Bool-cases, inl, inr, All,
}
use ise_exporter_v.Base.Float.{PyFloat}
use ise_exporter_v.Snapshots.Store.{
  Family, labelled, info, scalar, unsupported, Store, read_children,
}
use ise_exporter_v.Snapshots.Replace.{is_finite, finite_family}
use ise_exporter_v.Snapshots.Persist.{
  max_persisted_snapshot_samples, sample, Item, too_large, store_child, serialize_family,
  stored_count, strings, prepare_sample, prepare_samples, same_strings, shape_ok, prepare_item,
}

-- The samples of a family, as serialized.
abbrev pub observed : Store → Family → List (List String × PyFloat)
observed s (labelled children) = read_children s children
observed s (scalar v) = ([], v) ∷ []
observed s _ = []

-- The children of a labelled family have a label for each of its names; a scalar has no names.
abbrev pub Shaped : List String → Family → Type 0
Shaped names (labelled children) =
    (0 < length names) × All (λ c. length c.0 ≡ length names) children
Shaped names (scalar v) = names ≡ []
Shaped names _ = Unit {0}

strings-map : (ls : List String) → strings (map (λ l. some l) ls) ≡ some ls
strings-map [] = refl
strings-map (l ∷ ls) = rw (strings-map ls) refl

prepare_sample-store :
    (s : Store) (arity : ℕ) (c : List String × ℕ)
    → length c.0 ≡ arity
    → any too_large c.0 ≡ false
    → is_finite (s.cell c.1) ≡ true
    → prepare_sample arity (store_child s c) ≡ some (c.0, s.cell c.1)
unfolding prepare_sample
prepare_sample-store s arity c l small fin =
    rw (strings-map c.0, small, fin, (==_iff (length c.0) arity).1 l, prepare_sample) refl

prepare_samples-store :
    (s : Store) (arity : ℕ) (children : List (List String × ℕ))
    → All (λ c. length c.0 ≡ arity) children
    → any (λ c. any too_large c.0) children ≡ false
    → all (λ c. is_finite (s.cell c.1)) children ≡ true
    → prepare_samples arity (map (store_child s) children) ≡ some (read_children s children)
unfolding prepare_samples
prepare_samples-store s arity [] l small fin = refl
prepare_samples-store s arity (c ∷ cs) l small fin =
    let one = prepare_sample-store s arity c l.0 (ground (arith, small)) (ground (arith, fin)) in
    let ih = prepare_samples-store s arity cs l.1 (ground (arith, small)) (ground (arith, fin)) in
    rw (one, ih, prepare_samples) refl

same_strings_refl : (xs : List String) → same_strings xs xs ≡ true
same_strings_refl [] = refl
same_strings_refl (x ∷ xs) = rw ((eq_iff x x).1 refl, same_strings_refl xs) refl

shape_ok-pos :
    (names : List String) (vs : List (List String × PyFloat))
    → 0 < length names
    → shape_ok names vs ≡ true
shape_ok-pos [] vs h = absurd (omega arith)
shape_ok-pos (n ∷ names) vs h = refl

pub some-inj : {A : Type 0} (a b : A) → some a ≡ some b → a ≡ b
some-inj a b e = ap (λ o. get_or o a) e

prepare_item-labelled :
    (s : Store) (names : List String) (children : List (List String × ℕ)) (total : ℕ)
    → Shaped names (labelled children)
    → any (λ c. any too_large c.0) children ≡ false
    → finite_family s (labelled children) ≡ true
    → total + length (map (store_child s) children) ≤ max_persisted_snapshot_samples
    → prepare_item names total
        (some (record { labelnames = names; samples = some (map (store_child s) children) }))
      ≡ some (read_children s children)
unfolding prepare_item
prepare_item-labelled s names children total shaped small fin fits =
    let b : ltb max_persisted_snapshot_samples (total + length (map (store_child s) children))
        ≡ false =
      ground arith in
    rw
      (
        same_strings_refl names,
        b,
        prepare_samples-store s (length names) children shaped.1 small fin,
        shape_ok-pos names (read_children s children) shaped.0,
      )
      refl

prepare_item-scalar :
    (v : PyFloat) (total : ℕ)
    → is_finite v ≡ true
    → total + 1 ≤ max_persisted_snapshot_samples
    → prepare_item [] total
        (some (record { labelnames = []; samples = some (sample [] (some v) ∷ []) }))
      ≡ some (([], v) ∷ [])
unfolding prepare_item prepare_samples prepare_sample
prepare_item-scalar v total fin fits =
    let b : ltb max_persisted_snapshot_samples (total + 1) ≡ false = ground arith in
    rw (b, fin) refl

module _ (labelnames : String → List String) (s : Store) where
  -- An entry that was written passes the checks, and gives the family's samples back.
  pub prepare_item-family :
      (n : String) (f : Family) (item : Item) (total : ℕ)
      → s.content n ≡ f
      → serialize_family labelnames s n ≡ some item
      → Shaped (labelnames n) f
      → finite_family s f ≡ true
      → total + stored_count item ≤ max_persisted_snapshot_samples
      → (prepare_item (labelnames n) total (some item) ≡ some (observed s f))
        × (length (observed s f) ≡ stored_count item)
  unfolding serialize_family prepare_item
  prepare_item-family n (labelled children) item total q e shaped fin fits =
      elim (Bool-cases (any (λ c. any too_large c.0) children)) [
        | inl large ↦
            let r : serialize_family labelnames s n ≡ none = rw (q, large, serialize_family) refl in
            cc
        | inr small ↦
            let good : Item = record {
              labelnames = labelnames n;
              samples = some (map (store_child s) children);
            } in
            let r : serialize_family labelnames s n ≡ some good =
              rw (q, small, serialize_family) refl in
            let same = some-inj good item (sym r ∙ e) in
            let count : stored_count item ≡ length (map (store_child s) children) =
              ap stored_count (sym same) in
            (
              ap (λ it. prepare_item (labelnames n) total (some it)) (sym same)
                  ∙ prepare_item-labelled s (labelnames n) children total shaped small fin
                      (omega (arith, count)),
              length-map (λ c. (c.0, s.cell c.1)) children
                  ∙ sym (length-map (store_child s) children)
                  ∙ sym count,
            )
      ]
  prepare_item-family n (scalar v) item total q e shaped fin fits =
      let good : Item = record { labelnames = []; samples = some (sample [] (some v) ∷ []) } in
      let r : serialize_family labelnames s n ≡ some good = rw (q, serialize_family) refl in
      let same = some-inj good item (sym r ∙ e) in
      let count : stored_count item ≡ 1 = ap stored_count (sym same) in
      (
        ap (λ it. prepare_item (labelnames n) total (some it)) (sym same)
            ∙ ap (λ names. prepare_item names total (some good)) shaped
            ∙ prepare_item-scalar v total fin (omega (arith, count)),
        sym count,
      )
  prepare_item-family n (info f) item total q e shaped fin fits =
      let r : serialize_family labelnames s n ≡ none = rw (q, serialize_family) refl in cc
  prepare_item-family n unsupported item total q e shaped fin fits =
      let r : serialize_family labelnames s n ≡ none = rw (q, serialize_family) refl in cc
