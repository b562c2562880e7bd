-- ===== src/Snapshots/RoundTrip.antt =====
-- ise_exporter/snapshots.py: a serialized snapshot, read back by the checks of
-- restore_metric_snapshot.
use ise_exporter_v.Base.{
  ℕ, ◌+◌, ◌≤◌, List, [], ◌∷◌, map, Bool, true, ◌||◌, String, str_eq, eq_iff, Option, none, some,
  ltb, all, any, length, ◌≡◌, refl, sym, ap, ◌∙◌, arith, Bool-cases, Option-cases, inl, inr, In,
  All,
}
use mathlib.Core.Path.{subst}
use ise_exporter_v.Base.Float.{PyFloat}
use ise_exporter_v.Snapshots.Store.{Store}
use ise_exporter_v.Base.{unique}
use ise_exporter_v.Snapshots.Replace.{finite_family, validate_finite}
use ise_exporter_v.Snapshots.Persist.{
  max_persisted_snapshot_samples, Item, Payload, metrics, serialize_family, stored_count,
  serialize_from, serialize_metric_snapshot, lookup, prepare_from, prepare,
}
use ise_exporter_v.Snapshots.Items.{observed, Shaped, some-inj, prepare_item-family}

module _ (labelnames : String → List String) (s : Store) where
  -- Entry by entry, what was written.
  abbrev Entry : String × Option Item → Type 0
  Entry e = (item : Item) × (e.1 ≡ some item) × (serialize_family labelnames s e.0 ≡ some item)

  abbrev counts : List (String × Option Item) → ℕ
  counts [] = 0
  counts (e ∷ es) = elim e.1 [ none ↦ 0 | some item ↦ stored_count item ] + counts es

  abbrev Written : ℕ → List String → List (String × Option Item) → Type 0
  Written total families items =
      All Entry items
      × (map (λ e. e.0) items ≡ families)
      × (total + counts items ≤ max_persisted_snapshot_samples)

  serialize_from-Written :
      (families : List String) (total : ℕ) (items : List (String × Option Item))
      → total ≤ max_persisted_snapshot_samples
      → serialize_from labelnames s total families ≡ some items
      → Written total families items
  unfolding serialize_from
  serialize_from-Written [] total items h e =
      subst (Written total []) (some-inj [] items e) (tt, refl, omega arith)
  serialize_from-Written (n ∷ families) total items h e =
      let result = serialize_from labelnames s total (n ∷ families) in
      elim (Option-cases (serialize_family labelnames s n)) [
        | inl q ↦ let r : result ≡ none = rw (q, serialize_from) refl in cc
        | inr (item, q) ↦
            let next = total + stored_count item in
            elim (Bool-cases (str_eq n "" || ltb max_persisted_snapshot_samples next)) [
              | inl b ↦ let r : result ≡ none = rw (q, b, serialize_from) refl in cc
              | inr b ↦ elim (Option-cases (serialize_from labelnames s next families)) [
                | inl m ↦ let r : result ≡ none = rw (q, b, m, serialize_from) refl in cc
                | inr (es, m) ↦
                    let r : result ≡ some ((n, some item) ∷ es) =
                      rw (q, b, m, serialize_from) refl in
                    let fits : next ≤ max_persisted_snapshot_samples = ground (arith, b) in
                    let (entries, keys, bound) = serialize_from-Written families next es fits m in
                    subst (Written total (n ∷ families))
                      (some-inj ((n, some item) ∷ es) items (sym r ∙ e))
                      (((item, refl, q), entries), ap (λ ns. n ∷ ns) keys, omega (arith, bound))
              ]
            ]
      ]

  lookup-Entry :
      (e : String × Option Item) (stored : List (String × Option Item))
      → Entry e
      → All Entry stored
      → In e stored
      → lookup e.0 stored ≡ some e.1
  lookup-Entry e [] x h i = absurd i
  lookup-Entry e (d ∷ ds) x h i = elim (Bool-cases (str_eq e.0 d.0)) [
    | inl b ↦
        let same = (eq_iff e.0 d.0).0 b in
        let (it, p, q) = x in
        let (jt, u, v) = h.0 in
        rw b (
          ap (λ o. some o)
            (u ∙ sym v ∙ ap (λ n. serialize_family labelnames s n) (sym same) ∙ q ∙ sym p))
    | inr b ↦ elim i [
      | inl k ↦ let bad : str_eq e.0 d.0 ≡ true = (eq_iff e.0 d.0).1 (ap (λ y. y.0) k) in cc
      | inr k ↦ rw b (lookup-Entry e ds x h.1 k)
    ]
  ]

  -- The samples read back, family by family.
  abbrev pub observed_all : List String → List (String × List (List String × PyFloat))
  observed_all families = map (λ n. (n, observed s (s.content n))) families

  prepare_from-Entry :
      (stored items : List (String × Option Item)) (total : ℕ)
      → All Entry stored
      → All Entry items
      → ((e : String × Option Item) → In e items → In e stored)
      → All (λ e. Shaped (labelnames e.0) (s.content e.0)) items
      → All (λ e. finite_family s (s.content e.0) ≡ true) items
      → total + counts items ≤ max_persisted_snapshot_samples
      → prepare_from labelnames stored total (map (λ e. e.0) items)
        ≡ some (observed_all (map (λ e. e.0) items))
  unfolding prepare_from
  prepare_from-Entry stored [] total a h sub shaped fin fits = refl
  prepare_from-Entry stored (e ∷ es) total a h sub shaped fin fits =
      let (item, p, q) = h.0 in
      let own : elim e.1 [ none ↦ 0 | some it ↦ stored_count it ] ≡ stored_count item = rw p refl in
      let (there, size) =
        prepare_item-family labelnames s e.0 (s.content e.0) item total refl q shaped.0 fin.0
          (omega (arith, own)) in
      let ih =
        prepare_from-Entry stored es (total + length (observed s (s.content e.0))) a h.1
          (λ d i. sub d (inr i)) shaped.1 fin.1 (omega (arith, own, size)) in
      let found = lookup-Entry e stored h.0 a (sub e (inl refl)) ∙ ap (λ o. some o) p in
      rw (found, there, ih, prepare_from) refl

all-All : {A : Type 0} (p : A → Bool) (xs : List A) → all p xs ≡ true → All (λ x. p x ≡ true) xs
all-All p [] h = tt
all-All p (x ∷ xs) h = (ground arith, all-All p xs (ground arith))

All-keys :
    {V : Type 0} (P : String → Type 0) (es : List (String × V))
    → All P (map (λ e. e.0) es)
    → All (λ e. P e.0) es
All-keys P [] h = tt
All-keys P (e ∷ es) h = (h.0, All-keys P es h.1)

any-In : (n : String) (xs : List String) → In n xs → any (str_eq n) xs ≡ true
any-In n [] i = absurd i
any-In n (x ∷ xs) (inl e) = rw ((eq_iff n x).1 e) refl
any-In n (x ∷ xs) (inr i) = let ih = any-In n xs i in ground (arith, ih)

all-listed :
    (xs ys : List String)
    → ((n : String) → In n xs → In n ys)
    → all (λ n. any (str_eq n) ys) xs ≡ true
all-listed [] ys h = refl
all-listed (x ∷ xs) ys h =
    rw (any-In x ys (h x (inl refl)), all-listed xs ys (λ n i. h n (inr i))) refl

-- What serialize_metric_snapshot returns, the checks of restore_metric_snapshot accept for the same
-- families, and read back from it exactly the labels and values that the store had, family by
-- family; each labelled family has a label for each of its names, and a scalar has none.
pub prepare-serialize :
    (labelnames : String → List String) (families : List String) (s : Store) (payload : Payload)
    → serialize_metric_snapshot labelnames families s ≡ some payload
    → All (λ n. Shaped (labelnames n) (s.content n)) (unique families)
    → prepare labelnames families payload ≡ some (observed_all labelnames s (unique families))
unfolding serialize_metric_snapshot prepare validate_finite
prepare-serialize labelnames families s payload e shaped =
    let names = unique families in
    let result = serialize_metric_snapshot labelnames families s in
    elim (Bool-cases (validate_finite names s)) [
      | inr b ↦ let r : result ≡ none = rw (b, serialize_metric_snapshot) refl in cc
      | inl b ↦ elim (Option-cases (serialize_from labelnames s 0 names)) [
        | inl m ↦ let r : result ≡ none = rw (b, m, serialize_metric_snapshot) refl in cc
        | inr (items, m) ↦
            let r : result ≡ some (metrics items) = rw (b, m, serialize_metric_snapshot) refl in
            let same : metrics items ≡ payload = some-inj (metrics items) payload (sym r ∙ e) in
            let (entries, keys, bound) =
              serialize_from-Written labelnames s names 0 items (omega arith) m in
            let finite_all = all-All (λ n. finite_family s (s.content n)) names b in
            let read =
              prepare_from-Entry labelnames s items items 0 entries entries (λ d i. i)
                (All-keys (λ n. Shaped (labelnames n) (s.content n)) items (rw keys shaped))
                (All-keys (λ n. finite_family s (s.content n) ≡ true) items (rw keys finite_all))
                bound in
            let listed : all (λ k. any (str_eq k) names) names ≡ true =
              all-listed names names (λ n i. i) in
            rw (sym same) (
              rw (keys, listed, prepare)
                (subst
                  (λ ns. prepare_from labelnames items 0 ns ≡ some (observed_all labelnames s ns))
                  keys read))
      ]
    ]
