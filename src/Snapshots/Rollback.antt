-- ===== src/Snapshots/Rollback.antt =====
-- ise_exporter/snapshots.py: what a replacement that raises leaves.
use ise_exporter_v.Base.{
  ℕ, List, [], ◌∷◌, map, Bool, true, false, ◌&&◌, not, ◌==◌, ==_iff, String, str_eq, eq_iff, some,
  any, if◌then◌else◌, ◌≡◌, ◌≢◌, ◌⊎◌, refl, ap, ◌∙◌, arith, Bool-cases, Option-cases, inl, inr, In,
}
use ise_exporter_v.Base.Int.{pos, negsuc}
use ise_exporter_v.Base.Float.{PyFloat, finite, not_finite}
use ise_exporter_v.Snapshots.Store.{
  Family, labelled, info, scalar, unsupported, Store, Writer, put, cells_of, samples, read_children,
  read_family, scrape,
}
use ise_exporter_v.Base.{unique_after}
use ise_exporter_v.Snapshots.Replace.{
  and_then, run_replacements, validate_finite, validate_count, backup, run_writers, restore_all,
  attempt, replace_metric_snapshots,
}
use ise_exporter_v.Snapshots.Checked.{all_families, and_then-raised}

abbrev pub listed : String → List String → Bool
listed n families = any (str_eq n) families

backup_lem :
    (families : List String) (s : Store) (bs : List (String × Family))
    → backup families s ≡ some bs
    → bs ≡ map (λ n. (n, s.content n)) families
unfolding backup
backup_lem [] s bs h = cc
backup_lem (n ∷ families) s bs h = elim (Option-cases (backup families s)) [
  | inl q ↦ ground (arith, q)
  | inr (b, q) ↦ let ih = backup_lem families s b q in ground (arith, q, ih)
]

restore-content :
    (s t : Store) (families : List String) (n : String)
    → (restore_all (map (λ m. (m, s.content m)) families) t).content n
      ≡ (if listed n families then s.content n else t.content n)
unfolding restore_all
restore-content s t [] n = refl
restore-content s t (m ∷ families) n =
    let ih = restore-content s (put m (s.content m) t) families n in ground (arith, ih, eq_iff n m)

restore-cell : (t : Store) (bs : List (String × Family)) → (restore_all bs t).cell ≡ t.cell
unfolding restore_all
restore-cell t [] = refl
restore-cell t (b ∷ bs) = restore-cell (put b.0 b.1 t) bs

same_value : (a b : PyFloat) → (a ≡ b) ⊎ (a ≢ b)
same_value (finite (pos m)) (finite (pos n)) = elim (Bool-cases (m == n)) [
  | inl e ↦ inl (ap (λ k. finite (pos k)) ((==_iff m n).0 e))
  | inr e ↦ inr (λ h. grind arith)
]
same_value (finite (negsuc m)) (finite (negsuc n)) = elim (Bool-cases (m == n)) [
  | inl e ↦ inl (ap (λ k. finite (negsuc k)) ((==_iff m n).0 e))
  | inr e ↦ inr (λ h. grind arith)
]
same_value (finite (pos m)) (finite (negsuc n)) = inr (λ h. grind arith)
same_value (finite (negsuc m)) (finite (pos n)) = inr (λ h. grind arith)
same_value (finite m) not_finite = inr (λ h. cc)
same_value not_finite (finite n) = inr (λ h. cc)
same_value not_finite not_finite = inl refl

-- A child whose value differs between two stores.
abbrev pub Changed : Store → Store → List ℕ → Type 0
Changed s t cells = (c : ℕ) × In c cells × (t.cell c ≢ s.cell c)

read_children-cases :
    (s t : Store) (children : List (List String × ℕ))
    → (read_children t children ≡ read_children s children) ⊎ Changed s t (map (λ k. k.1) children)
read_children-cases s t [] = inl refl
read_children-cases s t (k ∷ children) = elim (same_value (t.cell k.1) (s.cell k.1)) [
  | inr n ↦ inr (k.1, inl refl, n)
  | inl e ↦ elim (read_children-cases s t children) [
    | inr (c, i, n) ↦ inr (c, inr i, n)
    | inl rest ↦ inl (rw (e, rest) refl)
  ]
]

read_family-cases :
    (s t : Store) (f : Family) → (read_family t f ≡ read_family s f) ⊎ Changed s t (cells_of f)
read_family-cases s t (labelled children) = elim (read_children-cases s t children) [
  | inl e ↦ inl (ap samples e)
  | inr c ↦ inr c
]
read_family-cases s t (info f) = inl refl
read_family-cases s t (scalar v) = inl refl
read_family-cases s t unsupported = inl refl

-- A replacement that raises gives every family that it was given, replaced or extra, the map, the
-- information or the value back that it had, whatever the writers did. A scrape reads of it what it
-- read before, unless the value of a child that the family had has changed. The children's values are
-- all those from before, or all those that the writers left: the rollback sets none.
pub rollback_restores :
    (replacements : List (List String × List Writer)) (extra : List String) (writers : List Writer)
    (s : Store) (n : String)
    → (replace_metric_snapshots replacements extra writers s).0 ≡ true
    → listed n (all_families replacements extra) ≡ true
    → let after = (replace_metric_snapshots replacements extra writers s).1 in
      (after.content n ≡ s.content n)
      × ((scrape after n ≡ scrape s n) ⊎ Changed s after (cells_of (s.content n)))
      × ((after.cell ≡ s.cell) ⊎ (after.cell ≡ (attempt replacements extra writers s).1.cell))
unfolding replace_metric_snapshots scrape
rollback_restores replacements extra writers s n raised member =
    let tried = attempt replacements extra writers s in
    let families = all_families replacements extra in
    elim (Option-cases (backup families s)) [
      | inl q ↦ rw (q, replace_metric_snapshots) (refl, inl refl, inl refl)
      | inr (bs, q) ↦ elim (Bool-cases tried.0) [
        | inr ok ↦
            let r : (replace_metric_snapshots replacements extra writers s).0 ≡ false =
              rw (q, ok, replace_metric_snapshots) ok in
            cc
        | inl bad ↦
            let back : (restore_all bs tried.1).content n ≡ s.content n =
              rw (backup_lem families s bs q)
                (restore-content s tried.1 families n ∙ rw member refl) in
            let read = read_family-cases s (restore_all bs tried.1) (s.content n) in
            rw (q, bad, replace_metric_snapshots)
              (back, rw back read, inr (restore-cell tried.1 bs))
      ]
    ]

-- The backup of an extra family keeps its children, not their values: where a writer sets the child
-- `c` that the family had to `v` and a later one raises, the replacement is rolled back and `c` still
-- holds `v`.
pub rollback_keeps_child :
    (s : Store) (name : String) (children : List (List String × ℕ)) (c : ℕ) (v : PyFloat)
    (failing : Writer)
    → s.content name ≡ labelled children
    → ((t : Store) → ((failing t).0 ≡ true) × ((failing t).1.cell c ≡ t.cell c))
    → let set_child : Writer =
        λ t. (false, record t { cell = λ k. if k == c then v else t.cell k }) in
      let result = replace_metric_snapshots [] (name ∷ []) (set_child ∷ failing ∷ []) s in
      (result.0 ≡ true) × (result.1.content name ≡ labelled children) × (result.1.cell c ≡ v)
unfolding replace_metric_snapshots attempt run_writers backup restore_all unique_after
    run_replacements
rollback_keeps_child s name children c v failing has fails =
    let set_child : Writer =
      λ u. (false, record u { cell = λ k. if k == c then v else u.cell k }) in
    let t : Store = record s { cell = λ k. if k == c then v else s.cell k } in
    let (raises, keeps) = fails t in
    let judge : Store → Bool × Store =
      λ u. (not (validate_count 0 [] u && validate_finite (name ∷ []) u), u) in
    let ended : and_then (failing t) (run_writers []) ≡ failing t =
      and_then-raised (failing t) (run_writers []) raises in
    let tried : attempt [] (name ∷ []) (set_child ∷ failing ∷ []) s ≡ failing t =
      ap (λ m. and_then m judge) ended ∙ and_then-raised (failing t) judge raises in
    let saved : backup (name ∷ []) s ≡ some ((name, labelled children) ∷ []) =
      rw (has, backup) refl in
    let bad : (attempt [] (name ∷ []) (set_child ∷ failing ∷ []) s).0 ≡ true = rw tried raises in
    let holds : (attempt [] (name ∷ []) (set_child ∷ failing ∷ []) s).1.cell c ≡ v =
      rw tried (keeps ∙ rw ((==_iff c c).1 refl) refl) in
    rw (saved, bad, replace_metric_snapshots) (refl, rw ((eq_iff name name).1 refl) refl, holds)
