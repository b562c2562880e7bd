-- ===== src/Snapshots/Checked.antt =====
-- ise_exporter/snapshots.py: what a replacement that raises nothing has checked.
use ise_exporter_v.Base.{
  ℕ, ◌+◌, ◌≤◌, List, [], ◌∷◌, ◌++◌, Bool, true, false, ◌&&◌, not, String, ltb, all, ◌≡◌, refl, sym,
  ap, ◌∙◌, arith, Bool-cases, Option-cases, inl, inr, In,
}
use mathlib.Core.Path.{subst}
use ise_exporter_v.Snapshots.Store.{Store, Writer}
use ise_exporter_v.Base.{unique}
use ise_exporter_v.Snapshots.Replace.{
  and_then, run_replacements, max_metric_snapshot_samples, finite_family, validate_finite,
  sample_count, validate_count, backup, run_writers, families_of, attempt, replace_metric_snapshots,
}

-- The families of a replacement, each once.
abbrev pub all_families : List (List String × List Writer) → List String → List String
all_families replacements extra = unique (unique (families_of replacements) ++ extra)

all_sound :
    {A : Type 0} (p : A → Bool) (xs : List A) → all p xs ≡ true → (x : A) → In x xs → p x ≡ true
all_sound p [] h x i = absurd i
all_sound p (y ∷ xs) h x (inl e) = rw e (ground arith)
all_sound p (y ∷ xs) h x (inr i) = all_sound p xs (ground arith) x i

-- The samples of the families in the list, together.
abbrev pub total_samples : Store → List String → ℕ
total_samples s [] = 0
total_samples s (n ∷ families) = sample_count (s.content n) + total_samples s families

validate_count_sound :
    (total : ℕ) (families : List String) (s : Store)
    → total ≤ max_metric_snapshot_samples
    → validate_count total families s ≡ true
    → total + total_samples s families ≤ max_metric_snapshot_samples
unfolding validate_count
validate_count_sound total [] s h e = omega arith
validate_count_sound total (n ∷ families) s h e =
    elim (Bool-cases (ltb max_metric_snapshot_samples (total + sample_count (s.content n)))) [
      | inl b ↦ absurd (ground (arith, b))
      | inr b ↦
          let more : validate_count (total + sample_count (s.content n)) families s ≡ true =
            ground (arith, b) in
          let ih =
            validate_count_sound (total + sample_count (s.content n)) families s (ground arith)
              more in
          omega (arith, ih)
    ]

and_then-quiet :
    (m : Bool × Store) (f : Store → Bool × Store)
    → (and_then m f).0 ≡ false
    → (m.0 ≡ false) × (f m.1 ≡ and_then m f)
and_then-quiet (true, s) f h = cc
and_then-quiet (false, s) f h = (refl, refl)

pub and_then-raised : (m : Bool × Store) (f : Store → Bool × Store) → m.0 ≡ true → and_then m f ≡ m
and_then-raised (true, s) f h = refl
and_then-raised (false, s) f h = cc

module _ (replacements : List (List String × List Writer)) (extra : List String)
    (writers : List Writer) (s : Store) where
  -- What a replacement that raises nothing has checked of the store that it leaves.
  abbrev pub Checked : Store → Type 0
  Checked t =
      ((run_replacements replacements s).0 ≡ false)
      × (run_writers writers (run_replacements replacements s).1 ≡ (false, t))
      × (total_samples t (unique (families_of replacements)) ≤ max_metric_snapshot_samples)
      × ((n : String)
          → In n (all_families replacements extra)
          → finite_family t (t.content n) ≡ true)

  attempt-Checked :
      (attempt replacements extra writers s).0 ≡ false
      → Checked (attempt replacements extra writers s).1
  unfolding attempt validate_finite
  attempt-Checked quiet =
      let replaced = unique (families_of replacements) in
      let families = all_families replacements extra in
      let check : Store → Bool = λ t. validate_count 0 replaced t && validate_finite families t in
      let (b, e) =
        and_then-quiet (and_then (run_replacements replacements s) (run_writers writers))
          (λ t. (not (check t), t)) quiet in
      let (c, d) = and_then-quiet (run_replacements replacements s) (run_writers writers) b in
      let t = (and_then (run_replacements replacements s) (run_writers writers)).1 in
      let same : (attempt replacements extra writers s).1 ≡ t = sym (ap (λ r. r.1) e) in
      let passed : not (check t) ≡ false = ap (λ r. r.0) e ∙ quiet in
      subst (Checked) (sym same) (
        c,
        d ∙ ap (λ x. (x, t)) b,
        omega (arith, validate_count_sound 0 replaced t (omega arith) (ground (arith, passed))),
        λ n i. all_sound (λ m. finite_family t (t.content m)) families (ground (arith, passed)) n i,
      )

-- A replacement that raises nothing has run every writer, and leaves at most 20,000 samples in the
-- replaced families and only finite values in the replaced and the extra ones.
pub replace-Checked :
    (replacements : List (List String × List Writer)) (extra : List String) (writers : List Writer)
    (s : Store)
    → (replace_metric_snapshots replacements extra writers s).0 ≡ false
    → Checked replacements extra writers s (replace_metric_snapshots replacements extra writers s).1
unfolding replace_metric_snapshots
replace-Checked replacements extra writers s quiet =
    let tried = attempt replacements extra writers s in
    let result = replace_metric_snapshots replacements extra writers s in
    elim (Option-cases (backup (all_families replacements extra) s)) [
      | inl q ↦ let r : result.0 ≡ true = rw (q, replace_metric_snapshots) refl in cc
      | inr (bs, q) ↦ elim (Bool-cases tried.0) [
        | inl bad ↦ let r : result.0 ≡ true = rw (q, bad, replace_metric_snapshots) refl in cc
        | inr good ↦
            let same : result.1 ≡ tried.1 = rw (q, good, replace_metric_snapshots) refl in
            subst (Checked replacements extra writers s) (sym same)
              (attempt-Checked replacements extra writers s good)
      ]
    ]
