-- ===== src/Snapshots/Replace.antt =====
-- ise_exporter/snapshots.py: _replace_metric_snapshots, and replace_metric_snapshot outside a staging
-- block (within one it appends the replacement to the list that commit_metric_snapshots is given).
use ise_exporter_v.Base.{
  ℕ, ◌+◌, List, [], ◌∷◌, ◌++◌, Bool, true, false, ◌&&◌, not, String, Option, none, some, ltb, all,
  length, if◌then◌else◌,
}
use mathlib.Core.Option
use ise_exporter_v.Base.Float.{PyFloat, finite, not_finite}
use ise_exporter_v.Base.Int.{pos}
use ise_exporter_v.Snapshots.Store.{Family, labelled, info, scalar, unsupported, Store, Writer, put}
use ise_exporter_v.Base.{unique}

abbrev pub max_metric_snapshot_samples : ℕ
max_metric_snapshot_samples = 20000

abbrev pub is_finite : PyFloat → Bool
is_finite (finite _) = true
is_finite not_finite = false

-- The values of a family that _validate_finite_metric_values looks at.
abbrev pub finite_family : Store → Family → Bool
finite_family s (labelled children) = all (λ c. is_finite (s.cell c.1)) children
finite_family s (scalar v) = is_finite v
finite_family s _ = true

unfoldable pub validate_finite : List String → Store → Bool
validate_finite families s = all (λ n. finite_family s (s.content n)) families

abbrev pub sample_count : Family → ℕ
sample_count (labelled children) = length children
sample_count _ = 1

-- _validate_metric_sample_count, with the total so far
unfoldable pub validate_count : ℕ → List String → Store → Bool
validate_count total [] s = true
validate_count total (n ∷ families) s =
    let next = total + sample_count (s.content n) in
    let more = validate_count next families s in
    if ltb max_metric_snapshot_samples next then false else more

abbrev pub is_supported : Family → Bool
is_supported unsupported = false
is_supported _ = true

-- backups[metric] for each family; `none` is the TypeError for an unsupported one
unfoldable pub backup : List String → Store → Option (List (String × Family))
backup [] s = some []
backup (n ∷ families) s =
    let more = Option.map (λ b. (n, s.content n) ∷ b) (backup families s) in
    if is_supported (s.content n) then more else none

-- metric._metrics.clear(), metric.info({}), metric.set(0)
abbrev pub cleared : Family → Family
cleared (labelled _) = labelled []
cleared (info _) = info []
cleared (scalar _) = scalar (finite (pos 0))
cleared unsupported = unsupported

unfoldable pub clear_all : List String → Store → Store
clear_all [] s = s
clear_all (n ∷ families) s = clear_all families (put n (cleared (s.content n)) s)

-- What follows runs only where the first part raises nothing.
abbrev pub and_then : Bool × Store → (Store → Bool × Store) → Bool × Store
and_then (true, s) f = (true, s)
and_then (false, s) f = f s

-- for writer in writers: writer(), up to the first that raises
unfoldable pub run_writers : List Writer → Store → Bool × Store
run_writers [] s = (false, s)
run_writers (w ∷ ws) s = and_then (w s) (run_writers ws)

unfoldable pub run_replacements : List (List String × List Writer) → Store → Bool × Store
unfolding clear_all run_writers
run_replacements [] s = (false, s)
run_replacements (r ∷ rs) s =
    and_then (run_writers r.1 (clear_all (unique r.0) s)) (run_replacements rs)

-- The handler: each family gets back what was saved.
unfoldable pub restore_all : List (String × Family) → Store → Store
restore_all [] s = s
restore_all (b ∷ bs) s = restore_all bs (put b.0 b.1 s)

abbrev pub families_of : List (List String × List Writer) → List String
families_of [] = []
families_of (r ∷ rs) = unique r.0 ++ families_of rs

-- The body of the try block: whether it raises, and the store then.
unfoldable pub attempt :
    List (List String × List Writer) → List String → List Writer → Store → Bool × Store
unfolding run_replacements run_writers validate_count validate_finite
attempt replacements extra_families extra_writers s =
    let replaced = unique (families_of replacements) in
    let families = unique (replaced ++ extra_families) in
    and_then (and_then (run_replacements replacements s) (run_writers extra_writers))
      (λ t. (not (validate_count 0 replaced t && validate_finite families t), t))

-- _replace_metric_snapshots(replacements, extra_families, extra_writers): whether it raises, and the
-- store then
unfoldable pub replace_metric_snapshots :
    List (List String × List Writer) → List String → List Writer → Store → Bool × Store
unfolding backup attempt restore_all
replace_metric_snapshots replacements extra_families extra_writers s =
    let families = unique (unique (families_of replacements) ++ extra_families) in
    let tried = attempt replacements extra_families extra_writers s in
    elim (backup families s) [
      | none ↦ (true, s)
      | some backups ↦ if tried.0 then (true, restore_all backups tried.1) else tried
    ]
