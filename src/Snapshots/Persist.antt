-- ===== src/Snapshots/Persist.antt =====
-- ise_exporter/snapshots.py: serialize_metric_snapshot and restore_metric_snapshot. The payload is the
-- Python value between them; a part that a test on its type refuses is `none` or a constructor of its
-- own. A family's _labelnames are a function of its name.
use ise_exporter_v.Base.{
  ℕ, ◌+◌, List, [], ◌∷◌, ◌++◌, map, Bool, true, false, ◌&&◌, ◌||◌, not, String, str_eq, Option,
  none, some, ltb, ◌==◌, all, any, length, if◌then◌else◌,
}
use Prim.Native.String.{len}
use mathlib.Core.Option
use ise_exporter_v.Helpers.Label.{max_metric_label_bytes}
use ise_exporter_v.Base.Float.{PyFloat}
use ise_exporter_v.Snapshots.Store.{labelled, info, scalar, unsupported, Store, Writer}
use ise_exporter_v.Base.{unique}
use ise_exporter_v.Snapshots.Replace.{is_finite, validate_finite, replace_metric_snapshots}

abbrev pub max_persisted_snapshot_samples : ℕ
max_persisted_snapshot_samples = 20000

-- A stored sample: not a dict with a list of labels, or one with its labels (`none` for what is no
-- string) and its value (`none` where it is missing or no number).
pub data Stored : Type 0 where
  malformed : Stored
  sample : List (Option String) → Option PyFloat → Stored

pub record Item : Type 0 where
  pub labelnames : List String
  pub samples : Option (List Stored)

pub data Payload : Type 0 where
  other_version : Payload
  without_map : Payload
  metrics : List (String × Option Item) → Payload

abbrev pub too_large : String → Bool
too_large label = ltb max_metric_label_bytes (len label)

abbrev pub store_child : Store → List String × ℕ → Stored
store_child s c = sample (map (λ l. some l) c.0) (some (s.cell c.1))

abbrev pub stored_count : Item → ℕ
stored_count item = elim item.samples [ none ↦ 0 | some xs ↦ length xs ]

abbrev pub lookup : {V : Type 0} → String → List (String × V) → Option V
lookup n [] = none
lookup n (e ∷ es) = let rest = lookup n es in if str_eq n e.0 then some e.1 else rest

-- The labels of a stored sample, where all are strings.
abbrev pub strings : List (Option String) → Option (List String)
strings [] = some []
strings (none ∷ ls) = none
strings (some l ∷ ls) = Option.map (λ r. l ∷ r) (strings ls)

unfoldable pub prepare_sample : ℕ → Stored → Option (List String × PyFloat)
prepare_sample arity malformed = none
prepare_sample arity (sample labels none) = none
prepare_sample arity (sample labels (some v)) = elim (strings labels) [
  | none ↦ none
  | some ls ↦
      if length ls == arity && not (any too_large ls) && is_finite v then some (ls, v) else none
]

unfoldable pub prepare_samples : ℕ → List Stored → Option (List (List String × PyFloat))
unfolding prepare_sample
prepare_samples arity [] = some []
prepare_samples arity (x ∷ xs) = elim (prepare_sample arity x) [
  | none ↦ none
  | some v ↦ Option.map (λ r. v ∷ r) (prepare_samples arity xs)
]

abbrev pub same_strings : List String → List String → Bool
same_strings [] [] = true
same_strings (a ∷ others_a) (b ∷ others_b) = str_eq a b && same_strings others_a others_b
same_strings _ _ = false

-- A scalar has one value.
abbrev pub shape_ok : List String → List (List String × PyFloat) → Bool
shape_ok [] values = length values == 1
shape_ok (_ ∷ _) values = true

unfoldable pub prepare_item : List String → ℕ → Option Item → Option (List (List String × PyFloat))
unfolding prepare_samples
prepare_item names total none = none
prepare_item names total (some item) =
    let values : Option (List (List String × PyFloat)) = elim item.samples [
      | none ↦ none
      | some xs ↦ prepare_samples (length names) xs
    ] in
    if same_strings item.labelnames names
      && not (ltb max_persisted_snapshot_samples (total + stored_count item))
    then elim values [ none ↦ none | some vs ↦ if shape_ok names vs then some vs else none ]
    else none

-- The writers of one family: metric.labels(*labels).set(value), or metric.set(value).
abbrev pub writers_of :
    (String → List String → PyFloat → Writer) → String × List (List String × PyFloat) → List Writer
writers_of set_sample e = map (λ v. set_sample e.0 v.0 v.1) e.1

abbrev pub all_writers :
    (String → List String → PyFloat → Writer)
    → List (String × List (List String × PyFloat))
    → List Writer
all_writers set_sample [] = []
all_writers set_sample (e ∷ es) = writers_of set_sample e ++ all_writers set_sample es

module _ (labelnames : String → List String) where
  -- The entry of one family, where its labels are small enough; `none` for the errors.
  unfoldable pub serialize_family : Store → String → Option Item
  serialize_family s n = elim (s.content n) [
    | labelled children ↦
        if any (λ c. any too_large c.0) children
        then none
        else some
            (record { labelnames = labelnames n; samples = some (map (store_child s) children) })
    | scalar v ↦ some (record { labelnames = []; samples = some (sample [] (some v) ∷ []) })
    | info f ↦ none
    | unsupported ↦ none
  ]

  unfoldable pub serialize_from : Store → ℕ → List String → Option (List (String × Option Item))
  unfolding serialize_family
  serialize_from s total [] = some []
  serialize_from s total (n ∷ families) = elim (serialize_family s n) [
    | none ↦ none
    | some item ↦
        let next = total + stored_count item in
        let more = Option.map (λ r. (n, some item) ∷ r) (serialize_from s next families) in
        if str_eq n "" || ltb max_persisted_snapshot_samples next then none else more
  ]

  -- serialize_metric_snapshot(families)
  unfoldable pub serialize_metric_snapshot : List String → Store → Option Payload
  unfolding serialize_from validate_finite
  serialize_metric_snapshot families s =
      let names = unique families in
      let items = Option.map metrics (serialize_from s 0 names) in
      if validate_finite names s then items else none

  unfoldable pub prepare_from :
      List (String × Option Item)
      → ℕ
      → List String
      → Option (List (String × List (List String × PyFloat)))
  unfolding prepare_item
  prepare_from stored total [] = some []
  prepare_from stored total (n ∷ families) = elim (lookup n stored) [
    | none ↦ none
    | some item ↦ elim (prepare_item (labelnames n) total item) [
      | none ↦ none
      | some values ↦
          Option.map (λ r. (n, values) ∷ r) (prepare_from stored (total + length values) families)
    ]
  ]

  -- The checks of restore_metric_snapshot: the values of each family, or the ValueError.
  unfoldable pub prepare :
      List String → Payload → Option (List (String × List (List String × PyFloat)))
  unfolding prepare_from
  prepare families other_version = none
  prepare families without_map = none
  prepare families (metrics stored) =
      let names = unique families in
      let keys = map (λ e. e.0) stored in
      let values = prepare_from stored 0 names in
      if all (λ k. any (str_eq k) names) keys && all (λ n. any (str_eq n) keys) names
      then values
      else none

  -- restore_metric_snapshot(families, payload), where `set_sample` is the library's setter
  unfoldable pub restore_metric_snapshot :
      (String → List String → PyFloat → Writer) → List String → Payload → Store → Bool × Store
  unfolding prepare replace_metric_snapshots
  restore_metric_snapshot set_sample families payload s = elim (prepare families payload) [
    | none ↦ (true, s)
    | some values ↦
        replace_metric_snapshots ((unique families, all_writers set_sample values) ∷ []) [] [] s
  ]
