-- ===== src/Snapshots/Examples.antt =====
-- Replacements of metric families, and the theorems at concrete inputs.
use ise_exporter_v.Base.{
  List, [], ◌∷◌, true, false, ◌==◌, String, str_eq, some, if◌then◌else◌, ◌≡◌, ◌⊎◌, refl, arith,
}
use ise_exporter_v.Base.Float.{finite}
use ise_exporter_v.Base.Int.{pos}
use ise_exporter_v.Snapshots.Store.{labelled, scalar, Store, Writer, cells_of, scrape}
use ise_exporter_v.Base.{unique, unique_after}
use ise_exporter_v.Snapshots.Replace.{attempt, replace_metric_snapshots}
use ise_exporter_v.Snapshots.Checked.{Checked, replace-Checked}
use ise_exporter_v.Snapshots.Rollback.{Changed, rollback_restores, rollback_keeps_child}
use ise_exporter_v.Snapshots.Persist.{Payload, serialize_metric_snapshot, prepare, metrics, sample}
use ise_exporter_v.Snapshots.RoundTrip.{observed_all, prepare-serialize}

abbrev up : String
up = "ise_node_up"

-- One node, with its child in cell 0.
abbrev old : Store
old = record {
  content = λ n. if str_eq n up then labelled (("pan1" ∷ [], 0) ∷ []) else scalar (finite (pos 7));
  cell = λ c. finite (pos 1);
}

-- A collector that sees two nodes: their children are new.
abbrev two_nodes : Writer
two_nodes s = (
  false,
  record {
    content = λ n.
        if str_eq n up then labelled (("pan1" ∷ [], 1) ∷ ("psn1" ∷ [], 2) ∷ []) else s.content n;
    cell = λ c. if c == 0 then s.cell 0 else finite (pos 0);
  },
)

abbrev broken : Writer
broken s = (true, s)

rollback_restores_example :
    let after = (replace_metric_snapshots ((up ∷ [], two_nodes ∷ broken ∷ []) ∷ []) [] [] old).1 in
    (after.content up ≡ old.content up)
    × ((scrape after up ≡ scrape old up) ⊎ Changed old after (cells_of (old.content up)))
    × ((after.cell ≡ old.cell)
        ⊎ (after.cell ≡ (attempt ((up ∷ [], two_nodes ∷ broken ∷ []) ∷ []) [] [] old).1.cell))
unfolding replace_metric_snapshots attempt unique_after
rollback_restores_example =
    rollback_restores ((up ∷ [], two_nodes ∷ broken ∷ []) ∷ []) [] [] old up refl refl

replace-Checked_example :
    Checked
      ((up ∷ [], two_nodes ∷ []) ∷ [])
      []
      []
      old
      (replace_metric_snapshots ((up ∷ [], two_nodes ∷ []) ∷ []) [] [] old).1
unfolding replace_metric_snapshots unique_after
replace-Checked_example = replace-Checked ((up ∷ [], two_nodes ∷ []) ∷ []) [] [] old refl

rollback_keeps_child_example :
    let set_child : Writer =
      λ t. (false, record t { cell = λ k. if k == 0 then finite (pos 5) else t.cell k }) in
    let result = replace_metric_snapshots [] (up ∷ []) (set_child ∷ broken ∷ []) old in
    (result.0 ≡ true)
    × (result.1.content up ≡ labelled (("pan1" ∷ [], 0) ∷ []))
    × (result.1.cell 0 ≡ finite (pos 5))
rollback_keeps_child_example =
    rollback_keeps_child old up (("pan1" ∷ [], 0) ∷ []) 0 (finite (pos 5)) broken refl
      (λ t. (refl, refl))

abbrev node_labels : String → List String
node_labels n = if str_eq n up then "node" ∷ [] else []

abbrev stored_up : Payload
stored_up = metrics (
    (
      up,
      some (record {
        labelnames = "node" ∷ [];
        samples = some (sample (some "pan1" ∷ []) (some (finite (pos 1))) ∷ []);
      }),
    )
    ∷ [])

prepare-serialize_example :
    prepare node_labels (up ∷ up ∷ []) stored_up
    ≡ some (observed_all node_labels old (unique (up ∷ up ∷ [])))
unfolding serialize_metric_snapshot unique_after
prepare-serialize_example =
    prepare-serialize node_labels (up ∷ up ∷ []) old stored_up refl ((omega arith, (refl, tt)), tt)
