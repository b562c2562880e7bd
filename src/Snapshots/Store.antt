-- ===== src/Snapshots/Store.antt =====
-- ise_exporter/snapshots.py: the metric families as the module sees them. A labelled family maps
-- tuples of labels to child objects, which are shared: a copy of the map holds the same children. So
-- a child is the number of a cell, and the store has the cells' values. What a writer does inside the
-- metrics library is not modelled: a writer is any function on the store, with whether it raises.
use ise_exporter_v.Base.{ℕ, List, [], map, Bool, String, str_eq, if◌then◌else◌}
use ise_exporter_v.Base.Float.{PyFloat}

pub data Family : Type 0 where
  labelled : List (List String × ℕ) → Family
  info : List (String × String) → Family
  scalar : PyFloat → Family
  unsupported : Family

pub record Store : Type 0 where
  pub content : String → Family
  pub cell : ℕ → PyFloat

abbrev pub Writer : Type 0
Writer = Store → Bool × Store

-- One family's map, information or value is set.
abbrev pub put : String → Family → Store → Store
put name f s = record s { content = λ n. if str_eq n name then f else s.content n }

abbrev pub cells_of : Family → List ℕ
cells_of (labelled children) = map (λ c. c.1) children
cells_of _ = []

-- What a scrape reads of one family.
pub data Observed : Type 0 where
  samples : List (List String × PyFloat) → Observed
  fields : List (String × String) → Observed
  value : PyFloat → Observed
  nothing : Observed

abbrev pub read_children : Store → List (List String × ℕ) → List (List String × PyFloat)
read_children s children = map (λ c. (c.0, s.cell c.1)) children

abbrev pub read_family : Store → Family → Observed
read_family s (labelled children) = samples (read_children s children)
read_family s (info f) = fields f
read_family s (scalar v) = value v
read_family s unsupported = nothing

unfoldable pub scrape : Store → String → Observed
scrape s name = read_family s (s.content name)
