-- ===== src/Tail/Engine.antt =====
-- ise_exporter/collectors/dataconnect_tail.py: tail_counters, for one view. The state is the view's
-- row of the cursor table, the counter's value for each tuple of labels, and the count of resets.
-- `metric_label` cuts a long label with a SHA-256 digest; it is a parameter.
use ise_exporter_v.Base.{
  ℕ, ◌+◌, ◌-◌, min, max, map, List, [], ◌∷◌, Bool, true, false, ◌&&◌, ◌||◌, String, Option, none,
  some, get_or, ltb, if◌then◌else◌,
}
use ise_exporter_v.Base.Int.{ℤ, pos_part}
use ise_exporter_v.Tail.Query.{ViewRow, Group, same_labels, min_id, max_id, tail_query}

-- dataconnect_tail_settle_seconds and dataconnect_tail_max_backfill_hours
pub record TailConfig : Type 0 where
  pub tail_settle_seconds : ℤ
  pub tail_max_backfill_hours : ℤ

abbrev pub settle : TailConfig → ℕ
settle cfg = pos_part cfg.tail_settle_seconds

abbrev pub floor_hours : TailConfig → ℕ
floor_hours cfg = max 1 (min 24 (pos_part cfg.tail_max_backfill_hours))

pub record Cursor : Type 0 where
  pub value : ℕ
  pub anchor : ℕ
  pub updated_at : ℕ

pub record TailState : Type 0 where
  pub cursor : Option Cursor
  pub counter : List String → ℕ
  pub resets : ℕ

-- The rows of the view at the times of the three statements of a cycle, and Oracle's clock at the
-- last of them. `failed` is an error that one of them raises.
pub data Database : Type 0 where
  answers : List ViewRow → List ViewRow → ℕ → List ViewRow → Database
  failed : Database

unfoldable pub is_reset : Cursor → Option ℕ → Option ℕ → List Group → Bool
is_reset c lowest highest rows =
    let dropped : Bool = elim lowest [ none ↦ false | some m ↦ ltb 0 c.anchor && ltb m c.anchor ] in
    let quiet : Bool = elim rows [ [] ↦ true | _ ∷ _ ↦ false ] in
    let below : Bool = elim highest [ none ↦ false | some m ↦ ltb m c.value ] in
    dropped || quiet && below

-- new_hwm, over the rows of the result
unfoldable pub advance : ℕ → List Group → ℕ
advance hwm [] = hwm
advance hwm (g ∷ gs) = advance (max hwm g.max_id) gs

abbrev pub inc : List String → ℕ → (List String → ℕ) → List String → ℕ
inc labels n counter k = if same_labels k labels then counter k + n else counter k

module _ (metric_label : String → String) where
  -- The loop over the increments, at the end.
  unfoldable pub increment : List Group → (List String → ℕ) → List String → ℕ
  increment [] counter = counter
  increment (g ∷ gs) counter =
      increment gs
        (if ltb 0 g.events then inc (map metric_label g.labels) g.events counter else counter)

  -- The cycle on the answers of the statements, with a cursor in the table.
  unfoldable pub fold_rows : ℕ → Cursor → Option ℕ → Option ℕ → List Group → TailState → TailState
  unfolding is_reset advance increment
  fold_rows now c lowest highest rows t =
      let at_bottom : Cursor = record {
        value = get_or lowest 0 - 1;
        anchor = get_or lowest 0;
        updated_at = now;
      } in
      let refreshed : Option Cursor = elim lowest [
        | none ↦ t.cursor
        | some m ↦ some (record { value = c.value; anchor = m; updated_at = now })
      ] in
      let advanced : Cursor = record {
        value = advance c.value rows;
        anchor = get_or lowest c.anchor;
        updated_at = now;
      } in
      let counted = increment rows t.counter in
      if is_reset c lowest highest rows
      then record t { cursor = some at_bottom; resets = t.resets + 1 }
      else elim rows [
        | [] ↦ record t { cursor = refreshed }
        | _ ∷ _ ↦ record t { cursor = some advanced; counter = counted }
      ]

  -- tail_counters(...), at the time `now`; `has_id` is false where the known schema lacks the id.
  unfoldable pub tail_counters : TailConfig → Bool → ℕ → Database → TailState → TailState
  unfolding tail_query min_id max_id fold_rows
  tail_counters cfg false now db t = t
  tail_counters cfg true now failed t = t
  tail_counters cfg true now (answers at_min at_max systimestamp at_tail) t =
      let lowest = min_id at_min in
      let highest = max_id at_max in
      let seed : Cursor = record {
        value = get_or highest 0;
        anchor = get_or lowest 0;
        updated_at = now;
      } in
      elim t.cursor [
        | none ↦ record t { cursor = some seed }
        | some c ↦
            fold_rows now c lowest highest
              (tail_query c.value (settle cfg) (floor_hours cfg) systimestamp at_tail) t
      ]
