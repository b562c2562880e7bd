-- ===== src/Tail/Query.antt =====
-- ise_exporter/collectors/dataconnect_tail.py: what the SQL of tail_query, meta_min_query and
-- meta_max_query selects from the rows of a view. An id is a natural number, a timestamp a number of
-- microseconds; a row's labels are the projected columns, after NVL. The floor audit is left out: its
-- count is only logged.
use ise_exporter_v.Base.{
  ℕ, ◌+◌, ◌*◌, min, max, List, [], ◌∷◌, Bool, true, false, ◌&&◌, not, String, Option, none, some,
  get_or, ltb, leb, if◌then◌else◌, str_eq, filter,
}
use ise_exporter_v.Base.Float.{seconds}

pub record ViewRow : Type 0 where
  pub row_id : ℕ
  pub timestamp : ℕ
  pub labels : List String

-- A row of the statement's result.
pub record Group : Type 0 where
  pub labels : List String
  pub events : ℕ
  pub max_id : ℕ

-- timestamp < SYSTIMESTAMP - :settle_seconds
abbrev pub settled : ℕ → ℕ → ViewRow → Bool
settled settle_seconds systimestamp r = ltb (r.timestamp + seconds settle_seconds) systimestamp

-- timestamp >= SYSTIMESTAMP - :floor_hours
abbrev pub above_floor : ℕ → ℕ → ViewRow → Bool
above_floor floor_hours systimestamp r =
    leb systimestamp (r.timestamp + seconds (floor_hours * 3600))

-- WITH new_rows AS (...)
unfoldable pub new_rows : ℕ → ℕ → ℕ → List ViewRow → List ViewRow
new_rows hwm floor_hours systimestamp view =
    filter (λ r. ltb hwm r.row_id && above_floor floor_hours systimestamp r) view

abbrev pub smaller : ℕ → Option ℕ → Option ℕ
smaller n none = some n
smaller n (some m) = some (min n m)

abbrev pub larger : ℕ → Option ℕ → Option ℕ
larger n none = some n
larger n (some m) = some (max n m)

-- SELECT MIN(id) and SELECT MAX(id); `none` is NULL
unfoldable pub min_id : List ViewRow → Option ℕ
min_id [] = none
min_id (r ∷ rs) = smaller r.row_id (min_id rs)

unfoldable pub max_id : List ViewRow → Option ℕ
max_id [] = none
max_id (r ∷ rs) = larger r.row_id (max_id rs)

-- NVL(MIN(CASE WHEN settled = 0 THEN id END), MAX(id) + 1); NULL for no rows, where 0 stands
unfoldable pub first_unsettled : ℕ → ℕ → List ViewRow → ℕ
unfolding min_id max_id
first_unsettled settle_seconds systimestamp rows =
    get_or (min_id (filter (λ r. not (settled settle_seconds systimestamp r)) rows))
      (elim (max_id rows) [ none ↦ 0 | some m ↦ m + 1 ])

abbrev pub same_labels : List String → List String → Bool
same_labels [] [] = true
same_labels (a ∷ others_a) (b ∷ others_b) = str_eq a b && same_labels others_a others_b
same_labels _ _ = false

-- GROUP BY, with COUNT(*) and MAX(id)
unfoldable pub add_row : ViewRow → List Group → List Group
add_row r [] = record { labels = r.labels; events = 1; max_id = r.row_id } ∷ []
add_row r (g ∷ gs) =
    let others = add_row r gs in
    if same_labels g.labels r.labels
    then record g { events = g.events + 1; max_id = max g.max_id r.row_id } ∷ gs
    else g ∷ others

unfoldable pub group_rows : List ViewRow → List Group
unfolding add_row
group_rows [] = []
group_rows (r ∷ rs) = add_row r (group_rows rs)

-- WHERE nr.settled = 1 AND nr.id < b.first_unsettled
unfoldable pub settled_prefix : ℕ → ℕ → List ViewRow → List ViewRow
unfolding first_unsettled
settled_prefix settle_seconds systimestamp rows =
    filter
      (λ r.
        settled settle_seconds systimestamp r
        && ltb r.row_id (first_unsettled settle_seconds systimestamp rows))
      rows

unfoldable pub tail_query : ℕ → ℕ → ℕ → ℕ → List ViewRow → List Group
unfolding new_rows settled_prefix group_rows
tail_query hwm settle_seconds floor_hours systimestamp view =
    group_rows
      (settled_prefix settle_seconds systimestamp (new_rows hwm floor_hours systimestamp view))
