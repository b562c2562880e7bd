-- ===== src/Tail/Once.antt =====
-- ise_exporter/collectors/dataconnect_tail.py: sequences of cycles without a reset.
use ise_exporter_v.Base.{
  ℕ, ◌+◌, ◌≤◌, ◌<◌, List, [], ◌∷◌, Bool, true, false, ◌&&◌, String, Option, none, some, get_or, ◌≡◌,
  refl, ap, ◌∙◌, sym, arith, ltb, count, filter, Bool-cases, inl, inr, In, ltb→lt,
}
use mathlib.Core.Path.{subst}
use ise_exporter_v.Tail.Query.{
  ViewRow, Group, settled, above_floor, new_rows, min_id, max_id, settled_prefix, tail_query,
}
use ise_exporter_v.Tail.Engine.{
  TailConfig, settle, floor_hours, Cursor, TailState, answers, is_reset, advance, fold_rows,
  tail_counters,
}
use ise_exporter_v.Tail.Groups.{
  labelled, weight, advance-group_rows, increment-weight, weight-group_rows,
}
use ise_exporter_v.Tail.Window.{reach, within-reach}
use ise_exporter_v.Tail.Prefix.{between, Complete, prefix_count}

fold_rows_steady :
    (f : String → String) (now : ℕ) (c : Cursor) (lowest highest : Option ℕ) (rows : List Group)
    (t : TailState)
    → t.cursor ≡ some c
    → is_reset c lowest highest rows ≡ false
    → ((d : Cursor) × ((fold_rows f now c lowest highest rows t).cursor ≡ some d)
        × (d.value ≡ advance c.value rows))
      × ((k : List String)
          → (fold_rows f now c lowest highest rows t).counter k ≡ t.counter k + weight f k rows)
unfolding fold_rows advance weight
fold_rows_steady f now c none highest [] t e q = rw q ((c, e, refl), λ k. omega arith)
fold_rows_steady f now c (some m) highest [] t e q =
    rw q ((record { value = c.value; anchor = m; updated_at = now }, refl, refl), λ k. omega arith)
fold_rows_steady f now c lowest highest (g ∷ gs) t e q = rw q (
  (
    record { value = advance c.value (g ∷ gs); anchor = get_or lowest c.anchor; updated_at = now },
    refl,
    refl,
  ),
  λ k. increment-weight f k (g ∷ gs) t.counter,
)

-- A cycle in which the statements succeed, at `now`, with the part of the log that the last of them
-- sees.
pub record Cycle : Type 0 where
  pub now : ℕ
  pub at_min : List ViewRow
  pub at_max : List ViewRow
  pub systimestamp : ℕ
  pub visible : ViewRow → Bool

module _ (metric_label : String → String) (cfg : TailConfig) (log : List ViewRow) where
  abbrev pub cycle : Cycle → TailState → TailState
  cycle y t =
      tail_counters metric_label cfg true y.now
        (answers y.at_min y.at_max y.systimestamp (filter y.visible log)) t

  abbrev pub cycles : List Cycle → TailState → TailState
  cycles [] t = t
  cycles (y ∷ ys) t = cycles ys (cycle y t)

  abbrev pub hwm : TailState → ℕ
  hwm t = elim t.cursor [ none ↦ 0 | some c ↦ c.value ]

  abbrev pub found : Cycle → Cursor → List Group
  found y c =
      tail_query c.value (settle cfg) (floor_hours cfg) y.systimestamp (filter y.visible log)

  -- The cycle notices no reset, and each logged row is visible and not older than the floor, or the
  -- cursor does not pass it in this cycle.
  abbrev pub Steady : Cycle → Cursor → Type 0
  Steady y c =
      (is_reset c (min_id y.at_min) (max_id y.at_max) (found y c) ≡ false)
      × Complete c.value (settle cfg) (floor_hours cfg) y.systimestamp y.visible log

  abbrev pub AllSteady : List Cycle → TailState → Type 0
  AllSteady [] t = Unit {0}
  AllSteady (y ∷ ys) t = ((c : Cursor) → t.cursor ≡ some c → Steady y c) × AllSteady ys (cycle y t)

  -- The hypothesis at one cycle, where the cursor is known.
  pub Steady-cursor :
      (y : Cycle) (t : TailState) (c : Cursor)
      → t.cursor ≡ some c
      → Steady y c
      → (d : Cursor) → t.cursor ≡ some d
      → Steady y d
  Steady-cursor y t c e h d f = subst (λ x. Steady y x) (ap (λ o. get_or o c) (sym e ∙ f)) h

  cycle_steady :
      (y : Cycle) (t : TailState) (c : Cursor)
      → t.cursor ≡ some c
      → is_reset c (min_id y.at_min) (max_id y.at_max) (found y c) ≡ false
      → ((d : Cursor) × ((cycle y t).cursor ≡ some d) × (d.value ≡ advance c.value (found y c)))
        × ((k : List String)
            → (cycle y t).counter k ≡ t.counter k + weight metric_label k (found y c))
  unfolding tail_counters fold_rows
  cycle_steady y t c e q = rw e (
      fold_rows_steady metric_label y.now c (min_id y.at_min) (max_id y.at_max) (found y c)
        (record t { cursor = some c }) refl q)

  -- One cycle, against the log.
  cycle_once :
      (y : Cycle) (t : TailState) (c : Cursor)
      → t.cursor ≡ some c
      → Steady y c
      → ((d : Cursor) × ((cycle y t).cursor ≡ some d))
        × (hwm t ≤ hwm (cycle y t))
        × ((k : List String)
            → (cycle y t).counter k
              ≡ t.counter k
                + count (λ r. between (hwm t) (hwm (cycle y t)) r && labelled metric_label k r) log)
  unfolding tail_query
  cycle_once y t c e (q, complete) =
      let ((d, ed, v), counted) = cycle_steady y t c e q in
      let sys = y.systimestamp in
      let seen = filter y.visible log in
      let rows = settled_prefix (settle cfg) sys (new_rows c.value (floor_hours cfg) sys seen) in
      let far : advance c.value (found y c)
          ≡ reach c.value (settle cfg) (floor_hours cfg) sys seen =
        advance-group_rows c.value rows in
      let old : hwm t ≡ c.value = rw e refl in
      let new : hwm (cycle y t) ≡ reach c.value (settle cfg) (floor_hours cfg) sys seen =
        rw ed (v ∙ far) in
      (
        (d, ed),
        omega (arith, old, new),
        λ k.
            rw (old, new)
              (counted k
                ∙ ap (λ n. t.counter k + n)
                    (weight-group_rows metric_label k rows
                      ∙ prefix_count c.value (settle cfg) (floor_hours cfg) sys y.visible log
                          complete (labelled metric_label k))),
      )

  between-join :
      (a b c : ℕ) (q : ViewRow → Bool) (rs : List ViewRow)
      → a ≤ b
      → b ≤ c
      → count (λ r. between a c r && q r) rs
        ≡ count (λ r. between a b r && q r) rs + count (λ r. between b c r && q r) rs
  between-join a b c q [] m n = omega arith
  between-join a b c q (r ∷ rs) m n = let ih = between-join a b c q rs m n in ground (arith, ih)

  between-empty :
      (a : ℕ) (q : ViewRow → Bool) (rs : List ViewRow) → count (λ r. between a a r && q r) rs ≡ 0
  between-empty a q [] = refl
  between-empty a q (r ∷ rs) = let ih = between-empty a q rs in ground (arith, ih)

  -- Take any sequence of cycles, none of which notices a reset. Let each logged row, at the last
  -- statement of each cycle, be visible and not older than the backfill floor, or lie at or below the
  -- cursor, or have a higher id than every visible row that has settled. (So a row whose id the cursor
  -- passes, settled or not, is visible by then: that a row becomes visible only after settled rows with
  -- higher ids, because its transaction commits late, is excluded.) Then the cursor never goes back and
  -- each counter grows by the number of logged rows with its labels between the first cursor and the
  -- last one: every logged row that the cursor passes is counted once, in whichever cycle it settled.
  pub cycles_exactly_once :
      (ys : List Cycle) (t : TailState) (c : Cursor)
      → t.cursor ≡ some c
      → AllSteady ys t
      → (hwm t ≤ hwm (cycles ys t))
        × ((k : List String)
            → (cycles ys t).counter k
              ≡ t.counter k
                + count
                    (λ r. between (hwm t) (hwm (cycles ys t)) r && labelled metric_label k r)
                    log)
  cycles_exactly_once [] t c e steady =
      (omega arith, λ k. rw (between-empty (hwm t) (labelled metric_label k) log) (omega arith))
  cycles_exactly_once (y ∷ ys) t c e steady =
      let ((d, ed), grows, counted) = cycle_once y t c e (steady.0 c e) in
      let (more, later) = cycles_exactly_once ys (cycle y t) d ed steady.1 in
      (
        omega (arith, grows, more),
        λ k.
            let joined =
              between-join (hwm t) (hwm (cycle y t)) (hwm (cycles ys (cycle y t)))
                (labelled metric_label k) log grows more in
            omega (arith, counted k, later k, joined),
      )

  -- A cycle without a reset leaves the cursor below every row that had not settled, if the row lay
  -- above the cursor and was not older than the backfill floor: a row with a higher id that has
  -- settled does not take the cursor past it.
  pub cursor_waits :
      (y : Cycle) (t : TailState) (c : Cursor) (r : ViewRow)
      → t.cursor ≡ some c
      → is_reset c (min_id y.at_min) (max_id y.at_max) (found y c) ≡ false
      → In r (filter y.visible log)
      → above_floor (floor_hours cfg) y.systimestamp r ≡ true
      → hwm t < r.row_id
      → settled (settle cfg) y.systimestamp r ≡ false
      → hwm (cycle y t) < r.row_id
  unfolding tail_query
  cursor_waits y t c r e q k fresh above unsettled =
      let ((d, ed, v), _) = cycle_steady y t c e q in
      let sys = y.systimestamp in
      let seen = filter y.visible log in
      let far : advance c.value (found y c)
          ≡ reach c.value (settle cfg) (floor_hours cfg) sys seen =
        advance-group_rows c.value
          (settled_prefix (settle cfg) sys (new_rows c.value (floor_hours cfg) sys seen)) in
      let old : hwm t ≡ c.value = rw e refl in
      let new : hwm (cycle y t) ≡ reach c.value (settle cfg) (floor_hours cfg) sys seen =
        rw ed (v ∙ far) in
      elim (Bool-cases (ltb (hwm (cycle y t)) r.row_id)) [
        | inl b ↦ ltb→lt (hwm (cycle y t)) r.row_id b
        | inr b ↦
            let reached : r.row_id ≤ hwm (cycle y t) = ground arith in
            let (x, _) =
              within-reach c.value (settle cfg) (floor_hours cfg) sys seen r k fresh
                (omega (arith, old, above)) (omega (arith, new, reached)) in
            let clash : true ≡ false = sym x ∙ unsettled in cc
      ]
