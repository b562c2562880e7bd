-- ===== src/Tail/Reset.antt =====
-- ise_exporter/collectors/dataconnect_tail.py: the cycle that notices a rebuilt sequence of ids.
use ise_exporter_v.Base.{
  ℕ, ◌+◌, ◌-◌, ◌≤◌, ◌<◌, List, true, String, some, get_or, ◌≡◌, refl, arith, All, In, All-In, [],
  ◌∷◌, max, ◌⊎◌, inl, inr,
}
use ise_exporter_v.Tail.Query.{ViewRow, Group, min_id, max_id, tail_query}
use ise_exporter_v.Tail.Engine.{
  TailConfig, settle, floor_hours, Cursor, TailState, answers, is_reset, fold_rows, tail_counters,
}
use ise_exporter_v.Tail.Window.{min_id-below}

-- The highest of ids that all lie below a bound.
max_id-below :
    (bound : ℕ) (r : ViewRow) (rs : List ViewRow)
    → In r rs
    → ((x : ViewRow) → In x rs → x.row_id < bound)
    → (m : ℕ) × (max_id rs ≡ some m) × (m < bound)
unfolding max_id
max_id-below bound r [] k h = absurd k
max_id-below bound r (s ∷ []) k h = (s.row_id, refl, h s (inl refl))
max_id-below bound r (s ∷ x ∷ rs) k h =
    let (m, e, l) = max_id-below bound x (x ∷ rs) (inl refl) (λ y i. h y (inr i)) in
    let here = h s (inl refl) in (max s.row_id m, rw e refl, omega (arith, l, here))

-- Signs of a rebuilt sequence: a row below the lowest id that the previous cycle saw, or no new row
-- for the statement while every row of the view lies below the cursor, and there is one.
abbrev pub Rebuilt : Cursor → List ViewRow → List ViewRow → List Group → Type 0
Rebuilt c at_min at_max rows =
    ((r : ViewRow) × In r at_min × (r.row_id < c.anchor))
    ⊎ ((rows ≡ [])
        × ((r : ViewRow) × In r at_max)
        × ((r : ViewRow) → In r at_max → r.row_id < c.value))

Rebuilt-is_reset :
    (c : Cursor) (at_min at_max : List ViewRow) (rows : List Group)
    → Rebuilt c at_min at_max rows
    → is_reset c (min_id at_min) (max_id at_max) rows ≡ true
unfolding is_reset
Rebuilt-is_reset c at_min at_max rows (inl (r, k, l)) =
    let (m, n, below) = min_id-below r at_min k in rw n (ground (arith, below, l))
Rebuilt-is_reset c at_min at_max rows (inr (e, (r, k), h)) =
    let (m, n, below) = max_id-below c.value r at_max k h in rw (e, n) (ground (arith, below))

module _ (metric_label : String → String) (cfg : TailConfig) where
  -- Where the view holds a row below the anchor, or has no new row for the statement while it holds rows
  -- and all of them lie below the cursor, a cycle changes no counter, counts one reset, and leaves a
  -- cursor below the id of every row that the view had at the first statement, if ids start at 1.
  pub reset-rescans :
      (now sys : ℕ) (at_min at_max at_tail : List ViewRow) (t : TailState) (c : Cursor)
      → t.cursor ≡ some c
      → Rebuilt c at_min at_max (tail_query c.value (settle cfg) (floor_hours cfg) sys at_tail)
      → All (λ r. 1 ≤ r.row_id) at_min
      → let after = tail_counters metric_label cfg true now (answers at_min at_max sys at_tail) t in
        (after.counter ≡ t.counter)
        × (after.resets ≡ t.resets + 1)
        × ((d : Cursor) × (after.cursor ≡ some d)
            × ((r : ViewRow) → In r at_min → d.value < r.row_id))
  unfolding tail_counters fold_rows
  reset-rescans now sys at_min at_max at_tail t c e rebuilt positive =
      let rows = tail_query c.value (settle cfg) (floor_hours cfg) sys at_tail in
      let q = Rebuilt-is_reset c at_min at_max rows rebuilt in
      rw e (
        rw q (
          refl,
          refl,
          (
            record {
              value = get_or (min_id at_min) 0 - 1;
              anchor = get_or (min_id at_min) 0;
              updated_at = now;
            },
            refl,
            λ r k.
                let (m, n, l) = min_id-below r at_min k in
                let one = All-In (λ x. 1 ≤ x.row_id) r at_min positive k in
                rw n (omega (arith, l, one)),
          ),
        ))
