-- ===== src/Tail/Prefix.antt =====
-- Which of the rows ever inserted in the view one execution of the statement counts.
use ise_exporter_v.Base.{
  ℕ, ◌≤◌, ◌<◌, List, Bool, true, false, ◌&&◌, ◌≡◌, refl, ap, ◌∙◌, sym, arith, ltb, leb, count,
  filter, inl, inr, In, ◌⊎◌, ltb→lt, leb→le, le→leb,
}
use ise_exporter_v.Tail.Query.{
  ViewRow, settled, above_floor, new_rows, first_unsettled, settled_prefix,
}
use ise_exporter_v.Tail.Engine.{settle}
use ise_exporter_v.Tail.Window.{
  count-filter, count-cong, In-filter, filter-In, top-In, top-reached, reach, within-reach,
}

Bool-ext : (a b : Bool) → (a ≡ true → b ≡ true) → (b ≡ true → a ≡ true) → a ≡ b
Bool-ext true b f g = sym (f refl)
Bool-ext false true f g = g refl
Bool-ext false false f g = refl

and-both : (a b : Bool) → (a && b) ≡ true → (a ≡ true) × (b ≡ true)
and-both true b h = (refl, h)
and-both false b h = cc

and_assoc : (a b c d : Bool) → (a && (b && (c && d))) ≡ ((a && (b && c)) && d)
and_assoc true true c d = refl
and_assoc true false c d = refl
and_assoc false b c d = refl

-- The ids in (low, high].
abbrev pub between : ℕ → ℕ → ViewRow → Bool
between low high r = ltb low r.row_id && leb r.row_id high

-- What a cycle may miss of the rows ever inserted: those up to the cursor (a purge removes old rows),
-- and those that come after every row of the view that has settled.
abbrev pub Missed : ℕ → ℕ → ℕ → List ViewRow → ViewRow → Type 0
Missed hwm settle sys view r =
    (r.row_id ≤ hwm)
    ⊎ ((s : ViewRow) → In s view → settled settle sys s ≡ true → s.row_id < r.row_id)

abbrev pub Complete : ℕ → ℕ → ℕ → ℕ → (ViewRow → Bool) → List ViewRow → Type 0
Complete hwm settle hours sys visible log =
    (r : ViewRow)
    → In r log
    → ((visible r ≡ true) × (above_floor hours sys r ≡ true))
      ⊎ Missed hwm settle sys (filter visible log) r

module _ (hwm settle hours sys : ℕ) (visible : ViewRow → Bool) (log : List ViewRow) where
  abbrev view : List ViewRow
  view = filter visible log

  abbrev fu : ℕ
  fu = first_unsettled settle sys (new_rows hwm hours sys view)

  abbrev taken : ViewRow → Bool
  taken r =
      visible r
      && ((ltb hwm r.row_id && above_floor hours sys r)
          && (settled settle sys r && ltb r.row_id fu))

  abbrev new_row : ViewRow → Bool
  new_row r = ltb hwm r.row_id && above_floor hours sys r

  abbrev old_row : ViewRow → Bool
  old_row r = settled settle sys r && ltb r.row_id fu

  taken-between :
      (r : ViewRow)
      → In r log
      → taken r ≡ true
      → between hwm (reach hwm settle hours sys view) r ≡ true
  unfolding settled_prefix new_rows
  taken-between r k h =
      let (v, more) = and-both (visible r) (new_row r && old_row r) h in
      let (n, o) = and-both (new_row r) (old_row r) more in
      let (low, _) = and-both (ltb hwm r.row_id) (above_floor hours sys r) n in
      let rows = new_rows hwm hours sys view in
      let in_rows : In r rows = In-filter new_row r view (In-filter visible r log k v) n in
      let bound = top-In r (settled_prefix settle sys rows) (In-filter old_row r rows in_rows o) in
      rw (low, le→leb r.row_id (reach hwm settle hours sys view) (omega (arith, bound))) refl

  between-taken :
      Complete hwm settle hours sys visible log
      → (r : ViewRow) → In r log
      → between hwm (reach hwm settle hours sys view) r ≡ true
      → taken r ≡ true
  unfolding settled_prefix new_rows
  between-taken complete r k h =
      let rows = new_rows hwm hours sys view in
      let far = reach hwm settle hours sys view in
      let (low, high) = and-both (ltb hwm r.row_id) (leb r.row_id far) h in
      let above = ltb→lt hwm r.row_id low in
      let below = leb→le r.row_id far high in
      elim (complete r k) [
        | inl (v, f) ↦
            let (x, b) =
              within-reach hwm settle hours sys view r (In-filter visible r log k v) f above
                below in
            rw (v, low, f, x, b) refl
        | inr (inl l) ↦ absurd (omega (arith, l, above))
        | inr (inr after) ↦
            let (s, ks, es) =
              top-reached (settled_prefix settle sys rows) (omega (arith, above, below)) in
            let (in_rows, o) = filter-In old_row s rows ks in
            let (in_view, _) = filter-In new_row s view in_rows in
            let (x, _) = and-both (settled settle sys s) (ltb s.row_id fu) o in
            absurd (omega (arith, after s in_view x, es, above, below))
      ]

  pub prefix_count :
      Complete hwm settle hours sys visible log
      → (q : ViewRow → Bool)
      → count q (settled_prefix settle sys (new_rows hwm hours sys view))
        ≡ count (λ r. between hwm (reach hwm settle hours sys view) r && q r) log
  unfolding settled_prefix new_rows
  prefix_count complete q =
      count-filter old_row q (new_rows hwm hours sys view)
      ∙ count-filter new_row (λ r. old_row r && q r) view
      ∙ count-filter visible (λ r. new_row r && (old_row r && q r)) log
      ∙ count-cong (λ r. visible r && (new_row r && (old_row r && q r)))
          (λ r. between hwm (reach hwm settle hours sys view) r && q r) log
          (λ r k.
            and_assoc (visible r) (new_row r) (old_row r) (q r)
            ∙ ap (λ b. b && q r)
                (Bool-ext (taken r) (between hwm (reach hwm settle hours sys view) r)
                  (taken-between r k) (between-taken complete r k)))
