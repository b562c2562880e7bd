-- ===== src/Tail/Window.antt =====
-- ise_exporter/collectors/dataconnect_tail.py: the settled prefix and the boundary of the statement.
use ise_exporter_v.Base.{
  ℕ, ◌≤◌, ◌<◌, max, min, List, [], ◌∷◌, Bool, true, false, ◌&&◌, not, some, ◌≡◌, refl, sym, arith,
  ltb, if◌then◌else◌, count, filter, Bool-cases, Option-cases, inl, inr, In, ltb→lt, lt→ltb,
}
use mathlib.Core.Path.{subst}
use ise_exporter_v.Tail.Query.{
  ViewRow, settled, above_floor, new_rows, min_id, first_unsettled, settled_prefix,
}
use ise_exporter_v.Tail.Groups.{top}

module _ {A : Type 0} where
  pub count-filter :
      (p q : A → Bool) (xs : List A) → count q (filter p xs) ≡ count (λ x. p x && q x) xs
  count-filter p q [] = refl
  count-filter p q (x ∷ xs) =
      let ih = count-filter p q xs in
      elim (Bool-cases (p x)) [ inl e ↦ rw e (rw ih refl) | inr e ↦ rw e (omega (arith, ih)) ]

  pub count-cong :
      (p q : A → Bool) (xs : List A) → ((x : A) → In x xs → p x ≡ q x) → count p xs ≡ count q xs
  count-cong p q [] h = refl
  count-cong p q (x ∷ xs) h = rw (h x (inl refl), count-cong p q xs (λ y k. h y (inr k))) refl

  pub In-filter : (p : A → Bool) (x : A) (xs : List A) → In x xs → p x ≡ true → In x (filter p xs)
  In-filter p x [] k h = k
  In-filter p x (y ∷ xs) (inl e) h =
      let hit : p y ≡ true = subst (λ z. p z ≡ true) e h in rw hit (inl e)
  In-filter p x (y ∷ xs) (inr k) h =
      let ih = In-filter p x xs k h in
      elim (Bool-cases (p y)) [ inl q ↦ rw q (inr ih) | inr q ↦ rw q ih ]

  pub filter-In : (p : A → Bool) (x : A) (xs : List A) → In x (filter p xs) → In x xs × (p x ≡ true)
  filter-In p x [] k = absurd k
  filter-In p x (y ∷ xs) k = elim (Bool-cases (p y)) [
    | inl q ↦
        let kept : In x (y ∷ filter p xs) =
          subst (λ b. In x (if b then y ∷ filter p xs else filter p xs)) q k in
        elim kept [
          | inl e ↦ (inl e, subst (λ z. p z ≡ true) (sym e) q)
          | inr m ↦ let (i, h) = filter-In p x xs m in (inr i, h)
        ]
    | inr q ↦
        let kept : In x (filter p xs) =
          subst (λ b. In x (if b then y ∷ filter p xs else filter p xs)) q k in
        let (i, h) = filter-In p x xs kept in (inr i, h)
  ]

pub top-In : (r : ViewRow) (rs : List ViewRow) → In r rs → r.row_id ≤ top rs
unfolding top
top-In r [] k = absurd k
top-In r (s ∷ rs) (inl e) = rw e (omega arith)
top-In r (s ∷ rs) (inr k) = let ih = top-In r rs k in omega (arith, ih)

pub top-reached : (rs : List ViewRow) → 0 < top rs → (s : ViewRow) × In s rs × (s.row_id ≡ top rs)
unfolding top
top-reached [] h = absurd (omega arith)
top-reached (r ∷ rs) h = elim (Bool-cases (ltb r.row_id (top rs))) [
  | inl b ↦ let (s, k, e) = top-reached rs (ground arith) in (s, inr k, ground (arith, e))
  | inr b ↦ (r, inl refl, ground arith)
]

pub min_id-below :
    (r : ViewRow) (rs : List ViewRow) → In r rs → (m : ℕ) × (min_id rs ≡ some m) × (m ≤ r.row_id)
unfolding min_id
min_id-below r [] k = absurd k
min_id-below r (s ∷ rs) (inl e) = elim (Option-cases (min_id rs)) [
  | inl n ↦ (s.row_id, rw n refl, rw e (omega arith))
  | inr (m, n) ↦ (min s.row_id m, rw n refl, rw e (omega arith))
]
min_id-below r (s ∷ rs) (inr k) =
    let (m, n, l) = min_id-below r rs k in (min s.row_id m, rw n refl, omega (arith, l))

-- Every unsettled row bounds the boundary.
pub first_unsettled-below :
    (settle sys : ℕ) (r : ViewRow) (rows : List ViewRow)
    → In r rows
    → settled settle sys r ≡ false
    → first_unsettled settle sys rows ≤ r.row_id
unfolding first_unsettled
first_unsettled-below settle sys r rows k u =
    let unsettled : ViewRow → Bool = λ x. not (settled settle sys x) in
    let (m, n, l) =
      min_id-below r (filter unsettled rows) (In-filter unsettled r rows k (rw u refl)) in
    rw n l

-- How far the statement reaches, on the rows of a view above the cursor.
abbrev pub reach : ℕ → ℕ → ℕ → ℕ → List ViewRow → ℕ
reach hwm settle hours sys view =
    max hwm (top (settled_prefix settle sys (new_rows hwm hours sys view)))

-- A row of the view above the cursor and not older than the floor is counted where it lies within
-- the reach, provided that it is settled; and one within the reach is settled.
pub within-reach :
    (hwm settle hours sys : ℕ) (view : List ViewRow) (r : ViewRow)
    → In r view
    → above_floor hours sys r ≡ true
    → hwm < r.row_id
    → r.row_id ≤ reach hwm settle hours sys view
    → (settled settle sys r ≡ true)
      × (ltb r.row_id (first_unsettled settle sys (new_rows hwm hours sys view)) ≡ true)
unfolding settled_prefix new_rows
within-reach hwm settle hours sys view r k fresh above below =
    let rows = new_rows hwm hours sys view in
    let fu = first_unsettled settle sys rows in
    let (s, ks, es) = top-reached (settled_prefix settle sys rows) (omega arith) in
    let (_, passed) = filter-In (λ x. settled settle sys x && ltb x.row_id fu) s rows ks in
    let nearer : ltb r.row_id fu ≡ true = ground (arith, passed, es) in
    let is_new : In r rows =
      In-filter (λ x. ltb hwm x.row_id && above_floor hours sys x) r view k
        (rw (lt→ltb hwm r.row_id above, fresh) refl) in
    elim (Bool-cases (settled settle sys r)) [
      | inl y ↦ (y, nearer)
      | inr n ↦
          let bound = first_unsettled-below settle sys r rows is_new n in
          absurd (omega (arith, bound, ltb→lt r.row_id fu nearer))
    ]
