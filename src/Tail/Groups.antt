-- ===== src/Tail/Groups.antt =====
-- What grouping and the two folds over the groups compute.
use ise_exporter_v.Base.{
  ℕ, ◌+◌, max, map, List, [], ◌∷◌, Bool, true, false, ◌&&◌, String, ◌≡◌, refl, ap, ◌∙◌, arith, ltb,
  if◌then◌else◌, str_eq, eq_iff, count, Bool-cases, inl, inr,
}
use mathlib.Core.Path.{subst}
use ise_exporter_v.Tail.Query.{ViewRow, Group, same_labels, add_row, group_rows}
use ise_exporter_v.Tail.Engine.{advance, inc, increment}

pub same_labels_sound : (xs ys : List String) → same_labels xs ys ≡ true → xs ≡ ys
same_labels_sound [] [] h = refl
same_labels_sound [] (b ∷ ys) h = cc
same_labels_sound (a ∷ xs) [] h = cc
same_labels_sound (a ∷ xs) (b ∷ ys) h = elim (Bool-cases (str_eq a b)) [
  | inl e ↦
      rw
        (
          (eq_iff a b).0 e,
          same_labels_sound xs ys (subst (λ q. (q && same_labels xs ys) ≡ true) e h),
        )
        refl
  | inr e ↦ let n : false ≡ true = subst (λ q. (q && same_labels xs ys) ≡ true) e h in cc
]

-- The largest id of a list of rows, 0 for none.
unfoldable pub top : List ViewRow → ℕ
top [] = 0
top (r ∷ rs) = max r.row_id (top rs)

advance-max : (n h : ℕ) (gs : List Group) → advance (max h n) gs ≡ max (advance h gs) n
unfolding advance
advance-max n h [] = refl
advance-max n h (g ∷ gs) =
    let swap : max (max h n) g.max_id ≡ max (max h g.max_id) n = omega arith in
    ap (λ x. advance x gs) swap ∙ advance-max n (max h g.max_id) gs

advance-add :
    (h : ℕ) (r : ViewRow) (gs : List Group) → advance h (add_row r gs) ≡ max (advance h gs) r.row_id
unfolding advance add_row
advance-add h r [] = refl
advance-add h r (g ∷ gs) =
    let assoc : max h (max g.max_id r.row_id) ≡ max (max h g.max_id) r.row_id = omega arith in
    elim (Bool-cases (same_labels g.labels r.labels)) [
      | inl e ↦ rw e (ap (λ x. advance x gs) assoc ∙ advance-max r.row_id (max h g.max_id) gs)
      | inr e ↦ rw e (advance-add (max h g.max_id) r gs)
    ]

pub advance-group_rows : (h : ℕ) (rs : List ViewRow) → advance h (group_rows rs) ≡ max h (top rs)
unfolding advance group_rows top
advance-group_rows h [] = omega arith
advance-group_rows h (r ∷ rs) =
    let step = advance-add h r (group_rows rs) in
    let ih = advance-group_rows h rs in omega (arith, step, ih)

-- The events of the groups whose labels become `k`.
unfoldable pub weight : (String → String) → List String → List Group → ℕ
weight f k [] = 0
weight f k (g ∷ gs) = (if same_labels k (map f g.labels) then g.events else 0) + weight f k gs

abbrev pub labelled : (String → String) → List String → ViewRow → Bool
labelled f k r = same_labels k (map f r.labels)

pub increment-weight :
    (f : String → String) (k : List String) (gs : List Group) (counter : List String → ℕ)
    → increment f gs counter k ≡ counter k + weight f k gs
unfolding increment weight
increment-weight f k [] counter = omega arith
increment-weight f k (g ∷ gs) counter =
    let ih =
      increment-weight f k gs
        (if ltb 0 g.events then inc (map f g.labels) g.events counter else counter) in
    ground (arith, ih)

weight-add :
    (f : String → String) (k : List String) (r : ViewRow) (gs : List Group)
    → weight f k (add_row r gs) ≡ weight f k gs + (if labelled f k r then 1 else 0)
unfolding weight add_row
weight-add f k r [] = omega arith
weight-add f k r (g ∷ gs) =
    let ih = weight-add f k r gs in
    elim (Bool-cases (same_labels g.labels r.labels)) [
      | inl e ↦ rw (e, same_labels_sound g.labels r.labels e) (ground arith)
      | inr e ↦ rw (e, ih) (omega arith)
    ]

pub weight-group_rows :
    (f : String → String) (k : List String) (rs : List ViewRow)
    → weight f k (group_rows rs) ≡ count (labelled f k) rs
unfolding weight group_rows
weight-group_rows f k [] = refl
weight-group_rows f k (r ∷ rs) =
    let step = weight-add f k r (group_rows rs) in
    let ih = weight-group_rows f k rs in omega (arith, step, ih)
