-- ===== src/Rest/PanWalk.antt =====
-- The loop of get_pan_api_all as a walk along the links of the pages.
use ise_exporter_v.Base.{
  ℕ, zero, suc, ◌+◌, ◌≤◌, List, [], ◌∷◌, ◌++◌, append_assoc, ◌||◌, not, false, String, Option, none,
  some, get_or, length, length-append, ltb, any, str_eq, ◌≡◌, refl, sym, ap, ◌∙◌, arith, Bool-cases,
  Option-cases, inl, inr,
}
use mathlib.Core.Path.{subst}
use ise_exporter_v.Rest.Page.{
  absent, ill_typed, proper, NextPage, no_next, not_a_dict, linked, split_once, before_query,
  finished, refused, request,
}
use ise_exporter_v.Rest.Walk.{Turn-cases}
use ise_exporter_v.Rest.Pan.{PanPage, bad_envelope, pan_page, pan_turn, add_page, pan_follow}

pan_turn-finished :
    (resource_path : String) (visited : List String) (next : NextPage)
    → pan_turn resource_path visited next ≡ finished
    → next ≡ no_next
unfolding pan_turn
pan_turn-finished rp visited no_next e = refl
pan_turn-finished rp visited not_a_dict e = cc
pan_turn-finished rp visited (linked absent) e = cc
pan_turn-finished rp visited (linked ill_typed) e = cc
pan_turn-finished rp visited (linked (proper href)) e =
    elim (Option-cases (split_once "/api/v1/" href)) [
      | inl s ↦
          let r : pan_turn rp visited (linked (proper href)) ≡ refused = rw (s, pan_turn) refl in cc
      | inr (p, s) ↦
          elim (Bool-cases (any (str_eq href) visited || not (str_eq (before_query p.1) rp))) [
            | inl b ↦
                let r : pan_turn rp visited (linked (proper href)) ≡ refused =
                  rw (s, b, pan_turn) refl in
                cc
            | inr b ↦
                let r : pan_turn rp visited (linked (proper href)) ≡ request href p.1 =
                  rw (s, b, pan_turn) refl in
                cc
          ]
    ]

module _ {Row : Type 0} (fetch : ℕ → String → Option (PanPage Row)) (resource_path : String) where
  -- `out` is what the answer and `k` further pages hold, fetched from the i-th call on, the last
  -- without a link.
  abbrev pub PanWalk : ℕ → ℕ → List String → Option (PanPage Row) → List Row → Type 0
  PanWalk zero i visited answer out = answer ≡ some (pan_page out no_next)
  PanWalk (suc k) i visited answer out =
      (found : List Row) × (next : NextPage) × (href : String) × (path : String) × (later : List
        Row)
      × (answer ≡ some (pan_page found next))
      × (pan_turn resource_path visited next ≡ request href path)
      × (out ≡ found ++ later)
      × PanWalk k (i + 1) (href ∷ visited) (fetch i path) later

module _ {Row : Type 0} (max_rows : ℕ) where
  pub add_page_fits :
      (rows found : List Row) (next : NextPage)
      → length (rows ++ found) ≤ max_rows
      → add_page max_rows rows (some (pan_page found next)) ≡ some (rows ++ found, next)
  unfolding add_page
  add_page_fits rows found next h =
      let b : ltb max_rows (length rows + length found) ≡ false =
        ground (arith, h, length-append rows found) in
      rw b refl

module _ {Row : Type 0} (fetch : ℕ → String → Option (PanPage Row)) (resource_path : String)
    (max_rows : ℕ) where
  abbrev Found : ℕ → ℕ → List String → List Row → Option (PanPage Row) → List Row → Type 0
  Found n i visited rows answer out =
      (k : ℕ) × (more : List Row) × PanWalk fetch resource_path k i visited answer more
      × (k ≤ n)
      × (out ≡ rows ++ more)
      × (length out ≤ max_rows)

  last_page :
      (n i : ℕ) (visited : List String) (rows found out : List Row)
      → length (rows ++ found) ≤ max_rows
      → some (rows ++ found) ≡ some out
      → Found n i visited rows (some (pan_page found no_next)) out
  last_page n i visited rows found out h e =
      let same : rows ++ found ≡ out = ap (λ o. get_or o []) e in
      (0, found, refl, omega arith, sym same, subst (λ x. length x ≤ max_rows) same h)

  first_stop :
      (i : ℕ) (visited : List String) (rows found out : List Row) (next : NextPage)
      → length (rows ++ found) ≤ max_rows
      → pan_follow fetch resource_path max_rows 0 i visited (some (rows ++ found, next)) ≡ some out
      → Found 0 i visited rows (some (pan_page found next)) out
  unfolding pan_follow
  first_stop i visited rows found out no_next h e = last_page 0 i visited rows found out h e
  first_stop i visited rows found out not_a_dict h e = let k : none ≡ some out = e in cc
  first_stop i visited rows found out (linked f) h e = let k : none ≡ some out = e in cc

  pub pan_follow_sound :
      (n i : ℕ) (visited : List String) (rows out : List Row) (answer : Option (PanPage Row))
      → pan_follow fetch resource_path max_rows n i visited (add_page max_rows rows answer)
        ≡ some out
      → Found n i visited rows answer out
  unfolding pan_follow add_page pan_turn
  pan_follow_sound n i visited rows out none e = let h : none ≡ some out = e in cc
  pan_follow_sound n i visited rows out (some bad_envelope) e = let h : none ≡ some out = e in cc
  pan_follow_sound zero i visited rows out (some (pan_page found next)) e =
      elim (Bool-cases (ltb max_rows (length rows + length found))) [
        | inl b ↦
            let full : add_page max_rows rows (some (pan_page found next)) ≡ none =
              rw (b, add_page) refl in
            let r : none ≡ some out =
              ap (pan_follow fetch resource_path max_rows 0 i visited) (sym full) ∙ e in
            cc
        | inr b ↦
            let fits : length (rows ++ found) ≤ max_rows =
              ground (arith, b, length-append rows found) in
            first_stop i visited rows found out next fits (
              ap (pan_follow fetch resource_path max_rows 0 i visited)
                (sym (add_page_fits max_rows rows found next fits))
              ∙ e)
      ]
  pan_follow_sound (suc n) i visited rows out (some (pan_page found next)) e =
      elim (Bool-cases (ltb max_rows (length rows + length found))) [
        | inl b ↦
            let full : add_page max_rows rows (some (pan_page found next)) ≡ none =
              rw (b, add_page) refl in
            let r : none ≡ some out =
              ap (pan_follow fetch resource_path max_rows (suc n) i visited) (sym full) ∙ e in
            cc
        | inr b ↦
            let fits : length (rows ++ found) ≤ max_rows =
              ground (arith, b, length-append rows found) in
            let added = add_page_fits max_rows rows found next fits in
            let at_page =
              pan_follow fetch resource_path max_rows (suc n) i visited
                (some (rows ++ found, next)) in
            let here : at_page ≡ some out =
              ap (pan_follow fetch resource_path max_rows (suc n) i visited) (sym added) ∙ e in
            elim (Turn-cases (pan_turn resource_path visited next)) [
              | inl t ↦
                  let last : next ≡ no_next = pan_turn-finished resource_path visited next t in
                  let r : at_page ≡ some (rows ++ found) = rw (t, pan_follow) refl in
                  subst (λ x. Found (suc n) i visited rows (some (pan_page found x)) out) (sym last)
                    (last_page (suc n) i visited rows found out fits (sym r ∙ here))
              | inr (inl t) ↦ let r : at_page ≡ none = rw (t, pan_follow) refl in cc
              | inr (inr (href, path, t)) ↦
                  let r : at_page
                      ≡ pan_follow fetch resource_path max_rows n (i + 1) (href ∷ visited)
                          (add_page max_rows (rows ++ found) (fetch i path)) =
                    rw (t, pan_follow) refl in
                  let (k, later, w, le, o, small) =
                    pan_follow_sound n (i + 1) (href ∷ visited) (rows ++ found) out (fetch i path)
                      (sym r ∙ here) in
                  (
                    suc k,
                    found ++ later,
                    (found, next, href, path, later, refl, t, refl, w),
                    omega (arith, le),
                    o ∙ append_assoc rows found later,
                    small,
                  )
            ]
      ]
