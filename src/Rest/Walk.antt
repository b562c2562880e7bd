-- ===== src/Rest/Walk.antt =====
-- The loop of get_ers as a walk along the links of the pages.
use ise_exporter_v.Base.{
  ℕ, zero, suc, ◌+◌, ◌≤◌, List, [], ◌∷◌, ◌++◌, append-nil, append_assoc, false, String, Option,
  none, some, length, length-append, ltb, if◌then◌else◌, ◌≡◌, refl, sym, ap, ◌∙◌, arith, any, ◌||◌,
  not, str_eq, Bool-cases, Option-cases, inl, inr, ◌⊎◌,
}
use ise_exporter_v.Rest.Page.{
  absent, ill_typed, proper, split_once, NextPage, no_next, not_a_dict, linked, Envelope,
  before_query, Turn, finished, refused, request, turn,
}
use ise_exporter_v.Rest.Ers.{ers_max_rows, Answer, failed, listed, next_page, follow}

abbrev pub contents : {Row : Type 0} → Answer Row → List Row
contents (listed rows) = rows
contents _ = []

listed-same : {Row : Type 0} (rows out : List Row) → listed rows ≡ listed out → out ≡ rows ++ []
listed-same rows out e = sym (ap contents e) ∙ sym (append-nil rows)

pub Turn-cases :
    (t : Turn)
    → (t ≡ finished)
      ⊎ ((t ≡ refused) ⊎ ((href : String) × (path : String) × (t ≡ request href path)))
Turn-cases finished = inl refl
Turn-cases refused = inr (inl refl)
Turn-cases (request href path) = inr (inr (href, path, refl))

module _ {Row : Type 0} (fetch : ℕ → String → Option (Envelope Row)) (resource_path : String) where
  -- `more` is what `k` further pages hold, fetched from the i-th call on, the last without a link.
  abbrev pub Walk : ℕ → ℕ → List String → NextPage → List Row → Type 0
  Walk zero i visited next more = (next ≡ no_next) × (more ≡ [])
  Walk (suc k) i visited next more =
      (href : String) × (path : String) × (after : NextPage) × (page : List Row) × (later : List
        Row)
      × (turn resource_path visited next ≡ request href path)
      × (next_page (fetch i path) ≡ some (after, page))
      × (more ≡ page ++ later)
      × Walk k (i + 1) (href ∷ visited) after later

  pub turn-finished :
      (visited : List String) (next : NextPage)
      → turn resource_path visited next ≡ finished
      → next ≡ no_next
  unfolding turn
  turn-finished visited no_next e = refl
  turn-finished visited not_a_dict e = cc
  turn-finished visited (linked absent) e = cc
  turn-finished visited (linked ill_typed) e = cc
  turn-finished visited (linked (proper href)) e = elim (Option-cases (split_once "/ers" href)) [
    | inl s ↦
        let r : turn resource_path visited (linked (proper href)) ≡ refused = rw (s, turn) refl in
        cc
    | inr (p, s) ↦
        elim (Bool-cases
          (any (str_eq href) visited || not (str_eq (before_query p.1) resource_path))) [
            | inl b ↦
                let r : turn resource_path visited (linked (proper href)) ≡ refused =
                  rw (s, b, turn) refl in
                cc
            | inr b ↦
                let r : turn resource_path visited (linked (proper href)) ≡ request href p.1 =
                  rw (s, b, turn) refl in
                cc
          ]
  ]

  module _ (n i : ℕ) (visited : List String) (next : NextPage) (rows : List Row) where
    abbrev pub here : Answer Row
    here = follow fetch resource_path (suc n) i visited next rows

    pub follow-finished : turn resource_path visited next ≡ finished → here ≡ listed rows
    unfolding follow
    follow-finished e = rw (e, follow) refl

    pub follow-refused : turn resource_path visited next ≡ refused → here ≡ failed
    unfolding follow
    follow-refused e = rw (e, follow) refl

    pub follow-failed :
        (href path : String)
        → turn resource_path visited next ≡ request href path
        → next_page (fetch i path) ≡ none
        → here ≡ failed
    unfolding follow
    follow-failed href path e q = rw (e, q, follow) refl

    pub follow-request :
        (href path : String) (after : NextPage) (page : List Row)
        → turn resource_path visited next ≡ request href path
        → next_page (fetch i path) ≡ some (after, page)
        → here ≡ (
            let more = follow fetch resource_path n (i + 1) (href ∷ visited) after (rows ++ page) in
            if ltb ers_max_rows (length rows + length page) then failed else more)
    unfolding follow
    follow-request href path after page e q = rw (e, q, follow) refl

  pub follow_sound :
      (n i : ℕ) (visited : List String) (next : NextPage) (rows out : List Row)
      → length rows ≤ ers_max_rows
      → follow fetch resource_path n i visited next rows ≡ listed out
      → (k : ℕ) × (more : List Row) × Walk k i visited next more
        × (k ≤ n)
        × (out ≡ rows ++ more)
        × (length out ≤ ers_max_rows)
  unfolding follow
  follow_sound zero i visited no_next rows out small e =
      let same = listed-same rows out e in
      (0, [], (refl, refl), omega arith, same, rw (sym (ap contents e)) small)
  follow_sound zero i visited not_a_dict rows out small e = cc
  follow_sound zero i visited (linked f) rows out small e = cc
  follow_sound (suc n) i visited next rows out small e =
      elim (Turn-cases (turn resource_path visited next)) [
        | inl t ↦
            let r = follow-finished n i visited next rows t in
            (
              0,
              [],
              (turn-finished visited next t, refl),
              omega arith,
              listed-same rows out (sym r ∙ e),
              rw (ap contents (sym e ∙ r)) small,
            )
        | inr (inl t) ↦ let r = follow-refused n i visited next rows t in cc
        | inr (inr (href, path, t)) ↦ elim (Option-cases (next_page (fetch i path))) [
          | inl q ↦ let r = follow-failed n i visited next rows href path t q in cc
          | inr ((after, page), q) ↦
              let r = follow-request n i visited next rows href path after page t q in
              elim (Bool-cases (ltb ers_max_rows (length rows + length page))) [
                | inl b ↦ let f : listed out ≡ failed = sym e ∙ r ∙ rw b refl in cc
                | inr b ↦
                    let f : follow fetch resource_path n (i + 1) (href ∷ visited) after
                          (rows ++ page)
                        ≡ listed out =
                      sym (sym e ∙ r ∙ rw b refl) in
                    let fits : length (rows ++ page) ≤ ers_max_rows =
                      rw (length-append rows page) (ground arith) in
                    let (k, later, w, le, o, l) =
                      follow_sound n (i + 1) (href ∷ visited) after (rows ++ page) out fits f in
                    (
                      suc k,
                      page ++ later,
                      (href, path, after, page, later, t, q, refl, w),
                      omega (arith, le),
                      o ∙ append_assoc rows page later,
                      l,
                    )
              ]
        ]
      ]

  pub follow_complete :
      (n i : ℕ) (visited : List String) (next : NextPage) (rows more : List Row) (k : ℕ)
      → Walk k i visited next more
      → k ≤ n
      → length (rows ++ more) ≤ ers_max_rows
      → follow fetch resource_path n i visited next rows ≡ listed (rows ++ more)
  unfolding follow turn
  follow_complete zero i visited next rows more zero w le small =
      rw (w.0, w.1) (ap listed (sym (append-nil rows)))
  follow_complete zero i visited next rows more (suc k) w le small = absurd (omega arith)
  follow_complete (suc n) i visited next rows more zero w le small =
      rw (w.0, w.1) (ap listed (sym (append-nil rows)))
  follow_complete (suc n) i visited next rows more (suc k) w le small =
      let (href, path, after, page, later, t, q, m, v) = w in
      let whole : rows ++ more ≡ (rows ++ page) ++ later =
        ap (λ x. rows ++ x) m ∙ sym (append_assoc rows page later) in
      let long = ap length whole ∙ length-append (rows ++ page) later in
      let short = length-append rows page in
      let b : ltb ers_max_rows (length rows + length page) ≡ false = ground (arith, long, short) in
      let ih =
        follow_complete n (i + 1) (href ∷ visited) after (rows ++ page) later k v
          (omega (arith, le)) (rw (sym whole) small) in
      follow-request n i visited next rows href path after page t q
      ∙ rw b (ih ∙ ap listed (sym whole))
