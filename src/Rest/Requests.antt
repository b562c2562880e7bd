-- ===== src/Rest/Requests.antt =====
-- Which requests get_ers makes.
use ise_exporter_v.Base.{
  ℕ, zero, suc, ◌+◌, ◌-◌, ◌≤◌, ◌<◌, List, [], ◌∷◌, ◌++◌, Bool, String, Option, none, some, length,
  ltb, if◌then◌else◌, ◌≡◌, refl, sym, ap, ◌∙◌, arith, any, str_eq, eq_iff, Bool-cases, Option-cases,
  inl, inr,
}
use ise_exporter_v.Rest.Page.{
  absent, ill_typed, proper, split_once, NextPage, no_next, not_a_dict, linked, SearchResult,
  Envelope, search_result, rows_of, before_query, Turn, refused, request, turn,
}
use ise_exporter_v.Rest.Ers.{
  ers_max_pages, ers_max_rows, failed, listed, bounded_total, next_page, follow, check_total,
  enumerate, first_page, get_ers,
}
use ise_exporter_v.Rest.Page.{malformed, without_search_result, bad_search_result}
use ise_exporter_v.Rest.Walk.{
  Turn-cases, follow-finished, follow-refused, follow-failed, follow-request,
}

abbrev asked : Turn → String
asked (request href path) = path
asked _ = ""

turn-resource :
    (resource_path : String) (visited : List String) (next : NextPage) (href path : String)
    → turn resource_path visited next ≡ request href path
    → before_query path ≡ resource_path
unfolding turn
turn-resource resource_path visited no_next href path e = cc
turn-resource resource_path visited not_a_dict href path e = cc
turn-resource resource_path visited (linked absent) href path e = cc
turn-resource resource_path visited (linked ill_typed) href path e = cc
turn-resource resource_path visited (linked (proper h)) href path e =
    elim (Option-cases (split_once "/ers" h)) [
      | inl s ↦
          let r : turn resource_path visited (linked (proper h)) ≡ refused = rw (s, turn) refl in cc
      | inr (p, s) ↦ elim (Bool-cases (any (str_eq h) visited)) [
        | inl b ↦
            let r : turn resource_path visited (linked (proper h)) ≡ refused =
              rw (s, b, turn) refl in
            cc
        | inr b ↦ elim (Bool-cases (str_eq (before_query p.1) resource_path)) [
          | inl m ↦
              let r : request h p.1 ≡ request href path = sym (rw (s, b, m, turn) refl) ∙ e in
              let same : p.1 ≡ path = ap asked r in
              ap before_query (sym same) ∙ (eq_iff (before_query p.1) resource_path).0 m
          | inr m ↦
              let r : turn resource_path visited (linked (proper h)) ≡ refused =
                rw (s, b, m, turn) refl in
              cc
        ]
      ]
    ]

module _ {Row : Type 0} (f g : ℕ → String → Option (Envelope Row)) where
  -- The two servers answer alike to the calls from the `i`-th to the one before the `j`-th, on the
  -- paths of one resource.
  abbrev pub Agree : String → ℕ → ℕ → Type 0
  Agree resource_path i j =
      (k : ℕ) (path : String)
      → i ≤ k
      → k < j
      → before_query path ≡ resource_path
      → f k path ≡ g k path

  follow-Agree :
      (resource_path : String) (n i : ℕ) (visited : List String) (next : NextPage) (rows : List Row)
      → Agree resource_path i (i + n)
      → follow f resource_path n i visited next rows ≡ follow g resource_path n i visited next rows
  unfolding follow
  follow-Agree rp zero i visited no_next rows h = refl
  follow-Agree rp zero i visited not_a_dict rows h = refl
  follow-Agree rp zero i visited (linked x) rows h = refl
  follow-Agree rp (suc n) i visited next rows h = elim (Turn-cases (turn rp visited next)) [
    | inl t ↦
        follow-finished f rp n i visited next rows t
        ∙ sym (follow-finished g rp n i visited next rows t)
    | inr (inl t) ↦
        follow-refused f rp n i visited next rows t
        ∙ sym (follow-refused g rp n i visited next rows t)
    | inr (inr (href, path, t)) ↦
        let same : next_page (f i path) ≡ next_page (g i path) =
          ap next_page
            (h i path (omega arith) (omega arith) (turn-resource rp visited next href path t)) in
        elim (Option-cases (next_page (g i path))) [
          | inl q ↦
              follow-failed f rp n i visited next rows href path t (same ∙ q)
              ∙ sym (follow-failed g rp n i visited next rows href path t q)
          | inr ((after, page), q) ↦
              follow-request f rp n i visited next rows href path after page t (same ∙ q)
              ∙ ap (λ a. if ltb ers_max_rows (length rows + length page) then failed else a)
                  (follow-Agree rp n (i + 1) (href ∷ visited) after (rows ++ page)
                    (λ k p low high r. h k p (omega (arith, low)) (omega (arith, high)) r))
              ∙ sym (follow-request g rp n i visited next rows href path after page t q)
        ]
  ]

  enumerate-Agree :
      (rp : String) (sr : SearchResult Row) (rows : List Row)
      → Agree rp 1 ers_max_pages
      → enumerate f rp sr rows ≡ enumerate g rp sr rows
  unfolding enumerate
  enumerate-Agree rp sr rows h = elim (Option-cases (bounded_total sr.total)) [
    | inl b ↦ rw (b, enumerate) refl
    | inr (total, b) ↦
        rw (b, enumerate)
          (ap (check_total total) (follow-Agree rp (ers_max_pages - 1) 1 [] sr.next_page rows h))
  ]

  first_page-Agree :
      (rp : String) (get_all : Bool) (sr : SearchResult Row)
      → Agree rp 1 ers_max_pages
      → first_page f rp get_all sr ≡ first_page g rp get_all sr
  unfolding first_page
  first_page-Agree rp get_all sr h = elim (Option-cases (rows_of sr.resources)) [
    | inl q ↦ rw (q, first_page) refl
    | inr (rows, q) ↦
        rw (q, first_page)
          (ap
            (λ a.
              if ltb ers_max_rows (length rows) then failed else if get_all then a else listed rows)
            (enumerate-Agree rp sr rows h))
  ]

  get_ers-same :
      (path : String) (get_all : Bool) (answer : Option (Envelope Row))
      → f 0 path ≡ answer
      → g 0 path ≡ answer
      → Agree (before_query path) 1 ers_max_pages
      → get_ers f path get_all ≡ get_ers g path get_all
  unfolding get_ers
  get_ers-same path get_all none a b h = rw (a, b, get_ers) refl
  get_ers-same path get_all (some malformed) a b h = rw (a, b, get_ers) refl
  get_ers-same path get_all (some without_search_result) a b h = rw (a, b, get_ers) refl
  get_ers-same path get_all (some bad_search_result) a b h = rw (a, b, get_ers) refl
  get_ers-same path get_all (some (search_result sr)) a b h =
      rw (a, b, get_ers) (first_page-Agree (before_query path) get_all sr h)

  -- get_ers makes at most ERS_MAX_PAGES calls, all on the resource path that it is given, whatever
  -- the links of the pages say: two servers that answer alike to these calls give the same result.
  pub get_ers-Agree :
      (path : String) (get_all : Bool)
      → Agree (before_query path) 0 ers_max_pages
      → get_ers f path get_all ≡ get_ers g path get_all
  get_ers-Agree path get_all h =
      get_ers-same path get_all (g 0 path) (h 0 path (omega arith) (omega arith) refl) refl
        (λ k p low high r. h k p (omega arith) high r)
