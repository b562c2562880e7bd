-- ===== src/Rest/Complete.antt =====
-- Which lists get_ers returns.
use ise_exporter_v.Base.{
  ℕ, ◌-◌, ◌≤◌, ◌<◌, List, [], ◌++◌, true, false, String, Option, none, some, length, length-append,
  ltb, ◌==◌, ◌≡◌, refl, sym, ap, ◌∙◌, arith, get_or, ==_iff, Bool-cases, Option-cases, inl, inr,
  ◌↔◌,
}
use ise_exporter_v.Base.Int.{ℤ, pos, negsuc}
use ise_exporter_v.Rest.Page.{SearchResult, Envelope, search_result, rows_of, before_query}
use ise_exporter_v.Rest.Ers.{
  ers_max_pages, ers_max_rows, Answer, failed, raw, listed, bounded_total, follow, check_total,
  enumerate, first_page, get_ers,
}
use ise_exporter_v.Rest.Page.{malformed, without_search_result, bad_search_result}
use ise_exporter_v.Rest.Walk.{contents, Walk, follow_sound, follow_complete}

ltb-false : (a b : ℕ) → ltb a b ≡ false → b ≤ a
ltb-false a b e = ground arith

not_below : (a b : ℕ) → b ≤ a → ltb a b ≡ false
not_below a b e = ground arith

bounded_total_sound :
    (t : Option ℤ) (n : ℕ) → bounded_total t ≡ some n → (t ≡ some (pos n)) × (n ≤ ers_max_rows)
bounded_total_sound none n e = cc
bounded_total_sound (some (negsuc m)) n e = cc
bounded_total_sound (some (pos m)) n e = elim (Bool-cases (ltb ers_max_rows m)) [
  | inl b ↦ let r : bounded_total (some (pos m)) ≡ none = rw b refl in cc
  | inr b ↦
      let r : some m ≡ some n = sym (rw b refl) ∙ e in
      let same : m ≡ n = ap (λ o. get_or o 0) r in (ap (λ k. some (pos k)) same, ground arith)
]

module _ {Row : Type 0} where
  check_total_sound :
      (total : ℕ) (a : Answer Row) (out : List Row)
      → check_total total a ≡ listed out
      → (a ≡ listed out) × (length out ≡ total)
  check_total_sound total failed out e = cc
  check_total_sound total raw out e = cc
  check_total_sound total (listed rows) out e = elim (Bool-cases (length rows == total)) [
    | inl b ↦
        let r : listed rows ≡ listed out = sym (rw b refl) ∙ e in
        (r, sym (ap (λ a. length (contents a)) r) ∙ (==_iff (length rows) total).0 b)
    | inr b ↦ let r : check_total total (listed rows) ≡ failed = rw b refl in cc
  ]

module _ {Row : Type 0} (fetch : ℕ → String → Option (Envelope Row)) (path : String) where
  -- The pages from `path` on, up to the first without a link, hold `out`, and the first announces how
  -- many rows that is.
  abbrev pub Listing : List Row → Type 0
  Listing out =
      (sr : SearchResult Row) × (first : List Row) × (k : ℕ) × (more : List Row) × (fetch 0 path
        ≡ some (search_result sr))
      × (rows_of sr.resources ≡ some first)
      × Walk fetch (before_query path) k 1 [] sr.next_page more
      × (k < ers_max_pages)
      × (out ≡ first ++ more)
      × (sr.total ≡ some (pos (length out)))
      × (length out ≤ ers_max_rows)

  enumerate-listed :
      (sr : SearchResult Row) (first out : List Row)
      → fetch 0 path ≡ some (search_result sr)
      → rows_of sr.resources ≡ some first
      → length first ≤ ers_max_rows
      → enumerate fetch (before_query path) sr first ≡ listed out
      → Listing out
  unfolding enumerate
  enumerate-listed sr first out f q small e = elim (Option-cases (bounded_total sr.total)) [
    | inl b ↦
        let r : enumerate fetch (before_query path) sr first ≡ failed = rw (b, enumerate) refl in cc
    | inr (total, b) ↦
        let looped = follow fetch (before_query path) (ers_max_pages - 1) 1 [] sr.next_page first in
        let r : check_total total looped ≡ listed out = sym (rw (b, enumerate) refl) ∙ e in
        let (done, count) = check_total_sound total looped out r in
        let (k, more, w, le, o, l) =
          follow_sound fetch (before_query path) (ers_max_pages - 1) 1 [] sr.next_page first out
            small done in
        let (t, bound) = bounded_total_sound sr.total total b in
        (
          sr,
          first,
          k,
          more,
          f,
          q,
          w,
          omega (arith, le),
          o,
          t ∙ ap (λ n. some (pos n)) (sym count),
          l,
        )
  ]

  first_page-listed :
      (sr : SearchResult Row) (out : List Row)
      → fetch 0 path ≡ some (search_result sr)
      → first_page fetch (before_query path) true sr ≡ listed out
      → Listing out
  unfolding first_page
  first_page-listed sr out f e = elim (Option-cases (rows_of sr.resources)) [
    | inl q ↦
        let r : first_page fetch (before_query path) true sr ≡ failed = rw (q, first_page) refl in
        cc
    | inr (first, q) ↦ elim (Bool-cases (ltb ers_max_rows (length first))) [
      | inl b ↦
          let r : first_page fetch (before_query path) true sr ≡ failed =
            rw (q, b, first_page) refl in
          cc
      | inr b ↦
          enumerate-listed sr first out f q (ltb-false ers_max_rows (length first) b)
            (sym (rw (q, b, first_page) refl) ∙ e)
    ]
  ]

  get_ers-listed :
      (answer : Option (Envelope Row)) (out : List Row)
      → fetch 0 path ≡ answer
      → get_ers fetch path true ≡ listed out
      → Listing out
  unfolding get_ers
  get_ers-listed none out q e =
      let r : get_ers fetch path true ≡ failed = rw (q, get_ers) refl in cc
  get_ers-listed (some malformed) out q e =
      let r : get_ers fetch path true ≡ failed = rw (q, get_ers) refl in cc
  get_ers-listed (some without_search_result) out q e =
      let r : get_ers fetch path true ≡ failed = rw (q, get_ers) refl in cc
  get_ers-listed (some bad_search_result) out q e =
      let r : get_ers fetch path true ≡ failed = rw (q, get_ers) refl in cc
  get_ers-listed (some (search_result sr)) out q e =
      first_page-listed sr out q (sym (rw (q, get_ers) refl) ∙ e)

  Listing-get_ers : (out : List Row) → Listing out → get_ers fetch path true ≡ listed out
  unfolding get_ers first_page enumerate
  Listing-get_ers out (sr, first, k, more, f, q, w, le, o, t, l) =
      let total = length out in
      let sum = ap length o ∙ length-append first more in
      let small = not_below ers_max_rows (length first) (omega (arith, l, sum)) in
      let bounded : bounded_total sr.total ≡ some total =
        rw (t, not_below ers_max_rows total l) refl in
      let done =
        follow_complete fetch (before_query path) (ers_max_pages - 1) 1 [] sr.next_page first more k
          w (omega (arith, le)) (rw (sym o) l) in
      let checked : check_total total (listed out) ≡ listed out =
        rw ((==_iff total total).1 refl) refl in
      rw (f, get_ers)
        (rw (q, small, first_page)
          (rw (bounded, enumerate) (ap (check_total total) (done ∙ ap listed (sym o)) ∙ checked)))

  -- get_ers(path, get_all=True) returns a list just when the pages, from the path on along the links
  -- that pass the checks, end within ERS_MAX_PAGES pages, hold together exactly that list, and the
  -- first of them announces its length, which is at most ERS_MAX_ROWS.
  pub get_ers_iff : (out : List Row) → (get_ers fetch path true ≡ listed out) ↔ Listing out
  get_ers_iff out = (get_ers-listed (fetch 0 path) out refl, Listing-get_ers out)
