-- ===== src/Rest/Ers.antt =====
-- ise_exporter/clients/rest.py: get_ers and get_ers_total. `fetch i path` is the i-th call of _get_json
-- on the path below ers_url, `none` where it returns None; the answers may differ from call to call.
-- Where propagate_failures is set the code raises in place of returning None; both are `failed`.
use ise_exporter_v.Base.{
  ℕ, zero, suc, ◌+◌, ◌-◌, List, [], ◌∷◌, ◌++◌, Bool, String, Option, none, some, length, ltb, ◌==◌,
  if◌then◌else◌,
}
use ise_exporter_v.Base.Int.{ℤ, pos}
use ise_exporter_v.Rest.Page.{
  NextPage, SearchResult, no_next, Envelope, malformed, without_search_result, bad_search_result,
  search_result, rows_of, before_query, finished, refused, request, turn,
}

abbrev pub ers_max_pages : ℕ
ers_max_pages = 2000

abbrev pub ers_max_rows : ℕ
ers_max_rows = 200000

pub data Answer (Row : Type 0) : Type 0 where
  failed : Answer Row
  raw : Answer Row
  listed : List Row → Answer Row

-- int(total), where 0 <= total <= ERS_MAX_ROWS
abbrev pub bounded_total : Option ℤ → Option ℕ
bounded_total (some (pos n)) = if ltb ers_max_rows n then none else some n
bounded_total _ = none

module _ {Row : Type 0} where
  -- The checks on a page that the loop has fetched: its nextPage and its rows.
  unfoldable pub next_page : Option (Envelope Row) → Option (NextPage × List Row)
  next_page (some (search_result sr)) = elim (rows_of sr.resources) [
    | none ↦ none
    | some rows ↦ some (sr.next_page, rows)
  ]
  next_page _ = none

  -- The test on the number of rows, at the end.
  abbrev pub check_total : ℕ → Answer Row → Answer Row
  check_total total (listed rows) = if length rows == total then listed rows else failed
  check_total total answer = failed

module _ {Row : Type 0} (fetch : ℕ → String → Option (Envelope Row)) (resource_path : String) where
  -- The loop, with ERS_MAX_PAGES - pages pages left, before the i-th call.
  unfoldable pub follow : ℕ → ℕ → List String → NextPage → List Row → Answer Row
  unfolding turn next_page
  follow zero i visited no_next rows = listed rows
  follow zero i visited next rows = failed
  follow (suc n) i visited next rows = elim (turn resource_path visited next) [
    | finished ↦ listed rows
    | refused ↦ failed
    | request href path ↦ elim (next_page (fetch i path)) [
      | none ↦ failed
      | some found ↦
          let more = follow n (i + 1) (href ∷ visited) found.0 (rows ++ found.1) in
          if ltb ers_max_rows (length rows + length found.1) then failed else more
    ]
  ]

  unfoldable pub enumerate : SearchResult Row → List Row → Answer Row
  unfolding follow
  enumerate sr rows = elim (bounded_total sr.total) [
    | none ↦ failed
    | some total ↦ check_total total (follow (ers_max_pages - 1) 1 [] sr.next_page rows)
  ]

  unfoldable pub first_page : Bool → SearchResult Row → Answer Row
  unfolding enumerate
  first_page get_all sr = elim (rows_of sr.resources) [
    | none ↦ failed
    | some rows ↦
        if ltb ers_max_rows (length rows)
        then failed
        else if get_all
        then enumerate sr rows
        else listed rows
  ]

module _ {Row : Type 0} (fetch : ℕ → String → Option (Envelope Row)) where
  unfoldable pub get_ers : String → Bool → Answer Row
  unfolding first_page
  get_ers path get_all = elim (fetch 0 path) [
    | none ↦ failed
    | some malformed ↦ failed
    | some without_search_result ↦ if get_all then failed else raw
    | some bad_search_result ↦ failed
    | some (search_result sr) ↦ first_page fetch (before_query path) get_all sr
  ]

  -- get_ers_total(path); the request has size=1 among its parameters
  unfoldable pub get_ers_total : String → Option ℕ
  get_ers_total path = elim (fetch 0 path) [
    | some (search_result sr) ↦ bounded_total sr.total
    | _ ↦ none
  ]
