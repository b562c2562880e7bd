-- ===== src/Rest/Pan.antt =====
-- ise_exporter/clients/rest.py: get_pan_api_all. `fetch i path` is the i-th call of _get_json on the
-- path below pan_url, `none` where it returns None; the answers may differ from call to call.
use ise_exporter_v.Base.{
  ℕ, zero, suc, ◌+◌, ◌-◌, List, [], ◌∷◌, ◌++◌, ◌||◌, ◌&&◌, not, String, Option, none, some, length,
  ltb, leb, any, str_eq, if◌then◌else◌,
}
use Prim.Native.String.{len, slice}
use ise_exporter_v.Rest.Page.{
  proper, NextPage, no_next, not_a_dict, linked, split_once, before_query, Turn, finished, refused,
  request,
}

abbrev pub pan_max_pages : ℕ
pan_max_pages = 100

-- A decoded page: its rows under "response" and its nextPage, or anything else.
pub data PanPage (Row : Type 0) : Type 0 where
  bad_envelope : PanPage Row
  pan_page : List Row → NextPage → PanPage Row

-- path.lstrip("/"), where the path has at most so many characters
abbrev pub strip_slashes : ℕ → String → String
strip_slashes zero path = path
strip_slashes (suc n) path =
    let rest = strip_slashes n (slice path 1 (len path)) in
    if str_eq (slice path 0 1) "/" then rest else path

-- What the loop does with a nextPage.
unfoldable pub pan_turn : String → List String → NextPage → Turn
pan_turn resource_path visited no_next = finished
pan_turn resource_path visited not_a_dict = refused
pan_turn resource_path visited (linked (proper href)) = elim (split_once "/api/v1/" href) [
  | none ↦ refused
  | some p ↦
      if any (str_eq href) visited || not (str_eq (before_query p.1) resource_path)
      then refused
      else request href p.1
]
pan_turn resource_path visited (linked _) = refused

module _ {Row : Type 0} (max_rows : ℕ) where
  -- The checks on a page, after the rows so far: all the rows, and its nextPage.
  unfoldable pub add_page : List Row → Option (PanPage Row) → Option (List Row × NextPage)
  add_page rows none = none
  add_page rows (some bad_envelope) = none
  add_page rows (some (pan_page found next)) =
      if ltb max_rows (length rows + length found) then none else some (rows ++ found, next)

module _ {Row : Type 0} (fetch : ℕ → String → Option (PanPage Row)) (resource_path : String)
    (max_rows : ℕ) where
  -- The loop after a page, with max_pages - pages pages left, before the i-th call.
  unfoldable pub pan_follow : ℕ → ℕ → List String → Option (List Row × NextPage) → Option (List Row)
  unfolding pan_turn add_page
  pan_follow n i visited none = none
  pan_follow zero i visited (some (rows, no_next)) = some rows
  pan_follow zero i visited (some (rows, _)) = none
  pan_follow (suc n) i visited (some (rows, next)) = elim (pan_turn resource_path visited next) [
    | finished ↦ some rows
    | refused ↦ none
    | request href path ↦
        pan_follow n (i + 1) (href ∷ visited) (add_page max_rows rows (fetch i path))
  ]

module _ {Row : Type 0} (fetch : ℕ → String → Option (PanPage Row)) where
  -- get_pan_api_all(path, max_pages=..., max_rows=...); a refused bound raises
  unfoldable pub get_pan_api_all : String → ℕ → ℕ → Option (List Row)
  unfolding pan_follow
  get_pan_api_all path max_pages max_rows =
      let resource_path = before_query (strip_slashes (len path) path) in
      if not (leb 1 max_pages && leb max_pages pan_max_pages)
        || not (leb 1 max_rows && leb max_rows 100000)
      then none
      else pan_follow fetch resource_path max_rows (max_pages - 1) 1 []
          (add_page max_rows [] (fetch 0 path))
