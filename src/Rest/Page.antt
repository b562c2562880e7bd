-- ===== src/Rest/Page.antt =====
-- ise_exporter/clients/rest.py: what get_ers and get_ers_total look at in a decoded JSON answer. A
-- value that a test on its Python type refuses is a constructor of its own.
use ise_exporter_v.Base.{
  ◌+◌, List, [], ◌||◌, not, String, Option, none, some, get_or, str_eq, any, if◌then◌else◌,
}
use Prim.Native.String.{len, slice}
use mathlib.Core.Option.{map as map_option}
use text.Mathlib.Text.{find?}
use ise_exporter_v.Base.Int.{ℤ}

-- The value under a key of a dict: missing, of another type than the code wants, or of that type.
pub data Field {ℓ} (A : Type ℓ) : Type ℓ where
  absent : Field A
  ill_typed : Field A
  proper : A → Field A

-- nextPage: missing or null, not a dict, or a dict with its href.
pub data NextPage : Type 0 where
  no_next : NextPage
  not_a_dict : NextPage
  linked : Field String → NextPage

-- data["SearchResult"]; `total` is int(total), `none` where that raises.
pub record SearchResult (Row : Type 0) : Type 0 where
  pub resources : Field (List Row)
  pub total : Option ℤ
  pub next_page : NextPage

pub data Envelope (Row : Type 0) : Type 0 where
  malformed : Envelope Row
  without_search_result : Envelope Row
  bad_search_result : Envelope Row
  search_result : SearchResult Row → Envelope Row

-- sr.get("resources", []), where it is a list
abbrev pub rows_of : {Row : Type 0} → Field (List Row) → Option (List Row)
rows_of absent = some []
rows_of ill_typed = none
rows_of (proper rows) = some rows

-- text.split(separator, 1), where the separator occurs
abbrev pub split_once : String → String → Option (String × String)
split_once separator text =
    map_option (λ i. (slice text 0 i, slice text (i + len separator) (len text)))
      (find? text separator)

-- path.split("?", 1)[0]
abbrev pub before_query : String → String
before_query path = get_or (map_option (λ p. p.0) (split_once "?" path)) path

-- What the loop does with nextPage: it ends, refuses, or requests the path after "/ers" of the href.
pub data Turn : Type 0 where
  finished : Turn
  refused : Turn
  request : String → String → Turn

unfoldable pub turn : String → List String → NextPage → Turn
turn resource_path visited no_next = finished
turn resource_path visited not_a_dict = refused
turn resource_path visited (linked (proper href)) = elim (split_once "/ers" href) [
  | none ↦ refused
  | some p ↦
      if any (str_eq href) visited || not (str_eq (before_query p.1) resource_path)
      then refused
      else request href p.1
]
turn resource_path visited (linked _) = refused
