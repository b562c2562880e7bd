-- ===== src/Rest/PanExamples.antt =====
-- An enumeration of a PAN resource in two pages.
use ise_exporter_v.Base.{
  ℕ, zero, suc, ◌≤◌, ◌<◌, [], ◌∷◌, String, Option, none, some, length, ◌≡◌, refl, ◌↔◌, arith,
}
use Prim.Native.String.{len}
use ise_exporter_v.Rest.Page.{proper, no_next, linked, before_query}
use ise_exporter_v.Rest.Pan.{PanPage, pan_page, strip_slashes, get_pan_api_all}
use ise_exporter_v.Rest.PanWalk.{PanWalk}
use ise_exporter_v.Rest.PanComplete.{get_pan_api_all_iff}

abbrev two_pages : ℕ → String → Option (PanPage ℕ)
two_pages zero path =
    some (pan_page (1 ∷ 2 ∷ []) (linked (proper "https://pan:443/api/v1/deployment/node?page=2")))
two_pages (suc i) path = some (pan_page (3 ∷ []) no_next)

all_rows : get_pan_api_all two_pages "/deployment/node" 100 10000 ≡ some (1 ∷ 2 ∷ 3 ∷ [])
unfolding get_pan_api_all
all_rows = refl

too_many_rows : get_pan_api_all two_pages "/deployment/node" 100 2 ≡ none
unfolding get_pan_api_all
too_many_rows = refl

get_pan_api_all_iff_example :
    (get_pan_api_all two_pages "/deployment/node" 100 10000 ≡ some (1 ∷ 2 ∷ 3 ∷ [])) ↔ (
      (k : ℕ) × PanWalk two_pages
        (before_query (strip_slashes (len "/deployment/node") "/deployment/node"))
        k
        1
        []
        (two_pages 0 "/deployment/node")
        (1 ∷ 2 ∷ 3 ∷ [])
      × (k < 100)
      × (length {A = ℕ} (1 ∷ 2 ∷ 3 ∷ []) ≤ 10000))
get_pan_api_all_iff_example =
    get_pan_api_all_iff two_pages "/deployment/node" 100 10000 (omega arith, omega arith)
      (omega arith, omega arith) (1 ∷ 2 ∷ 3 ∷ [])
