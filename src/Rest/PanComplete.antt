-- ===== src/Rest/PanComplete.antt =====
-- Which lists get_pan_api_all returns.
use ise_exporter_v.Base.{
  ℕ, zero, suc, ◌+◌, ◌-◌, ◌≤◌, ◌<◌, List, [], ◌∷◌, ◌++◌, append_assoc, ◌||◌, ◌&&◌, not, false,
  String, Option, some, length, length-append, leb, ◌≡◌, refl, sym, ap, ◌∙◌, ◌↔◌, arith,
}
use mathlib.Core.Path.{subst}
use Prim.Native.String.{len}
use ise_exporter_v.Rest.Page.{no_next, before_query}
use ise_exporter_v.Rest.Pan.{
  pan_max_pages, PanPage, strip_slashes, pan_turn, add_page, pan_follow, get_pan_api_all,
}
use ise_exporter_v.Rest.PanWalk.{PanWalk, add_page_fits, pan_follow_sound}

module _ {Row : Type 0} (fetch : ℕ → String → Option (PanPage Row)) (resource_path : String)
    (max_rows : ℕ) where
  pan_follow_complete :
      (n i : ℕ) (visited : List String) (rows more : List Row) (k : ℕ)
      (answer : Option (PanPage Row))
      → PanWalk fetch resource_path k i visited answer more
      → k ≤ n
      → length (rows ++ more) ≤ max_rows
      → pan_follow fetch resource_path max_rows n i visited (add_page max_rows rows answer)
        ≡ some (rows ++ more)
  unfolding pan_follow pan_turn
  pan_follow_complete zero i visited rows more zero answer w le small =
      rw (w, add_page_fits max_rows rows more no_next small) refl
  pan_follow_complete zero i visited rows more (suc k) answer w le small = absurd (omega arith)
  pan_follow_complete (suc n) i visited rows more zero answer w le small =
      rw (w, add_page_fits max_rows rows more no_next small) refl
  pan_follow_complete (suc n) i visited rows more (suc k) answer w le small =
      let (found, next, href, path, later, page, t, split, v) = w in
      let whole : rows ++ more ≡ (rows ++ found) ++ later =
        ap (λ x. rows ++ x) split ∙ sym (append_assoc rows found later) in
      let long = ap length whole ∙ length-append (rows ++ found) later in
      let fits : length (rows ++ found) ≤ max_rows = omega (arith, small, long) in
      let ih =
        pan_follow_complete n (i + 1) (href ∷ visited) (rows ++ found) later k (fetch i path) v
          (omega (arith, le)) (rw (sym whole) small) in
      let here : pan_follow fetch resource_path max_rows (suc n) i visited
            (some (rows ++ found, next))
          ≡ pan_follow fetch resource_path max_rows n (i + 1) (href ∷ visited)
              (add_page max_rows (rows ++ found) (fetch i path)) =
        rw (t, pan_follow) refl in
      rw (page, add_page_fits max_rows rows found next fits) (here ∙ ih ∙ ap some (sym whole))

module _ {Row : Type 0} (fetch : ℕ → String → Option (PanPage Row)) (path : String)
    (max_pages max_rows : ℕ) where
  -- get_pan_api_all(path, max_pages, max_rows), for bounds that it accepts, returns a list just when the
  -- pages, from the path on along the links that pass the checks, end within max_pages pages and hold
  -- together exactly that list, which has at most max_rows rows.
  pub get_pan_api_all_iff :
      (1 ≤ max_pages) × (max_pages ≤ pan_max_pages)
      → (1 ≤ max_rows) × (max_rows ≤ 100000)
      → (out : List Row)
      → (get_pan_api_all fetch path max_pages max_rows ≡ some out) ↔ (
          (k : ℕ) × PanWalk fetch
            (before_query (strip_slashes (len path) path))
            k
            1
            []
            (fetch 0 path)
            out
          × (k < max_pages)
          × (length out ≤ max_rows))
  unfolding get_pan_api_all
  get_pan_api_all_iff p r out =
      let resource_path = before_query (strip_slashes (len path) path) in
      let bounds : (not (leb 1 max_pages && leb max_pages pan_max_pages)
            || not (leb 1 max_rows && leb max_rows 100000))
          ≡ false =
        ground (arith, p.0, p.1, r.0, r.1) in
      let runs : get_pan_api_all fetch path max_pages max_rows
          ≡ pan_follow fetch resource_path max_rows (max_pages - 1) 1 []
              (add_page max_rows [] (fetch 0 path)) =
        rw (bounds, get_pan_api_all) refl in
      (
        (λ e.
            let (k, more, w, le, o, small) =
              pan_follow_sound fetch resource_path max_rows (max_pages - 1) 1 [] [] out
                (fetch 0 path) (sym runs ∙ e) in
            (
              k,
              subst (λ x. PanWalk fetch resource_path k 1 [] (fetch 0 path) x) (sym o) w,
              omega (arith, le, p.0),
              small,
            )),
        (λ h.
            runs
            ∙ pan_follow_complete fetch resource_path max_rows (max_pages - 1) 1 [] [] out h.0
                (fetch 0 path) h.1 (omega (arith, h.2)) h.3),
      )
