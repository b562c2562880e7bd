-- ===== src/Posture/Answered.antt =====
-- ise_exporter/collectors/mnt_active_posture.py: a cycle whose requests are all answered publishes,
-- and what it shows is current.
use ise_exporter_v.Base.{
  ℕ, List, [], ◌∷◌, map, mem, true, false, not, ◌&&◌, ◌==◌, Option, some, String, str_eq,
  str_eq_refl, eq_iff, length, ◌≡◌, refl, sym, ap, ◌∙◌, arith, All, Bool-cases, Option-cases, inl,
  inr, ◌⊎◌,
}
use mathlib.Core.Path.{subst}
use ise_exporter_v.Base.Int.{pos}
use ise_exporter_v.Base.Float.{finite, seconds}
use ise_exporter_v.Helpers.Attrs.{Attrs}
use ise_exporter_v.State.Cache.{finish_cycle}
use ise_exporter_v.State.Tables.{posture_entries, posture_detail}
use ise_exporter_v.State.Keyed.{lookup_row, Keyed, finish-Keyed, finish_cycle-some}
use ise_exporter_v.State.Read.{lookup_entry, read_at, asked, entries_at, cache_keys-mem}
use ise_exporter_v.State.Total.{read_entries-total, finish_cycle-total}
use ise_exporter_v.Posture.Session.{MntSessions}
use ise_exporter_v.Posture.Detail.{Compact, compact_detail}
use ise_exporter_v.Posture.Plan.{
  PostureConfig, planned, deferred, refresh_ttl, is_unchanged, updated,
}
use ise_exporter_v.Posture.Bounds.{planned_bounds, unplanned_fresh, planned_nil}
use ise_exporter_v.Posture.Collect.{
  Table, Details, Published, usable_of, bounded_details, put_all, publish, snapshot_of, cycle,
}
use ise_exporter_v.Posture.Puts.{
  Storable, CanPut, IsFresh, put_all-total, bounded_details-CanPut, mem-bounded_details,
}
use ise_exporter_v.Posture.Usable.{lookup-usable_of, usable_of_some}
use ise_exporter_v.Posture.Fresh.{mem-IsKey, read_asked, read_finished, Answered, Shown, FreshCycle}

List-cases : (xs : List String) → (xs ≡ []) ⊎ ((y : String) × (ys : List String) × (xs ≡ y ∷ ys))
List-cases [] = inl refl
List-cases (x ∷ xs) = inr (x, xs, refl)

module _ (encode : Compact → Option String) (decode : String → Option Compact)
    (signatures : String → String) (cfg : PostureConfig) (now total candidates : ℕ)
    (selected : List String) (answer : String → Option MntSessions)
    (order : List String → List String) where
  abbrev plan_of : Details → List String
  plan_of cached = planned cached signatures cfg now selected

  abbrev fetched_of : Details → List (String × Attrs)
  fetched_of cached = bounded_details answer (order (plan_of cached))

  -- The four operations on the store, and what they do to a selected endpoint.
  record Stored (rows : Table) : Type 0 where
    pub cached : Details
    pub rows1 : Table
    pub rows2 : Table
    pub rows3 : Table
    pub current : Details
    pub rows4 : Table
    pub read : posture_entries decode selected rows ≡ some (cached, rows1)
    pub puts : put_all encode decode signatures now (fetched_of cached) rows1 ≡ some rows2
    pub finished :
        finish_cycle selected (finite (pos now)) (seconds (refresh_ttl cfg)) rows2 ≡ some rows3
    pub read_again : posture_entries decode selected rows3 ≡ some (current, rows4)
    pub keyed : Keyed rows4
    pub fresh :
        (mac : String)
        → mem mac selected ≡ true
        → mem mac (plan_of cached) ≡ true
        → IsFresh encode decode signatures now mac (lookup_entry mac current)
    pub kept :
        (mac : String)
        → mem mac selected ≡ true
        → mem mac (plan_of cached) ≡ false
        → lookup_entry mac current ≡ lookup_entry mac cached

  asked_selected :
      Answered encode decode signatures cfg now total candidates selected answer order
      → (mac : String) → mem mac selected ≡ true
      → asked mac selected ≡ true
  asked_selected a mac m = let k = mem-IsKey mac selected a.keys m in ground (arith, m, k.0)

  fetched-CanPut :
      Answered encode decode signatures cfg now total candidates selected answer order
      → (cached : Details) → All (CanPut encode decode signatures now) (fetched_of cached)
  fetched-CanPut a cached =
      bounded_details-CanPut encode decode signatures now answer (order (plan_of cached))
        (λ mac x m d.
          let p : mem mac (plan_of cached) ≡ true = sym (a.completes mac (plan_of cached)) ∙ m in
          let s = (planned_bounds cached signatures cfg now selected).2 mac p in
          let (y, e, t) = a.answers mac s in
          let q : y ≡ x = ground (arith, e, d) in
          (
            mem-IsKey mac selected a.keys s,
            a.signed mac,
            subst (λ z. Storable encode decode (compact_detail z)) q t,
          ))

  mem-fetched :
      Answered encode decode signatures cfg now total candidates selected answer order
      → (cached : Details) (mac : String)
      → mem mac (map (λ (f : String × Attrs). f.0) (fetched_of cached)) ≡ mem mac (plan_of cached)
  mem-fetched a cached mac =
      mem-bounded_details answer (order (plan_of cached)) mac (λ k m.
        let p : mem k (plan_of cached) ≡ true = sym (a.completes k (plan_of cached)) ∙ m in
        let (y, e, t) = a.answers k ((planned_bounds cached signatures cfg now selected).2 k p) in
        (y, e))
      ∙ a.completes mac (plan_of cached)

  stored :
      (rows : Table)
      → Answered encode decode signatures cfg now total candidates selected answer order
      → Keyed rows
      → Stored rows
  unfolding posture_entries
  stored rows a h =
      let check = posture_detail decode in
      let ((cached, rows1), e1) = read_entries-total check selected a.keys a.size rows in
      let k1 = (entries_at check selected rows "" h e1).1 in
      let (rows2, e2, k2, at) =
        put_all-total encode decode signatures now (fetched_of cached) rows1
          (fetched-CanPut a cached) k1 in
      let grace = seconds (refresh_ttl cfg) in
      let (rows3, e3) = finish_cycle-total check selected a.keys a.size rows2 now grace in
      let (t, keys, n, c, q) = finish_cycle-some selected (finite (pos now)) grace rows2 e3 in
      let k3 : Keyed rows3 = subst (λ r. Keyed r) (sym q) (finish-Keyed keys t grace rows2 k2) in
      let ((current, rows4), e4) = read_entries-total check selected a.keys a.size rows3 in
      let k4 = (entries_at check selected rows3 "" k3 e4).1 in
      let through = λ (mac : String) (m : mem mac selected ≡ true).
        let s = asked_selected a mac m in
        let i : mem mac keys ≡ true = cache_keys-mem mac selected keys c ∙ s in
        (read_asked decode selected rows3 mac s k3 e4).0
        ∙ ap (λ r. read_at check (lookup_row mac r)) q
        ∙ read_finished decode selected rows2 mac t grace keys i k2 in
      record {
        cached = cached;
        rows1 = rows1;
        rows2 = rows2;
        rows3 = rows3;
        current = current;
        rows4 = rows4;
        read = e1;
        puts = e2;
        finished = e3;
        read_again = e4;
        keyed = k4;
        fresh = λ mac m p.
            subst (λ o. IsFresh encode decode signatures now mac o) (sym (through mac m))
              ((at mac).put (mem-fetched a cached mac ∙ p));
        kept = λ mac m p.
            through mac m
            ∙ ap (read_at check) ((at mac).kept (mem-fetched a cached mac ∙ p))
            ∙ sym ((read_asked decode selected rows mac (asked_selected a mac m) h e1).1);
      }

  snapshot : (rows : Table) → Stored rows → Published
  unfolding deferred
  snapshot rows s =
      snapshot_of encode decode signatures cfg now total candidates selected s.cached
        (plan_of s.cached) (map (λ (f : String × Attrs). f.0) (fetched_of s.cached))
        (deferred s.cached signatures cfg now selected) s.current

  module _ (rows : Table) (s : Stored rows) where
    Shown-fresh :
        (mac : String)
        → mem mac selected ≡ true
        → mem mac (plan_of s.cached) ≡ true
        → (w : Shown encode decode signatures cfg now total candidates selected answer order
            (snapshot rows s)
            mac)
          × (w.entry.updated_at ≡ now)
    unfolding snapshot
    Shown-fresh mac m p =
        let f = s.fresh mac m p in
        (
          record {
            entry = f.entry;
            found = lookup-usable_of s.current signatures mac selected f.entry m f.found f.signed;
            signed = f.signed;
          },
          f.at_now,
        )

    Shown-kept :
        (mac : String)
        → mem mac selected ≡ true
        → mem mac (plan_of s.cached) ≡ false
        → is_unchanged s.cached signatures mac ≡ true
        → (w : Shown encode decode signatures cfg now total candidates selected answer order
            (snapshot rows s)
            mac)
          × (w.entry.updated_at ≡ updated s.cached signatures mac)
    unfolding snapshot
    Shown-kept mac m p u = elim (Option-cases (lookup_entry mac s.cached)) [
      | inl n ↦
          let c : is_unchanged s.cached signatures mac ≡ false = rw (n, is_unchanged) refl in
          absurd (ground (arith, c, u))
      | inr (e, n) ↦
          let c : is_unchanged s.cached signatures mac
              ≡ str_eq e.detail.signature (signatures mac) =
            rw (n, is_unchanged) refl in
          let g = (eq_iff e.detail.signature (signatures mac)).0 (sym c ∙ u) in
          let f : lookup_entry mac s.current ≡ some e = s.kept mac m p ∙ n in
          (
            record {
              entry = e;
              found = lookup-usable_of s.current signatures mac selected e m f g;
              signed = g;
            },
            rw (n, updated) refl,
          )
    ]

    -- Something is shown of a selection that is not empty.
    Shown-some :
        (mac : String)
        → mem mac selected ≡ true
        → (length (usable_of s.current signatures selected) == 0) ≡ false
    unfolding snapshot
    Shown-some mac m = elim (List-cases (plan_of s.cached)) [
      | inl e ↦
          let u = planned_nil s.cached signatures cfg now selected mac e m in
          let w = Shown-kept mac m (ap (mem mac) e) u in
          usable_of_some mac (usable_of s.current signatures selected) w.0.entry w.0.found
      | inr (x, xs, e) ↦
          let p : mem x (plan_of s.cached) ≡ true = ap (mem x) e ∙ ground (arith, str_eq_refl x) in
          let w = Shown-fresh x ((planned_bounds s.cached signatures cfg now selected).2 x p) p in
          usable_of_some x (usable_of s.current signatures selected) w.0.entry w.0.found
    ]

    published :
        publish encode decode signatures cfg now total candidates selected s.cached
          (plan_of s.cached)
          (map (λ (f : String × Attrs). f.0) (fetched_of s.cached))
          (deferred s.cached signatures cfg now selected)
          s.current
        ≡ some (snapshot rows s)
    unfolding publish snapshot
    published =
        let refused = λ (xs : List String).
          not (length xs == 0) && (length (usable_of s.current signatures selected) == 0) in
        let r : refused selected ≡ false = elim (List-cases selected) [
          | inl e ↦ ap refused e
          | inr (x, xs, e) ↦
              let n = Shown-some x (ap (mem x) e ∙ ground (arith, str_eq_refl x)) in
              ground (arith, n)
        ] in
        rw r refl

  -- A cycle whose requests are all answered.
  pub cycle-FreshCycle :
      (rows : Table)
      → Answered encode decode signatures cfg now total candidates selected answer order
      → Keyed rows
      → FreshCycle encode decode signatures cfg now total candidates selected answer order rows
  unfolding cycle snapshot
  cycle-FreshCycle rows a h =
      let s = stored rows a h in
      record {
        out = snapshot rows s;
        left = s.rows4;
        returned =
            rw (s.read, s.puts, s.finished, s.read_again, cycle)
              (ap (λ p. (p, s.rows4)) (published rows s));
        keyed = s.keyed;
        asked_now = λ mac p.
            Shown-fresh rows s mac ((planned_bounds s.cached signatures cfg now selected).2 mac p)
              p;
        all_fresh = λ mac d m. elim (Bool-cases (mem mac (plan_of s.cached))) [
          | inl p ↦ let w = Shown-fresh rows s mac m p in (w.0, omega (arith, w.1))
          | inr p ↦
              let u = unplanned_fresh s.cached signatures cfg now selected mac d m p in
              let w = Shown-kept rows s mac m p u.0 in (w.0, omega (arith, w.1, u.1))
        ];
      }
