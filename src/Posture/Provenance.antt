-- ===== src/Posture/Provenance.antt =====
-- ise_exporter/collectors/mnt_active_posture.py: where the details of the cache come from.
use ise_exporter_v.Base.{
  ℕ, List, [], ◌∷◌, filter, mem, Bool, not, Option, some, String, str_eq, ◌≡◌, refl, sym, ap, ◌∙◌,
  arith, All, Bool-cases, Option-cases, inl, inr,
}
use mathlib.Core.Path.{subst}
use ise_exporter_v.Base.Float.{PyFloat}
use ise_exporter_v.State.Cache.{
  Row, Entry, upsert, cycle_row, finish_cache_cycle, finish_cycle, delete_invalid, read_row,
  read_rows,
}
use ise_exporter_v.State.Tables.{
  PostureValue, Signed, posture_entries, posture_detail, decoded_within,
  max_posture_cache_detail_bytes,
}
use ise_exporter_v.State.Read.{lookup_entry, read_row-some, read_entries-some}
use ise_exporter_v.State.Keyed.{finish_cycle-some}
use ise_exporter_v.Posture.Detail.{Compact}
use ise_exporter_v.Posture.Collect.{Table, Details}

-- Statements about each row of a table.
module _ {V : Type 0} (Q : Row V → Type 0) where
  pub All-upsert : (r : Row V) (rows : List (Row V)) → Q r → All Q rows → All Q (upsert r rows)
  unfolding upsert
  All-upsert r [] q h = (q, tt)
  All-upsert r (x ∷ xs) q h =
      let ih = All-upsert r xs q h.1 in
      elim (Bool-cases (str_eq x.key r.key)) [ inl e ↦ simp e (q, h.1) | inr e ↦ simp e (h.0, ih) ]

  All-filter : (p : Row V → Bool) (rows : List (Row V)) → All Q rows → All Q (filter p rows)
  All-filter p [] h = tt
  All-filter p (x ∷ xs) h =
      let ih = All-filter p xs h.1 in
      elim (Bool-cases (p x)) [ inl e ↦ rw e (h.0, ih) | inr e ↦ rw e ih ]

  -- A cycle changes no more than `last_seen` of a row that it keeps.
  All-finish :
      (active : List String) (now grace : ℕ) (rows : List (Row V))
      → ((r s : Row V) → s.key ≡ r.key → s.value ≡ r.value → Q r → Q s)
      → All Q rows
      → All Q (finish_cache_cycle active now grace rows)
  unfolding finish_cache_cycle
  All-finish active now grace [] f h = tt
  All-finish active now grace (r ∷ rs) f h =
      let ih = All-finish active now grace rs f h.1 in
      elim (Option-cases (cycle_row active now grace r)) [
        | inl e ↦ rw (e, finish_cache_cycle) ih
        | inr (s, e) ↦ rw (e, finish_cache_cycle) (f r s (ground arith) (ground arith) h.0, ih)
      ]

module _ (decode : String → Option Compact) (P : String → String → Compact → Type 0) where
  -- A stored detail, if it can be read, is one that P holds of, under its key and its signature.
  abbrev pub RowFrom : Row PostureValue → Type 0
  RowFrom r =
      (d : Compact)
      → decoded_within decode max_posture_cache_detail_bytes r.value.detail_json ≡ some d
      → P r.key r.value.signature d

  abbrev pub EntryFrom : Entry (Signed Compact) → Type 0
  EntryFrom e = P e.id e.detail.signature e.detail.detail

  posture_detail-some :
      (v : PostureValue) (s : Signed Compact)
      → posture_detail decode v ≡ some s
      → (decoded_within decode max_posture_cache_detail_bytes v.detail_json ≡ some s.detail)
        × (s.signature ≡ v.signature)
  posture_detail-some v s h = (ground arith, ground arith)

  read_rows-From :
      (rows : Table) → All RowFrom rows → All EntryFrom (read_rows (posture_detail decode) rows).0
  unfolding read_rows
  read_rows-From [] h = tt
  read_rows-From (r ∷ rs) h =
      let ih = read_rows-From rs h.1 in
      elim (Option-cases (read_row (posture_detail decode) r)) [
        | inl e ↦ rw (e, read_rows) ih
        | inr (b, e) ↦
            let f = read_row-some (posture_detail decode) r b e in
            let g = posture_detail-some r.value b.detail f.0 in
            let q =
              subst (λ k. P k r.value.signature b.detail.detail) (sym f.1)
                (h.0 b.detail.detail g.0) in
            rw (e, read_rows) (subst (λ s. P b.id s b.detail.detail) (sym g.1) q, ih)
      ]

  -- A reading returns entries that P holds of, and leaves rows that it holds of.
  pub posture_entries-From :
      (macs : List String) (rows : Table) {entries : Details} {left : Table}
      → All RowFrom rows
      → posture_entries decode macs rows ≡ some (entries, left)
      → All EntryFrom entries × All RowFrom left
  unfolding posture_entries delete_invalid
  posture_entries-From macs rows h e =
      let (keys, n, e1, e2) = read_entries-some (posture_detail decode) macs rows e in
      let sel = filter (λ (r : Row PostureValue). mem r.key keys) rows in
      let bad = (read_rows (posture_detail decode) sel).1 in
      (
        subst (λ es. All EntryFrom es) (sym e1)
            (read_rows-From sel (All-filter RowFrom (λ r. mem r.key keys) rows h)),
        subst (λ rs. All RowFrom rs) (sym e2)
            (All-filter RowFrom (λ r. not (mem r.key bad)) rows h),
      )

  RowFrom-subst :
      (r s : Row PostureValue) → s.key ≡ r.key → s.value ≡ r.value → RowFrom r → RowFrom s
  RowFrom-subst r s k v q d e =
      let f = q d (
        ap
          (λ (w : PostureValue). decoded_within decode max_posture_cache_detail_bytes w.detail_json)
          (sym v)
        ∙ e) in
      subst (λ x. P x s.value.signature d) (sym k)
        (subst (λ (w : PostureValue). P r.key w.signature d) (sym v) f)

  pub finish_cycle-From :
      (active : List String) (now : PyFloat) (grace : ℕ) (rows : Table) {left : Table}
      → All RowFrom rows
      → finish_cycle active now grace rows ≡ some left
      → All RowFrom left
  finish_cycle-From active now grace rows h e =
      let (t, keys, n, m, e1) = finish_cycle-some active now grace rows e in
      subst (λ rs. All RowFrom rs) (sym e1) (All-finish RowFrom keys t grace rows RowFrom-subst h)

  pub lookup_entry-From :
      (k : String) (es : Details) (e : Entry (Signed Compact))
      → All EntryFrom es
      → lookup_entry k es ≡ some e
      → EntryFrom e
  lookup_entry-From k [] e h q = cc
  lookup_entry-From k (x ∷ xs) e h q = elim (Bool-cases (str_eq k x.id)) [
    | inl f ↦
        let c : lookup_entry k (x ∷ xs) ≡ some x = simp f refl in
        let d : x ≡ e = ground (arith, c, q) in subst (λ y. EntryFrom y) d h.0
    | inr f ↦
        let c : lookup_entry k (x ∷ xs) ≡ lookup_entry k xs = simp f refl in
        lookup_entry-From k xs e h.1 (sym c ∙ q)
  ]

  -- What is used has the current signature of its endpoint.
  abbrev pub Current : (String → String) → Entry (Signed Compact) → Type 0
  Current signatures e = P e.id (signatures e.id) e.detail.detail
