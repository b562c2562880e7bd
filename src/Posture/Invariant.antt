-- ===== src/Posture/Invariant.antt =====
-- ise_exporter/collectors/mnt_active_posture.py: no detail is shown for another session.
use ise_exporter_v.Base.{
  ℕ, List, [], ◌∷◌, not, Option, none, some, String, str_eq, eq_iff, length, ◌≡◌, refl, sym, ap,
  ◌∙◌, arith, All, Bool-cases, Option-cases, inl, inr, ◌&&◌, ◌==◌,
}
use mathlib.Core.Path.{subst}
use ise_exporter_v.Base.Int.{pos}
use ise_exporter_v.Base.Float.{finite, seconds}
use ise_exporter_v.Helpers.Attrs.{Attrs}
use ise_exporter_v.State.Cache.{Row, Entry, upsert, finish_cycle}
use ise_exporter_v.State.Tables.{
  PostureValue, Signed, put_posture, posture_entries, decoded_within,
  max_posture_cache_detail_bytes,
}
use ise_exporter_v.State.Read.{lookup_entry, lookup_entry-id}
use ise_exporter_v.Posture.Session.{MntSessions}
use ise_exporter_v.Posture.Detail.{Compact, detail_of, compact_detail}
use ise_exporter_v.Posture.Plan.{PostureConfig, planned, refresh_ttl}
use ise_exporter_v.Posture.Collect.{
  Table, Details, Published, usable_of, bounded_details, put_all, publish, cycle,
}
use ise_exporter_v.Posture.Provenance.{
  RowFrom, EntryFrom, All-upsert, posture_entries-From, finish_cycle-From, lookup_entry-From,
}

-- The row that a put writes.
abbrev pub put_value : String → String → String → ℕ → Row PostureValue
put_value mac signature text now = record {
  key = mac;
  value = record { signature = signature; detail_json = text };
  updated_at = finite (pos now);
  last_seen = now;
}

pub put_posture-some :
    {D : Type 0} (encode : D → Option String) (mac signature : String) (d : D) (now : ℕ)
    (rows : Table) {left : Table}
    → put_posture encode mac signature d (finite (pos now)) rows ≡ some left
    → (t : String) × (encode d ≡ some t) × (left ≡ upsert (put_value mac signature t now) rows)
unfolding put_posture
put_posture-some encode mac signature d now rows {left = left} e = elim (Option-cases (encode d)) [
  | inl n ↦ absurd (ground (arith, e, n))
  | inr (t, n) ↦ (t, n, ground (arith, e, n))
]

module _ (encode : Compact → Option String) (decode : String → Option Compact)
    (P : String → String → Compact → Type 0) (signatures : String → String) where
  -- json.loads gives back what json.dumps has written.
  abbrev pub Loads : Compact → Type 0
  Loads d = (t : String) → encode d ≡ some t → decode t ≡ some d

  decoded-eq :
      (t : String) (d d' : Compact)
      → decode t ≡ some d'
      → decoded_within decode max_posture_cache_detail_bytes t ≡ some d
      → d' ≡ d
  unfolding decoded_within
  decoded-eq t d d' h k = ground (arith, h, k)

  -- What each fetched detail brings.
  abbrev pub Brings : String × Attrs → Type 0
  Brings f = Loads (compact_detail f.1) × P f.0 (signatures f.0) (compact_detail f.1)

  put-From :
      (mac : String) (detail : Attrs) (now : ℕ) (rows : Table) {left : Table}
      → Brings (mac, detail)
      → All (RowFrom decode P) rows
      → put_posture encode mac (signatures mac) (compact_detail detail) (finite (pos now)) rows
        ≡ some left
      → All (RowFrom decode P) left
  put-From mac detail now rows b h e =
      let (t, n, q) =
        put_posture-some encode mac (signatures mac) (compact_detail detail) now rows e in
      let r = put_value mac (signatures mac) t now in
      let loaded = b.0 t n in
      subst (λ rs. All (RowFrom decode P) rs) (sym q)
        (All-upsert (RowFrom decode P) r rows
          (λ d' k.
            let same : compact_detail detail ≡ d' =
              decoded-eq t d' (compact_detail detail) loaded k in
            subst (λ x. P mac (signatures mac) x) same b.1)
          h)

  put_all-From :
      (now : ℕ) (fetched : List (String × Attrs)) (rows : Table) {left : Table}
      → All Brings fetched
      → All (RowFrom decode P) rows
      → put_all encode decode signatures now fetched rows ≡ some left
      → All (RowFrom decode P) left
  unfolding put_all
  put_all-From now [] rows {left = left} b h e =
      let q : rows ≡ left = cc in subst (λ rs. All (RowFrom decode P) rs) q h
  put_all-From now ((mac, detail) ∷ fetched) rows b h e =
      let put =
        put_posture encode mac (signatures mac) (compact_detail detail) (finite (pos now)) rows in
      elim (Option-cases put) [
        | inl n ↦
            let c : put_all encode decode signatures now ((mac, detail) ∷ fetched) rows ≡ none =
              rw (n, put_all) refl in
            cc
        | inr (rows', n) ↦
            let c : put_all encode decode signatures now ((mac, detail) ∷ fetched) rows
                ≡ put_all encode decode signatures now fetched rows' =
              rw (n, put_all) refl in
            put_all-From now fetched rows' b.1 (put-From mac detail now rows b.0 h n) (sym c ∙ e)
      ]

  bounded_details-Brings :
      (answer : String → Option MntSessions)
      → ((mac : String) (x : Attrs) → detail_of (answer mac) ≡ some x → Brings (mac, x))
      → (completed : List String) → All Brings (bounded_details answer completed)
  unfolding bounded_details
  bounded_details-Brings answer f [] = tt
  bounded_details-Brings answer f (m ∷ ms) =
      let ih = bounded_details-Brings answer f ms in
      elim (Option-cases (detail_of (answer m))) [
        | inl e ↦ rw (e, bounded_details) ih
        | inr (x, e) ↦ rw (e, bounded_details) (f m x e, ih)
      ]

  -- An entry that has the current signature of its endpoint, under which P holds of its detail.
  abbrev pub IsCurrent : Entry (Signed Compact) → Type 0
  IsCurrent e = (e.detail.signature ≡ signatures e.id) × P e.id (signatures e.id) e.detail.detail

  usable_of-IsCurrent :
      (current : Details) (selected : List String)
      → All (EntryFrom decode P) current
      → All IsCurrent (usable_of current signatures selected)
  unfolding usable_of
  usable_of-IsCurrent current [] h = tt
  usable_of-IsCurrent current (m ∷ ms) h =
      let ih = usable_of-IsCurrent current ms h in
      elim (Option-cases (lookup_entry m current)) [
        | inl n ↦ rw (n, usable_of) ih
        | inr (e, n) ↦ elim (Bool-cases (str_eq e.detail.signature (signatures m))) [
          | inl s ↦
              let f = lookup_entry-From decode P m current e h n in
              let i : m ≡ e.id = (eq_iff m e.id).0 (lookup_entry-id m current e n) in
              let g : e.detail.signature ≡ signatures e.id =
                (eq_iff e.detail.signature (signatures m)).0 s ∙ ap signatures i in
              rw (n, usable_of) (simp s ((g, subst (λ x. P e.id x e.detail.detail) g f), ih))
          | inr s ↦ rw (n, usable_of) (simp s ih)
        ]
      ]

  -- What is published, if anything is.
  abbrev pub Shows : Option Published → Type 0
  Shows none = Unit {0}
  Shows (some p) = All IsCurrent p.usable

  module _ (cfg : PostureConfig) (now total candidates : ℕ) (selected : List String) where
    publish-Shows :
        (cached : Details) (plan fetched : List String) (n : ℕ) (current : Details)
        → All (EntryFrom decode P) current
        → Shows (
            publish encode decode signatures cfg now total candidates selected cached plan fetched n
              current)
    unfolding publish
    publish-Shows cached plan fetched n current h =
        let u = usable_of-IsCurrent current selected h in
        elim (Bool-cases
          (not (length selected == 0) && (length (usable_of current signatures selected) == 0))) [
            | inl e ↦ rw (e, publish) tt
            | inr e ↦ rw (e, publish) u
          ]

    module _ (answer : String → Option MntSessions) (order : List String → List String)
        (brings : (mac : String) (x : Attrs)
          → detail_of (answer mac) ≡ some x
          → Brings (mac, x)) where
      pub cycle-Shows :
          (rows : Table)
          → All (RowFrom decode P) rows
          → Shows
              (cycle encode decode signatures cfg now total candidates selected answer order rows).0
            × All
                (RowFrom decode P)
                (cycle encode decode signatures cfg now total candidates selected answer order
                  rows).1
      unfolding cycle
      cycle-Shows rows h = elim (Option-cases (posture_entries decode selected rows)) [
        | inl n ↦ rw (n, cycle) (tt, h)
        | inr ((cached, rows1), n) ↦
            let h1 = posture_entries-From decode P selected rows h n in
            let fetched =
              bounded_details answer (order (planned cached signatures cfg now selected)) in
            let b =
              bounded_details-Brings answer brings
                (order (planned cached signatures cfg now selected)) in
            elim (Option-cases (put_all encode decode signatures now fetched rows1)) [
              | inl m ↦ rw (n, m, cycle) (tt, h1.1)
              | inr (rows2, m) ↦
                  let h2 = put_all-From now fetched rows1 b h1.1 m in
                  elim (Option-cases
                    (finish_cycle selected (finite (pos now)) (seconds (refresh_ttl cfg)) rows2)) [
                      | inl k ↦ rw (n, m, k, cycle) (tt, h1.1)
                      | inr (rows3, k) ↦
                          let h3 =
                            finish_cycle-From decode P selected (finite (pos now))
                              (seconds (refresh_ttl cfg)) rows2 h2 k in
                          elim (Option-cases (posture_entries decode selected rows3)) [
                            | inl l ↦ rw (n, m, k, l, cycle) (tt, h3)
                            | inr ((current, rows4), l) ↦
                                let h4 = posture_entries-From decode P selected rows3 h3 l in
                                rw (n, m, k, l, cycle)
                                  (publish-Shows cached _ _ _ current h4.0, h4.1)
                          ]
                    ]
            ]
      ]
