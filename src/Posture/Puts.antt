-- ===== src/Posture/Puts.antt =====
-- ise_exporter/collectors/mnt_active_posture.py: what the loop of puts leaves under each key.
use ise_exporter_v.Base.{
  ℕ, List, [], ◌∷◌, map, mem, true, false, ◌||◌, Option, some, String, str_eq, eq_iff, ltb, ◌≡◌,
  refl, sym, ap, ◌∙◌, arith, str_eq_refl, All, Bool-cases, Option-cases, inl, inr,
}
use mathlib.Core.Path.{subst}
use Prim.Native.String.{len}
use ise_exporter_v.Base.Int.{pos}
use ise_exporter_v.Base.Float.{finite}
use ise_exporter_v.Helpers.Attrs.{Attrs}
use ise_exporter_v.State.Cache.{Entry, upsert}
use ise_exporter_v.State.Tables.{
  Signed, put_posture, encoded_within, posture_detail, decoded_within,
  max_posture_cache_detail_bytes,
}
use ise_exporter_v.State.Keyed.{lookup_row, Keyed, lookup-upsert, upsert-Keyed}
use ise_exporter_v.State.Read.{read_at}
use ise_exporter_v.State.Total.{IsKey}
use ise_exporter_v.Posture.Session.{MntSessions}
use ise_exporter_v.Posture.Detail.{Compact, detail_of, compact_detail}
use ise_exporter_v.Posture.Collect.{Table, put_all, bounded_details}
use ise_exporter_v.Posture.Invariant.{put_value}

module _ (encode : Compact → Option String) (decode : String → Option Compact) where
  -- A detail that json.dumps writes within the limit, and that json.loads gives back.
  abbrev pub Storable : Compact → Type 0
  Storable d =
      (t : String) × (encode d ≡ some t)
      × (ltb max_posture_cache_detail_bytes (len t) ≡ false)
      × (decode t ≡ some d)

module _ (encode : Compact → Option String) (decode : String → Option Compact)
    (signatures : String → String) (now : ℕ) where
  abbrev pub CanPut : String × Attrs → Type 0
  CanPut f = IsKey f.0 × IsKey (signatures f.0) × Storable encode decode (compact_detail f.1)

  put_posture-upsert :
      (mac : String) (detail : Attrs) (rows : Table) (c : CanPut (mac, detail))
      → put_posture encode mac (signatures mac) (compact_detail detail) (finite (pos now)) rows
        ≡ some (upsert (put_value mac (signatures mac) (c.2.0) now) rows)
  unfolding put_posture encoded_within
  put_posture-upsert mac detail rows c =
      let (k, s, (t, e, l, _)) = c in
      let w : encoded_within encode max_posture_cache_detail_bytes (compact_detail detail)
          ≡ some t =
        rw (e, l, encoded_within) refl in
      ground (arith, k, s, w)

  -- The entry of a detail that this cycle has stored.
  pub record IsFresh (mac : String) (o : Option (Entry (Signed Compact))) : Type 0 where
    pub entry : Entry (Signed Compact)
    pub found : o ≡ some entry
    pub signed : entry.detail.signature ≡ signatures mac
    pub at_now : entry.updated_at ≡ now

  read-put :
      (mac : String) (detail : Attrs) (c : CanPut (mac, detail))
      → IsFresh mac
          (read_at (posture_detail decode) (some (put_value mac (signatures mac) (c.2.0) now)))
  unfolding decoded_within
  read-put mac detail c =
      let (k, s, (t, e, l, d)) = c in
      record {
        entry = record {
          id = mac;
          detail = record { signature = signatures mac; detail = compact_detail detail };
          updated_at = now;
        };
        found = ground (arith, l, d);
        signed = refl;
        at_now = refl;
      }

  -- The loop returns: under a fetched key is a fresh row, and the other keys keep theirs.
  pub record PutsAt (mac : String) (fetched : List (String × Attrs)) (rows left : Table)
      : Type 0 where
    pub put :
        mem mac (map (λ (f : String × Attrs). f.0) fetched) ≡ true
        → IsFresh mac (read_at (posture_detail decode) (lookup_row mac left))
    pub kept :
        mem mac (map (λ (f : String × Attrs). f.0) fetched) ≡ false
        → lookup_row mac left ≡ lookup_row mac rows

  puts_step :
      (mac m : String) (detail : Attrs) (fetched : List (String × Attrs)) (rows left : Table)
      (c : CanPut (m, detail))
      → PutsAt mac fetched (upsert (put_value m (signatures m) (c.2.0) now) rows) left
      → PutsAt mac ((m, detail) ∷ fetched) rows left
  puts_step mac m detail fetched rows left c at =
      let r = put_value m (signatures m) (c.2.0) now in
      let u = lookup-upsert mac r rows in
      let ms = map (λ (f : String × Attrs). f.0) fetched in
      record {
        put = λ (e : (str_eq mac m || mem mac ms) ≡ true). elim (Bool-cases (mem mac ms)) [
          | inl i ↦ at.put i
          | inr i ↦
              let s : str_eq mac m ≡ true = ground (arith, e, i) in
              let l : lookup_row mac left ≡ some r = at.kept i ∙ u ∙ simp s refl in
              let q : m ≡ mac = sym ((eq_iff mac m).0 s) in
              subst (λ o. IsFresh mac (read_at (posture_detail decode) o)) (sym l)
                (subst (λ x. IsFresh x (read_at (posture_detail decode) (some r))) q
                  (read-put m detail c))
        ];
        kept = λ (e : (str_eq mac m || mem mac ms) ≡ false).
            let s : str_eq mac m ≡ false = ground (arith, e) in
            at.kept (ground (arith, e)) ∙ u ∙ simp s refl;
      }

  pub put_all-total :
      (fetched : List (String × Attrs)) (rows : Table)
      → All CanPut fetched
      → Keyed rows
      → (left : Table) × (put_all encode decode signatures now fetched rows ≡ some left)
        × Keyed left
        × ((mac : String) → PutsAt mac fetched rows left)
  unfolding put_all
  put_all-total [] rows c h = (rows, refl, h, λ mac. record { put = λ e. cc; kept = λ e. refl })
  put_all-total ((m, detail) ∷ fetched) rows c h =
      let r = put_value m (signatures m) (c.0.2.0) now in
      let rows1 = upsert r rows in
      let (left, e, k, at) = put_all-total fetched rows1 c.1 (upsert-Keyed r rows h) in
      let p = put_posture-upsert m detail rows c.0 in
      (left, rw (p, put_all) e, k, λ mac. puts_step mac m detail fetched rows left c.0 (at mac))

  -- Each request that gives a detail is put.
  pub bounded_details-CanPut :
      (answer : String → Option MntSessions) (completed : List String)
      → ((mac : String) (x : Attrs)
          → mem mac completed ≡ true
          → detail_of (answer mac) ≡ some x
          → CanPut (mac, x))
      → All CanPut (bounded_details answer completed)
  unfolding bounded_details
  bounded_details-CanPut answer [] f = tt
  bounded_details-CanPut answer (m ∷ ms) f =
      let ih = bounded_details-CanPut answer ms (λ mac x e. f mac x (ground (arith, e))) in
      elim (Option-cases (detail_of (answer m))) [
        | inl n ↦ rw (n, bounded_details) ih
        | inr (x, n) ↦ rw (n, bounded_details) (f m x (ground (arith, str_eq_refl m)) n, ih)
      ]

pub mem-bounded_details :
    (answer : String → Option MntSessions) (completed : List String) (mac : String)
    → ((m : String) → mem m completed ≡ true → (x : Attrs) × (detail_of (answer m) ≡ some x))
    → mem mac (map (λ (f : String × Attrs). f.0) (bounded_details answer completed))
      ≡ mem mac completed
unfolding bounded_details
mem-bounded_details answer [] mac f = refl
mem-bounded_details answer (m ∷ ms) mac f =
    let ih = mem-bounded_details answer ms mac (λ k e. f k (ground (arith, e))) in
    let (x, n) = f m (ground (arith, str_eq_refl m)) in
    rw (n, bounded_details) (ap (λ b. str_eq mac m || b) ih)
