-- ===== src/State/Read.antt =====
-- ise_exporter/state.py: what an _entries method returns and removes, key by key.
use ise_exporter_v.Base.{
  List, [], ◌∷◌, filter, mem, mem_subst, Bool, true, false, ◌&&◌, not, Option, none, some, String,
  str_eq, if◌then◌else◌, ◌≡◌, refl, sym, ap, ◌∙◌, arith, Bool-cases, Option-cases, inl, inr,
}
use mathlib.Core.Path.{subst}
use ise_exporter_v.Base.Int.{pos}
use ise_exporter_v.Base.Float.{finite}
use ise_exporter_v.State.Cache.{
  Row, Entry, cache_keys, read_row, read_rows, read_entries, delete_invalid,
}
use ise_exporter_v.State.Keyed.{lookup_row, Keyed, keys_of}
pub use ise_exporter_v.State.Selection.{lookup_entry, lookup_entry-id, asked, cache_keys-mem}
use ise_exporter_v.State.Selection.{lookup-filter, filter-Keyed}

module _ {V B : Type 0} (check : V → Option B) where
  -- Reading one row, abstractly.
  abbrev pub read_at : Option (Row V) → Option (Entry B)
  read_at none = none
  read_at (some r) = read_row check r

  -- Whether a row is there and is not valid.
  abbrev pub invalid_at : Option (Row V) → Bool
  invalid_at none = false
  invalid_at (some r) = elim (read_row check r) [ none ↦ true | some _ ↦ false ]

  -- What an entry says of the row that it was read from.
  pub read_row-some :
      (r : Row V) (e : Entry B)
      → read_row check r ≡ some e
      → (check r.value ≡ some e.detail)
        × (e.id ≡ r.key)
        × (r.updated_at ≡ finite (pos e.updated_at))
  read_row-some r e h = (ground arith, ground arith, ground arith)

  read_row-id : (r : Row V) (e : Entry B) → read_row check r ≡ some e → e.id ≡ r.key
  read_row-id r e h = ground arith

  -- What a key without a row gives.
  record Unread (k : String) (rows : List (Row V)) : Type 0 where
    pub entry : lookup_entry k (read_rows check rows).0 ≡ none
    pub valid : mem k (read_rows check rows).1 ≡ false

  unread : (k : String) (rows : List (Row V)) → mem k (keys_of rows) ≡ false → Unread k rows
  unfolding read_rows
  unread k [] h = record { entry = refl; valid = refl }
  unread k (r ∷ rs) h =
      let ih = unread k rs (ground (arith, h)) in
      let n : str_eq k r.key ≡ false = ground (arith, h) in
      elim (Option-cases (read_row check r)) [
        | inl e ↦ record {
          entry = rw (e, read_rows) ih.entry;
          valid = rw (e, read_rows) (simp n ih.valid);
        }
        | inr (b, e) ↦
            let f : str_eq k b.id ≡ false = ap (str_eq k) (read_row-id r b e) ∙ n in
            record {
              entry = rw (e, read_rows) (simp f ih.entry);
              valid = rw (e, read_rows) ih.valid;
            }
      ]

  -- What a key gives, from its row alone.
  record Reads (k : String) (rows : List (Row V)) : Type 0 where
    pub entry : lookup_entry k (read_rows check rows).0 ≡ read_at (lookup_row k rows)
    pub valid : mem k (read_rows check rows).1 ≡ invalid_at (lookup_row k rows)

  reads : (k : String) (rows : List (Row V)) → Keyed rows → Reads k rows
  unfolding read_rows
  reads k [] h = record { entry = refl; valid = refl }
  reads k (r ∷ rs) h =
      let ih = reads k rs h.1 in
      elim (Bool-cases (str_eq k r.key)) [
        | inl f ↦
            let u = unread k rs (mem_subst k r.key (keys_of rs) f ∙ h.0) in
            elim (Option-cases (read_row check r)) [
              | inl e ↦
                  let i : invalid_at (some r) ≡ true = rw (e, invalid_at) refl in
                  record {
                    entry = rw (e, read_rows) (simp f (u.entry ∙ sym e));
                    valid = rw (e, read_rows) (simp f (sym i));
                  }
              | inr (b, e) ↦
                  let g : str_eq k b.id ≡ true = ap (str_eq k) (read_row-id r b e) ∙ f in
                  let i : invalid_at (some r) ≡ false = rw (e, invalid_at) refl in
                  record {
                    entry = rw (e, read_rows) (simp (f, g) (sym e));
                    valid = rw (e, read_rows) (simp f (u.valid ∙ sym i));
                  }
            ]
        | inr f ↦ elim (Option-cases (read_row check r)) [
          | inl e ↦ record {
            entry = rw (e, read_rows) (simp f ih.entry);
            valid = rw (e, read_rows) (simp f ih.valid);
          }
          | inr (b, e) ↦
              let g : str_eq k b.id ≡ false = ap (str_eq k) (read_row-id r b e) ∙ f in
              record {
                entry = rw (e, read_rows) (simp (f, g) ih.entry);
                valid = rw (e, read_rows) (simp f ih.valid);
              }
        ]
      ]

  if_read :
      (b : Bool) (o : Option (Row V))
      → read_at (if b then o else none) ≡ (if b then read_at o else none)
  if_read true o = refl
  if_read false o = refl

  if_invalid :
      (b : Bool) (o : Option (Row V)) → invalid_at (if b then o else none) ≡ (b && invalid_at o)
  if_invalid true o = refl
  if_invalid false o = refl

  if_not : (b : Bool) (o : Option (Row V)) → (if not b then o else none) ≡ (if b then none else o)
  if_not true o = refl
  if_not false o = refl

  -- What a reading that returns has selected and removed.
  pub read_entries-some :
      (values : List String) (rows : List (Row V)) {entries : List (Entry B)} {left : List (Row V)}
      → read_entries check values rows ≡ some (entries, left)
      → (keys : List String) × (cache_keys values ≡ some keys)
        × (entries ≡ (read_rows check (filter (λ (r : Row V). mem r.key keys) rows)).0)
        × (left
            ≡ delete_invalid (read_rows check (filter (λ (r : Row V). mem r.key keys) rows)).1 rows)
  unfolding read_entries
  read_entries-some values rows {entries = entries} {left = left} e =
      elim (Option-cases (cache_keys values)) [
        | inl n ↦ let c : read_entries check values rows ≡ none = rw (n, read_entries) refl in cc
        | inr (keys, n) ↦
            let sel = filter (λ (r : Row V). mem r.key keys) rows in
            let c : read_entries check values rows
                ≡ some ((read_rows check sel).0, delete_invalid (read_rows check sel).1 rows) =
              rw (n, read_entries) refl in
            (keys, n, cc, cc)
      ]

  -- What read_entries does, key by key.
  pub record EntriesAt (values : List String) (rows : List (Row V)) (k : String)
      (entries : List (Entry B)) (left : List (Row V)) : Type 0 where
    pub entry :
        lookup_entry k entries ≡ (if asked k values then read_at (lookup_row k rows) else none)
    pub left_row :
        lookup_row k left
        ≡ (if asked k values && invalid_at (lookup_row k rows) then none else lookup_row k rows)

  pub entries_at :
      (values : List String) (rows : List (Row V)) (k : String) {entries : List (Entry B)}
      {left : List (Row V)}
      → Keyed rows
      → read_entries check values rows ≡ some (entries, left)
      → EntriesAt values rows k entries left × Keyed left
  unfolding delete_invalid
  entries_at values rows k h e =
      let (keys, n, e1, e2) = read_entries-some values rows e in
      let sel = filter (λ (r : Row V). mem r.key keys) rows in
      let bad = (read_rows check sel).1 in
      let row = lookup_row k rows in
      let m = cache_keys-mem k values keys n in
      let l : lookup_row k sel ≡ (if asked k values then row else none) =
        lookup-filter (λ z. mem z keys) k rows ∙ ap (λ b. if b then row else none) m in
      let r = reads k sel (filter-Keyed (λ z. mem z keys) rows h) in
      let d = lookup-filter (λ z. not (mem z bad)) k rows in
      (
        record {
          entry = ap (lookup_entry k) e1 ∙ r.entry ∙ ap read_at l ∙ if_read (asked k values) row;
          left_row =
              ap (lookup_row k) e2
              ∙ d
              ∙ ap (λ b. if not b then row else none)
                  (r.valid ∙ ap invalid_at l ∙ if_invalid (asked k values) row)
              ∙ if_not (asked k values && invalid_at row) row;
        },
        subst (λ x. Keyed x) (sym e2) (filter-Keyed (λ z. not (mem z bad)) rows h),
      )
