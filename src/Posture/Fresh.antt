-- ===== src/Posture/Fresh.antt =====
-- ise_exporter/collectors/mnt_active_posture.py: a cycle whose requests are all answered.
use ise_exporter_v.Base.{
  ℕ, ◌+◌, ◌≤◌, ◌<◌, List, [], ◌∷◌, mem, any, true, false, ◌&&◌, Option, none, some, String, str_eq,
  eq_iff, length, if◌then◌else◌, ◌≡◌, refl, sym, ap, ◌∙◌, arith, All, Bool-cases, Option-cases, inl,
  inr,
}
use mathlib.Core.Path.{subst}
use ise_exporter_v.Base.Float.{seconds}
use ise_exporter_v.Helpers.Attrs.{Attrs}
use ise_exporter_v.State.Cache.{
  Row, Entry, finish_cache_cycle, max_cache_cycle_keys, read_row, cycle_row,
}
use ise_exporter_v.State.Tables.{PostureValue, Signed, posture_entries, posture_detail}
use ise_exporter_v.State.Keyed.{lookup_row, Keyed, cycle_at, lookup-finish, lookup_row-key}
use ise_exporter_v.State.Read.{lookup_entry, read_at, asked, invalid_at, entries_at}
use ise_exporter_v.State.Total.{IsKey}
use ise_exporter_v.Posture.Session.{MntSessions}
use ise_exporter_v.Posture.Detail.{Compact, detail_of, compact_detail}
use ise_exporter_v.Posture.Plan.{PostureConfig, refresh_ttl}
use ise_exporter_v.Posture.Collect.{Table, Details, Published, cycle}
use ise_exporter_v.Posture.Puts.{Storable}

pub mem-IsKey : (mac : String) (xs : List String) → All IsKey xs → mem mac xs ≡ true → IsKey mac
mem-IsKey mac [] h e = cc
mem-IsKey mac (x ∷ xs) h e = elim (Bool-cases (str_eq mac x)) [
  | inl i ↦ subst (λ z. IsKey z) (sym ((eq_iff mac x).0 i)) h.0
  | inr i ↦ mem-IsKey mac xs h.1 (ground (arith, e, i))
]

read-kept :
    (decode : String → Option Compact) (o : Option (Row PostureValue))
    → read_at (posture_detail decode) o
      ≡ read_at (posture_detail decode) (if invalid_at (posture_detail decode) o then none else o)
read-kept decode none = refl
read-kept decode (some r) = elim (Option-cases (read_row (posture_detail decode) r)) [
  | inl e ↦
      let i : invalid_at (posture_detail decode) (some r) ≡ true = rw (e, invalid_at) refl in rw i e
  | inr (b, e) ↦
      let i : invalid_at (posture_detail decode) (some r) ≡ false = rw (e, invalid_at) refl in
      rw i refl
]

-- Reading a selected key: the entry is that of the row which is left.
module _ (decode : String → Option Compact) (selected : List String) (rows : Table)
    (mac : String) where
  pub read_asked :
      {entries : Details} {left : Table}
      → asked mac selected ≡ true
      → Keyed rows
      → posture_entries decode selected rows ≡ some (entries, left)
      → (lookup_entry mac entries ≡ read_at (posture_detail decode) (lookup_row mac rows))
        × (lookup_entry mac entries ≡ read_at (posture_detail decode) (lookup_row mac left))
  unfolding posture_entries
  read_asked {entries = entries} {left = left} a h e =
      let (at, k) = entries_at (posture_detail decode) selected rows mac h e in
      let row = lookup_row mac rows in
      let l : lookup_row mac left ≡ (if invalid_at (posture_detail decode) row then none else row) =
        at.left_row
        ∙ ap (λ b. if b && invalid_at (posture_detail decode) row then none else row) a in
      let f : lookup_entry mac entries ≡ read_at (posture_detail decode) row =
        at.entry ∙ ap (λ b. if b then read_at (posture_detail decode) row else none) a in
      (f, f ∙ read-kept decode row ∙ ap (read_at (posture_detail decode)) (sym l))

  -- A cycle keeps what is read of an active key.
  pub read_finished :
      (now grace : ℕ) (keys : List String)
      → mem mac keys ≡ true
      → Keyed rows
      → read_at (posture_detail decode) (lookup_row mac (finish_cache_cycle keys now grace rows))
        ≡ read_at (posture_detail decode) (lookup_row mac rows)
  read_finished now grace keys m h = elim (Option-cases (lookup_row mac rows)) [
    | inl n ↦ rw (lookup-finish mac keys now grace rows h, n) refl
    | inr (r, n) ↦
        let i : any (str_eq r.key) keys ≡ true =
          ap (λ z. mem z keys) (sym (lookup_row-key mac rows r n)) ∙ m in
        let c : cycle_row keys now grace r ≡ some (record r { last_seen = now }) = simp i refl in
        let d : cycle_at mac keys now grace (some r) ≡ some (record r { last_seen = now }) = c in
        ap (read_at (posture_detail decode))
          (lookup-finish mac keys now grace rows h ∙ ap (cycle_at mac keys now grace) n ∙ d)
        ∙ sym (ap (read_at (posture_detail decode)) n)
  ]

module _ (encode : Compact → Option String) (decode : String → Option Compact)
    (signatures : String → String) (cfg : PostureConfig) (now total candidates : ℕ)
    (selected : List String) (answer : String → Option MntSessions)
    (order : List String → List String) where
  -- The selected addresses and their signatures are keys, the client answers each request with a
  -- detail that can be stored, and every planned request completes, in some order.
  pub record Answered : Type 0 where
    pub keys : All IsKey selected
    pub size : length selected ≤ max_cache_cycle_keys
    pub signed : (mac : String) → IsKey (signatures mac)
    pub completes : (mac : String) (macs : List String) → mem mac (order macs) ≡ mem mac macs
    pub answers :
        (mac : String)
        → mem mac selected ≡ true
        → (x : Attrs) × (detail_of (answer mac) ≡ some x)
          × Storable encode decode (compact_detail x)

  -- What a cycle shows for an endpoint.
  pub record Shown (p : Published) (mac : String) : Type 0 where
    pub entry : Entry (Signed Compact)
    pub found : lookup_entry mac p.usable ≡ some entry
    pub signed : entry.detail.signature ≡ signatures mac

  pub record FreshCycle (rows : Table) : Type 0 where
    pub out : Published
    pub left : Table
    pub returned :
        cycle encode decode signatures cfg now total candidates selected answer order rows
        ≡ (some out, left)
    pub keyed : Keyed left
    pub asked_now :
        (mac : String)
        → mem mac out.planned ≡ true
        → (s : Shown out mac) × (s.entry.updated_at ≡ now)
    pub all_fresh :
        (mac : String)
        → out.deferred ≡ 0
        → mem mac selected ≡ true
        → (s : Shown out mac) × (now < s.entry.updated_at + seconds (refresh_ttl cfg))
