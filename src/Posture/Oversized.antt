-- ===== src/Posture/Oversized.antt =====
-- ise_exporter/collectors/mnt_active_posture.py: a detail that the cache refuses.
use ise_exporter_v.Base.{
  ℕ, List, [], ◌∷◌, any, Bool, true, false, Option, none, some, String, ◌≡◌, refl, arith,
  Bool-cases, Option-cases, inl, inr,
}
use ise_exporter_v.Base.Int.{pos}
use ise_exporter_v.Base.Float.{finite}
use ise_exporter_v.Helpers.Attrs.{Attrs}
use ise_exporter_v.State.Tables.{
  put_posture, posture_entries, encoded_within, max_posture_cache_detail_bytes,
}
use ise_exporter_v.Posture.Session.{MntSessions}
use ise_exporter_v.Posture.Detail.{Compact, compact_detail}
use ise_exporter_v.Posture.Plan.{PostureConfig, planned}
use ise_exporter_v.Posture.Collect.{Table, Details, bounded_details, put_all, cycle}

-- Whether a fetched detail is too long to be stored, or cannot be written at all.
abbrev pub is_oversized : (Compact → Option String) → String × Attrs → Bool
is_oversized encode f =
    elim (encoded_within encode max_posture_cache_detail_bytes (compact_detail f.1)) [
      | none ↦ true
      | some _ ↦ false
    ]

module _ (encode : Compact → Option String) (decode : String → Option Compact)
    (signatures : String → String) (now : ℕ) where
  put_posture-oversized :
      (f : String × Attrs) (rows : Table)
      → is_oversized encode f ≡ true
      → put_posture encode f.0 (signatures f.0) (compact_detail f.1) (finite (pos now)) rows ≡ none
  unfolding put_posture
  put_posture-oversized f rows h =
      elim (Option-cases
        (encoded_within encode max_posture_cache_detail_bytes (compact_detail f.1))) [
          | inl n ↦ ground (arith, n)
          | inr (t, n) ↦ absurd (ground (arith, n, h))
        ]

  put_all-oversized :
      (fetched : List (String × Attrs)) (rows : Table)
      → any (is_oversized encode) fetched ≡ true
      → put_all encode decode signatures now fetched rows ≡ none
  unfolding put_all
  put_all-oversized [] rows h = cc
  put_all-oversized ((mac, detail) ∷ fetched) rows h =
      elim (Option-cases
        (put_posture encode mac (signatures mac) (compact_detail detail) (finite (pos now)) rows)) [
          | inl n ↦ rw (n, put_all) refl
          | inr (rows', n) ↦ elim (Bool-cases (is_oversized encode (mac, detail))) [
            | inl o ↦
                let e = put_posture-oversized (mac, detail) rows o in absurd (ground (arith, e, n))
            | inr o ↦ rw (n, put_all) (put_all-oversized fetched rows' (ground (arith, h, o)))
          ]
        ]

-- If one of the fetched details is too long for the cache, or cannot be written, the cycle publishes
-- nothing and stores nothing, of the other endpoints neither: the table is the one that the first
-- reading has left.
pub cycle-oversized :
    (encode : Compact → Option String) (decode : String → Option Compact)
    (signatures : String → String) (cfg : PostureConfig) (now total candidates : ℕ)
    (selected : List String) (answer : String → Option MntSessions)
    (order : List String → List String) (rows rows1 : Table) (cached : Details)
    → posture_entries decode selected rows ≡ some (cached, rows1)
    → any
        (is_oversized encode)
        (bounded_details answer (order (planned cached signatures cfg now selected)))
      ≡ true
    → cycle encode decode signatures cfg now total candidates selected answer order rows
      ≡ (none, rows1)
unfolding cycle
cycle-oversized encode decode signatures cfg now total candidates selected answer order rows rows1
      cached e h =
    let fetched = bounded_details answer (order (planned cached signatures cfg now selected)) in
    rw (e, put_all-oversized encode decode signatures now fetched rows1 h, cycle) refl
