-- ===== src/Posture/Plan.antt =====
-- ise_exporter/collectors/mnt_active_posture.py: which endpoints a cycle selects, and which details
-- it asks for again. Times and periods are in millionths of a second. The quotient of the rotation
-- target, which the source rounds to a float before it is rounded up, is exact here; below 2 ^ 53
-- the two round up alike.
use ise_exporter_v.Base.{
  ℕ, ◌+◌, ◌-◌, ◌*◌, ◌/◌, List, ◌++◌, filter, take, Bool, false, not, none, some, String, str_eq,
  length, leb, unique, min, max,
}
use Prim.Native.String.{compare}
use text.Mathlib.Text.{is_le}
use ise_exporter_v.Base.Int.{ℤ, pos_part}
use ise_exporter_v.Base.Float.{seconds}
use ise_exporter_v.State.Cache.{Entry}
use ise_exporter_v.State.Tables.{Signed}
use ise_exporter_v.State.Read.{lookup_entry}
use ise_exporter_v.Posture.Sort.{sorted}

-- The settings mnt_active_posture_... that the collector reads.
pub record PostureConfig : Type 0 where
  pub max_active_list_sessions : ℤ
  pub max_sessions : ℤ
  pub max_requests_per_cycle : ℤ
  pub refresh_ttl : ℤ
  pub interval : ℤ

abbrev pub list_ceiling : PostureConfig → ℕ
list_ceiling cfg = max 1 (min 250000 (pos_part cfg.max_active_list_sessions))

abbrev pub limit : PostureConfig → ℕ
limit cfg = min 1000 (pos_part cfg.max_sessions)

abbrev pub request_budget : PostureConfig → ℕ
request_budget cfg = max 1 (min 250 (pos_part cfg.max_requests_per_cycle))

-- In seconds.
abbrev pub refresh_ttl : PostureConfig → ℕ
refresh_ttl cfg = max 1 (pos_part cfg.refresh_ttl)

abbrev pub interval : PostureConfig → ℕ
interval cfg = max 1 (pos_part cfg.interval)

-- `selected`, by the digests of the candidates
unfoldable pub select : (String → String) → PostureConfig → List String → List String
unfolding sorted
select sha cfg candidates =
    take (limit cfg) (sorted (λ x y. is_le (compare (sha x) (sha y))) candidates)

module _ {D : Type 0} (cached : List (Entry (Signed D))) (signatures : String → String) where
  -- mac in cached and cached[mac]["signature"] == signatures[mac]
  abbrev pub is_unchanged : String → Bool
  is_unchanged mac = elim (lookup_entry mac cached) [
    | none ↦ false
    | some e ↦ str_eq e.detail.signature (signatures mac)
  ]

  abbrev pub updated : String → ℕ
  updated mac = elim (lookup_entry mac cached) [ none ↦ 0 | some e ↦ e.updated_at ]

  unfoldable pub mandatory : List String → List String
  mandatory selected = filter (λ mac. not (is_unchanged mac)) selected

  unfoldable pub oldest : List String → List String
  unfolding sorted
  oldest selected = sorted (λ x y. leb (updated x) (updated y)) (filter is_unchanged selected)

  -- now - cached[mac]["updated_at"] >= refresh_ttl
  abbrev pub is_expired : PostureConfig → ℕ → String → Bool
  is_expired cfg now mac = leb (updated mac + seconds (refresh_ttl cfg)) now

  abbrev pub rotation_target : PostureConfig → List String → ℕ
  rotation_target cfg selected =
      (length selected * interval cfg + (refresh_ttl cfg - 1)) / refresh_ttl cfg

  unfoldable pub refresh : PostureConfig → ℕ → List String → List String
  unfolding mandatory oldest
  refresh cfg now selected = unique (
      mandatory selected
      ++ (filter (is_expired cfg now) (oldest selected)
          ++ take (rotation_target cfg selected) (oldest selected)))

  unfoldable pub planned : PostureConfig → ℕ → List String → List String
  unfolding refresh
  planned cfg now selected = take (request_budget cfg) (refresh cfg now selected)

  unfoldable pub deferred : PostureConfig → ℕ → List String → ℕ
  unfolding refresh planned
  deferred cfg now selected = length (refresh cfg now selected) - length (planned cfg now selected)
