-- ===== src/DataConnect/Rows.antt =====
-- ise_exporter/clients/dataconnect.py: the loop of _query over the fetched rows, with the ceilings on
-- a result and on a batch. A row is given with its materialized size.
use ise_exporter_v.Base.{
  ℕ, ◌+◌, ◌*◌, List, [], ◌∷◌, ◌++◌, Bool, ◌&&◌, Option, none, some, length, ltb, leb, if◌then◌else◌,
}

abbrev pub max_result_rows : ℕ
max_result_rows = 6000

abbrev pub max_batch_result_rows : ℕ
max_batch_result_rows = 12000

abbrev pub max_result_bytes : ℕ
max_result_bytes = 64 * 1024 * 1024

-- What the batch has kept so far: rows and bytes; both 0 outside a batch.
pub record Kept : Type 0 where
  pub batch_active : Bool
  pub batch_rows : ℕ
  pub batch_bytes : ℕ

module _ {Row : Type 0} where
  -- The loop, with the rows and bytes so far; `none` is the RuntimeError of a ceiling.
  unfoldable pub fetch_rows : Kept → List Row → ℕ → List (Row × ℕ) → Option (List Row × ℕ)
  fetch_rows k rows bytes [] = some (rows, bytes)
  fetch_rows k rows bytes (r ∷ rs) =
      let more = fetch_rows k (rows ++ r.0 ∷ []) (bytes + r.1) rs in
      let held = if k.batch_active then k.batch_bytes else 0 in
      if leb max_result_rows (length rows)
      then none
      else if k.batch_active && leb max_batch_result_rows (k.batch_rows + length rows)
      then none
      else if ltb max_result_bytes (held + (bytes + r.1))
      then none
      else more
