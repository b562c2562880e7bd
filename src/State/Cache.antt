-- ===== src/State/Cache.antt =====
-- ise_exporter/state.py: the cache tables of StateStore, with the statements that the code sends to
-- SQLite as functions on a list of rows. A table's primary key is the field `key`. `json.dumps` and
-- `json.loads` enter as arguments; times are in millionths of a second.

use ise_exporter_v.Base.{
  ℕ, ◌+◌, List, [], ◌∷◌, filter, any, ◌||◌, not, Option, none, some, String, str_eq, length, ltb,
  if◌then◌else◌, unique,
}
use Prim.Native.String.{len}
use ise_exporter_v.Base.Int.{pos}
use ise_exporter_v.Base.Float.{PyFloat, finite}

abbrev pub max_state_key_bytes : ℕ
max_state_key_bytes = 256

abbrev pub max_cache_cycle_keys : ℕ
max_cache_cycle_keys = 250000

-- A row: what the table keeps under the key, and its times. `updated_at` is what the file holds.
pub record Row (V : Type 0) : Type 0 where
  pub key : String
  pub value : V
  pub updated_at : PyFloat
  pub last_seen : ℕ

-- What an _entries method returns under a key.
pub record Entry (B : Type 0) : Type 0 where
  pub id : String
  pub detail : B
  pub updated_at : ℕ

-- _valid_timestamp(value), of a float
abbrev pub valid_timestamp : PyFloat → Option ℕ
valid_timestamp (finite (pos t)) = some t
valid_timestamp _ = none

-- _state_key(value), of a string
abbrev pub state_key : String → Option String
state_key k = if str_eq k "" || ltb max_state_key_bytes (len k) then none else some k

-- _cache_keys(values, description)
unfoldable pub cache_keys : List String → Option (List String)
cache_keys values =
    let keys = unique (filter (λ v. not (str_eq v "")) values) in
    if ltb max_cache_cycle_keys (length keys)
    then none
    else if any (λ k. ltb max_state_key_bytes (len k)) keys
    then none
    else some keys

module _ {V : Type 0} where
  -- INSERT ... ON CONFLICT(key) DO UPDATE
  unfoldable pub upsert : Row V → List (Row V) → List (Row V)
  upsert r [] = r ∷ []
  upsert r (x ∷ xs) = let rest = upsert r xs in if str_eq x.key r.key then r ∷ xs else x ∷ rest

  -- The statements of _finish_cache_cycle on one row: `none` where the row is deleted.
  abbrev pub cycle_row : List String → ℕ → ℕ → Row V → Option (Row V)
  cycle_row active now grace r =
      if any (str_eq r.key) active
      then some (record r { last_seen = now })
      else if not (ltb 0 grace) || ltb (r.last_seen + grace) now
      then none
      else some r

  -- _finish_cache_cycle(table, key_column, active_ids, now, grace_seconds=...)
  unfoldable pub finish_cache_cycle : List String → ℕ → ℕ → List (Row V) → List (Row V)
  finish_cache_cycle active now grace [] = []
  finish_cache_cycle active now grace (r ∷ rs) =
      let rest = finish_cache_cycle active now grace rs in
      elim (cycle_row active now grace r) [ none ↦ rest | some s ↦ s ∷ rest ]

  -- A finish_..._cycle method, of which only that of the posture cache has a grace.
  unfoldable pub finish_cycle : List String → PyFloat → ℕ → List (Row V) → Option (List (Row V))
  unfolding cache_keys finish_cache_cycle
  finish_cycle active now grace rows = elim (valid_timestamp now) [
    | none ↦ none
    | some t ↦ elim (cache_keys active) [
      | none ↦ none
      | some keys ↦ some (finish_cache_cycle keys t grace rows)
    ]
  ]

  -- _delete_invalid(table, key_column, keys)
  unfoldable pub delete_invalid : List String → List (Row V) → List (Row V)
  delete_invalid keys rows = filter (λ r. not (any (str_eq r.key) keys)) rows

  module _ {B : Type 0} (check : V → Option B) where
    -- The checks on a selected row, and what is returned for it.
    abbrev pub read_row : Row V → Option (Entry B)
    read_row r = elim (check r.value) [
      | none ↦ none
      | some b ↦ elim (valid_timestamp r.updated_at) [
        | none ↦ none
        | some t ↦ some (record { id = r.key; detail = b; updated_at = t })
      ]
    ]

    -- The loop over the selected rows: what is returned, and the invalid keys.
    unfoldable pub read_rows : List (Row V) → List (Entry B) × List String
    read_rows [] = ([], [])
    read_rows (r ∷ rs) =
        let (entries, invalid) = read_rows rs in
        elim (read_row r) [ none ↦ (entries, r.key ∷ invalid) | some e ↦ (e ∷ entries, invalid) ]

    -- An _entries method: the valid entries under the keys, and the table without the invalid ones.
    unfoldable pub read_entries :
        List String → List (Row V) → Option (List (Entry B) × List (Row V))
    unfolding cache_keys read_rows delete_invalid
    read_entries values rows = elim (cache_keys values) [
      | none ↦ none
      | some keys ↦
          let (entries, invalid) = read_rows (filter (λ r. any (str_eq r.key) keys) rows) in
          some (entries, delete_invalid invalid rows)
    ]

  -- A put method: `encoded` is the checked value, `none` where it exceeds its limits.
  unfoldable pub put_row : Option V → String → PyFloat → List (Row V) → Option (List (Row V))
  unfolding upsert
  put_row encoded k now rows = elim (valid_timestamp now) [
    | none ↦ none
    | some t ↦ elim (state_key k) [
      | none ↦ none
      | some key ↦ elim encoded [
        | none ↦ none
        | some v ↦
            some (upsert (record { key = key; value = v; updated_at = now; last_seen = t }) rows)
      ]
    ]
  ]
