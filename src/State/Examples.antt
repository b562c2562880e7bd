-- ===== src/State/Examples.antt =====
-- A reset at a concrete file system.
use ise_exporter_v.Base.{
  [], ◌∷◌, any, true, false, ◌&&◌, not, none, some, str_eq, str_append, if◌then◌else◌, ◌≡◌, refl,
}
use ise_exporter_v.Base.{unique, unique_after, List, String}
use ise_exporter_v.State.Reset.{
  Metadata, locked, in_use, FileSystem, reset_targets, reset_exporter_state,
}
use ise_exporter_v.Base.Int.{pos}
use ise_exporter_v.Base.Float.{finite}
use ise_exporter_v.State.Cache.{Row, finish_cycle}
use ise_exporter_v.State.Keyed.{Keyed, lookup_row}
use ise_exporter_v.State.Refines.{cycled, finish_cycle-refines}
use ise_exporter_v.State.Whole.{removable, present, reset_whole}

abbrev plain : Metadata
plain = record { regular = true; inode = 7 }

-- The database and a guard file exist; another process holds the guard file.
abbrev busy_guard : FileSystem
busy_guard = record {
  runtime_free = true;
  before = λ p. if str_eq p "/v/s-shm" then none else some plain;
  opens = λ p. if str_eq p "/v/guard" then in_use plain else locked plain;
  after = λ p. some plain;
  unlinks = λ p. true;
}

nothing_removed : reset_exporter_state (λ p. p) "/v/s" ("/v/guard" ∷ []) busy_guard ≡ (true, [])
unfolding reset_exporter_state reset_targets
nothing_removed = refl

all_removed :
    reset_exporter_state
      (λ p. p)
      "/v/s"
      ("/v/guard" ∷ [])
      (record busy_guard { opens = λ p. locked plain })
    ≡ (false, "/v/s" ∷ "/v/s-wal" ∷ "/v/guard" ∷ [])
unfolding reset_exporter_state reset_targets
all_removed = refl

reset_whole_example :
    let targets = reset_targets (λ p. p) "/v/s" ("/v/guard" ∷ []) in
    reset_exporter_state (λ p. p) "/v/s" ("/v/guard" ∷ []) busy_guard ≡ (
      if true
        && not (any (str_eq (str_append targets.1 ".runtime.lock")) (unique targets.0))
        && removable busy_guard (unique targets.0)
      then (false, present busy_guard (unique targets.0))
      else (true, []))
reset_whole_example = reset_whole (λ p. p) "/v/s" ("/v/guard" ∷ []) busy_guard (λ p. refl)

-- A cycle of a cache with an active row, a row in its grace, and a row past it.
abbrev cache : List (Row String)
cache =
    record { key = "a"; value = "1"; updated_at = finite (pos 5); last_seen = 5 }
    ∷ record { key = "b"; value = "2"; updated_at = finite (pos 5); last_seen = 8 }
    ∷ record { key = "c"; value = "3"; updated_at = finite (pos 5); last_seen = 2 }
    ∷ []

abbrev cache_left : List (Row String)
cache_left =
    record { key = "a"; value = "1"; updated_at = finite (pos 5); last_seen = 10 }
    ∷ record { key = "b"; value = "2"; updated_at = finite (pos 5); last_seen = 8 }
    ∷ []

cycle_test : finish_cycle ("a" ∷ []) (finite (pos 10)) 4 cache ≡ some cache_left
unfolding finish_cycle unique_after
cycle_test = refl

finish_cycle-refines_example :
    Keyed cache_left
    × ((k : String)
        → str_eq k "" ≡ false
        → lookup_row k cache_left ≡ cycled ("a" ∷ []) 10 4 k (lookup_row k cache))
finish_cycle-refines_example =
    finish_cycle-refines ("a" ∷ []) 10 4 cache cache_left (refl, (refl, (refl, tt))) cycle_test
