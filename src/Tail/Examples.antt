-- ===== src/Tail/Examples.antt =====
-- Cycles of the tail, and its theorems at concrete inputs.
use ise_exporter_v.Base.{
  ℕ, ◌+◌, ◌≤◌, ◌<◌, List, [], ◌∷◌, true, ◌&&◌, String, some, ◌≡◌, refl, arith, count, inl, In,
  All-In,
}
use ise_exporter_v.Base.Int.{pos}
use ise_exporter_v.Base.Float.{seconds}
use ise_exporter_v.Tail.Query.{ViewRow, above_floor, min_id, tail_query}
use ise_exporter_v.Tail.Engine.{TailConfig, Cursor, TailState, answers, is_reset, tail_counters}
use ise_exporter_v.Tail.Groups.{labelled}
use ise_exporter_v.Tail.Once.{Cycle, cycle, cycles, hwm, cycles_exactly_once, Steady-cursor}
use ise_exporter_v.Tail.Prefix.{between}
use ise_exporter_v.Tail.Reset.{reset-rescans}

abbrev unchanged : String → String
unchanged s = s

abbrev cfg : TailConfig
cfg = record { tail_settle_seconds = pos 30; tail_max_backfill_hours = pos 6 }

abbrev row : ℕ → ℕ → String → ViewRow
row i at psn = record { row_id = i; timestamp = seconds at; labels = psn ∷ [] }

-- Row 12 arrives late, with row 13 already settled.
abbrev log : List ViewRow
log = row 10 900 "psn1" ∷ row 11 1000 "psn1" ∷ row 13 1010 "psn2" ∷ row 12 1080 "psn1" ∷ []

abbrev first_cycle : Cycle
first_cycle = record {
  now = seconds 1100;
  at_min = log;
  at_max = log;
  systimestamp = seconds 1100;
  visible = λ r. true;
}

abbrev second_cycle : Cycle
second_cycle = record {
  now = seconds 2000;
  at_min = log;
  at_max = log;
  systimestamp = seconds 2000;
  visible = λ r. true;
}

abbrev at_ten : TailState
at_ten = record {
  cursor = some (record { value = 10; anchor = 10; updated_at = seconds 950 });
  counter = λ k. 0;
  resets = 0;
}

waits_for_twelve : hwm unchanged cfg log (cycle unchanged cfg log first_cycle at_ten) ≡ 11
unfolding tail_counters
waits_for_twelve = refl

counts_psn1 :
    (cycles unchanged cfg log (first_cycle ∷ second_cycle ∷ []) at_ten).counter ("psn1" ∷ []) ≡ 2
unfolding tail_counters
counts_psn1 = refl

cycles_exactly_once_example :
    let ran = cycles unchanged cfg log (first_cycle ∷ second_cycle ∷ []) at_ten in
    (hwm unchanged cfg log at_ten ≤ hwm unchanged cfg log ran)
    × ((k : List String)
        → ran.counter k
          ≡ at_ten.counter k
            + count
                (λ r.
                  between (hwm unchanged cfg log at_ten) (hwm unchanged cfg log ran) r
                  && labelled unchanged k r)
                log)
unfolding is_reset min_id tail_query tail_counters
cycles_exactly_once_example =
    cycles_exactly_once unchanged cfg log (first_cycle ∷ second_cycle ∷ []) at_ten
      (record { value = 10; anchor = 10; updated_at = seconds 950 }) refl
      (
        Steady-cursor unchanged cfg log first_cycle at_ten
            (record { value = 10; anchor = 10; updated_at = seconds 950 }) refl
            (
              refl,
              λ r k. inl (
                refl,
                All-In (λ x. above_floor 6 (seconds 1100) x ≡ true) r log
                    (refl, (refl, (refl, (refl, tt)))) k,
              ),
            ),
        (
          Steady-cursor unchanged cfg log second_cycle (cycle unchanged cfg log first_cycle at_ten)
              (record { value = 11; anchor = 10; updated_at = seconds 1100 }) refl
              (
                refl,
                λ r k. inl (
                  refl,
                  All-In (λ x. above_floor 6 (seconds 2000) x ≡ true) r log
                      (refl, (refl, (refl, (refl, tt)))) k,
                ),
              ),
          tt,
        ),
      )

abbrev rebuilt : List ViewRow
rebuilt = row 1 1090 "psn1" ∷ row 2 1095 "psn2" ∷ []

reset-rescans_example :
    let after =
      tail_counters unchanged cfg true
        (seconds 1200)
        (answers rebuilt rebuilt (seconds 1200) rebuilt)
        at_ten in
    (after.counter ≡ at_ten.counter)
    × (after.resets ≡ at_ten.resets + 1)
    × ((d : Cursor) × (after.cursor ≡ some d) × ((r : ViewRow) → In r rebuilt → d.value < r.row_id))
reset-rescans_example =
    reset-rescans unchanged cfg (seconds 1200) (seconds 1200) rebuilt rebuilt rebuilt at_ten
      (record { value = 10; anchor = 10; updated_at = seconds 950 }) refl
      (inl (row 1 1090 "psn1", inl refl, omega arith)) (omega arith, (omega arith, tt))
