-- ===== src/Scheduler/Startup.antt =====
-- ise_exporter/scheduler.py: `_wait_for_startup_slot`, which spaces the first attempts. Times are
-- those of the monotonic clock, in millionths of a second, and the spacing is in seconds.
pub mod Spacing
use ise_exporter_v.Base.{
  ℕ, ◌+◌, max, any, str_eq, ◌||◌, ◌==◌, Bool, Option, none, some, if◌then◌else◌, String, List, [],
  ◌∷◌,
}
use ise_exporter_v.Base.Float.{seconds}

-- `_startup_started` and `_startup_next_at`
pub record Slots : Type 0 where
  pub started : List String
  pub next_at : ℕ

abbrev pub no_slots : Slots
no_slots = record { started = []; next_at = 0 }

-- The reservation: `none` where the dataset need not wait, else the time before which it may not
-- start. The wait itself follows.
unfoldable pub reserve : ℕ → ℕ → String → Slots → Option ℕ × Slots
reserve spacing now name s =
    let starts_at = max now s.next_at in
    if spacing == 0 || any (λ n. str_eq n name) s.started then (none, s) else (
      some starts_at,
      record { started = name ∷ s.started; next_at = starts_at + seconds spacing },
    )
