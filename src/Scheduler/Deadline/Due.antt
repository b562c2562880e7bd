-- ===== src/Scheduler/Deadline/Due.antt =====
-- When a dataset whose last attempt set its deadline is due again.
use ise_exporter_v.Base.{ℕ, ◌+◌, ◌≤◌, ◌<◌, ◌≡◌, ◌↔◌, ◌⊎◌, arith, some, true, false}
use ise_exporter_v.Base.Float.{seconds}
use ise_exporter_v.Scheduler.Deadline.{due, wall_clock_skew_tolerance}

-- A dataset that completed at `completed` and was given `delay` is due exactly when that delay has
-- passed, or when the clock reads more than the tolerated skew before the completion.
pub due_iff :
    (completed delay now tier : ℕ)
    → seconds 1 ≤ delay
    → (due (some (completed + delay)) (some delay) now tier ≡ true)
      ↔ ((completed + delay ≤ now) ⊎ (now + wall_clock_skew_tolerance < completed))
unfolding due
due_iff completed delay now tier h = ground arith

pub due-early :
    (completed delay now tier : ℕ)
    → seconds 1 ≤ delay
    → completed ≤ now + wall_clock_skew_tolerance
    → now < completed + delay
    → due (some (completed + delay)) (some delay) now tier ≡ false
unfolding due
due-early completed delay now tier h c n = ground arith
