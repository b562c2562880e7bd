-- ===== src/Scheduler/Deadline/Cadence.antt =====
-- Where the next wake-up of the main loop lies.
use ise_exporter_v.Base.{ℕ, ◌+◌, ◌-◌, ◌*◌, ◌/◌, ◌≤◌, ◌<◌, max, ◌≡◌, ◌⊎◌, arith, leb, if◌then◌else◌}
use ise_exporter_v.Base.Float.{seconds}
use ise_exporter_v.Scheduler.Deadline.{next_deadline, wall_clock_skew_tolerance}

steps_past :
    (d now step : ℕ)
    → 0 < step
    → d ≤ now
    → (now < d + ((now - d) / step + 1) * step) × (d + ((now - d) / step + 1) * step ≤ now + step)
steps_past d now step p h = grind arith

-- The loop always wakes later than `now`, and never more than an interval and the tolerated skew
-- later, wherever the old deadline lies.
pub next_deadline_bounds :
    (deadline now interval : ℕ)
    → (now < next_deadline deadline now interval)
      × (next_deadline deadline now interval
          ≤ now + max (seconds 1) interval + wall_clock_skew_tolerance)
unfolding next_deadline
next_deadline_bounds deadline now interval =
    ground (arith, steps_past (deadline + max (seconds 1) interval) now (max (seconds 1) interval))

-- How many ticks the loop has missed.
abbrev missed : ℕ → ℕ → ℕ → ℕ
missed deadline now step =
    if leb (deadline + step) now then (now - (deadline + step)) / step + 1 else 0

missed_ticks :
    (deadline now step : ℕ)
    → 0 < step
    → (missed deadline now step ≡ 0) ⊎ (deadline + missed deadline now step * step ≤ now)
missed_ticks deadline now step p = grind arith

tick_sum :
    (advanced deadline step q : ℕ)
    → advanced ≡ deadline + step
    → advanced + (q + 1) * step ≡ deadline + (q + 1 + 1) * step
tick_sum advanced deadline step q h = omega arith

next_deadline-missed :
    (deadline now interval : ℕ)
    → deadline ≤ now + wall_clock_skew_tolerance
    → next_deadline deadline now interval
      ≡ deadline + (missed deadline now (max (seconds 1) interval) + 1) * max (seconds 1) interval
unfolding next_deadline
next_deadline-missed deadline now interval h = ground (
  arith,
  tick_sum (deadline + max (seconds 1) interval) deadline (max (seconds 1) interval)
      ((now - (deadline + max (seconds 1) interval)) / max (seconds 1) interval),
)

-- Unless the clock reads more than the tolerated skew before the old deadline, the next deadline is a
-- tick of the old cadence in the future, at least one interval after the old deadline; and it is the
-- first such tick: where it is a later one than that, the tick before it is not in the future.
pub next_deadline-first_tick :
    (deadline now interval : ℕ)
    → deadline ≤ now + wall_clock_skew_tolerance
    → let step = max (seconds 1) interval in
      (k : ℕ) × (next_deadline deadline now interval ≡ deadline + (k + 1) * step)
      × (now < next_deadline deadline now interval)
      × ((k ≡ 0) ⊎ (deadline + k * step ≤ now))
next_deadline-first_tick deadline now interval h =
    let step : ℕ = max (seconds 1) interval in
    (
      missed deadline now step,
      next_deadline-missed deadline now interval h,
      (next_deadline_bounds deadline now interval).0,
      missed_ticks deadline now step (omega arith),
    )
