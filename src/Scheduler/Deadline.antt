-- ===== src/Scheduler/Deadline.antt =====
-- ise_exporter/scheduler.py: the cadence of the main loop and the due test of one dataset.
-- Times and delays are in the same unit; the source subtracts them as floats of seconds.
pub mod Cadence
pub mod Due
use ise_exporter_v.Base.{
  ℕ, ◌+◌, ◌-◌, ◌*◌, ◌/◌, min, max, ltb, leb, ◌||◌, Bool, Option, get_or, if◌then◌else◌, str_eq,
  String, ◌==◌,
}
use ise_exporter_v.Base.Float.{seconds}

abbrev pub wall_clock_skew_tolerance : ℕ
wall_clock_skew_tolerance = seconds 300

-- _next_deadline(deadline, now, interval)
unfoldable pub next_deadline : ℕ → ℕ → ℕ → ℕ
next_deadline deadline now interval =
    let step = max (seconds 1) interval in
    let advanced = deadline + step in
    if ltb (now + wall_clock_skew_tolerance) deadline
    then now + step
    else if leb advanced now
    then advanced + ((now - advanced) / step + 1) * step
    else advanced

-- _due(name, now, tier): `next_run` and `scheduled_delay` are the dataset's entries in the two
-- dictionaries, with the defaults 0 and `tier`.
unfoldable pub due : Option ℕ → Option ℕ → ℕ → ℕ → Bool
due next_run scheduled_delay now tier =
    let next = get_or next_run 0 in
    let delay = get_or scheduled_delay tier in
    leb next now || ltb (now + max (seconds 1) delay + wall_clock_skew_tolerance) next
