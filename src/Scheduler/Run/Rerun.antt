-- ===== src/Scheduler/Run/Rerun.antt =====
-- ise_exporter/scheduler.py: an attempt of a dataset and the next one.
use ise_exporter_v.Base.{ℕ, ◌+◌, ◌≤◌, ◌<◌, ◌≡◌, refl, arith, Bool, true, false, Option, some, none}
use ise_exporter_v.Base.Float.{seconds}
use ise_exporter_v.Scheduler.Deadline.{due, wall_clock_skew_tolerance}
use ise_exporter_v.Scheduler.Deadline.Due.{due-early}
use ise_exporter_v.Scheduler.Run.{
  Cadence, Plan, Dataset, Callback, attempt, settle, run, failure_retry,
}
use ise_exporter_v.Scheduler.Run.Retry.{failure_retry-pos}

-- What `settle` leaves in the two scheduling entries.
abbrev Scheduled : ℕ → Dataset → Type 0
Scheduled completed d =
    (delay : ℕ) × (0 < delay)
    × (d.next_run ≡ some (completed + seconds delay))
    × (d.scheduled_delay ≡ some (seconds delay))

settle-Scheduled :
    (c : Cadence) (p : Plan) (completed : ℕ) (outcome : Option Bool) (d : Dataset)
    → 0 < c.scrape_interval
    → 0 < p.interval
    → Scheduled completed (settle c p completed outcome d)
unfolding settle
settle-Scheduled c p completed none d s i = (p.interval, i, refl, refl)
settle-Scheduled c p completed (some true) d s i = (p.interval, i, refl, refl)
settle-Scheduled c p completed (some false) d s i = (
  failure_retry c p.name p.source d.failures p.interval,
  failure_retry-pos c p.name p.source d.failures p.interval s i,
  refl,
  refl,
)

run-idle :
    (c : Cadence) (p : Plan) (now : ℕ) (slot : Bool) (attempted_at completed : ℕ)
    (callback : Callback) (d : Dataset)
    → due d.next_run d.scheduled_delay now (seconds p.interval) ≡ false
    → run c p now slot attempted_at completed callback d ≡ d
unfolding run
run-idle c p now slot attempted_at completed callback d h = rw h

run-settle :
    (c : Cadence) (p : Plan) (now attempted_at completed : ℕ) (callback : Callback) (d : Dataset)
    → due d.next_run d.scheduled_delay now (seconds p.interval) ≡ true
    → run c p now true attempted_at completed callback d
      ≡ settle c p completed
          (attempt attempted_at callback d).outcome
          (attempt attempted_at callback d)
unfolding run
run-settle c p now attempted_at completed callback d h = rw h

Scheduled-due :
    (completed later tier next : ℕ) (d : Dataset)
    → Scheduled completed d
    → d.next_run ≡ some next
    → completed ≤ later + wall_clock_skew_tolerance
    → later < next
    → due d.next_run d.scheduled_delay later tier ≡ false
Scheduled-due completed later tier next d (delay, pos, e, f) n c l =
    rw (e, f) (due-early completed (seconds delay) later tier (omega arith) c (ground arith))

-- Once an attempt has run, successful or not, nothing runs the dataset again before the deadline that
-- the attempt set, unless the clock falls more than the tolerated skew behind its completion.
pub run-run_early :
    (c : Cadence) (p : Plan) (now attempted_at completed later next : ℕ) (slot : Bool)
    (attempted_at' completed' : ℕ) (callback callback' : Callback) (d : Dataset)
    → 0 < c.scrape_interval
    → 0 < p.interval
    → due d.next_run d.scheduled_delay now (seconds p.interval) ≡ true
    → (run c p now true attempted_at completed callback d).next_run ≡ some next
    → completed ≤ later + wall_clock_skew_tolerance
    → later < next
    → let ran = run c p now true attempted_at completed callback d in
      run c p later slot attempted_at' completed' callback' ran ≡ ran
run-run_early c p now attempted_at completed later next slot attempted_at' completed' callback
      callback' d s i h n k l =
    let ran : Dataset = run c p now true attempted_at completed callback d in
    run-idle c p later slot attempted_at' completed' callback' ran (
      Scheduled-due completed later (seconds p.interval) next ran
        (rw (run-settle c p now attempted_at completed callback d h)
          (settle-Scheduled c p completed _ (attempt attempted_at callback d) s i))
        n k l)
