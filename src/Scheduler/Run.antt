-- ===== src/Scheduler/Run.antt =====
-- ise_exporter/scheduler.py: one attempt of one dataset (`_run`), its retry delay
-- (`_failure_retry`), its freshness, and the recovery of a worker; with what the callback does to the
-- outcome and the failure count that ise_exporter/collectors/__init__.py keeps under its name.
-- Times are in millionths of a second, intervals in seconds. Logging is left out.
pub mod Retry
pub mod Rerun
pub mod Streak
use ise_exporter_v.Base.{
  ℕ, zero, suc, ◌+◌, ◌*◌, min, max, ltb, leb, ◌==◌, str_eq, ◌||◌, ◌&&◌, Bool, true, false, Option,
  none, some, if◌then◌else◌, String, List, [], ◌∷◌, not,
}
use ise_exporter_v.Base.Float.{seconds}
use ise_exporter_v.Scheduler.Deadline.{due, wall_clock_skew_tolerance}

pub data Source : Type 0 where
  rest dataconnect mnt : Source

abbrev pub max_consecutive_failures : ℕ
max_consecutive_failures = 5

-- The intervals of the scheduler, in seconds.
pub record Cadence : Type 0 where
  pub scrape_interval : ℕ
  pub slow_interval : ℕ
  pub auth_failure_backoff : ℕ

-- An entry of `dataset_plan` under its name.
pub record Plan : Type 0 where
  pub name : String
  pub source : Source
  pub interval : ℕ
  pub enabled : Bool

-- What the scheduler's and the collectors' dictionaries hold for one dataset, its `fresh` and `up`
-- gauges, and the time of the last snapshot handed to the state store.
pub record Dataset : Type 0 where
  pub last_run : Option ℕ
  pub last_attempt : Option ℕ
  pub last_success : Option ℕ
  pub next_run : Option ℕ
  pub scheduled_delay : Option ℕ
  pub failures : ℕ
  pub outcome : Option Bool
  pub fresh : Bool
  pub up : Bool
  pub persisted : Option ℕ

-- What a callback does: the results of the `observe` blocks it enters, in order, and whether an
-- exception leaves it.
pub record Callback : Type 0 where
  pub observed : List Bool
  pub escapes : Bool

-- _failure_retry(name, source, effective_interval), at the failure count of the dataset
unfoldable pub failure_retry : Cadence → String → Source → ℕ → ℕ → ℕ
failure_retry c name dataconnect failures interval =
    if leb max_consecutive_failures failures
    then max c.slow_interval interval
    else if str_eq name "dataconnect_schema"
    then max 300 (min interval 3600)
    else max 300 (min interval c.slow_interval)
failure_retry c name _ failures interval =
    if leb max_consecutive_failures failures
    then max interval c.auth_failure_backoff
    else if str_eq name "dataconnect_schema"
    then max 300 (min interval 3600)
    else min interval c.scrape_interval

-- _update_dataset_freshness(name, now)
unfoldable pub is_fresh : Plan → Option ℕ → ℕ → Bool
is_fresh p none now = false
is_fresh p (some success) now =
    p.enabled
    && leb success (now + wall_clock_skew_tolerance)
    && leb now (success + 2 * seconds p.interval)

abbrev update_freshness : Plan → ℕ → Dataset → Dataset
update_freshness p now d = record d { fresh = is_fresh p d.last_success now }

-- record_failure(name, ...)
unfoldable pub record_failure : Dataset → Dataset
record_failure d = record d { failures = d.failures + 1; outcome = some false; up = false }

-- The end of an `observe(name)` block.
unfoldable pub observe : Bool → Dataset → Dataset
unfolding record_failure
observe true d = record d { failures = 0; outcome = some true; fresh = true; up = true }
observe false d = record_failure d

unfoldable pub observe_all : List Bool → Dataset → Dataset
unfolding observe
observe_all [] d = d
observe_all (b ∷ bs) d = observe_all bs (observe b d)

-- begin_attempt(name), the callback, and the handler of what escapes from it
unfoldable pub attempt : ℕ → Callback → Dataset → Dataset
unfolding observe_all record_failure
attempt attempted_at callback d =
    let begun = record d { outcome = none; last_attempt = some attempted_at } in
    let after = observe_all callback.observed begun in
    if callback.escapes then record_failure after else after

abbrev hand_over : Source → ℕ → Option ℕ → Option ℕ
hand_over dataconnect completed previous = some completed
hand_over _ completed previous = previous

-- The two ways in which `_run` ends an attempt.
unfoldable pub settle : Cadence → Plan → ℕ → Option Bool → Dataset → Dataset
unfolding failure_retry is_fresh
settle c p completed (some false) d =
    let retry = failure_retry c p.name p.source d.failures p.interval in
    update_freshness p completed (record d {
      next_run = some (completed + seconds retry);
      scheduled_delay = some (seconds retry);
    })
settle c p completed _ d = update_freshness p completed (record d {
  last_run = some completed;
  last_success = some completed;
  next_run = some (completed + seconds p.interval);
  scheduled_delay = some (seconds p.interval);
  persisted = hand_over p.source completed d.persisted;
})

-- _run(name, now, tier, callback), with the tier of the plan; `slot` is what
-- `_wait_for_startup_slot` returns, and the other times are those that the clock gives meanwhile.
unfoldable pub run : Cadence → Plan → ℕ → Bool → ℕ → ℕ → Callback → Dataset → Dataset
unfolding attempt settle
run c p now slot attempted_at completed callback d =
    if due d.next_run d.scheduled_delay now (seconds p.interval) && slot
    then (let after = attempt attempted_at callback d in settle c p completed after.outcome after)
    else d

-- _recover_worker_exception(name, tier, source, worker_name)
unfoldable pub recover : Cadence → Plan → ℕ → Dataset → Dataset
unfolding record_failure failure_retry is_fresh
recover c p completed d =
    let failed = record_failure d in
    let retry = failure_retry c p.name p.source failed.failures p.interval in
    update_freshness p completed (record failed {
      next_run = some (completed + seconds retry);
      scheduled_delay = some (seconds retry);
    })
