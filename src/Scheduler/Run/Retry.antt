-- ===== src/Scheduler/Run/Retry.antt =====
-- The bounds of the retry delay.
use ise_exporter_v.Base.{ℕ, ◌≤◌, ◌<◌, arith, String}
use ise_exporter_v.Scheduler.Run.{Source, rest, dataconnect, mnt, Cadence, failure_retry}

-- More consecutive failures never shorten the delay before the next attempt, for every dataset and
-- source, if the slow interval and the authentication back-off are at least five minutes.
pub failure_retry_mono :
    (c : Cadence) (name : String) (source : Source) (f g interval : ℕ)
    → 300 ≤ c.slow_interval
    → 300 ≤ c.auth_failure_backoff
    → f ≤ g
    → failure_retry c name source f interval ≤ failure_retry c name source g interval
unfolding failure_retry
failure_retry_mono c name dataconnect f g interval s b h = ground arith
failure_retry_mono c name rest f g interval s b h = ground arith
failure_retry_mono c name mnt f g interval s b h = ground arith

-- No failed attempt is retried at once.
pub failure_retry-pos :
    (c : Cadence) (name : String) (source : Source) (f interval : ℕ)
    → 0 < c.scrape_interval
    → 0 < interval
    → 0 < failure_retry c name source f interval
unfolding failure_retry
failure_retry-pos c name dataconnect f interval s b = ground arith
failure_retry-pos c name rest f interval s b = ground arith
failure_retry-pos c name mnt f interval s b = ground arith
