-- ===== src/DataConnect/Pacing.antt =====
-- ise_exporter/clients/dataconnect.py: the settings of the client and the lengths of its cooldowns. A
-- duty cycle is in millionths of a percent. A time is in microseconds, and a quotient is rounded
-- down to one.
use ise_exporter_v.Base.{ℕ, ◌+◌, ◌-◌, ◌*◌, ◌/◌, min, max, Bool, ltb, if◌then◌else◌}
use ise_exporter_v.Base.Int.{ℤ, pos, pos_part}
use ise_exporter_v.Base.Float.{PyFloat, finite, seconds}

abbrev pub max_batch_queries : ℕ
max_batch_queries = 5

abbrev pub max_statement_timeout_periods : ℕ
max_statement_timeout_periods = 4

abbrev pub max_shared_pacing_future_seconds : ℕ
max_shared_pacing_future_seconds = 36 * 86400

abbrev pub max_crash_lease_seconds : ℕ
max_crash_lease_seconds = 3600

-- 100 percent
abbrev pub whole : ℕ
whole = 100000000

-- The attributes of the configuration that the constructor reads: integers in seconds and
-- milliseconds, and the duty cycle.
pub record Settings : Type 0 where
  pub query_timeout : ℤ
  pub auth_failure_threshold : ℤ
  pub auth_failure_backoff : ℤ
  pub min_query_interval_ms : ℤ
  pub max_duty_cycle_percent : PyFloat

abbrev pub timeout : Settings → ℕ
timeout s = max 1 (min 15 (pos_part s.query_timeout))

abbrev pub failure_threshold : Settings → ℕ
failure_threshold s = max 1 (min 5 (pos_part s.auth_failure_threshold))

abbrev pub failure_backoff : Settings → ℕ
failure_backoff s = max 300 (min 86400 (pos_part s.auth_failure_backoff))

abbrev pub min_query_interval : Settings → ℕ
min_query_interval s = pos_part s.min_query_interval_ms * 1000

-- 0.1 percent where the configured value is no positive number
abbrev pub positive_duty : PyFloat → ℕ
positive_duty (finite (pos n)) = if ltb 0 n then n else 100000
positive_duty _ = 100000

abbrev pub max_duty_cycle : Settings → ℕ
max_duty_cycle s = positive_duty s.max_duty_cycle_percent

-- duration * (100 / duty - 1); 0 stands for the negative result of a duty cycle above 100 percent
unfoldable pub duty_cooldown : Settings → ℕ → ℕ
duty_cooldown s duration = duration * (whole - max_duty_cycle s) / max_duty_cycle s

-- The cooldown after work of this duration.
unfoldable pub cooldown_after : Settings → Bool → ℕ → ℕ
unfolding duty_cooldown
cooldown_after s adaptive_duty duration =
    max (min_query_interval s) (if adaptive_duty then duty_cooldown s duration else duration)

-- The lease that is written before work: for the worst case of the statement after `done`
-- microseconds of work in the same batch, capped.
unfoldable pub crash_cooldown : Settings → Bool → ℕ → ℕ
unfolding cooldown_after
crash_cooldown s adaptive_duty done =
    min
      (cooldown_after s adaptive_duty (done + seconds (max_statement_timeout_periods * timeout s)))
      (seconds max_crash_lease_seconds)

unfoldable pub max_pacing_future : Settings → ℕ
unfolding duty_cooldown
max_pacing_future s =
    let worst =
      duty_cooldown s (seconds (max_batch_queries * max_statement_timeout_periods * timeout s)) in
    max (seconds max_shared_pacing_future_seconds) (worst + seconds 86400)
