-- ===== src/AuthGuard/State.antt =====
-- ise_exporter/auth_guard.py: the state of the guard, and the three operations as the callbacks that
-- `_update` applies to the current state. Times are in millionths of a second.
use ise_exporter_v.Base.{ℕ, ◌+◌, min, max, ◌&&◌, ◌||◌, not, Bool, ltb, leb, ◌==◌, if◌then◌else◌}
use ise_exporter_v.Base.Float.{seconds}

abbrev pub max_auth_backoff_seconds : ℕ
max_auth_backoff_seconds = 86400

-- The pair (failures, deadline) of `_memory` and of the guard file.
pub record GuardState : Type 0 where
  pub failures : ℕ
  pub deadline : ℕ

abbrev pub clean : GuardState
clean = record { failures = 0; deadline = 0 }

-- blocked(now)
unfoldable pub blocked : ℕ → GuardState → GuardState × Bool
blocked now s =
    let deadline = min s.deadline (now + seconds max_auth_backoff_seconds) in
    (record { failures = s.failures; deadline = deadline }, ltb now deadline)

-- failure(threshold, backoff, now); `backoff` is in seconds
unfoldable pub failure : ℕ → ℕ → ℕ → GuardState → GuardState × GuardState
failure threshold backoff now s =
    let failures = s.failures + 1 in
    let capped = min s.deadline (now + seconds max_auth_backoff_seconds) in
    let raised = max capped (now + seconds (min backoff max_auth_backoff_seconds)) in
    let deadline = if leb threshold failures && not (backoff == 0) then raised else capped in
    let t : GuardState = record { failures = failures; deadline = deadline } in (t, t)

-- success()
unfoldable pub success : GuardState → GuardState × Bool
success s = (clean, not (s.failures == 0) || not (s.deadline == 0))
