-- ===== src/DataConnect/Connect.antt =====
-- ise_exporter/clients/dataconnect.py: connect and close. What oracledb does is an argument, and so
-- is whether each call of the authentication guard succeeds.
use ise_exporter_v.Base.{ℕ, ◌+◌, Bool, true, false, ltb, leb, if◌then◌else◌}
use ise_exporter_v.Base.Float.{seconds}
use ise_exporter_v.AuthGuard.State.{GuardState, blocked, failure, success}
use ise_exporter_v.DataConnect.Pacing.{Settings, failure_threshold, failure_backoff}

-- The connection's part of the client: whether one is open, the failures in a row, the monotonic time
-- until which reconnects are suppressed, the guard, and how often oracledb.connect was called.
pub record Link : Type 0 where
  pub open_ : Bool
  pub connect_failures : ℕ
  pub blocked_until : ℕ
  pub guard : GuardState
  pub dialled : ℕ

-- An exception, by what _retryable_disconnect and _authentication_failure say of its text.
pub record Fault : Type 0 where
  pub retryable : Bool
  pub authentication : Bool

pub data Dial : Type 0 where
  accepted : Dial
  rejected : Fault → Dial

-- One call of connect: the wall clock and the monotonic clock at the checks, both clocks at a
-- failure's record, whether the guard can be asked and written, and what oracledb answers.
pub record Attempt : Type 0 where
  pub wall : ℕ
  pub mono : ℕ
  pub failed_wall : ℕ
  pub failed_mono : ℕ
  pub guard_works : Bool
  pub record_works : Bool
  pub dial : Dial

pub data Linked : Type 0 where
  connected : Linked
  refused : Fault → Linked

-- The client's own exceptions, whose texts have no Oracle code.
abbrev pub own : Fault
own = record { retryable = false; authentication = false }

-- The handler of a failed oracledb.connect.
unfoldable pub dial_failed : Settings → Attempt → Fault → Link → Link × Linked
unfolding failure
dial_failed s a f k =
    let failures = k.connect_failures + 1 in
    let until =
      if leb (failure_threshold s) failures
      then a.failed_mono + seconds (failure_backoff s)
      else k.blocked_until in
    let counted : Link = record k { connect_failures = failures; blocked_until = until } in
    let marked : Link = record counted {
      guard = (failure (failure_threshold s) (failure_backoff s) a.failed_wall k.guard).0;
    } in
    if f.authentication
    then (if a.record_works then (marked, refused f) else (counted, refused own))
    else (counted, refused f)

unfoldable pub dialled_with : Settings → Attempt → Dial → Link → Link × Linked
unfolding dial_failed success
dialled_with s a (rejected f) k = dial_failed s a f k
dialled_with s a accepted k =
    if a.record_works
    then (
      record k {
        open_ = true;
        connect_failures = 0;
        blocked_until = 0;
        guard = (success k.guard).0;
      },
      connected,
    )
    else (k, refused own)

-- connect()
unfoldable pub connect : Settings → Attempt → Link → Link × Linked
unfolding dialled_with blocked
connect s a k =
    let (guard, is_blocked) = blocked a.wall k.guard in
    let checked : Link = record k { guard = guard } in
    let reached = dialled_with s a a.dial (record checked { dialled = k.dialled + 1 }) in
    if k.open_
    then (k, connected)
    else if a.guard_works
    then (if is_blocked
        then (checked, refused own)
        else if ltb a.mono k.blocked_until
        then (checked, refused own)
        else reached)
    else (k, refused own)

-- close()
abbrev pub close : Link → Link
close k = record k { open_ = false }
