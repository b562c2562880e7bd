-- ===== src/DataConnect/Gate.antt =====
-- ise_exporter/clients/dataconnect.py: the pacing file that processes share (_shared_gate,
-- _write_shared_deadline, _release_shared_gate). The file system, the lock, the clock and the shutdown
-- event enter as one turn at the gate.
use ise_exporter_v.Base.{
  ℕ, ◌+◌, max, Bool, true, false, ◌&&◌, Option, none, some, ltb, if◌then◌else◌,
}
use ise_exporter_v.DataConnect.Pacing.{Settings, crash_cooldown, max_pacing_future}

-- What the file holds: nothing or white space, a finite non-negative time, or anything else.
pub data Content : Type 0 where
  empty : Content
  deadline : ℕ → Content
  unreadable : Content

abbrev pub deadline_of : Content → ℕ
deadline_of (deadline t) = t
deadline_of _ = 0

-- How the exclusive lock is obtained: at once, after polls, or the wait ends by a shutdown.
pub data Lock : Type 0 where
  free : Lock
  freed : Lock
  stopped : Lock

-- `usable`: the file opens as a small regular file, and its reads and writes succeed. `now` is the
-- clock at the check; `wait_ends` is false where a shutdown ends the wait for the deadline; `leased_at`
-- is the clock when the lease is made, read anew. The clock may have been set back in between.
pub record Turn : Type 0 where
  pub usable : Bool
  pub lock : Lock
  pub now : ℕ
  pub wait_ends : Bool
  pub leased_at : ℕ

-- The result: _PACING_BUSY, an exception, or the gate, with the time of the lease and the deadline
-- that the release must preserve.
pub data Gate : Type 0 where
  busy : Gate
  unavailable : Gate
  held : ℕ → Option ℕ → Gate

unfoldable pub take_lock : Bool → Lock → Option Gate
take_lock wait free = none
take_lock false freed = some busy
take_lock true freed = none
take_lock false stopped = some busy
take_lock true stopped = some unavailable

-- The lease, written at `started`.
unfoldable pub write_lease : Settings → Bool → ℕ → ℕ → Gate × Content
unfolding crash_cooldown
write_lease s adaptive_duty previous started =
    let lease = started + crash_cooldown s adaptive_duty 0 in
    if adaptive_duty
    then (held started none, deadline lease)
    else (held started (some previous), deadline (max previous lease))

-- The gate under its lock, at the deadline that the file holds.
unfoldable pub under_lock : Settings → Bool → Bool → Turn → Content → Gate × Content
unfolding write_lease max_pacing_future
under_lock s wait adaptive_duty g kept =
    let previous = deadline_of kept in
    let leased = write_lease s adaptive_duty previous g.leased_at in
    if ltb (g.now + max_pacing_future s) previous
    then (unavailable, kept)
    else if ltb g.now previous && adaptive_duty
    then (if wait then (if g.wait_ends then leased else (unavailable, kept)) else (busy, kept))
    else leased

-- The gate under its lock, from what the file holds.
unfoldable pub read_gate : Settings → Bool → Bool → Turn → Content → Gate × Content
unfolding under_lock
read_gate s wait adaptive_duty g unreadable = (unavailable, unreadable)
read_gate s wait adaptive_duty g empty = under_lock s wait adaptive_duty g empty
read_gate s wait adaptive_duty g (deadline t) = under_lock s wait adaptive_duty g (deadline t)

-- _shared_gate(wait, adaptive_duty)
unfoldable pub shared_gate : Settings → Bool → Bool → Turn → Content → Gate × Content
unfolding take_lock read_gate
shared_gate s wait adaptive_duty g file =
    let inside = read_gate s wait adaptive_duty g file in
    if g.usable
    then elim (take_lock wait g.lock) [ some r ↦ (r, file) | none ↦ inside ]
    else (unavailable, file)

-- _release_shared_gate(gate, deadline)
unfoldable pub release_shared_gate : Option ℕ → ℕ → Content
release_shared_gate none t = deadline t
release_shared_gate (some preserved) t = deadline (max t preserved)

-- The end of the work under the gate, where a file is configured; `works` where it can be written.
unfoldable pub close_gate : Option ℕ → Bool → ℕ → Option Content → Option Content
unfolding release_shared_gate
close_gate preserved works t none = none
close_gate preserved works t (some f) = some (if works then release_shared_gate preserved t else f)
