-- ===== src/DataConnect/Sessions/Monotone.antt =====
-- ise_exporter/clients/dataconnect.py: the deadline in the pacing file before, during and after a query.
use ise_exporter_v.Base.{◌+◌, ◌≤◌, max, Bool, true, ◌<◌, ◌⊎◌, ◌≡◌}
use ise_exporter_v.Base.Float.{seconds}
use ise_exporter_v.DataConnect.Pacing.{Settings, crash_cooldown, max_crash_lease_seconds}
use ise_exporter_v.DataConnect.Gate.{Content, deadline_of, Gate, held}

-- What a turn leaves for a process that is killed.
abbrev pub CrashBound : Settings → Bool → Content → Gate → Content → Type 0
CrashBound s adaptive f (held started preserved) f' =
    ((deadline_of f ≤ deadline_of f') ⊎ ((adaptive ≡ true) × (started < deadline_of f)))
    × (started + crash_cooldown s adaptive 0 ≤ deadline_of f')
    × (deadline_of f' ≤ max (deadline_of f) (started + seconds max_crash_lease_seconds))
CrashBound s adaptive f g f' = f' ≡ f
