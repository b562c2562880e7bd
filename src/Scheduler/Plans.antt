-- ===== src/Scheduler/Plans.antt =====
-- ise_exporter/scheduler.py: the plan of the datasets (_dataset_plan), the intervals that __init__
-- reads (_configured_interval, _minimum_interval) and the priorities of the Data Connect lane.
pub mod Paced
use ise_exporter_v.Base.{
  ℕ, ◌+◌, min, max, ltb, ◌&&◌, ◌||◌, Bool, true, false, Option, none, some, if◌then◌else◌, String,
  str_eq, List, [], ◌∷◌,
}
use ise_exporter_v.Base.Int.{ℤ, pos, negsuc}
use ise_exporter_v.Scheduler.Run.{Source, rest, dataconnect, mnt, Cadence, Plan}

-- An attribute of the configuration: missing, refused by int(), or a number. A missing one stands for
-- the default that getattr and _configured_interval are both called with.
pub data Setting : Type 0 where
  missing : Setting
  refused : Setting
  value : ℤ → Setting

unfoldable pub configured_interval : Setting → ℕ → ℕ
configured_interval (value (pos n)) default = if ltb 0 n then n else default
configured_interval _ default = default

pub record Settings : Type 0 where
  pub scrape_interval : Setting
  pub medium_interval : Setting
  pub slow_interval : Setting
  pub auth_failure_backoff : Setting
  pub collect_certificates : Bool
  pub collect_licensing : Bool
  pub collect_backup_status : Bool
  pub collect_patches : Bool
  pub collect_tacacs : Bool
  pub collect_mnt_active_posture : Bool
  pub radius_interval : Setting
  pub schema_interval : Setting
  pub radius_active_interval : Setting
  pub performance_interval : Setting
  pub accounting_counters_interval : Setting
  pub accounting_event_counters : Bool
  pub posture_counters_interval : Setting
  pub posture_event_counters : Bool
  pub authentication_counters_interval : Setting
  pub authentication_event_counters : Bool
  pub error_counters_interval : Setting
  pub error_event_counters : Bool
  pub posture_interval : Setting
  pub endpoints_interval : Setting
  pub freshness_interval : Setting
  pub endpoint_fleet_interval : Setting
  pub endpoint_fleet_enabled : Bool
  pub nad_health_interval : Setting
  pub mnt_active_posture_interval : Setting
  pub tacacs_interval : Setting

abbrev pub max_radius_active_interval : ℕ
max_radius_active_interval = 3600

abbrev pub default_radius_active_interval : ℕ
default_radius_active_interval = 1800

unfoldable pub medium : Settings → ℕ
unfolding configured_interval
medium s = configured_interval s.medium_interval 300

unfoldable pub slow : Settings → ℕ
unfolding configured_interval
slow s = configured_interval s.slow_interval 21600

abbrev entry : String → Source → ℕ → Bool → Plan
entry name source interval enabled = record {
  name = name;
  source = source;
  interval = interval;
  enabled = enabled;
}

-- getattr(cfg, "mnt_active_posture_interval", self.medium_interval)
unfoldable pub posture_cadence : Setting → ℕ → ℕ
unfolding configured_interval
posture_cadence missing medium_interval = configured_interval (value (pos medium_interval)) 300
posture_cadence refused medium_interval = 300
posture_cadence (value n) medium_interval = configured_interval (value n) 300

unfoldable pub dataset_plan : Settings → Bool → List Plan
unfolding configured_interval medium slow posture_cadence
dataset_plan s schema_managed =
    entry "deployment" rest (medium s) true
    ∷ entry "devices" rest (slow s) true
    ∷ entry "certificates" rest (slow s) s.collect_certificates
    ∷ entry "licensing" rest (slow s) s.collect_licensing
    ∷ entry "backup" rest (slow s) s.collect_backup_status
    ∷ entry "patches" rest (slow s) s.collect_patches
    ∷ entry "dataconnect_radius" dataconnect (configured_interval s.radius_interval 1800) true
    ∷ entry "dataconnect_schema" dataconnect (configured_interval s.schema_interval 86400)
        schema_managed
    ∷ entry "dataconnect_radius_active" dataconnect
        (min max_radius_active_interval
          (configured_interval s.radius_active_interval default_radius_active_interval))
        true
    ∷ entry "dataconnect_performance" dataconnect (configured_interval s.performance_interval 300)
        true
    ∷ entry "dataconnect_accounting_counters" dataconnect
        (configured_interval s.accounting_counters_interval 300) s.accounting_event_counters
    ∷ entry "dataconnect_posture_counters" dataconnect
        (configured_interval s.posture_counters_interval 300) s.posture_event_counters
    ∷ entry "dataconnect_authentication_counters" dataconnect
        (configured_interval s.authentication_counters_interval 300) s.authentication_event_counters
    ∷ entry "dataconnect_error_counters" dataconnect
        (configured_interval s.error_counters_interval 300) s.error_event_counters
    ∷ entry "dataconnect_posture" dataconnect (configured_interval s.posture_interval 21600) true
    ∷ entry "dataconnect_endpoints" dataconnect (configured_interval s.endpoints_interval 21600)
        true
    ∷ entry "dataconnect_freshness" dataconnect (configured_interval s.freshness_interval 1800) true
    ∷ entry "endpoint_fleet" dataconnect (configured_interval s.endpoint_fleet_interval 900)
        s.endpoint_fleet_enabled
    ∷ entry "dataconnect_nad_health" dataconnect (configured_interval s.nad_health_interval 21600)
        true
    ∷ entry "mnt_active_posture" mnt (posture_cadence s.mnt_active_posture_interval (medium s))
        s.collect_mnt_active_posture
    ∷ entry "tacacs_config" rest (slow s) s.collect_tacacs
    ∷ entry "tacacs_activity" dataconnect (configured_interval s.tacacs_interval 21600)
        s.collect_tacacs
    ∷ []

unfoldable pub minimum_interval : Setting → ℕ → ℕ → ℕ
minimum_interval (value (pos n)) default minimum = max minimum n
minimum_interval (value (negsuc n)) default minimum = minimum
minimum_interval _ default minimum = max minimum default

-- The intervals that __init__ keeps.
unfoldable pub cadence_of : Settings → Cadence
unfolding configured_interval slow minimum_interval
cadence_of s = record {
  scrape_interval = configured_interval s.scrape_interval 60;
  slow_interval = slow s;
  auth_failure_backoff = minimum_interval s.auth_failure_backoff 900 300;
}
