-- ===== src/Scheduler/Examples.antt =====
-- Runs of the scheduler, and its theorems at concrete inputs.
use ise_exporter_v.Base.{
  ℕ, ◌+◌, ◌*◌, ◌≤◌, ◌<◌, List, [], ◌∷◌, ◌++◌, true, false, ◌≡◌, refl, arith, some, none, String,
  ◌⊎◌, inl, inr, In,
}
use ise_exporter_v.Base.Int.{pos, negsuc, ◌+ℤ◌, ◌-ℤ◌, scale}
use ise_exporter_v.Base.Float.{seconds}
use ise_exporter_v.Scheduler.Deadline.{next_deadline, due}
use ise_exporter_v.Scheduler.Deadline.Cadence.{next_deadline-first_tick}
use ise_exporter_v.Scheduler.Queue.{Item, AgingQueue, get_nowait}
use ise_exporter_v.Scheduler.Queue.Order.{rank}
use ise_exporter_v.Scheduler.Queue.Best.{Minimal, get_nowait-best, get_nowait-sentinel}
use ise_exporter_v.Scheduler.Queue.Overtaking.{enqueue, dequeue, enqueued, serve, In-serve}
use ise_exporter_v.Scheduler.Run.{dataconnect, Cadence, Plan, Dataset, Callback, run}
use ise_exporter_v.Base.{All}
use ise_exporter_v.Scheduler.Run.{settle}
use ise_exporter_v.Scheduler.Plans.{Settings, missing, refused, value, dataset_plan, cadence_of}
use ise_exporter_v.Scheduler.Plans.Paced.{Paced, dataset_plan-Paced}
use ise_exporter_v.Scheduler.Run.Rerun.{run-run_early}
use ise_exporter_v.Scheduler.Run.Streak.{Event, run_all, slowdown}
use ise_exporter_v.Scheduler.Startup.{no_slots}
use ise_exporter_v.Scheduler.Startup.Spacing.{reserve_all, Spaced, NotBefore, reserve_all-Spaced}

abbrev freshness : Item
freshness = enqueued (seconds 10) (pos 7) 4 "dataconnect_freshness" 1800

abbrev backlog : AgingQueue
backlog = record {
  items = enqueued (seconds 5) (pos 0) 3 "dataconnect_radius_active" 1800 ∷ freshness ∷ [];
  unfinished_tasks = 2;
}

-- Two minutes later the operational dataset goes first; three hours later the older one has aged.
takes_operational :
    get_nowait (seconds 130) backlog
    ≡ some (
      enqueued (seconds 5) (pos 0) 3 "dataconnect_radius_active" 1800,
      record { items = freshness ∷ []; unfinished_tasks = 2 },
    )
unfolding get_nowait ◌-ℤ◌ scale
takes_operational = refl

In-serve_example : In freshness (
    serve
      (dequeue (seconds 9000)
        ∷ enqueue (seconds 9000) (pos 0) 5 "dataconnect_radius_active" 1800
        ∷ dequeue (seconds 9001)
        ∷ [])
      backlog)
In-serve_example =
    In-serve freshness
      (dequeue (seconds 9000)
        ∷ enqueue (seconds 9000) (pos 0) 5 "dataconnect_radius_active" 1800
        ∷ dequeue (seconds 9001)
        ∷ [])
      backlog (inr (inl refl)) refl (unfold rank ◌+ℤ◌ scale in (omega arith, tt))
      (unfold rank ◌+ℤ◌ scale in omega arith)

get_nowait-best_example :
    (m : Item) × (before : List Item) × (after : List Item) × (backlog.items ≡ before ++ m ∷ after)
    × (get_nowait (seconds 20) backlog ≡ some (m, record backlog { items = before ++ after }))
    × Minimal (seconds 20) m backlog.items
get_nowait-best_example = get_nowait-best (seconds 20) backlog (λ e. cc) refl

abbrev stopping : AgingQueue
stopping = record {
  items =
      freshness
      ∷ record { priority = negsuc 0; sequence = 9; name = none; tier = 0; queued_at = seconds 50 }
      ∷ [];
  unfinished_tasks = 2;
}

get_nowait-sentinel_example :
    (m : Item) × (before : List Item) × (after : List Item) × (stopping.items ≡ before ++ m ∷ after)
    × (get_nowait (seconds 60) stopping ≡ some (m, record stopping { items = before ++ after }))
    × (m.name ≡ none)
get_nowait-sentinel_example = get_nowait-sentinel (seconds 60) stopping refl

abbrev cadence : Cadence
cadence = record { scrape_interval = 60; slow_interval = 21600; auth_failure_backoff = 900 }

abbrev plan : Plan
plan = record { name = "dataconnect_radius"; source = dataconnect; interval = 1800; enabled = true }

abbrev unseen : Dataset
unseen = record {
  last_run = none;
  last_attempt = none;
  last_success = none;
  next_run = none;
  scheduled_delay = none;
  failures = 0;
  outcome = none;
  fresh = false;
  up = false;
  persisted = none;
}

abbrev broken : Callback
broken = record { observed = false ∷ []; escapes = false }

abbrev at_time : ℕ → Event
at_time t = record {
  now = seconds t;
  slot = true;
  attempted_at = seconds t;
  completed = seconds (t + 10);
  callback = broken;
}

abbrev outage : List Event
outage =
    at_time 1000 ∷ at_time 3000 ∷ at_time 5000 ∷ at_time 7000 ∷ at_time 9000 ∷ at_time 11000 ∷ []

slowdown_example :
    ((run_all cadence plan outage unseen).next_run ≡ some (seconds (9010 + 21600)))
    × ((run_all cadence plan outage unseen).scheduled_delay ≡ some (seconds 21600))
    × ((run_all cadence plan outage unseen).last_success ≡ none)
unfolding run due
slowdown_example =
    slowdown cadence plan outage unseen
      (
        inl (refl, refl),
        (
          inl (refl, refl),
          (inl (refl, refl), (inl (refl, refl), (inl (refl, refl), (inl (refl, refl), tt)))),
        ),
      )
      (omega arith)

run-run_early_example :
    let ran = run cadence plan (seconds 1000) true (seconds 1000) (seconds 1010) broken unseen in
    run cadence plan (seconds 2000) true (seconds 2000) (seconds 2010) broken ran ≡ ran
unfolding run due
run-run_early_example =
    run-run_early cadence plan (seconds 1000) (seconds 1000) (seconds 1010) (seconds 2000)
      (seconds 2810) true (seconds 2000) (seconds 2010) broken broken unseen (omega arith)
      (omega arith) refl refl (omega arith) (omega arith)

next_deadline-first_tick_example :
    (k : ℕ) × (next_deadline (seconds 100) (seconds 1000) (seconds 60)
      ≡ seconds 100 + (k + 1) * seconds 60)
    × (seconds 1000 < next_deadline (seconds 100) (seconds 1000) (seconds 60))
    × ((k ≡ 0) ⊎ (seconds 100 + k * seconds 60 ≤ seconds 1000))
next_deadline-first_tick_example =
    next_deadline-first_tick (seconds 100) (seconds 1000) (seconds 60) (omega arith)

abbrev wake_up : List (ℕ × String)
wake_up = (seconds 1, "deployment") ∷ (seconds 2, "devices") ∷ (seconds 2, "deployment") ∷ []

reserve_all-Spaced_example :
    Spaced 5 (reserve_all 5 wake_up no_slots) × NotBefore 0 (reserve_all 5 wake_up no_slots)
reserve_all-Spaced_example = reserve_all-Spaced 5 wake_up no_slots

abbrev settings : Settings
settings = record {
  scrape_interval = missing;
  medium_interval = value (pos 300);
  slow_interval = value (negsuc 4);
  auth_failure_backoff = value (pos 900);
  collect_certificates = true;
  collect_licensing = true;
  collect_backup_status = false;
  collect_patches = false;
  collect_tacacs = true;
  collect_mnt_active_posture = true;
  radius_interval = value (pos 0);
  schema_interval = missing;
  radius_active_interval = value (pos 7200);
  performance_interval = refused;
  accounting_counters_interval = missing;
  accounting_event_counters = true;
  posture_counters_interval = missing;
  posture_event_counters = false;
  authentication_counters_interval = missing;
  authentication_event_counters = false;
  error_counters_interval = missing;
  error_event_counters = false;
  posture_interval = missing;
  endpoints_interval = missing;
  freshness_interval = missing;
  endpoint_fleet_interval = missing;
  endpoint_fleet_enabled = false;
  nad_health_interval = missing;
  mnt_active_posture_interval = missing;
  tacacs_interval = missing;
}

dataset_plan-Paced_example :
    All
      (λ p.
        Paced p (seconds 1000) (settle (cadence_of settings) p (seconds 1000) (some false) unseen))
      (dataset_plan settings true)
dataset_plan-Paced_example = dataset_plan-Paced settings true (seconds 1000) (some false) unseen
