-- ===== src/Scheduler/Lane/Reachable.antt =====
-- ise_exporter/scheduler.py: the states of the Data Connect lane, as its threads interleave. The
-- worker's steps are get(), the section under the lock, the section under the lock after _run, and
-- task_done(); any steps of the scheduler's thread may lie between them. The
-- scheduler's section under the lock is a step of its own too, since the schema gate before it may have
-- been passed in an earlier state.
use ise_exporter_v.Base.{ℕ, Bool, true, String, ◌≡◌}
use ise_exporter_v.Scheduler.Lane.{
  Lane, empty_lane, admit, run_dataconnect, take_item, receive_item, finish, complete, apply_schema,
  start_worker, stop_worker, joined,
}

pub data Reachable : Lane → Type 0 where
  initial :
      (schema_ready : Bool) (schema_failures : String → Bool)
      → Reachable (empty_lane schema_ready schema_failures)
  submitted :
      (l : Lane) (now : ℕ) (name : String) (tier : ℕ) (due : Bool)
      → Reachable l
      → Reachable (run_dataconnect now name tier due l).0
  admitted :
      (l : Lane) (now : ℕ) (name : String) (tier : ℕ) (due : Bool)
      → Reachable l
      → Reachable (admit now name tier due l)
  taken : (l : Lane) (now : ℕ) → Reachable l → Reachable (take_item now l)
  received : (l : Lane) → Reachable l → Reachable (receive_item l)
  finished : (l : Lane) → Reachable l → Reachable (finish l)
  completed : (l : Lane) → Reachable l → Reachable (complete l)
  validated :
      (l : Lane) (failures : String → Bool) → Reachable l → Reachable (apply_schema failures l)
  started : (l : Lane) (now : ℕ) (event : Bool) → Reachable l → Reachable (start_worker now event l)
  stopped : (l : Lane) (now : ℕ) → Reachable l → Reachable (stop_worker now l)
  ended : (l : Lane) (now : ℕ) → l.stopping ≡ true → Reachable l → Reachable (joined now l)
  interrupted : (l : Lane) → Reachable l → Reachable (record l { shutdown = true })
