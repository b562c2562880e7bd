-- ===== src/Scheduler/Lane/Examples.antt =====
-- Runs of the Data Connect lane, and its theorems at concrete inputs.
use ise_exporter_v.Base.{true, false, none, str_eq, ◌≡◌, refl}
use ise_exporter_v.Base.Int.{◌-ℤ◌, scale}
use ise_exporter_v.Base.Float.{seconds}
use ise_exporter_v.Scheduler.Queue.{put, get_nowait}
use ise_exporter_v.Scheduler.Lane.{
  Lane, absent, waiting, holding, running, empty_lane, admit, dataset_blocked, priority_of,
  enqueue_blocked, run_dataconnect, receive, receive_at, receive_item, take_at, take_item, complete,
  apply_schema, start_worker, stop_worker, joined,
}
use ise_exporter_v.Scheduler.Lane.Counts.{Consistent, waiting_as}
use ise_exporter_v.Scheduler.Lane.Reachable.{
  Reachable, initial, submitted, started, taken, validated,
}
use ise_exporter_v.Scheduler.Lane.Inflight.{Reachable-Consistent}
use ise_exporter_v.Scheduler.Lane.Allowed.{take_item-allowed}
use ise_exporter_v.Scheduler.Lane.Stop.{Empty, stop-Empty}

abbrev fresh_lane : Lane
fresh_lane = start_worker (seconds 1) false (empty_lane true (λ n. false))

-- A posture cycle is queued, then an operational dataset, then the posture cycle again.
abbrev two_queued : Lane
two_queued =
    (run_dataconnect (seconds 4) "dataconnect_posture" 0 true
      (run_dataconnect (seconds 3) "dataconnect_radius_active" 0 true
        (run_dataconnect (seconds 2) "dataconnect_posture" 0 true fresh_lane).0).0).0

two_queued-Reachable : Reachable two_queued
two_queued-Reachable =
    submitted _ _ _ _ _
      (submitted _ _ _ _ _ (submitted _ _ _ _ _ (started _ _ _ (initial true (λ n. false)))))

waits : two_queued.worker ≡ waiting
unfolding run_dataconnect admit start_worker empty_lane enqueue_blocked
waits = refl

-- The worker has taken an item when the schema is validated again.
abbrev item_held : Lane
item_held = apply_schema (λ n. str_eq n "dataconnect_posture") (take_item (seconds 9) two_queued)

item_held-Reachable : Reachable item_held
item_held-Reachable = validated _ _ (taken _ _ two_queued-Reachable)

operational_first : (receive_item item_held).worker ≡ running "dataconnect_radius_active"
unfolding run_dataconnect admit start_worker empty_lane enqueue_blocked take_at receive receive_at
    put get_nowait priority_of ◌-ℤ◌ scale
operational_first = refl

posture_once : waiting_as "dataconnect_posture" two_queued.queue ≡ 1
unfolding run_dataconnect admit start_worker empty_lane enqueue_blocked put
posture_once = refl

Reachable-Consistent_example : Consistent item_held
Reachable-Consistent_example = Reachable-Consistent item_held item_held-Reachable

take_item-allowed_example :
    (item_held.shutdown ≡ false)
    × (dataset_blocked "dataconnect_radius_active" item_held ≡ false)
    × (waiting_as "dataconnect_radius_active" two_queued.queue ≡ 1)
    × (waiting_as "dataconnect_radius_active" item_held.queue ≡ 0)
take_item-allowed_example =
    take_item-allowed two_queued item_held (seconds 9) "dataconnect_radius_active"
      two_queued-Reachable item_held-Reachable waits refl operational_first

stop-Empty_example :
    let taken_last = take_item (seconds 11) (stop_worker (seconds 10) two_queued) in
    let last = complete (receive_item taken_last) in
    (taken_last.worker ≡ holding none) × (last.worker ≡ absent) × Empty (joined (seconds 12) last)
unfolding run_dataconnect admit start_worker empty_lane enqueue_blocked
stop-Empty_example =
    stop-Empty two_queued (seconds 10) (seconds 11) (seconds 12) two_queued-Reachable waits refl
