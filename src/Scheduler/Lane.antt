-- ===== src/Scheduler/Lane.antt =====
-- ise_exporter/scheduler.py: the serialized Data Connect lane: `_run_dataconnect`, the worker's loop,
-- the schema gate, and the start and stop of the worker. The clock, the answer of `_due` and the
-- thread's end enter as arguments. The callback and its run are left out (`Run` has `_run`).
pub mod Reachable
pub mod Counts
mod Steps
mod Pending
pub mod Inflight
pub mod Stop
pub mod Allowed
mod Examples
use ise_exporter_v.Base.{
  ℕ, zero, suc, ◌+◌, ◌-◌, List, [], ◌∷◌, Bool, true, false, ◌&&◌, ◌||◌, not, Option, none, some,
  String, str_eq, length, if◌then◌else◌,
}
use ise_exporter_v.Base.Int.{ℤ, pos, negsuc}
use ise_exporter_v.Scheduler.Queue.{Item, AgingQueue, empty_queue, put, get_nowait, task_done}

-- The worker thread: none alive; in get(); with the name of an item that get() has returned, before the
-- section under the lock; in _run of a dataset; or before task_done(), where it goes on or ends.
pub data Worker : Type 0 where
  absent : Worker
  waiting : Worker
  holding : Option String → Worker
  running : String → Worker
  settling : Bool → Worker

-- The scheduler's attributes for this lane, without the prefix `_dataconnect`. A set of names is
-- its membership test.
pub record Lane : Type 0 where
  pub queue : AgingQueue
  pub next_sequence : ℕ
  pub inflight : String → Bool
  pub queued_at : String → Option ℕ
  pub busy : Bool
  pub is_async : Bool
  pub stopping : Bool
  pub shutdown : Bool
  pub schema_ready : Bool
  pub schema_failures : String → Bool
  pub worker : Worker

-- The lane after __init__.
unfoldable pub empty_lane : Bool → (String → Bool) → Lane
unfolding empty_queue
empty_lane schema_ready schema_failures = record {
  queue = empty_queue;
  next_sequence = 0;
  inflight = λ n. false;
  queued_at = λ n. none;
  busy = false;
  is_async = false;
  stopping = false;
  shutdown = false;
  schema_ready = schema_ready;
  schema_failures = schema_failures;
  worker = absent;
}

abbrev pub assign : {A : Type 0} → String → A → (String → A) → String → A
assign name v f n = if str_eq n name then v else f n

abbrev pub schema_name : String
schema_name = "dataconnect_schema"

abbrev priorities : List (String × ℤ)
priorities =
    ("dataconnect_schema", negsuc 0)
    ∷ ("dataconnect_radius_active", pos 0)
    ∷ ("dataconnect_accounting_counters", pos 1)
    ∷ ("dataconnect_posture_counters", pos 1)
    ∷ ("dataconnect_authentication_counters", pos 1)
    ∷ ("dataconnect_error_counters", pos 1)
    ∷ ("dataconnect_performance", pos 1)
    ∷ ("dataconnect_nad_health", pos 2)
    ∷ ("dataconnect_radius", pos 3)
    ∷ ("tacacs_activity", pos 4)
    ∷ ("dataconnect_posture", pos 5)
    ∷ ("dataconnect_endpoints", pos 6)
    ∷ ("dataconnect_freshness", pos 7)
    ∷ ("endpoint_fleet", pos 8)
    ∷ []

abbrev find_priority : String → List (String × ℤ) → ℤ
find_priority name [] = pos 100
find_priority name (p ∷ ps) = if str_eq name p.0 then p.1 else find_priority name ps

unfoldable pub priority_of : String → ℤ
priority_of name = find_priority name priorities

-- _dataconnect_dataset_enqueue_blocked(name)
unfoldable pub enqueue_blocked : String → Lane → Bool
enqueue_blocked name l =
    not (str_eq name schema_name)
    && (if l.schema_ready
        then l.schema_failures name
        else not (l.is_async && l.inflight schema_name))

-- _dataconnect_dataset_blocked(name)
unfoldable pub dataset_blocked : String → Lane → Bool
dataset_blocked name l =
    not (str_eq name schema_name) && (not l.schema_ready || l.schema_failures name)

-- The section of _run_dataconnect under the lock.
unfoldable pub admit : ℕ → String → ℕ → Bool → Lane → Lane
unfolding priority_of put
admit now name tier due l =
    let queued : Lane = record l {
      inflight = assign name true l.inflight;
      queued_at = assign name (some now) l.queued_at;
      queue = put now (priority_of name) l.next_sequence (some name) tier l.queue;
      next_sequence = l.next_sequence + 1;
    } in
    if l.stopping || l.shutdown || l.inflight name || not due then l else queued

-- _run_dataconnect(name, tier, callback): the lane, and the dataset that runs at once, outside it.
unfoldable pub run_dataconnect : ℕ → String → ℕ → Bool → Lane → Lane × Option String
unfolding enqueue_blocked admit
run_dataconnect now name tier due l =
    if enqueue_blocked name l
    then (l, none)
    else if not l.is_async
    then (l, some name)
    else (admit now name tier due l, none)

-- get() of a waiting worker, where the queue has an item. The lane's lock is not held.
unfoldable pub take_at : ℕ → Worker → Lane → Lane
unfolding get_nowait
take_at now waiting l = elim (get_nowait now l.queue) [
  | none ↦ l
  | some r ↦ record l { queue = r.1; worker = holding r.0.name }
]
take_at now _ l = l

abbrev pub take_item : ℕ → Lane → Lane
take_item now l = take_at now l.worker l

-- The worker's loop with an item: the sentinel, or the section under the lock before _run.
unfoldable pub receive : Option String → Lane → Lane
unfolding dataset_blocked
receive none l = record l { worker = settling false }
receive (some name) l =
    let popped : Lane = record l { queued_at = assign name none l.queued_at } in
    let dropped : Lane = record popped { inflight = assign name false l.inflight } in
    if l.shutdown
    then record dropped { worker = settling false }
    else if dataset_blocked name l
    then record dropped { worker = settling true }
    else record popped { busy = true; worker = running name }

unfoldable pub receive_at : Worker → Lane → Lane
unfolding receive
receive_at (holding name) l = receive name l
receive_at _ l = l

abbrev pub receive_item : Lane → Lane
receive_item l = receive_at l.worker l

-- The section under the lock after _run.
unfoldable pub finish_at : Worker → Lane → Lane
finish_at (running name) l = record l {
  busy = false;
  inflight = assign name false l.inflight;
  worker = settling true;
}
finish_at _ l = l

abbrev pub finish : Lane → Lane
finish l = finish_at l.worker l

-- task_done(), outside the lock, and the worker's next state.
unfoldable pub complete_at : Worker → Lane → Lane
unfolding task_done
complete_at (settling true) l = record l { queue = task_done l.queue; worker = waiting }
complete_at (settling false) l = record l { queue = task_done l.queue; worker = absent }
complete_at _ l = l

abbrev pub complete : Lane → Lane
complete l = complete_at l.worker l

-- _apply_dataconnect_schema(schema, failures)
abbrev pub apply_schema : (String → Bool) → Lane → Lane
apply_schema failures l = record l { schema_failures = failures; schema_ready = true }

-- The loop of _discard_dataconnect_pending, at most so many times.
unfoldable pub drain : ℕ → ℕ → AgingQueue → AgingQueue
unfolding get_nowait task_done
drain now zero q = q
drain now (suc n) q = elim (get_nowait now q) [ none ↦ q | some r ↦ drain now n (task_done r.1) ]

unfoldable pub discard_pending : ℕ → Lane → Lane
unfolding drain
discard_pending now l = record l {
  queue = drain now (length l.queue.items) l.queue;
  busy = false;
  inflight = λ n. false;
  queued_at = λ n. none;
}

abbrev pub alive : Worker → Bool
alive absent = false
alive _ = true

-- _start_dataconnect_worker(shutdown), with an event that is set or not
unfoldable pub start_worker : ℕ → Bool → Lane → Lane
unfolding discard_pending
start_worker now event l =
    let clean : Lane =
      if l.stopping
      then record (discard_pending now l) { is_async = false; stopping = false }
      else l in
    if l.is_async && alive l.worker
    then l
    else record clean { shutdown = event; is_async = true; worker = waiting }

-- _stop_dataconnect_worker() up to its join
unfoldable pub stop_worker : ℕ → Lane → Lane
unfolding put
stop_worker now l =
    if l.is_async
    then record l {
      stopping = true;
      queue = put now (negsuc 0) l.next_sequence none 0 l.queue;
      next_sequence = l.next_sequence + 1;
    }
    else l

-- The rest of _stop_dataconnect_worker, after the join.
unfoldable pub joined : ℕ → Lane → Lane
unfolding discard_pending
joined now l =
    if alive l.worker
    then l
    else discard_pending now (record l { is_async = false; stopping = false })
