-- ===== src/Scheduler/Lane/Inflight.antt =====
-- ise_exporter/scheduler.py: which datasets are in flight on the Data Connect lane.
use ise_exporter_v.Base.{
  ℕ, ◌+◌, ◌≤◌, Bool, true, false, ◌&&◌, ◌||◌, not, Option, none, some, String, str_eq, eq_iff, ◌≡◌,
  refl, ◌∙◌, arith, Bool-cases, inl, inr, if-elim,
}
use ise_exporter_v.Base.Int.{ℤ, negsuc}
use ise_exporter_v.Scheduler.Queue.{empty_queue, put}
use ise_exporter_v.Scheduler.Lane.{
  Lane, Worker, absent, waiting, holding, running, settling, empty_lane, assign, alive,
  enqueue_blocked, priority_of, admit, run_dataconnect, apply_schema, discard_pending, start_worker,
  stop_worker, joined,
}
use ise_exporter_v.Scheduler.Lane.Counts.{
  flag, waiting_as, held_as, handled_as, has_task, Consistent, put-waiting, put-unfinished,
}
use ise_exporter_v.Scheduler.Lane.Steps.{
  finish_at-Consistent, take_at-Consistent, receive_at-Consistent, complete_at-Consistent,
}
use ise_exporter_v.Scheduler.Lane.Pending.{
  absent-alive, discarded-Consistent, idle-Consistent, restarted-Consistent, cleaned-Consistent,
}
use ise_exporter_v.Scheduler.Lane.Reachable.{
  Reachable, initial, submitted, admitted, taken, received, finished, completed, validated, started,
  stopped, ended, interrupted,
}

held_le : (w : Worker) (n : String) → flag (held_as w n) ≤ flag (handled_as w n)
held_le absent n = omega arith
held_le waiting n = omega arith
held_le (holding m) n = omega arith
held_le (running m) n = omega arith
held_le (settling b) n = omega arith

queued-Consistent :
    (l : Lane) (now : ℕ) (priority : ℤ) (name : String) (tier : ℕ)
    → Consistent l
    → l.inflight name ≡ false
    → Consistent (record l {
      inflight = assign name true l.inflight;
      queued_at = assign name (some now) l.queued_at;
      queue = put now priority l.next_sequence (some name) tier l.queue;
      next_sequence = l.next_sequence + 1;
    })
queued-Consistent l now priority name tier c f = record {
  once = λ n.
      let e = put-waiting n now priority l.next_sequence (some name) tier l.queue in
      elim (Bool-cases (str_eq n name)) [
        | inl y ↦ rw (e, y) (omega (arith, unused n y))
        | inr x ↦ rw (e, x) (omega (arith, c.once n))
      ];
  queued = λ n.
      let e = put-waiting n now priority l.next_sequence (some name) tier l.queue in
      elim (Bool-cases (str_eq n name)) [
        | inl y ↦ rw (e, y) (omega (arith, unused n y, held_le l.worker n))
        | inr x ↦ rw (e, x) (omega (arith, c.queued n))
      ];
  occupied = c.occupied;
  unfinished =
      put-unfinished now priority l.next_sequence (some name) tier l.queue
        (flag (has_task l.worker)) c.unfinished;
  threaded = c.threaded;
}
  where
    unused :
        (n : String)
        → str_eq n name ≡ true
        → waiting_as n l.queue + flag (handled_as l.worker n) ≡ 0
    unused n y = c.once n ∙ rw ((eq_iff n name).0 y, f) refl

admit-Consistent :
    (l : Lane) (now : ℕ) (name : String) (tier : ℕ) (due : Bool)
    → Consistent l
    → Consistent (admit now name tier due l)
unfolding admit
admit-Consistent l now name tier due c =
    if-elim Consistent (l.stopping || l.shutdown || l.inflight name || not due) (λ g. c)
      (λ g. queued-Consistent l now (priority_of name) name tier c (ground (arith, g)))

submitted-Consistent :
    (l : Lane) (now : ℕ) (name : String) (tier : ℕ) (due : Bool)
    → Consistent l
    → Consistent (run_dataconnect now name tier due l).0
unfolding run_dataconnect
submitted-Consistent l now name tier due c =
    let P : Lane × Option String → Type 0 = λ r. Consistent r.0 in
    if-elim P (enqueue_blocked name l) (λ b. c)
      (λ b. if-elim P (not l.is_async) (λ a. c) (λ a. admit-Consistent l now name tier due c))

started-Consistent :
    (l : Lane) (now : ℕ) (event : Bool) → Consistent l → Consistent (start_worker now event l)
unfolding start_worker discard_pending
started-Consistent l now event c =
    if-elim Consistent (l.is_async && alive l.worker) (λ h. c)
      (λ h.
        let dead : alive l.worker ≡ false = not_alive l.worker l.is_async c.threaded h in
        let e = absent-alive l.worker dead in
        if-elim
          (λ clean.
            Consistent (record clean { shutdown = event; is_async = true; worker = waiting }))
          l.stopping (λ s. restarted-Consistent _ event e (cleaned-Consistent now l e c))
          (λ s. restarted-Consistent l event e c))
  where
    not_alive :
        (w : Worker) (a : Bool)
        → (alive w ≡ true → a ≡ true)
        → (a && alive w) ≡ false
        → alive w ≡ false
    not_alive absent a f h = refl
    not_alive waiting a f h = let t = f refl in grind (arith, t, h)
    not_alive (holding m) a f h = let t = f refl in grind (arith, t, h)
    not_alive (settling b) a f h = let t = f refl in grind (arith, t, h)
    not_alive (running m) a f h = let t = f refl in grind (arith, t, h)

stopped-Consistent : (l : Lane) (now : ℕ) → Consistent l → Consistent (stop_worker now l)
unfolding stop_worker
stopped-Consistent l now c =
    if-elim Consistent l.is_async
      (λ h. record {
        once = λ n.
            omega (arith, c.once n, put-waiting n now (negsuc 0) l.next_sequence none 0 l.queue);
        queued = λ n.
            omega (arith, c.queued n, put-waiting n now (negsuc 0) l.next_sequence none 0 l.queue);
        occupied = c.occupied;
        unfinished =
            put-unfinished now (negsuc 0) l.next_sequence none 0 l.queue (flag (has_task l.worker))
              c.unfinished;
        threaded = c.threaded;
      })
      (λ h. c)

ended-Consistent : (l : Lane) (now : ℕ) → Consistent l → Consistent (joined now l)
unfolding joined
ended-Consistent l now c =
    if-elim Consistent (alive l.worker) (λ h. c)
      (λ h.
        let e = absent-alive l.worker h in
        discarded-Consistent now (record l { is_async = false; stopping = false }) e
          (idle-Consistent l false false e c))

-- However the steps of the scheduler's thread and of the worker interleave, from __init__ on: a dataset
-- in flight waits in the queue once, or the worker holds its item or runs it, and not both; a dataset
-- that is not in flight does neither. The times of queueing are those of the datasets that wait or whose
-- item the worker holds, the lane is busy exactly while one runs, and the queue's count of unfinished
-- tasks is that of the items that wait, and of the one that the worker has taken until its task_done().
pub Reachable-Consistent : (l : Lane) → Reachable l → Consistent l
unfolding empty_lane empty_queue
Reachable-Consistent _ (initial ready failures) = record {
  once = λ n. refl;
  queued = λ n. refl;
  occupied = refl;
  unfinished = refl;
  threaded = λ h. cc;
}
Reachable-Consistent _ (submitted l now name tier due r) =
    submitted-Consistent l now name tier due (Reachable-Consistent l r)
Reachable-Consistent _ (admitted l now name tier due r) =
    admit-Consistent l now name tier due (Reachable-Consistent l r)
Reachable-Consistent _ (taken l now r) =
    take_at-Consistent now l.worker l refl (Reachable-Consistent l r)
Reachable-Consistent _ (received l r) =
    receive_at-Consistent l.worker l refl (Reachable-Consistent l r)
Reachable-Consistent _ (completed l r) =
    complete_at-Consistent l.worker l refl (Reachable-Consistent l r)
Reachable-Consistent _ (finished l r) =
    finish_at-Consistent l.worker l refl (Reachable-Consistent l r)
Reachable-Consistent _ (validated l failures r) = same (Reachable-Consistent l r)
  where
    same : Consistent l → Consistent (apply_schema failures l)
    same c = record {
      once = c.once;
      queued = c.queued;
      occupied = c.occupied;
      unfinished = c.unfinished;
      threaded = c.threaded;
    }
Reachable-Consistent _ (started l now event r) =
    started-Consistent l now event (Reachable-Consistent l r)
Reachable-Consistent _ (stopped l now r) = stopped-Consistent l now (Reachable-Consistent l r)
Reachable-Consistent _ (ended l now s r) = ended-Consistent l now (Reachable-Consistent l r)
Reachable-Consistent _ (interrupted l r) = same (Reachable-Consistent l r)
  where
    same : Consistent l → Consistent (record l { shutdown = true })
    same c = record {
      once = c.once;
      queued = c.queued;
      occupied = c.occupied;
      unfinished = c.unfinished;
      threaded = c.threaded;
    }
