-- ===== src/Scheduler/Lane/Pending.antt =====
-- ise_exporter/scheduler.py: what is left when the work of a stopped lane is discarded.
use ise_exporter_v.Base.{
  ℕ, zero, suc, List, [], ◌∷◌, Bool, true, false, String, length, ◌≡◌, refl, sym, ap, ◌∙◌, arith,
  inl, inr,
}
use ise_exporter_v.Scheduler.Queue.{Item, AgingQueue, task_done}
use ise_exporter_v.Scheduler.Lane.{
  Lane, Worker, absent, waiting, holding, running, settling, alive, drain, discard_pending,
}
use ise_exporter_v.Scheduler.Lane.Counts.{
  flag, waiting_as, held_as, handled_as, is_running, has_task, Consistent, get_nowait-Taken,
}
use ise_exporter_v.Scheduler.Lane.Steps.{at_once, at_queued, at_unfinished}

pub drain_lem :
    (n now : ℕ) (q : AgingQueue)
    → length q.items ≡ n
    → q.unfinished_tasks ≡ n
    → ((drain now n q).items ≡ []) × ((drain now n q).unfinished_tasks ≡ 0)
unfolding drain task_done
drain_lem zero now q l u = (none_left q.items l, u)
  where
    none_left : (xs : List Item) → length xs ≡ 0 → xs ≡ []
    none_left [] h = refl
    none_left (x ∷ xs) h = absurd (omega (arith, h))
drain_lem (suc n) now q l u = elim (get_nowait-Taken now q) [
  | inl e ↦ absurd (omega (arith, l, ap (length {A = Item}) e.0))
  | inr (m, r, got, counts, shorter, kept) ↦
      rw (got, drain)
        (drain_lem n now (task_done r) (omega (arith, l, shorter)) (omega (arith, u, kept)))
]

pub absent-alive : (w : Worker) → alive w ≡ false → w ≡ absent
absent-alive absent h = refl
absent-alive waiting h = cc
absent-alive (holding m) h = cc
absent-alive (running m) h = cc
absent-alive (settling b) h = cc

pub discarded-Consistent :
    (now : ℕ) (l : Lane) → l.worker ≡ absent → Consistent l → Consistent (discard_pending now l)
unfolding discard_pending
discarded-Consistent now l e c =
    let idle : flag (has_task l.worker) ≡ 0 = rw e refl in
    let (empty, done) =
      drain_lem (length l.queue.items) now l.queue refl (omega (arith, c.unfinished, idle)) in
    let none_of : (n : String) → waiting_as n (drain now (length l.queue.items) l.queue) ≡ 0 =
      λ n. rw empty refl in
    record {
      once = λ n.
          let still : flag (handled_as l.worker n) ≡ 0 = rw e refl in
          omega (arith, none_of n, still);
      queued = λ n.
          let still : flag (held_as l.worker n) ≡ 0 = rw e refl in omega (arith, none_of n, still);
      occupied = ap is_running (sym e);
      unfinished = omega (arith, done, idle, ap (length {A = Item}) empty);
      threaded = c.threaded;
    }

-- The flags of a lane without a worker.
pub idle-Consistent :
    (l : Lane) (is_async stopping : Bool)
    → l.worker ≡ absent
    → Consistent l
    → Consistent (record l { is_async = is_async; stopping = stopping })
idle-Consistent l is_async stopping e c = record {
  once = c.once;
  queued = c.queued;
  occupied = c.occupied;
  unfinished = c.unfinished;
  threaded = λ h. let dead : alive l.worker ≡ false = ap alive e in cc;
}

pub restarted-Consistent :
    (l : Lane) (event : Bool)
    → l.worker ≡ absent
    → Consistent l
    → Consistent (record l { shutdown = event; is_async = true; worker = waiting })
restarted-Consistent l event e c = record {
  once = λ n. at_once l absent n e c;
  queued = λ n. at_queued l absent n e c;
  occupied = c.occupied ∙ ap is_running e;
  unfinished = at_unfinished l absent e c;
  threaded = λ h. refl;
}

pub cleaned-Consistent :
    (now : ℕ) (l : Lane)
    → l.worker ≡ absent
    → Consistent l
    → Consistent (record (discard_pending now l) { is_async = false; stopping = false })
unfolding discard_pending
cleaned-Consistent now l e c =
    idle-Consistent (discard_pending now l) false false e (discarded-Consistent now l e c)
