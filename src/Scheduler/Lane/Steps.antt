-- ===== src/Scheduler/Lane/Steps.antt =====
-- ise_exporter/scheduler.py: the steps of the worker of the Data Connect lane.
use ise_exporter_v.Base.{
  ℕ, ◌+◌, Bool, true, false, Option, none, some, String, str_eq, length, ◌≡◌, refl, ap, ◌∙◌, arith,
  Bool-cases, inl, inr, if-elim,
}
use mathlib.Core.Path.{subst}
use ise_exporter_v.Scheduler.Queue.{task_done}
use ise_exporter_v.Scheduler.Lane.{
  Lane, Worker, absent, waiting, holding, running, settling, assign, dataset_blocked, receive,
  take_at, receive_at, finish_at, complete_at,
}
use ise_exporter_v.Scheduler.Lane.Counts.{
  flag, is_set, waiting_as, held_as, handled_as, is_running, has_task, Consistent, flag_le,
  get_nowait-Taken,
}

left-flag :
    (n m : String) (inflight : String → Bool) (w : ℕ)
    → w + flag (str_eq n m) ≡ flag (inflight n)
    → w + 0 ≡ flag (assign m false inflight n)
left-flag n m inflight w o = elim (Bool-cases (str_eq n m)) [
  | inl y ↦
      rw y (omega (arith, subst (λ b. w + flag b ≡ flag (inflight n)) y o, flag_le (inflight n)))
  | inr x ↦ rw x (omega (arith, subst (λ b. w + flag b ≡ flag (inflight n)) x o))
]

popped-flag :
    (n m : String) (queued_at : String → Option ℕ) (w : ℕ)
    → w + flag (str_eq n m) ≡ flag (is_set (queued_at n))
    → w + 0 ≡ flag (is_set (assign m none queued_at n))
popped-flag n m queued_at w o = elim (Bool-cases (str_eq n m)) [
  | inl y ↦ rw y (
      omega (
        arith,
        subst (λ b. w + flag b ≡ flag (is_set (queued_at n))) y o,
        flag_le (is_set (queued_at n)),
      ))
  | inr x ↦ rw x (omega (arith, subst (λ b. w + flag b ≡ flag (is_set (queued_at n))) x o))
]

-- What the invariant says of a lane, at a worker that is known.
pub at_once :
    (l : Lane) (k : Worker) (n : String)
    → l.worker ≡ k
    → Consistent l
    → waiting_as n l.queue + flag (handled_as k n) ≡ flag (l.inflight n)
at_once l k n e c =
    subst (λ w. waiting_as n l.queue + flag (handled_as w n) ≡ flag (l.inflight n)) e (c.once n)

pub at_queued :
    (l : Lane) (k : Worker) (n : String)
    → l.worker ≡ k
    → Consistent l
    → waiting_as n l.queue + flag (held_as k n) ≡ flag (is_set (l.queued_at n))
at_queued l k n e c =
    subst (λ w. waiting_as n l.queue + flag (held_as w n) ≡ flag (is_set (l.queued_at n))) e
      (c.queued n)

pub at_unfinished :
    (l : Lane) (k : Worker)
    → l.worker ≡ k
    → Consistent l
    → l.queue.unfinished_tasks ≡ length l.queue.items + flag (has_task k)
at_unfinished l k e c =
    subst (λ w. l.queue.unfinished_tasks ≡ length l.queue.items + flag (has_task w)) e c.unfinished

pub finish_at-Consistent :
    (w : Worker) (l : Lane) → l.worker ≡ w → Consistent l → Consistent (finish_at w l)
unfolding finish_at
finish_at-Consistent absent l e c = c
finish_at-Consistent waiting l e c = c
finish_at-Consistent (holding m) l e c = c
finish_at-Consistent (settling b) l e c = c
finish_at-Consistent (running m) l e c = record {
  once = λ n. left-flag n m l.inflight (waiting_as n l.queue) (at_once l (running m) n e c);
  queued = λ n. at_queued l (running m) n e c;
  occupied = refl;
  unfinished = at_unfinished l (running m) e c;
  threaded = λ h. c.threaded (rw e refl);
}

pub complete_at-Consistent :
    (w : Worker) (l : Lane) → l.worker ≡ w → Consistent l → Consistent (complete_at w l)
unfolding complete_at task_done
complete_at-Consistent absent l e c = c
complete_at-Consistent waiting l e c = c
complete_at-Consistent (holding m) l e c = c
complete_at-Consistent (running m) l e c = c
complete_at-Consistent (settling true) l e c = record {
  once = λ n. at_once l (settling true) n e c;
  queued = λ n. at_queued l (settling true) n e c;
  occupied = c.occupied ∙ ap is_running e;
  unfinished = omega (arith, at_unfinished l (settling true) e c);
  threaded = λ h. c.threaded (rw e refl);
}
complete_at-Consistent (settling false) l e c = record {
  once = λ n. at_once l (settling false) n e c;
  queued = λ n. at_queued l (settling false) n e c;
  occupied = c.occupied ∙ ap is_running e;
  unfinished = omega (arith, at_unfinished l (settling false) e c);
  threaded = λ h. cc;
}

receive-Consistent :
    (l : Lane) (name : Option String)
    → l.worker ≡ holding name
    → Consistent l
    → Consistent (receive name l)
unfolding receive
receive-Consistent l none w c = record {
  once = λ n. at_once l (holding none) n w c;
  queued = λ n. at_queued l (holding none) n w c;
  occupied = c.occupied ∙ ap is_running w;
  unfinished = at_unfinished l (holding none) w c;
  threaded = λ h. c.threaded (rw w refl);
}
receive-Consistent l (some name) w c =
    let held : Worker = holding (some name) in
    let tasks = at_unfinished l held w c in
    let idle : l.busy ≡ false = c.occupied ∙ ap is_running w in
    let a : l.is_async ≡ true = c.threaded (rw w refl) in
    let left : (n : String) → waiting_as n l.queue + 0 ≡ flag (assign name false l.inflight n) =
      λ n. left-flag n name l.inflight (waiting_as n l.queue) (at_once l held n w c) in
    let popped : (n : String)
        → waiting_as n l.queue + 0 ≡ flag (is_set (assign name none l.queued_at n)) =
      λ n. popped-flag n name l.queued_at (waiting_as n l.queue) (at_queued l held n w c) in
    let begun : Lane = record l {
      queued_at = assign name none l.queued_at;
      busy = true;
      worker = running name;
    } in
    if-elim Consistent l.shutdown
      (λ e. record {
        once = left;
        queued = popped;
        occupied = idle;
        unfinished = tasks;
        threaded = λ h. a;
      })
      (λ e.
        if-elim {y = begun} Consistent (dataset_blocked name l)
          (λ b. record {
            once = left;
            queued = popped;
            occupied = idle;
            unfinished = tasks;
            threaded = λ h. a;
          })
          (λ b. record {
            once = λ n. at_once l held n w c;
            queued = popped;
            occupied = refl;
            unfinished = tasks;
            threaded = λ h. a;
          }))

pub receive_at-Consistent :
    (w : Worker) (l : Lane) → l.worker ≡ w → Consistent l → Consistent (receive_at w l)
unfolding receive_at
receive_at-Consistent absent l e c = c
receive_at-Consistent waiting l e c = c
receive_at-Consistent (holding name) l e c = receive-Consistent l name e c
receive_at-Consistent (running m) l e c = c
receive_at-Consistent (settling b) l e c = c

pub take_at-Consistent :
    (now : ℕ) (w : Worker) (l : Lane) → l.worker ≡ w → Consistent l → Consistent (take_at now w l)
unfolding take_at
take_at-Consistent now absent l e c = c
take_at-Consistent now (holding m) l e c = c
take_at-Consistent now (running m) l e c = c
take_at-Consistent now (settling b) l e c = c
take_at-Consistent now waiting l e c = elim (get_nowait-Taken now l.queue) [
  | inl n ↦ rw (n.1, take_at) c
  | inr (m, r, got, counts, shorter, kept) ↦
      rw (got, take_at)
        (record {
          once = λ n. omega (arith, counts n, at_once l waiting n e c);
          queued = λ n. omega (arith, counts n, at_queued l waiting n e c);
          occupied = c.occupied ∙ ap is_running e;
          unfinished = omega (arith, kept, shorter, at_unfinished l waiting e c);
          threaded = λ h. c.threaded (rw e refl);
        })
]
