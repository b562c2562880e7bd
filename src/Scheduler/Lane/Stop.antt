-- ===== src/Scheduler/Lane/Stop.antt =====
-- ise_exporter/scheduler.py: the stop of the Data Connect worker.
use ise_exporter_v.Base.{
  ℕ, ◌+◌, List, [], ◌∷◌, ◌++◌, Bool, true, false, Option, none, some, String, length, any, ◌≡◌,
  refl, ap, if-elim, ◌∙◌, arith,
}
use mathlib.Core.Path.{subst}
use ise_exporter_v.Scheduler.Queue.{is_sentinel, put}
use ise_exporter_v.Scheduler.Queue.Best.{get_nowait-sentinel}
use ise_exporter_v.Scheduler.Lane.{
  Lane, Worker, absent, waiting, holding, running, settling, alive, take_at, take_item, receive,
  receive_at, receive_item, complete_at, complete, discard_pending, stop_worker, joined,
}
use ise_exporter_v.Scheduler.Lane.Counts.{Consistent, flag, has_task}
use ise_exporter_v.Scheduler.Lane.Inflight.{Reachable-Consistent}
use ise_exporter_v.Scheduler.Lane.Pending.{drain_lem}
use ise_exporter_v.Scheduler.Lane.Reachable.{Reachable, taken, received, completed, stopped}

-- What a lane is after a stop: no thread, nothing queued, nothing in flight, and no task left undone.
abbrev pub Empty : Lane → Type 0
Empty l =
    (l.worker ≡ absent)
    × (l.queue.items ≡ [])
    × (l.queue.unfinished_tasks ≡ 0)
    × ((n : String) → l.inflight n ≡ false)
    × (l.is_async ≡ false)
    × (l.stopping ≡ false)

any-append :
    {A : Type 0} (p : A → Bool) (xs : List A) (y : A) → p y ≡ true → any p (xs ++ y ∷ []) ≡ true
any-append p [] y h = ground (arith, h)
any-append p (x ∷ xs) y h = let r = any-append p xs y h in ground (arith, r)

take_sentinel :
    (l : Lane) (k : Worker) (u : ℕ)
    → k ≡ waiting
    → any is_sentinel l.queue.items ≡ true
    → (take_at u k l).worker ≡ holding none
unfolding take_at
take_sentinel l absent u w h = cc
take_sentinel l waiting u w h =
    let (m, before, after, split, got, unnamed) = get_nowait-sentinel u l.queue h in
    rw (got, take_at, unnamed) refl
take_sentinel l (holding m) u w h = cc
take_sentinel l (running m) u w h = cc
take_sentinel l (settling b) u w h = cc

-- The first item that a waiting worker takes after the stop has begun is the sentinel.
stop_take :
    (l : Lane) (t u : ℕ)
    → l.worker ≡ waiting
    → l.is_async ≡ true
    → (take_item u (stop_worker t l)).worker ≡ holding none
unfolding stop_worker put
stop_take l t u w a =
    if-elim (λ k. (take_item u k).worker ≡ holding none) l.is_async
      (λ h. take_sentinel _ l.worker u w (any-append is_sentinel l.queue.items _ refl)) (λ h. cc)

sentinel_ends :
    (k : Worker) (l : Lane) → k ≡ holding none → (complete (receive_at k l)).worker ≡ absent
unfolding receive_at receive complete_at
sentinel_ends absent l h = cc
sentinel_ends waiting l h = cc
sentinel_ends (holding none) l h = refl
sentinel_ends (holding (some n)) l h = let e : some n ≡ none = ap held_name h in cc
  where
    held_name : Worker → Option String
    held_name (holding m) = m
    held_name _ = none
sentinel_ends (running m) l h = cc
sentinel_ends (settling b) l h = cc

joined-Empty : (l : Lane) (v : ℕ) → l.worker ≡ absent → Consistent l → Empty (joined v l)
unfolding joined discard_pending
joined-Empty l v e c =
    if-elim Empty (alive l.worker) (λ h. let dead : alive l.worker ≡ false = ap alive e in cc)
      (λ h.
        let (empty, done) = drain_lem (length l.queue.items) v l.queue refl (
          subst (λ w. l.queue.unfinished_tasks ≡ length l.queue.items + flag (has_task w)) e
            c.unfinished
          ∙ omega arith) in
        (e, empty, done, (λ n. refl), refl, refl))

-- A stop of a lane whose worker waits for an item, whatever is queued: the worker's next item is the
-- sentinel, so it runs no dataset any more and ends after its task_done(); after the join nothing is
-- queued or in flight, every task is accounted for, and the lane can be started again.
pub stop-Empty :
    (l : Lane) (t u v : ℕ)
    → Reachable l
    → l.worker ≡ waiting
    → l.is_async ≡ true
    → let taken_last = take_item u (stop_worker t l) in
      let last = complete (receive_item taken_last) in
      (taken_last.worker ≡ holding none) × (last.worker ≡ absent) × Empty (joined v last)
stop-Empty l t u v r w a =
    let taken_last = take_item u (stop_worker t l) in
    let first = stop_take l t u w a in
    let e = sentinel_ends taken_last.worker taken_last first in
    (
      first,
      e,
      joined-Empty (complete (receive_item taken_last)) v e
          (Reachable-Consistent _ (completed _ (received _ (taken _ u (stopped l t r))))),
    )
