-- ===== src/Scheduler/Queue.antt =====
-- ise_exporter/scheduler.py: `_AgingDataConnectQueue`, the lane queue with wait-time aging.
-- The callback of an item is left out: the lane looks it up by the dataset's name. Times are in
-- millionths of a second;
-- an effective priority is multiplied by `aging_seconds`.
pub mod Order
pub mod Best
pub mod Overtaking
use mathlib.Core.Option
use ise_exporter_v.Base.{
  ℕ, zero, suc, ◌+◌, ◌-◌, ◌*◌, max, ltb, leb, ◌==◌, ◌||◌, ◌&&◌, Bool, true, false, Option, none,
  some, if◌then◌else◌, String, List, [], ◌∷◌, ◌++◌,
}
use ise_exporter_v.Base.Int.{ℤ, pos, ◌+ℤ◌, ◌-ℤ◌, scale, ltb_ℤ, eqb_ℤ}
use ise_exporter_v.Base.Float.{seconds}

abbrev pub aging_seconds : ℕ
aging_seconds = 900

-- (priority, sequence, name, tier, callback, queued_at); the shutdown sentinel has no name
pub record Item : Type 0 where
  pub priority : ℤ
  pub sequence : ℕ
  pub name : Option String
  pub tier : ℕ
  pub queued_at : ℕ

pub record AgingQueue : Type 0 where
  pub items : List Item
  pub unfinished_tasks : ℕ

unfoldable pub empty_queue : AgingQueue
empty_queue = record { items = []; unfinished_tasks = 0 }

-- priority - (now - queued_at) / 900, times 900 seconds
unfoldable pub effective_priority : ℕ → Item → ℤ
effective_priority now e = scale (seconds aging_seconds) e.priority -ℤ (pos now -ℤ pos e.queued_at)

-- key < best_key, for the keys (effective_priority, priority, queued_at, sequence)
unfoldable pub key_lt : ℕ → Item → Item → Bool
unfolding effective_priority
key_lt now a b =
    let ea = effective_priority now a in
    let eb = effective_priority now b in
    ltb_ℤ ea eb
    || eqb_ℤ ea eb
      && (ltb_ℤ a.priority b.priority
          || eqb_ℤ a.priority b.priority
            && (ltb a.queued_at b.queued_at
                || a.queued_at == b.queued_at && ltb a.sequence b.sequence))

abbrev pub is_sentinel : Item → Bool
is_sentinel e = elim e.name [ none ↦ true | some _ ↦ false ]

-- The loop of `_pop_best_locked`, at `index`, with the best entry so far: the index to pop.
unfoldable pub find_best : ℕ → ℕ → ℕ → Option Item → List Item → ℕ
unfolding key_lt
find_best now index best_index best [] = best_index
find_best now index best_index best (e ∷ es) =
    let better : Bool = elim best [ none ↦ true | some b ↦ key_lt now e b ] in
    let rest =
      find_best now (index + 1) (if better then index else best_index)
        (if better then some e else best) es in
    if is_sentinel e then index else rest

-- self._items.pop(index)
unfoldable pub pop_at : ℕ → List Item → Option (Item × List Item)
pop_at i [] = none
pop_at zero (e ∷ es) = some (e, es)
pop_at (suc i) (e ∷ es) = Option.map (λ r. (r.0, e ∷ r.1)) (pop_at i es)

-- put(item), at the time `now`
unfoldable pub put : ℕ → ℤ → ℕ → Option String → ℕ → AgingQueue → AgingQueue
put now priority sequence name tier q =
    let e : Item = record {
      priority = priority;
      sequence = sequence;
      name = name;
      tier = tier;
      queued_at = now;
    } in
    record { items = q.items ++ e ∷ []; unfinished_tasks = q.unfinished_tasks + 1 }

-- get_nowait(), and get() where an item waits; `none` is queue.Empty
unfoldable pub get_nowait : ℕ → AgingQueue → Option (Item × AgingQueue)
unfolding find_best pop_at
get_nowait now q =
    Option.map (λ r. (r.0, record q { items = r.1 }))
      (pop_at (find_best now 0 0 none q.items) q.items)

unfoldable pub task_done : AgingQueue → AgingQueue
task_done q = record q { unfinished_tasks = q.unfinished_tasks - 1 }
