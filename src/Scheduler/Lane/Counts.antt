-- ===== src/Scheduler/Lane/Counts.antt =====
-- ise_exporter/scheduler.py: counts of the items that wait on the Data Connect lane.
use ise_exporter_v.Base.{
  ℕ, suc, ◌+◌, List, [], ◌∷◌, ◌++◌, Bool, true, false, Option, none, some, String, str_eq, length,
  length-append, count, any, if◌then◌else◌, ◌≡◌, refl, ap, ◌∙◌, arith, Bool-cases, inl, inr, ◌⊎◌,
  ◌≢◌, ◌≤◌,
}
use ise_exporter_v.Base.Int.{ℤ}
use ise_exporter_v.Scheduler.Queue.{Item, AgingQueue, is_sentinel, put, get_nowait, pop_at}
use ise_exporter_v.Scheduler.Queue.Best.{get_nowait-sentinel, get_nowait-best}
use ise_exporter_v.Scheduler.Lane.{Lane, Worker, holding, running, settling, alive}

abbrev pub flag : Bool → ℕ
flag b = if b then 1 else 0

abbrev pub has_name : String → Option String → Bool
has_name n none = false
has_name n (some m) = str_eq n m

abbrev pub is_set : Option ℕ → Bool
is_set none = false
is_set (some t) = true

-- How many items wait under the name.
abbrev pub waiting_as : String → AgingQueue → ℕ
waiting_as n q = count (λ (e : Item). has_name n e.name) q.items

-- The worker has taken the item of that name, and has not come to the section under the lock.
abbrev pub held_as : Worker → String → Bool
held_as (holding m) n = has_name n m
held_as _ n = false

-- The worker has taken the item of that name, or runs the dataset.
abbrev pub handled_as : Worker → String → Bool
handled_as (holding m) n = has_name n m
handled_as (running m) n = str_eq n m
handled_as _ n = false

abbrev pub is_running : Worker → Bool
is_running (running m) = true
is_running _ = false

-- The worker has taken an item for which it has not called task_done().
abbrev pub has_task : Worker → Bool
has_task (holding m) = true
has_task (running m) = true
has_task (settling b) = true
has_task _ = false

-- A dataset in flight waits once, or is in the worker's hands, never both; the other datasets are
-- neither. `queued_at` has the datasets that wait and the one taken before the section under the lock,
-- `busy` tells whether one runs, and the queue counts what is not done.
pub record Consistent (l : Lane) : Type 0 where
  pub once :
      (n : String) → waiting_as n l.queue + flag (handled_as l.worker n) ≡ flag (l.inflight n)
  pub queued :
      (n : String)
      → waiting_as n l.queue + flag (held_as l.worker n) ≡ flag (is_set (l.queued_at n))
  pub occupied : l.busy ≡ is_running l.worker
  pub unfinished : l.queue.unfinished_tasks ≡ length l.queue.items + flag (has_task l.worker)
  pub threaded : alive l.worker ≡ true → l.is_async ≡ true

count-append :
    {A : Type 0} (p : A → Bool) (xs ys : List A) → count p (xs ++ ys) ≡ count p xs + count p ys
count-append p [] ys = omega arith
count-append p (x ∷ xs) ys = omega (arith, count-append p xs ys)

pub put-waiting :
    (n : String) (now : ℕ) (priority : ℤ) (sequence : ℕ) (name : Option String) (tier : ℕ)
    (q : AgingQueue)
    → waiting_as n (put now priority sequence name tier q) ≡ waiting_as n q + flag (has_name n name)
unfolding put
put-waiting n now priority sequence name tier q =
    count-append (λ (e : Item). has_name n e.name) q.items _ ∙ omega arith

pub put-unfinished :
    (now : ℕ) (priority : ℤ) (sequence : ℕ) (name : Option String) (tier : ℕ) (q : AgingQueue)
    (k : ℕ)
    → q.unfinished_tasks ≡ length q.items + k
    → let r = put now priority sequence name tier q in r.unfinished_tasks ≡ length r.items + k
unfolding put
put-unfinished now priority sequence name tier q k h = omega (arith, h, length-append q.items)

pub flag_le : (b : Bool) → flag b ≤ 1
flag_le true = omega arith
flag_le false = omega arith

-- The item that get_nowait takes, and what it leaves.
abbrev pub Taken : ℕ → AgingQueue → Type 0
Taken now q =
    (m : Item) × (r : AgingQueue) × (get_nowait now q ≡ some (m, r))
    × ((n : String) → waiting_as n q ≡ flag (has_name n m.name) + waiting_as n r)
    × (length q.items ≡ suc (length r.items))
    × (r.unfinished_tasks ≡ q.unfinished_tasks)

split-Taken :
    (now : ℕ) (q : AgingQueue) (m : Item) (before after : List Item)
    → q.items ≡ before ++ m ∷ after
    → get_nowait now q ≡ some (m, record q { items = before ++ after })
    → Taken now q
split-Taken now q m before after split got = (
  m,
  record q { items = before ++ after },
  got,
  (λ n.
      let p : Item → Bool = λ (e : Item). has_name n e.name in
      omega (
        arith,
        ap (count p) split,
        count-append p before (m ∷ after),
        count-append p before after,
      )),
  omega (
    arith,
    ap (length {A = Item}) split,
    length-append before (m ∷ after),
    length-append before after,
  ),
  refl,
)

pub get_nowait-Taken :
    (now : ℕ) (q : AgingQueue) → ((q.items ≡ []) × (get_nowait now q ≡ none)) ⊎ Taken now q
unfolding get_nowait pop_at
get_nowait-Taken now q = elim (Bool-cases (any is_sentinel q.items)) [
  | inl s ↦
      let (m, before, after, split, got, sentinel) = get_nowait-sentinel now q s in
      inr (split-Taken now q m before after split got)
  | inr plain ↦ elim (nil-cases q.items) [
    | inl e ↦ inl (e, rw e refl)
    | inr n ↦
        let (m, before, after, split, got, best) = get_nowait-best now q n plain in
        inr (split-Taken now q m before after split got)
  ]
]
  where
    nil-cases : (xs : List Item) → (xs ≡ []) ⊎ (xs ≢ [])
    nil-cases [] = inl refl
    nil-cases (x ∷ xs) = inr (λ e. cc)
