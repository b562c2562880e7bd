-- ===== src/Scheduler/Queue/Overtaking.antt =====
-- ise_exporter/scheduler.py: how many items of the lane queue can overtake a waiting one.
use mathlib.Core.Path.{subst}
use ise_exporter_v.Base.{
  ℕ, suc, ◌+◌, ◌≤◌, ◌<◌, ◌≡◌, refl, sym, ap, ◌⊎◌, inl, inr, arith, false, ◌||◌, none, some, String,
  List, [], ◌∷◌, ◌++◌, All-In, In, In-append, In-append_right, In-cases, any, if◌then◌else◌,
}
use ise_exporter_v.Base.Int.{ℤ, ltb_ℤ, ◌≤ℤ◌, ◌<ℤ◌}
use ise_exporter_v.Scheduler.Queue.{Item, AgingQueue, is_sentinel, put, get_nowait}
use ise_exporter_v.Scheduler.Queue.Order.{rank, key_lt-rank}
use ise_exporter_v.Scheduler.Queue.Best.{get_nowait-best}

pub data Op : Type 0 where
  enqueue : ℕ → ℤ → ℕ → String → ℕ → Op
  dequeue : ℕ → Op

abbrev pub enqueued : ℕ → ℤ → ℕ → String → ℕ → Item
enqueued now priority sequence name tier = record {
  priority = priority;
  sequence = sequence;
  name = some name;
  tier = tier;
  queued_at = now;
}

-- The items that a sequence of operations takes from the queue.
unfoldable pub serve : List Op → AgingQueue → List Item
serve [] q = []
serve (enqueue now priority sequence name tier ∷ ops) q =
    serve ops (put now priority sequence (some name) tier q)
serve (dequeue now ∷ ops) q = elim (get_nowait now q) [
  | none ↦ serve ops q
  | some (m, q') ↦ m ∷ serve ops q'
]

abbrev pub dequeues : List Op → ℕ
dequeues [] = 0
dequeues (dequeue now ∷ ops) = suc (dequeues ops)
dequeues (enqueue _ _ _ _ _ ∷ ops) = dequeues ops

-- Whatever is queued meanwhile ranks behind `x`.
abbrev pub Behind : Item → List Op → Type 0
Behind x [] = Unit {0}
Behind x (dequeue now ∷ ops) = Behind x ops
Behind x (enqueue now priority sequence name tier ∷ ops) =
    (rank x <ℤ rank (enqueued now priority sequence name tier)) × Behind x ops

-- How many of the waiting items rank no later than `x`, itself included.
abbrev pub ahead : Item → List Item → ℕ
ahead x [] = 0
ahead x (e ∷ es) = if ltb_ℤ (rank x) (rank e) then ahead x es else suc (ahead x es)

ahead-append : (x : Item) (es fs : List Item) → ahead x (es ++ fs) ≡ ahead x es + ahead x fs
ahead-append x [] fs = omega arith
ahead-append x (e ∷ es) fs = ground (arith, ahead-append x es fs)

ahead-pos : (x : Item) (es : List Item) → In x es → 0 < ahead x es
ahead-pos x [] h = absurd h
ahead-pos x (e ∷ es) (inl same) = rw (← same) (ground arith)
ahead-pos x (e ∷ es) (inr h) = ground (arith, ahead-pos x es h)

any-append :
    (es fs : List Item) → any is_sentinel (es ++ fs) ≡ any is_sentinel es || any is_sentinel fs
any-append [] fs = refl
any-append (e ∷ es) fs = ground (arith, any-append es fs)

In-remove : (x m : Item) (es fs : List Item) → In x (es ++ m ∷ fs) → (x ≡ m) ⊎ In x (es ++ fs)
In-remove x m es fs h = elim (In-cases x es (m ∷ fs) h) [
  | inl k ↦ inr (In-append x es fs k)
  | inr (inl e) ↦ inl e
  | inr (inr k) ↦ inr (In-append_right x es fs k)
]

serve-dequeue :
    (now : ℕ) (ops : List Op) (q : AgingQueue) (m : Item) (q' : AgingQueue)
    → get_nowait now q ≡ some (m, q')
    → serve (dequeue now ∷ ops) q ≡ m ∷ serve ops q'
unfolding serve
serve-dequeue now ops q m q' e = ground arith

-- An item that waits, with no sentinel in the queue, is taken within as many dequeues as items wait
-- that rank no later than it, itself included, if every item queued meanwhile ranks behind it. The
-- rank is the queueing time plus 900 seconds for each priority level.
pub In-serve :
    (x : Item) (ops : List Op) (q : AgingQueue)
    → In x q.items
    → any is_sentinel q.items ≡ false
    → Behind x ops
    → ahead x q.items ≤ dequeues ops
    → In x (serve ops q)
unfolding serve
In-serve x [] q h s b n = absurd (omega (arith, ahead-pos x q.items h))
In-serve x (enqueue now priority sequence name tier ∷ ops) q h s b n =
    let e : Item = enqueued now priority sequence name tier in
    In-serve x ops (put now priority sequence (some name) tier q)
      (unfold put in In-append x q.items (e ∷ []) h)
      (unfold put in ground (arith, any-append q.items (e ∷ []))) b.1
      (unfold put in ground (arith, ahead-append x q.items (e ∷ [])))
In-serve x (dequeue now ∷ ops) q h s b n =
    let (m, es, fs, split, taken, least) = get_nowait-best now q (λ empty. rw empty at h) s in
    let first : rank m ≤ℤ rank x = key_lt-rank now x m (All-In _ x q.items least h) in
    subst (In x) (sym (serve-dequeue now ops q m (record q { items = es ++ fs }) taken))
      (elim (In-remove x m es fs (rw split at h)) [
        | inl same ↦ inl same
        | inr later ↦ inr (
            In-serve x ops (record q { items = es ++ fs }) later
              (ground (arith, any-append es (m ∷ fs), any-append es fs, ap (any is_sentinel) split))
              b
              (ground
                (arith, ahead-append x es (m ∷ fs), ahead-append x es fs, ap (ahead x) split)))
      ])
