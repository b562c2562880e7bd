-- ===== src/Scheduler/Queue/Best.antt =====
-- What `_pop_best_locked` takes from the queue.
use ise_exporter_v.Base.{
  ℕ, zero, suc, ◌+◌, ◌≡◌, refl, sym, ap, ◌≢◌, arith, true, false, Option, none, some, List, [], ◌∷◌,
  ◌++◌, All, All-append, All-map, any, length, length-append, get_elem?, get_elem?-append,
  get_elem?-append_length, append_assoc, append-nil, Bool-cases, inl, inr,
}
use ise_exporter_v.Scheduler.Queue.{
  Item, AgingQueue, key_lt, is_sentinel, find_best, pop_at, get_nowait,
}
use ise_exporter_v.Scheduler.Queue.Order.{key_lt_trans, key_lt_irrefl}

-- No entry of the list comes before `m`.
abbrev pub Minimal : ℕ → Item → List Item → Type 0
Minimal now m = All (λ e. key_lt now e m ≡ false)

abbrev pub Unnamed : Item → Type 0
Unnamed e = e.name ≡ none

abbrev Chosen : List Item → ℕ → (Item → Type 0) → Type 0
Chosen items index P = (m : Item) × (get_elem? items index ≡ some m) × P m

find_best-Minimal :
    (now index best_index : ℕ) (b : Item) (before es : List Item)
    → length before ≡ index
    → get_elem? before best_index ≡ some b
    → Minimal now b before
    → any is_sentinel es ≡ false
    → Chosen
        (before ++ es)
        (find_best now index best_index (some b) es)
        (λ m. Minimal now m (before ++ es))
unfolding find_best
find_best-Minimal now index best_index b before [] l g m s = rw append-nil (b, g, m)
find_best-Minimal now index best_index b before (e ∷ es) l g m s =
    elim (Bool-cases (key_lt now e b)) [
      | inl lt ↦
          rw (lt, plain, append_step)
            (find_best-Minimal now (index + 1) index e (before ++ e ∷ []) es
              (omega (arith, length-append before (e ∷ []), l))
              (rw (← l) (get_elem?-append_length before [] e))
              (All-append _ before (e ∷ [])
                (All-map _ _ before (λ a h. key_lt_trans now a b e lt h) m)
                (key_lt_irrefl now e, tt))
              (ground arith))
      | inr ge ↦
          rw (ge, plain, append_step)
            (find_best-Minimal now (index + 1) best_index b (before ++ e ∷ []) es
              (omega (arith, length-append before (e ∷ []), l))
              (get_elem?-append before (e ∷ []) best_index g)
              (All-append _ before (e ∷ []) m (ge, tt)) (ground arith))
    ]
  where
    plain : is_sentinel e ≡ false
    plain = ground arith

    append_step : before ++ e ∷ es ≡ (before ++ e ∷ []) ++ es
    append_step = sym (append_assoc before (e ∷ []) es)

find_best-Unnamed :
    (now index best_index : ℕ) (best : Option Item) (before es : List Item)
    → length before ≡ index
    → any is_sentinel es ≡ true
    → Chosen (before ++ es) (find_best now index best_index best es) Unnamed
unfolding find_best
find_best-Unnamed now index best_index best before [] l s = cc
find_best-Unnamed now index best_index best before (e ∷ es) l s =
    elim (Bool-cases (is_sentinel e)) [
      | inl here ↦ rw here (e, rw (← l) (get_elem?-append_length before es e), ground arith)
      | inr plain ↦
          rw (plain, append_step)
            (find_best-Unnamed now (index + 1) _ _ (before ++ e ∷ []) es
              (omega (arith, length-append before (e ∷ []), l)) (ground arith))
    ]
  where
    append_step : before ++ e ∷ es ≡ (before ++ e ∷ []) ++ es
    append_step = sym (append_assoc before (e ∷ []) es)

-- Popping an index that holds `m` splits the list there.
pop_at_lem :
    (items : List Item) (index : ℕ) (m : Item)
    → get_elem? items index ≡ some m
    → (before : List Item) × (after : List Item) × (items ≡ before ++ m ∷ after)
      × (pop_at index items ≡ some (m, before ++ after))
unfolding pop_at
pop_at_lem [] index m h = cc
pop_at_lem (e ∷ es) zero m h = ([], es, ground arith, ground arith)
pop_at_lem (e ∷ es) (suc index) m h =
    let (before, after, split, popped) = pop_at_lem es index m h in
    (e ∷ before, after, ap (λ (l : List Item). e ∷ l) split, rw popped)

get_nowait-index :
    (now : ℕ) (q : AgingQueue) (P : Item → Type 0)
    → Chosen q.items (find_best now 0 0 none q.items) P
    → (m : Item) × (before : List Item) × (after : List Item) × (q.items ≡ before ++ m ∷ after)
      × (get_nowait now q ≡ some (m, record q { items = before ++ after }))
      × P m
unfolding get_nowait
get_nowait-index now q P (m, found, p) =
    let (before, after, split, popped) =
      pop_at_lem q.items (find_best now 0 0 none q.items) m found in
    (m, before, after, split, rw popped, p)

-- While a shutdown sentinel waits, the next item taken is a sentinel, whatever its priority.
pub get_nowait-sentinel :
    (now : ℕ) (q : AgingQueue)
    → any is_sentinel q.items ≡ true
    → (m : Item) × (before : List Item) × (after : List Item) × (q.items ≡ before ++ m ∷ after)
      × (get_nowait now q ≡ some (m, record q { items = before ++ after }))
      × (m.name ≡ none)
get_nowait-sentinel now q s =
    get_nowait-index now q Unnamed (find_best-Unnamed now 0 0 none [] q.items refl s)

find_best-first :
    (now : ℕ) (items : List Item)
    → items ≢ []
    → any is_sentinel items ≡ false
    → Chosen items (find_best now 0 0 none items) (λ m. Minimal now m items)
unfolding find_best
find_best-first now [] n s = absurd (n refl)
find_best-first now (e ∷ es) n s =
    let plain : is_sentinel e ≡ false = ground arith in
    rw plain
      (find_best-Minimal now 1 0 e (e ∷ []) es refl refl (key_lt_irrefl now e, tt) (ground arith))

-- With no sentinel, a waiting item is always taken: one whose key no other item's key precedes. It
-- alone leaves the queue, and the others keep their order.
pub get_nowait-best :
    (now : ℕ) (q : AgingQueue)
    → q.items ≢ []
    → any is_sentinel q.items ≡ false
    → (m : Item) × (before : List Item) × (after : List Item) × (q.items ≡ before ++ m ∷ after)
      × (get_nowait now q ≡ some (m, record q { items = before ++ after }))
      × Minimal now m q.items
get_nowait-best now q n s =
    get_nowait-index now q (λ m. Minimal now m q.items) (find_best-first now q.items n s)
