-- ===== src/Scheduler/Lane/Allowed.antt =====
-- ise_exporter/scheduler.py: which datasets the Data Connect worker runs.
use ise_exporter_v.Base.{
  ℕ, true, false, Option, none, some, String, eq_iff, ◌≡◌, refl, sym, ap, ◌∙◌, arith, inl, inr,
  Bool-cases,
}
use mathlib.Core.Path.{subst}
use ise_exporter_v.Scheduler.Lane.{
  Lane, Worker, absent, waiting, holding, running, settling, dataset_blocked, receive, receive_at,
  receive_item, take_at, take_item,
}
use ise_exporter_v.Scheduler.Lane.Counts.{flag, has_name, waiting_as, flag_le, get_nowait-Taken}
use ise_exporter_v.Scheduler.Lane.Steps.{at_once}
use ise_exporter_v.Scheduler.Lane.Reachable.{Reachable}
use ise_exporter_v.Scheduler.Lane.Inflight.{Reachable-Consistent}

abbrev running_name : Worker → Option String
running_name (running n) = some n
running_name _ = none

abbrev held_name : Worker → Option String
held_name (holding n) = n
held_name _ = none

running-inj : (m n : String) → running m ≡ running n → m ≡ n
running-inj m n h = let e : some m ≡ some n = ap running_name h in cc

-- What lets the item's dataset run.
abbrev Passes : Option String → String → Lane → Type 0
Passes name n l = (name ≡ some n) × (l.shutdown ≡ false) × (dataset_blocked n l ≡ false)

receive-running :
    (name : Option String) (l : Lane) (n : String)
    → (receive name l).worker ≡ running n
    → Passes name n l
unfolding receive
receive-running none l n h = cc
receive-running (some m) l n h = elim (Bool-cases l.shutdown) [
  | inl s ↦
      let e : (receive (some m) l).worker ≡ settling false = rw (s, receive) refl in
      let k : settling false ≡ running n = sym e ∙ h in cc
  | inr s ↦ elim (Bool-cases (dataset_blocked m l)) [
    | inl b ↦
        let e : (receive (some m) l).worker ≡ settling true = rw (s, b, receive) refl in
        let k : settling true ≡ running n = sym e ∙ h in cc
    | inr b ↦
        let e : (receive (some m) l).worker ≡ running m = rw (s, b, receive) refl in
        let same = running-inj m n (sym e ∙ h) in
        (ap (λ x. some x) same, s, subst (λ x. dataset_blocked x l ≡ false) same b)
  ]
]

-- A worker with an item begins to run.
receive_at-running :
    (w : Worker) (name : Option String) (l : Lane) (n : String)
    → w ≡ holding name
    → (receive_at w l).worker ≡ running n
    → Passes name n l
unfolding receive_at
receive_at-running absent name l n e h = cc
receive_at-running waiting name l n e h = cc
receive_at-running (holding m) name l n e h =
    let same : m ≡ name = ap held_name e in subst (λ x. Passes x n l) same (receive-running m l n h)
receive_at-running (running m) name l n e h = cc
receive_at-running (settling b) name l n e h = cc

-- In every state that the lane reaches: take a dataset that a worker begins to run, at the section under
-- the lock, with an item that it took from the queue of an earlier state. The dataset was queued once
-- when it was taken, and does not wait any more when it begins. At that moment the shutdown is not set,
-- and it is the schema dataset, or the schema has been validated and lists no failure of it. Any steps
-- of the scheduler's thread may lie between the two.
pub take_item-allowed :
    (l k : Lane) (u : ℕ) (n : String)
    → Reachable l
    → Reachable k
    → l.worker ≡ waiting
    → k.worker ≡ (take_item u l).worker
    → (receive_item k).worker ≡ running n
    → (k.shutdown ≡ false)
      × (dataset_blocked n k ≡ false)
      × (waiting_as n l.queue ≡ 1)
      × (waiting_as n k.queue ≡ 0)
unfolding take_at receive_at
take_item-allowed l k u n r r' w e h =
    let c = Reachable-Consistent l r in
    let from_waiting : take_item u l ≡ take_at u waiting l = ap (λ x. take_at u x l) w in
    elim (get_nowait-Taken u l.queue) [
      | inl none_left ↦
          let stays : take_at u waiting l ≡ l = rw (none_left.1, take_at) refl in
          let idle : k.worker ≡ waiting =
            e ∙ ap (λ (x : Lane). x.worker) (from_waiting ∙ stays) ∙ w in
          let unmoved : (receive_at waiting k).worker ≡ running n =
            subst (λ x. (receive_at x k).worker ≡ running n) idle h in
          let clash : waiting ≡ running n = sym idle ∙ unmoved in cc
      | inr (m, q, got, counts, shorter, kept) ↦
          let goes : take_at u waiting l ≡ record l { queue = q; worker = holding m.name } =
            rw (got, take_at) refl in
          let has : k.worker ≡ holding m.name =
            e ∙ ap (λ (x : Lane). x.worker) (from_waiting ∙ goes) in
          let (named, open_, free) = receive_at-running k.worker m.name k n has h in
          let here : flag (has_name n m.name) ≡ 1 = rw (named, (eq_iff n n).1 refl) refl in
          let before = at_once l waiting n w c in
          let after = at_once k (holding m.name) n has (Reachable-Consistent k r') in
          (
            open_,
            free,
            omega (arith, here, counts n, before, flag_le (l.inflight n)),
            omega (arith, here, after, flag_le (k.inflight n)),
          )
    ]
