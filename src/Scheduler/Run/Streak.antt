-- ===== src/Scheduler/Run/Streak.antt =====
-- Consecutive failures over a sequence of attempts.
use mathlib.Core.Path.{subst}
use ise_exporter_v.Base.{
  ℕ, suc, ◌+◌, ◌≤◌, ◌<◌, max, ◌≡◌, refl, ◌⊎◌, inl, inr, arith, Bool, true, false, ◌&&◌, Option,
  some, List, [], ◌∷◌, String, ap, sym, ◌∙◌, Bool-cases, if◌then◌else◌,
}
use ise_exporter_v.Base.Float.{seconds}
use ise_exporter_v.Scheduler.Deadline.{due}
use ise_exporter_v.Scheduler.Run.{
  Source, rest, dataconnect, mnt, Cadence, Plan, Dataset, Callback, attempt, settle, run,
  failure_retry, max_consecutive_failures,
}

-- The inputs of one call of `_run`.
pub record Event : Type 0 where
  pub now : ℕ
  pub slot : Bool
  pub attempted_at : ℕ
  pub completed : ℕ
  pub callback : Callback

abbrev pub step : Cadence → Plan → Event → Dataset → Dataset
step c p e d = run c p e.now e.slot e.attempted_at e.completed e.callback d

abbrev pub run_all : Cadence → Plan → List Event → Dataset → Dataset
run_all c p [] d = d
run_all c p (e ∷ es) d = run_all c p es (step c p e d)

abbrev attempted : Plan → Event → Dataset → Bool
attempted p e d = due d.next_run d.scheduled_delay e.now (seconds p.interval) && e.slot

-- How many of the calls ran the callback.
abbrev pub attempts : Cadence → Plan → List Event → Dataset → ℕ
attempts c p [] d = 0
attempts c p (e ∷ es) d =
    let more = attempts c p es (step c p e d) in if attempted p e d then suc more else more

-- When the last of those calls that ran the callback completed; `before` where none did.
abbrev pub last_completed : Cadence → Plan → List Event → Dataset → ℕ → ℕ
last_completed c p [] d before = before
last_completed c p (e ∷ es) d before =
    last_completed c p es (step c p e d) (if attempted p e d then e.completed else before)

-- The callback enters one `observe` block that fails, or raises before it enters any.
abbrev pub IsFailing : Callback → Type 0
IsFailing k =
    ((k.observed ≡ false ∷ []) × (k.escapes ≡ false)) ⊎ ((k.observed ≡ []) × (k.escapes ≡ true))

abbrev pub AllFailing : List Event → Type 0
AllFailing [] = Unit {0}
AllFailing (e ∷ es) = IsFailing e.callback × AllFailing es

attempt-IsFailing :
    (attempted_at : ℕ) (callback : Callback) (d : Dataset)
    → IsFailing callback
    → ((attempt attempted_at callback d).outcome ≡ some false)
      × ((attempt attempted_at callback d).failures ≡ d.failures + 1)
unfolding attempt
attempt-IsFailing attempted_at callback d (inl (o, x)) = rw (o, x) (refl, refl)
attempt-IsFailing attempted_at callback d (inr (o, x)) = rw (o, x) (refl, refl)

-- The delay and the deadline that belong to a failure count, after an attempt that completed at a time.
abbrev pub DelayMatches : Cadence → Plan → ℕ → Dataset → Type 0
DelayMatches c p completed d =
    let retry = failure_retry c p.name p.source d.failures p.interval in
    (d.scheduled_delay ≡ some (seconds retry)) × (d.next_run ≡ some (completed + seconds retry))

settle-failed :
    (c : Cadence) (p : Plan) (completed : ℕ) (outcome : Option Bool) (d : Dataset)
    → outcome ≡ some false
    → ((settle c p completed outcome d).failures ≡ d.failures)
      × DelayMatches c p completed (settle c p completed outcome d)
      × ((settle c p completed outcome d).last_success ≡ d.last_success)
unfolding settle
settle-failed c p completed outcome d h = rw h (refl, (refl, refl), refl)

step-attempted :
    (c : Cadence) (p : Plan) (e : Event) (d : Dataset)
    → attempted p e d ≡ true
    → step c p e d
      ≡ settle c p e.completed
          (attempt e.attempted_at e.callback d).outcome
          (attempt e.attempted_at e.callback d)
unfolding run
step-attempted c p e d h = rw h

step-idle :
    (c : Cadence) (p : Plan) (e : Event) (d : Dataset) → attempted p e d ≡ false → step c p e d ≡ d
unfolding run
step-idle c p e d h = rw h

attempt-last_success :
    (attempted_at : ℕ) (callback : Callback) (d : Dataset)
    → IsFailing callback
    → (attempt attempted_at callback d).last_success ≡ d.last_success
unfolding attempt
attempt-last_success attempted_at callback d (inl (o, x)) = rw (o, x)
attempt-last_success attempted_at callback d (inr (o, x)) = rw (o, x)

-- One failing attempt.
abbrev Fails : Cadence → Plan → ℕ → Dataset → Dataset → Type 0
Fails c p completed d t =
    (t.failures ≡ d.failures + 1) × DelayMatches c p completed t × (t.last_success ≡ d.last_success)

step-failing :
    (c : Cadence) (p : Plan) (e : Event) (d : Dataset)
    → attempted p e d ≡ true
    → IsFailing e.callback
    → Fails c p e.completed d (step c p e d)
step-failing c p e d h f =
    let after : Dataset = attempt e.attempted_at e.callback d in
    let (outcome, grown) = attempt-IsFailing e.attempted_at e.callback d f in
    let (kept, delay, success) = settle-failed c p e.completed after.outcome after outcome in
    rw (step-attempted c p e d h)
      (kept ∙ grown, delay, success ∙ attempt-last_success e.attempted_at e.callback d f)

still_due :
    (c : Cadence) (p : Plan) (e : Event) (es : List Event) (d : Dataset) (before : ℕ)
    → attempted p e d ≡ false
    → DelayMatches c p before d ⊎ (0 < attempts c p (e ∷ es) d)
    → DelayMatches c p before (step c p e d) ⊎ (0 < attempts c p es (step c p e d))
still_due c p e es d before idle (inl m) =
    inl (subst (DelayMatches c p before) (sym (step-idle c p e d idle)) m)
still_due c p e es d before idle (inr n) = inr (ground (arith, idle, n))

run_all-failing :
    (c : Cadence) (p : Plan) (es : List Event) (d : Dataset) (before : ℕ)
    → AllFailing es
    → DelayMatches c p before d ⊎ (0 < attempts c p es d)
    → ((run_all c p es d).failures ≡ d.failures + attempts c p es d)
      × DelayMatches c p (last_completed c p es d before) (run_all c p es d)
      × ((run_all c p es d).last_success ≡ d.last_success)
run_all-failing c p [] d before f (inl m) = (omega arith, m, refl)
run_all-failing c p [] d before f (inr n) = absurd (omega arith)
run_all-failing c p (e ∷ es) d before f m =
    let d' : Dataset = step c p e d in
    elim (Bool-cases (attempted p e d)) [
      | inl ran ↦
          (let (grown, delay, success) = step-failing c p e d ran f.0 in
            let (count, matches, kept) = run_all-failing c p es d' e.completed f.1 (inl delay) in
            (ground (arith, count, grown, ran), rw ran matches, kept ∙ success))
      | inr idle ↦
          (let same = step-idle c p e d idle in
            let (count, matches, kept) =
              run_all-failing c p es d' before f.1 (still_due c p e es d before idle m) in
            (
              ground (arith, count, ap (λ (t : Dataset). t.failures) same, idle),
              rw idle matches,
              kept ∙ ap (λ (t : Dataset). t.last_success) same,
            ))
    ]

abbrev pub slow_delay_of : Source → Cadence → ℕ → ℕ
slow_delay_of dataconnect c interval = max c.slow_interval interval
slow_delay_of _ c interval = max interval c.auth_failure_backoff

abbrev pub slow_delay : Cadence → Plan → ℕ
slow_delay c p = slow_delay_of p.source c p.interval

failure_retry-slow :
    (c : Cadence) (name : String) (source : Source) (f interval : ℕ)
    → max_consecutive_failures ≤ f
    → failure_retry c name source f interval ≡ slow_delay_of source c interval
unfolding failure_retry
failure_retry-slow c name dataconnect f interval h = ground arith
failure_retry-slow c name rest f interval h = ground arith
failure_retry-slow c name mnt f interval h = ground arith

-- After five or more attempts that all failed, however the due tests spaced them, a dataset has a slow
-- delay, and its next deadline lies that delay after the end of the last attempt: for a Data Connect
-- dataset the slow interval or its own, whichever is longer, for any other its own or the
-- authentication back-off. Its last success is the one before the failures.
pub slowdown :
    (c : Cadence) (p : Plan) (es : List Event) (d : Dataset)
    → AllFailing es
    → max_consecutive_failures ≤ attempts c p es d
    → let after = run_all c p es d in
      (after.next_run ≡ some (last_completed c p es d 0 + seconds (slow_delay c p)))
      × (after.scheduled_delay ≡ some (seconds (slow_delay c p)))
      × (after.last_success ≡ d.last_success)
slowdown c p es d f n =
    let (count, (delay, next), kept) = run_all-failing c p es d 0 f (inr (omega arith)) in
    let slow = failure_retry-slow c p.name p.source _ p.interval (omega (arith, count)) in
    (
      next ∙ ap (λ (k : ℕ). some (last_completed c p es d 0 + seconds k)) slow,
      delay ∙ ap (λ (k : ℕ). some (seconds k)) slow,
      kept,
    )
