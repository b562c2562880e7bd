-- ===== src/AuthGuard/Lockout.antt =====
-- When the guard blocks, for how long, and what ends it.
use ise_exporter_v.Base.{
  ℕ, ◌+◌, ◌≤◌, ◌<◌, min, List, [], ◌∷◌, true, false, ◌≡◌, refl, arith, length,
}
use ise_exporter_v.Base.Float.{seconds}
use ise_exporter_v.AuthGuard.State.{GuardState, clean, max_auth_backoff_seconds, blocked, failure}
use ise_exporter_v.AuthGuard.Calls.{Call, check, fail, reset, apply, run}

-- A call that is made at `t` or later and is no success.
abbrev pub KeepsBlock : ℕ → Call → Type 0
KeepsBlock t (check now) = t ≤ now
KeepsBlock t (fail threshold backoff now) = t ≤ now
KeepsBlock t reset = ⊥

abbrev pub KeepBlock : ℕ → List Call → Type 0
KeepBlock t [] = Unit {0}
KeepBlock t (c ∷ cs) = KeepsBlock t c × KeepBlock t cs

apply-deadline :
    (t d : ℕ) (c : Call) (s : GuardState)
    → d ≤ t + seconds max_auth_backoff_seconds
    → KeepsBlock t c
    → d ≤ s.deadline
    → d ≤ (apply c s).deadline
unfolding apply
apply-deadline t d (check now) s b k h = ground arith
apply-deadline t d (fail threshold backoff now) s b k h = ground arith
apply-deadline t d reset s b k h = absurd k

run-deadline :
    (t d : ℕ) (cs : List Call) (s : GuardState)
    → d ≤ t + seconds max_auth_backoff_seconds
    → KeepBlock t cs
    → d ≤ s.deadline
    → d ≤ (run cs s).deadline
unfolding run
run-deadline t d [] s b k h = h
run-deadline t d (c ∷ cs) s b k h =
    run-deadline t d cs (apply c s) b k.1 (apply-deadline t d c s b k.0 h)

failure-deadline :
    (threshold backoff t : ℕ) (s : GuardState)
    → threshold ≤ s.failures + 1
    → 0 < backoff
    → t + seconds (min backoff max_auth_backoff_seconds)
      ≤ (failure threshold backoff t s).0.deadline
unfolding failure
failure-deadline threshold backoff t s h p = ground arith

blocked-deadline : (now : ℕ) (s : GuardState) → now < s.deadline → (blocked now s).1 ≡ true
unfolding blocked
blocked-deadline now s h = ground arith

-- Once the failures reach the threshold and a back-off is configured, the guard blocks until the
-- back-off (at most a day) has passed since that failure: no later check or failure shortens it.
pub failure-blocks :
    (threshold backoff t now : ℕ) (s : GuardState) (cs : List Call)
    → threshold ≤ s.failures + 1
    → 0 < backoff
    → KeepBlock t cs
    → now < t + seconds (min backoff max_auth_backoff_seconds)
    → (blocked now (run cs (failure threshold backoff t s).0)).1 ≡ true
failure-blocks threshold backoff t now s cs h p k lt =
    let s' = (failure threshold backoff t s).0 in
    blocked-deadline now (run cs s') (
      omega (
        arith,
        run-deadline t (t + seconds (min backoff max_auth_backoff_seconds)) cs s' (omega arith) k
            (failure-deadline threshold backoff t s h p),
      ))

-- Whatever state the guard is in, a deadline beyond a day included, a check at `now` leaves a state
-- that no longer blocks a day later.
pub blocked-expires :
    (s : GuardState) (now later : ℕ)
    → now + seconds max_auth_backoff_seconds ≤ later
    → (blocked later (blocked now s).0).1 ≡ false
unfolding blocked
blocked-expires s now later h = ground arith

abbrev pub failures_at : ℕ → ℕ → List ℕ → List Call
failures_at threshold backoff [] = []
failures_at threshold backoff (t ∷ ts) = fail threshold backoff t ∷ failures_at threshold backoff ts

run-failures_at :
    (threshold backoff : ℕ) (ts : List ℕ) (s : GuardState)
    → s.deadline ≡ 0
    → s.failures + length ts < threshold
    → run (failures_at threshold backoff ts) s
      ≡ record { failures = s.failures + length ts; deadline = 0 }
unfolding run apply
run-failures_at threshold backoff [] s h lt = ground arith
run-failures_at threshold backoff (t ∷ ts) s h lt =
    ground (arith, run-failures_at threshold backoff ts (apply (fail threshold backoff t) s))

-- Fewer failures than the threshold since the last success are counted and block nothing, whenever
-- they happen; the failure that reaches the threshold blocks at once.
pub threshold_exact :
    (threshold backoff t now : ℕ) (ts : List ℕ)
    → length ts + 1 ≡ threshold
    → 0 < backoff
    → let s = run (failures_at threshold backoff ts) clean in
      (s.failures ≡ length ts)
      × ((blocked now s).1 ≡ false)
      × ((blocked t (failure threshold backoff t s).0).1 ≡ true)
unfolding blocked failure
threshold_exact threshold backoff t now ts e p =
    ground (arith, run-failures_at threshold backoff ts clean)

-- A success forgets every earlier call: what the guard does next is what a new guard does.
pub reset-forgets :
    (before after : List Call) (s : GuardState)
    → run (reset ∷ after) (run before s) ≡ run after clean
unfolding run apply
reset-forgets before after s = refl
