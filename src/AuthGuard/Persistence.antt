-- ===== src/AuthGuard/Persistence.antt =====
-- ise_exporter/auth_guard.py: the guard file over sequences of calls, of one process or several.
use ise_exporter_v.Base.{
  ℕ, ◌+◌, ◌≤◌, ◌<◌, List, [], ◌∷◌, true, ◌≡◌, refl, arith, length, eq_iff, Option, none, some,
  String, Bool-cases, inl, inr, ◌==◌, ◌&&◌,
}
use ise_exporter_v.Base.Float.{seconds}
use ise_exporter_v.AuthGuard.State.{
  GuardState, clean, failure, blocked, success, max_auth_backoff_seconds,
}
use ise_exporter_v.AuthGuard.Calls.{Call, check, fail, reset, apply, run, apply_file, run_file}
use ise_exporter_v.AuthGuard.File.{
  Codec, GuardFile, ok, max_guard_bytes, max_failures, max_time, read, update, write, store,
  open_guard,
}

abbrev pub InRange : GuardState → Type 0
InRange s = (s.failures ≤ max_failures) × (s.deadline ≤ max_time)

module _ (codec : Codec) (identity : String) where
  -- The file stands for the state `s`.
  abbrev pub Holds : Option GuardFile → GuardState → Type 0
  Holds none s = s ≡ clean
  Holds (some f) s =
      (f.regular ≡ true) × (f.size ≤ max_guard_bytes) × (read codec identity f ≡ ok s)

  read-write :
      (s : GuardState)
      → s.failures ≤ max_failures
      → read codec identity (write codec identity s) ≡ ok s
  unfolding read write
  read-write s h = ground (
    arith,
    eq_iff "v1" "v1",
    eq_iff identity identity,
    codec.int-show_int s.failures,
    codec.float-show_float s.deadline,
  )

  same_state_eq :
      (s t : GuardState) → (s.failures == t.failures && s.deadline == t.deadline) ≡ true → s ≡ t
  same_state_eq s t h = ground arith

  pub write-Holds : (s : GuardState) → InRange s → Holds (some (write codec identity s)) s
  write-Holds s r = (
    unfold write in refl,
    unfold write in codec.line_size_fits identity s.failures s.deadline (omega arith) r.1,
    read-write s r.0,
  )

  store-Holds {ℓ} :
      {R : Type ℓ} (f : GuardFile) (s : GuardState) (answer : GuardState × R)
      → Holds (some f) s
      → InRange answer.0
      → ((store codec identity f s answer).0 ≡ ok answer.1)
        × Holds (some (store codec identity f s answer).1) answer.0
  unfolding store
  store-Holds f s (t, x) h r =
      elim (Bool-cases (t.failures == s.failures && t.deadline == s.deadline)) [
        | inl same ↦ rw (same, same_state_eq t s same) (refl, h)
        | inr other ↦ rw other (refl, write-Holds t r)
      ]

  open-Holds :
      (f : GuardFile) (s : GuardState)
      → Holds (some f) s
      → open_guard codec identity (some f) ≡ ok f
  unfolding open_guard
  open-Holds f s h = ground arith

  -- One call through the file: the answer is the callback's, and the file holds its new state.
  pub update-Holds {ℓ} :
      {R : Type ℓ} (callback : GuardState → GuardState × R) (file : Option GuardFile)
      (s : GuardState)
      → Holds file s
      → InRange (callback s).0
      → ((update codec identity callback file).0 ≡ ok (callback s).1)
        × Holds (update codec identity callback file).1 (callback s).0
  unfolding update
  update-Holds callback none s h r = rw h (
      store-Holds (record { regular = true; size = 0; fields = some [] }) clean (callback clean)
        (refl, omega arith, unfold read in refl) (rw h at r))
  update-Holds callback (some f) s h r =
      rw (open-Holds f s h, h.2) (store-Holds f s (callback s) h r)

-- The call's time leaves room for a whole back-off below `max_time`.
abbrev pub EarlyCall : Call → Type 0
EarlyCall (check now) = now + seconds max_auth_backoff_seconds ≤ max_time
EarlyCall (fail threshold backoff now) = now + seconds max_auth_backoff_seconds ≤ max_time
EarlyCall reset = Unit {0}

abbrev pub EarlyCalls : List Call → Type 0
EarlyCalls [] = Unit {0}
EarlyCalls (c ∷ cs) = EarlyCall c × EarlyCalls cs

apply-InRange :
    (c : Call) (s : GuardState)
    → EarlyCall c
    → s.failures < max_failures
    → s.deadline ≤ max_time
    → InRange (apply c s) × ((apply c s).failures ≤ s.failures + 1)
unfolding apply
apply-InRange (check now) s e f d = ground arith
apply-InRange (fail threshold backoff now) s e f d = ground arith
apply-InRange reset s e f d = omega arith

run-failures : (cs : List Call) (s : GuardState) → (run cs s).failures ≤ s.failures + length cs
unfolding run apply
run-failures [] s = omega arith
run-failures (check now ∷ cs) s = ground (arith, run-failures cs (apply (check now) s))
run-failures (fail threshold backoff now ∷ cs) s =
    ground (arith, run-failures cs (apply (fail threshold backoff now) s))
run-failures (reset ∷ cs) s = ground (arith, run-failures cs clean)

apply-deadline :
    (c : Call) (s : GuardState)
    → EarlyCall c
    → s.deadline ≤ max_time
    → (apply c s).deadline ≤ max_time
unfolding apply
apply-deadline (check now) s e d = ground arith
apply-deadline (fail threshold backoff now) s e d = ground arith
apply-deadline reset s e d = omega arith

run-deadline :
    (cs : List Call) (s : GuardState)
    → EarlyCalls cs
    → s.deadline ≤ max_time
    → (run cs s).deadline ≤ max_time
unfolding run
run-deadline [] s e d = d
run-deadline (c ∷ cs) s e d = run-deadline cs (apply c s) e.1 (apply-deadline c s e.0 d)

module _ (codec : Codec) (identity : String) where
  apply_file-Holds :
      (c : Call) (file : Option GuardFile) (s : GuardState)
      → Holds codec identity file s
      → InRange (apply c s)
      → Holds codec identity (apply_file codec identity c file) (apply c s)
  unfolding apply_file apply
  apply_file-Holds (check now) file s h r = (update-Holds codec identity (blocked now) file s h r).1
  apply_file-Holds (fail threshold backoff now) file s h r =
      (update-Holds codec identity (failure threshold backoff now) file s h r).1
  apply_file-Holds reset file s h r = (update-Holds codec identity success file s h r).1

  run_file-Holds :
      (cs : List Call) (file : Option GuardFile) (s : GuardState)
      → Holds codec identity file s
      → EarlyCalls cs
      → s.failures + length cs ≤ max_failures
      → s.deadline ≤ max_time
      → Holds codec identity (run_file codec identity cs file) (run cs s)
  unfolding run_file run
  run_file-Holds [] file s h e f d = h
  run_file-Holds (c ∷ cs) file s h e f d =
      let (r, grows) = apply-InRange c s e.0 (omega arith) d in
      run_file-Holds cs (apply_file codec identity c file) (apply c s)
        (apply_file-Holds c file s h r) e.1 (omega arith) r.1

  -- Starting with no file, and for at most a million calls, a check through the guard file answers
  -- what the same calls give in memory: nothing is lost between processes.
  pub run_file-refines-run :
      (cs : List Call) (now : ℕ)
      → EarlyCalls cs
      → now + seconds max_auth_backoff_seconds ≤ max_time
      → length cs < max_failures
      → (update codec identity (blocked now) (run_file codec identity cs none)).0
        ≡ ok (blocked now (run cs clean)).1
  run_file-refines-run cs now e t n =
      (update-Holds codec identity (blocked now) (run_file codec identity cs none) (run cs clean)
        (run_file-Holds cs none clean refl e (omega arith) (omega arith))
        (unfold apply in
          (apply-InRange (check now) (run cs clean) t (omega (arith, run-failures cs clean))
            (run-deadline cs clean e (omega arith))).0)).0
