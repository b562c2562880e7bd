-- ===== src/AuthGuard/Examples.antt =====
-- Runs of the guard, and its theorems at concrete inputs.
use ise_exporter_v.Base.{
  ℕ, zero, suc, [], ◌∷◌, true, false, ◌≡◌, refl, arith, ap, some, none, String,
}
use ise_exporter_v.Base.Int.{pos}
use ise_exporter_v.Base.Float.{finite, seconds}
use ise_exporter_v.AuthGuard.State.{GuardState, clean, blocked, failure}
use ise_exporter_v.AuthGuard.Calls.{check, fail, reset, apply, run, run_file}
use ise_exporter_v.AuthGuard.File.{Codec, ok, raised, invalid_state, max_failures, update, write}
use ise_exporter_v.AuthGuard.Lockout.{failure-blocks, blocked-expires, reset-forgets, failures_at}
use ise_exporter_v.AuthGuard.Persistence.{run_file-refines-run, write-Holds}
use ise_exporter_v.AuthGuard.Overflow.{failure-unreadable}

-- A number printed as so many strokes.
strokes : ℕ → String
strokes zero = ""
strokes (suc n) = String.◌∷◌ "|" (strokes n)

tally : String → ℕ
tally String.[] = 0
tally (String.◌∷◌ c s) = suc (tally s)

tally-strokes : (n : ℕ) → tally (strokes n) ≡ n
unfolding tally strokes
tally-strokes zero = refl
tally-strokes (suc n) = ap suc (tally-strokes n)

tally_codec : Codec
tally_codec = record {
  int = λ s. some (pos (tally s));
  float = λ s. some (finite (pos (tally s)));
  show_int = strokes;
  show_float = strokes;
  line_size = λ _ _ _. 60;
  int-show_int = λ n. ap (λ (m : ℕ). some (pos m)) (tally-strokes n);
  float-show_float = λ t. ap (λ (m : ℕ). some (finite (pos m))) (tally-strokes t);
  line_size_fits = λ _ _ _ _ _. omega arith;
}

two_failures : (run (failures_at 3 900 (seconds 10 ∷ seconds 20 ∷ [])) clean).failures ≡ 2
unfolding run apply
two_failures = refl

failure-blocks_example :
    (blocked (seconds 900) (
      run
        (check (seconds 60) ∷ [])
        (failure 3 900 (seconds 30) (record { failures = 2; deadline = 0 })).0)).1
    ≡ true
failure-blocks_example =
    failure-blocks 3 900 (seconds 30) (seconds 900) (record { failures = 2; deadline = 0 })
      (check (seconds 60) ∷ []) (omega arith) (omega arith) (omega arith) (omega arith)

blocked-expires_example :
    (blocked
      (seconds 90000)
      (blocked (seconds 100) (record { failures = 9; deadline = seconds 99999999 })).0).1
    ≡ false
blocked-expires_example =
    blocked-expires (record { failures = 9; deadline = seconds 99999999 }) (seconds 100)
      (seconds 90000) (omega arith)

reset-forgets_example :
    run (reset ∷ check 5 ∷ []) (run (fail 1 900 3 ∷ []) clean) ≡ run (check 5 ∷ []) clean
reset-forgets_example = reset-forgets (fail 1 900 3 ∷ []) (check 5 ∷ []) clean

run_file-refines-run_example :
    (update tally_codec "abc"
      (blocked (seconds 12))
      (run_file tally_codec "abc" (fail 1 900 (seconds 10) ∷ check (seconds 11) ∷ []) none)).0
    ≡ ok (blocked (seconds 12) (run (fail 1 900 (seconds 10) ∷ check (seconds 11) ∷ []) clean)).1
run_file-refines-run_example =
    run_file-refines-run tally_codec "abc" (fail 1 900 (seconds 10) ∷ check (seconds 11) ∷ [])
      (seconds 12) (omega arith) (omega arith) (omega arith)

failure-unreadable_example :
    let s : GuardState = record { failures = max_failures; deadline = 0 } in
    let file =
      (update tally_codec "abc" (failure 3 900 (seconds 5)) (some (write tally_codec "abc" s))).1 in
    update tally_codec "abc" (blocked (seconds 6)) file ≡ (raised invalid_state, file)
failure-unreadable_example =
    failure-unreadable tally_codec "abc" (blocked (seconds 6)) 3 900 (seconds 5)
      (write tally_codec "abc" (record { failures = max_failures; deadline = 0 }))
      (record { failures = max_failures; deadline = 0 })
      (write-Holds tally_codec "abc" (record { failures = max_failures; deadline = 0 })
        (omega arith))
      refl (omega arith)
