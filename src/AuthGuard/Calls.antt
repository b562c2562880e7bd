-- ===== src/AuthGuard/Calls.antt =====
-- Sequences of calls of the guard, as the transports make them.
use ise_exporter_v.Base.{ℕ, List, [], ◌∷◌, String, Option}
use ise_exporter_v.AuthGuard.File.{Codec, GuardFile, update}
use ise_exporter_v.AuthGuard.State.{GuardState, blocked, failure, success}

pub data Call : Type 0 where
  check : ℕ → Call
  fail : ℕ → ℕ → ℕ → Call
  reset : Call

unfoldable pub apply : Call → GuardState → GuardState
unfolding blocked failure success
apply (check now) s = (blocked now s).0
apply (fail threshold backoff now) s = (failure threshold backoff now s).0
apply reset s = (success s).0

unfoldable pub run : List Call → GuardState → GuardState
run [] s = s
run (c ∷ cs) s = run cs (apply c s)

-- The same calls made through the guard file.
module _ (codec : Codec) (identity : String) where
  unfoldable pub apply_file : Call → Option GuardFile → Option GuardFile
  unfolding blocked failure success
  apply_file (check now) file = (update codec identity (blocked now) file).1
  apply_file (fail threshold backoff now) file =
      (update codec identity (failure threshold backoff now) file).1
  apply_file reset file = (update codec identity success file).1

  unfoldable pub run_file : List Call → Option GuardFile → Option GuardFile
  unfolding apply_file
  run_file [] file = file
  run_file (c ∷ cs) file = run_file cs (apply_file c file)
