-- ===== src/AuthGuard/Overflow.antt =====
-- What the guard does at the bound that `_read` puts on the failure count.
use ise_exporter_v.Base.{ℕ, suc, ◌+◌, ◌≤◌, ◌≡◌, arith, eq_iff, some, String}
use ise_exporter_v.Base.Float.{seconds}
use ise_exporter_v.AuthGuard.State.{GuardState, failure, max_auth_backoff_seconds}
use ise_exporter_v.AuthGuard.File.{
  Codec, GuardFile, ok, raised, invalid_state, max_failures, max_time, read, update, write,
  open_guard,
}
use ise_exporter_v.AuthGuard.Persistence.{Holds}

failure-state :
    (threshold backoff now : ℕ) (s : GuardState)
    → now + seconds max_auth_backoff_seconds ≤ max_time
    → s.failures ≡ max_failures
    → ((failure threshold backoff now s).0.failures ≡ suc max_failures)
      × ((failure threshold backoff now s).0.deadline ≤ max_time)
unfolding failure
failure-state threshold backoff now s e f = ground arith

module _ (codec : Codec) (identity : String) where
  read-write-overflow :
      (s : GuardState)
      → s.failures ≡ suc max_failures
      → read codec identity (write codec identity s) ≡ raised invalid_state
  unfolding read write
  read-write-overflow s h = ground (
    arith,
    eq_iff "v1" "v1",
    eq_iff identity identity,
    codec.int-show_int s.failures,
    codec.float-show_float s.deadline,
  )

  open-write-overflow :
      (s : GuardState)
      → s.failures ≡ suc max_failures
      → s.deadline ≤ max_time
      → open_guard codec identity (some (write codec identity s)) ≡ ok (write codec identity s)
  unfolding open_guard write
  open-write-overflow s h d = ground (arith, codec.line_size_fits identity s.failures s.deadline)

  update-failure-overflow :
      (threshold backoff now : ℕ) (f : GuardFile) (s : GuardState)
      → Holds codec identity (some f) s
      → s.failures ≡ max_failures
      → (update codec identity (failure threshold backoff now) (some f)).1
        ≡ some (write codec identity (failure threshold backoff now s).0)
  unfolding update failure
  update-failure-overflow threshold backoff now f s h e = ground (arith, h.0, h.1, h.2)

  -- The failure after the millionth is written to the file, and from then on every call on that file
  -- raises and leaves the file as it is: the guard stays unavailable until the file is removed.
  pub failure-unreadable {ℓ} :
      {R : Type ℓ} (callback : GuardState → GuardState × R) (threshold backoff now : ℕ)
      (f : GuardFile) (s : GuardState)
      → Holds codec identity (some f) s
      → s.failures ≡ max_failures
      → now + seconds max_auth_backoff_seconds ≤ max_time
      → let file = (update codec identity (failure threshold backoff now) (some f)).1 in
        update codec identity callback file ≡ (raised invalid_state, file)
  failure-unreadable callback threshold backoff now f s h e t =
      let s' = (failure threshold backoff now s).0 in
      let next = failure-state threshold backoff now s t e in
      rw (update-failure-overflow threshold backoff now f s h e)
        (unfold update in rw (open-write-overflow s' next.0 next.1, read-write-overflow s' next.0))
