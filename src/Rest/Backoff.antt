-- ===== src/Rest/Backoff.antt =====
-- ise_exporter/clients/rest.py: the authentication guard around the requests.
use ise_exporter_v.Base.{
  ℕ, ◌+◌, ◌≤◌, ◌<◌, List, [], ◌∷◌, Bool, true, false, Option, ◌≡◌, refl, ap, ◌∙◌, arith, Bool-cases,
  inl, inr, All,
}
use ise_exporter_v.Base.Int.{ℤ}
use ise_exporter_v.Base.Float.{seconds}
use ise_exporter_v.AuthGuard.State.{max_auth_backoff_seconds, blocked, failure}
use ise_exporter_v.Rest.Transport.{
  Transport, threshold, backoff, Client, Exchange, response, refused, Reason, shutdown,
  state_unavailable, authentication_backoff, authentication_failed, handle_reply, status_failed,
  record_auth_failure, request_serialized, get_json,
}

-- The client after a sequence of calls of _get_json.
abbrev pub get_all :
    {Json : Type 0} → (List ℕ → Option Json) → Transport → List (Exchange × Bool) → Client → Client
get_all parse c [] k = k
get_all parse c (x ∷ xs) k = get_all parse c xs (get_json parse c x.0 x.1 k).0

get_json-refused :
    {Json : Type 0} (parse : List ℕ → Option Json) (c : Transport) (x : Exchange) (works : Bool)
    (k after : Client) (r : Reason)
    → request_serialized c x k ≡ (after, refused r)
    → (get_json parse c x works k).0 ≡ after
unfolding get_json
get_json-refused parse c x works k after r e = rw (e, get_json) (ap (λ p. p.0) e)

-- While a deadline lies ahead, a check that is less than a day before it sends nothing and keeps it.
blocked_request :
    {Json : Type 0} (parse : List ℕ → Option Json) (c : Transport) (x : Exchange) (works : Bool)
    (k : Client) (until : ℕ)
    → until ≤ k.guard.deadline
    → x.now < until
    → until ≤ x.now + seconds max_auth_backoff_seconds
    → let after = (get_json parse c x works k).0 in
      (after.sent ≡ k.sent) × (until ≤ after.guard.deadline)
unfolding request_serialized blocked
blocked_request parse c x works k until h lt le = elim (Bool-cases x.stopping) [
  | inl s ↦
      let r = get_json-refused parse c x works k k shutdown (rw (s, request_serialized) refl) in
      rw r (refl, h)
  | inr s ↦ elim (Bool-cases x.check_works) [
    | inr w ↦
        let r =
          get_json-refused parse c x works k k state_unavailable
            (rw (s, w, request_serialized) refl) in
        rw r (refl, h)
    | inl w ↦
        let b : (blocked x.now k.guard).1 ≡ true = ground (arith, h, lt, le) in
        let kept : until ≤ (blocked x.now k.guard).0.deadline = omega (arith, h, lt, le) in
        let r =
          get_json-refused parse c x works k (record k { guard = (blocked x.now k.guard).0 })
            authentication_backoff (rw (s, w, b, request_serialized) refl) in
        rw r (refl, kept)
  ]
]

blocked_requests :
    {Json : Type 0} (parse : List ℕ → Option Json) (c : Transport) (xs : List (Exchange × Bool))
    (k : Client) (until : ℕ)
    → until ≤ k.guard.deadline
    → All (λ x. (x.0.now < until) × (until ≤ x.0.now + seconds max_auth_backoff_seconds)) xs
    → (get_all parse c xs k).sent ≡ k.sent
blocked_requests parse c [] k until h a = refl
blocked_requests parse c (x ∷ xs) k until h a =
    let (same, ahead) = blocked_request parse c x.0 x.1 k until h a.0.0 a.0.1 in
    blocked_requests parse c xs (get_json parse c x.0 x.1 k).0 until ahead a.1 ∙ same

-- What a recorded 401 leaves.
abbrev rejected : Transport → Exchange → Client → Client
rejected c x k = record k {
  guard = (failure (threshold c) (backoff c) x.failed_at (blocked x.now k.guard).0).0;
  sent = k.sent + 1;
}

request-rejected :
    (c : Transport) (x : Exchange) (declared : Option ℤ) (chunks : List (List ℕ)) (k : Client)
    → x.reply ≡ response 401 declared chunks
    → x.stopping ≡ false
    → x.check_works ≡ true
    → x.record_works ≡ true
    → k.guard.deadline ≤ x.now
    → request_serialized c x k ≡ (rejected c x k, refused authentication_failed)
unfolding request_serialized handle_reply status_failed record_auth_failure blocked
request-rejected c x declared chunks k reply going checks records open_ =
    let b : (blocked x.now k.guard).1 ≡ false = ground (arith, open_) in
    rw
      (
        going, checks, b, reply, records, request_serialized, handle_reply, status_failed,
        record_auth_failure,
      )
      refl

rejected-deadline :
    (c : Transport) (x : Exchange) (k : Client)
    → threshold c ≤ k.guard.failures + 1
    → x.failed_at + seconds (backoff c) ≤ (rejected c x k).guard.deadline
unfolding failure blocked
rejected-deadline c x k reached = ground arith

-- After a 401 that brings the count to the configured threshold and that the guard records, no call
-- sends a request until the back-off has passed since that answer, whatever the later calls ask for
-- and whatever becomes of the guard's later writes. Each later check is made before that time
-- and not more than a day before it.
pub rejected-silent :
    {Json : Type 0} (parse : List ℕ → Option Json) (c : Transport) (x : Exchange)
    (declared : Option ℤ) (chunks : List (List ℕ)) (works : Bool) (xs : List (Exchange × Bool))
    (k : Client)
    → x.reply ≡ response 401 declared chunks
    → x.stopping ≡ false
    → x.check_works ≡ true
    → x.record_works ≡ true
    → k.guard.deadline ≤ x.now
    → threshold c ≤ k.guard.failures + 1
    → All
        (λ y.
          (y.0.now < x.failed_at + seconds (backoff c))
          × (x.failed_at + seconds (backoff c) ≤ y.0.now + seconds max_auth_backoff_seconds))
        xs
    → let after = (get_json parse c x works k).0 in
      (after.sent ≡ k.sent + 1) × ((get_all parse c xs after).sent ≡ after.sent)
rejected-silent parse c x declared chunks works xs k reply going checks records open_ reached
      later =
    let r =
      get_json-refused parse c x works k (rejected c x k) authentication_failed
        (request-rejected c x declared chunks k reply going checks records open_) in
    rw r (
      refl,
      blocked_requests parse c xs (rejected c x k) (x.failed_at + seconds (backoff c))
          (rejected-deadline c x k reached) later,
    )
