-- ===== src/Rest/Transport.antt =====
-- ise_exporter/clients/rest.py: one request, _request_serialized, with _buffer_response,
-- _record_auth_failure and _record_auth_success, and _get_json above it. What the network does is an
-- argument: the reply of session.get, or the exception that it raises. A result `refused` is the
-- None or the APIRequestFailed with this reason. An error body is only logged and left out.
use ise_exporter_v.Base.{
  ℕ, ◌+◌, ◌*◌, min, max, List, [], ◌∷◌, ◌++◌, Bool, ◌&&◌, Option, none, some, length, ltb, leb,
  ◌==◌, if◌then◌else◌,
}
use ise_exporter_v.Base.Int.{ℤ, pos, pos_part}
use ise_exporter_v.AuthGuard.State.{GuardState, blocked, failure, success}

abbrev pub max_http_response_bytes : ℕ
max_http_response_bytes = 64 * 1024 * 1024

-- The loop over iter_content, with the bytes retained so far.
unfoldable pub retain : List ℕ → List (List ℕ) → Option (List ℕ)
retain retained [] = some retained
retain retained (chunk ∷ chunks) =
    let more = retain (retained ++ chunk) chunks in
    if ltb max_http_response_bytes (length retained + length chunk) then none else more

-- _buffer_response, with the Content-Length where it is a number; `none` is ResponseTooLarge
unfoldable pub buffer_response : Option ℤ → List (List ℕ) → Option (List ℕ)
unfolding retain
buffer_response (some (pos n)) chunks =
    let body = retain [] chunks in if ltb max_http_response_bytes n then none else body
buffer_response _ chunks = retain [] chunks

pub data Reply : Type 0 where
  response : ℕ → Option ℤ → List (List ℕ) → Reply
  timeout : Reply
  ssl_error : Reply
  connection_error : Reply
  http_error : Option ℕ → Reply
  other_error : Reply

pub data Reason : Type 0 where
  shutdown : Reason
  state_unavailable : Reason
  authentication_backoff : Reason
  authentication_failed : Reason
  authorization_failed : Reason
  http_failed : Reason
  response_too_large : Reason
  timed_out : Reason
  tls_failed : Reason
  connection_failed : Reason
  unexpected_error : Reason
  invalid_response : Reason

pub data Result (A : Type 0) : Type 0 where
  done : A → Result A
  refused : Reason → Result A

-- The configuration and the flag propagate_failures.
pub record Transport : Type 0 where
  pub auth_failure_threshold : ℤ
  pub auth_failure_backoff : ℤ
  pub propagate_failures : Bool

abbrev pub threshold : Transport → ℕ
threshold c = max 1 (min 5 (pos_part c.auth_failure_threshold))

abbrev pub backoff : Transport → ℕ
backoff c = max 300 (min 86400 (pos_part c.auth_failure_backoff))

-- The guard as the client sees it, and the number of requests sent so far.
pub record Client : Type 0 where
  pub guard : GuardState
  pub sent : ℕ

-- What happens around one call: the clock at the check and at a failure's record, whether the
-- shutdown event is set, whether each call of the guard succeeds, and the reply.
pub record Exchange : Type 0 where
  pub now : ℕ
  pub failed_at : ℕ
  pub stopping : Bool
  pub check_works : Bool
  pub record_works : Bool
  pub reply : Reply

unfoldable pub record_auth_failure : Transport → Exchange → Client → Client × Option Reason
unfolding failure
record_auth_failure c x k =
    if x.record_works
    then (record k { guard = (failure (threshold c) (backoff c) x.failed_at k.guard).0 }, none)
    else (k, if c.propagate_failures then some state_unavailable else none)

-- The reason for a status outside 200..299.
abbrev pub status_reason : ℕ → Reason
status_reason status =
    if status == 401
    then authentication_failed
    else if status == 403
    then authorization_failed
    else http_failed

unfoldable pub status_failed : Transport → Exchange → ℕ → Client → Client × Result (List ℕ)
unfolding record_auth_failure
status_failed c x status k =
    let (after, raised) = record_auth_failure c x k in
    if status == 401
    then (after, elim raised [ none ↦ refused (status_reason status) | some r ↦ refused r ])
    else (k, refused (status_reason status))

-- What follows session.get.
unfoldable pub handle_reply : Transport → Exchange → Reply → Client → Client × Result (List ℕ)
unfolding status_failed buffer_response
handle_reply c x (response status declared chunks) k =
    let failing = status_failed c x status k in
    let body = buffer_response declared chunks in
    if leb 200 status && ltb status 300
    then (k, elim body [ none ↦ refused response_too_large | some b ↦ done b ])
    else failing
handle_reply c x timeout k = (k, refused timed_out)
handle_reply c x ssl_error k = (k, refused tls_failed)
handle_reply c x connection_error k = (k, refused connection_failed)
handle_reply c x (http_error none) k = (k, refused http_failed)
handle_reply c x (http_error (some status)) k = status_failed c x status k
handle_reply c x other_error k = (k, refused unexpected_error)

-- _request_serialized
unfoldable pub request_serialized : Transport → Exchange → Client → Client × Result (List ℕ)
unfolding blocked handle_reply
request_serialized c x k =
    let (guard, is_blocked) = blocked x.now k.guard in
    let checked : Client = record k { guard = guard } in
    let replied = handle_reply c x x.reply (record checked { sent = k.sent + 1 }) in
    if x.stopping
    then (k, refused shutdown)
    else if x.check_works
    then (if is_blocked then (checked, refused authentication_backoff) else replied)
    else (k, refused state_unavailable)

module _ {Json : Type 0} (parse : List ℕ → Option Json) where
  -- _get_json; `parse` is r.json(), and `success_works` is false where recording the success fails
  unfoldable pub get_json : Transport → Exchange → Bool → Client → Client × Result Json
  unfolding request_serialized success
  get_json c x success_works k =
      let (after, result) = request_serialized c x k in
      elim result [
        | refused r ↦ (after, refused r)
        | done body ↦ elim (parse body) [
          | none ↦ (after, refused invalid_response)
          | some data_ ↦
              if success_works
              then (record after { guard = (success after.guard).0 }, done data_)
              else (after, refused state_unavailable)
        ]
      ]
