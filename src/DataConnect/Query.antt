-- ===== src/DataConnect/Query.antt =====
-- ise_exporter/clients/dataconnect.py: _query outside a batch, with its two attempts.
use ise_exporter_v.Base.{ℕ, ◌+◌, List, [], Bool, false, not, Option, none, some, ltb, if◌then◌else◌}
use ise_exporter_v.DataConnect.Pacing.{Settings, cooldown_after}
use ise_exporter_v.DataConnect.Gate.{
  Content, Turn, Gate, busy, unavailable, held, shared_gate, close_gate,
}
use ise_exporter_v.DataConnect.Connect.{
  Link, Fault, Attempt, connected, refused, own, connect, close,
}
use ise_exporter_v.DataConnect.Rows.{Kept, fetch_rows}

-- What the execution of the statement gives: rows with their sizes, or an exception.
pub data Execution (Row : Type 0) : Type 0 where
  fetched : List (Row × ℕ) → Execution Row
  broken : Fault → Execution Row

pub record Try (Row : Type 0) : Type 0 where
  pub attempt : Attempt
  pub execution : Execution Row

pub data Tried (Row : Type 0) : Type 0 where
  answered : List Row → ℕ → Tried Row
  failed : Fault → Tried Row

pub data Reply (Row : Type 0) : Type 0 where
  not_started : Reply Row
  rows : List Row → Reply Row
  raised : Reply Row

-- One call of query. `mono` is the monotonic clock at the local check, `local_wait_ends` is false where
-- a shutdown ends the wait there. The gate's turn follows; where the gate fails, `gate_finished` is the
-- monotonic clock and `gate_duration` the time spent. Then the two tries, the duration of the work,
-- the clocks at the end, and whether the release can be written.
pub record Ask (Row : Type 0) : Type 0 where
  pub wait_for_pacing : Bool
  pub adaptive_duty : Bool
  pub mono : ℕ
  pub local_wait_ends : Bool
  pub turn : Turn
  pub gate_finished : ℕ
  pub gate_duration : ℕ
  pub first : Try Row
  pub second : Try Row
  pub duration : ℕ
  pub finished : ℕ
  pub released : ℕ
  pub release_works : Bool

pub record Client : Type 0 where
  pub link : Link
  pub next_query_at : ℕ

-- Outside a batch.
abbrev pub alone : Kept
alone = record { batch_active = false; batch_rows = 0; batch_bytes = 0 }

module _ {Row : Type 0} where
  unfoldable pub execute : Kept → Execution Row → Tried Row
  unfolding fetch_rows
  execute k (broken f) = failed f
  execute k (fetched rs) = elim (fetch_rows k [] 0 rs) [
    | none ↦ failed own
    | some r ↦ answered r.0 r.1
  ]

  -- The body of the loop over the attempts; on an exception the connection is closed.
  unfoldable pub run_try : Settings → Kept → Try Row → Link → Link × Tried Row
  unfolding connect execute
  run_try s kept t k =
      let (after, linked) = connect s t.attempt k in
      let result = execute kept t.execution in
      elim linked [
        | refused f ↦ (close after, failed f)
        | connected ↦ elim result [
          | answered rs b ↦ (after, answered rs b)
          | failed f ↦ (close after, failed f)
        ]
      ]

  -- for attempt in range(2)
  unfoldable pub run_tries : Settings → Kept → Try Row → Try Row → Link → Link × Tried Row
  unfolding run_try
  run_tries s kept first second k =
      let (after, result) = run_try s kept first k in
      let again = run_try s kept second after in
      elim result [
        | answered rs b ↦ (after, answered rs b)
        | failed f ↦ if f.retryable then again else (after, failed f)
      ]

  -- The work under the gate, and the release of the gate; `lease` is the file meanwhile, `none`
  -- where no file is configured.
  unfoldable pub work :
      Settings
      → Ask Row
      → Option ℕ
      → Option Content
      → Client
      → (Client × Option Content) × Reply Row
  unfolding run_tries cooldown_after close_gate
  work s q preserved lease c =
      let (link, tried) = run_tries s alone q.first q.second c.link in
      let cooldown = cooldown_after s q.adaptive_duty q.duration in
      let after : Client = record { link = link; next_query_at = q.finished + cooldown } in
      let released = close_gate preserved q.release_works (q.released + cooldown) lease in
      let reply : Reply Row = elim tried [ answered rs b ↦ rows rs | failed f ↦ raised ] in
      let unwritten : Bool = elim lease [ none ↦ false | some f ↦ not q.release_works ] in
      ((after, released), if unwritten then raised else reply)

  -- What follows the gate's answer.
  unfoldable pub after_gate :
      Settings → Ask Row → Gate → Content → Client → (Client × Option Content) × Reply Row
  unfolding work cooldown_after
  after_gate s q busy f c = ((c, some f), not_started)
  after_gate s q unavailable f c = (
    (
      record c {
        next_query_at = q.gate_finished + cooldown_after s q.adaptive_duty q.gate_duration;
      },
      some f,
    ),
    raised,
  )
  after_gate s q (held started preserved) f c = work s q preserved (some f) c

  -- _query(sql, parameters, wait_for_pacing, adaptive_duty)
  unfoldable pub query :
      Settings → Ask Row → Option Content → Client → (Client × Option Content) × Reply Row
  unfolding shared_gate after_gate work
  query s q file c =
      let gated : (Client × Option Content) × Reply Row = elim file [
        | none ↦ work s q none none c
        | some f ↦
            let (gate, lease) = shared_gate s q.wait_for_pacing q.adaptive_duty q.turn f in
            after_gate s q gate lease c
      ] in
      if ltb q.mono c.next_query_at
      then (if q.wait_for_pacing
          then (if q.local_wait_ends then gated else ((c, file), raised))
          else ((c, file), not_started))
      else gated
