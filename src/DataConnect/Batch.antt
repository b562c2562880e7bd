-- ===== src/DataConnect/Batch.antt =====
-- ise_exporter/clients/dataconnect.py: query_many, a batch of statements under one gate. The nested
-- batch that it refuses is left out: no statement of a batch starts one.
use ise_exporter_v.Base.{
  ℕ, ◌+◌, List, [], ◌∷◌, Bool, true, false, not, Option, none, some, length, ltb, ◌||◌,
  if◌then◌else◌,
}
use ise_exporter_v.DataConnect.Pacing.{Settings, max_batch_queries, cooldown_after, crash_cooldown}
use ise_exporter_v.DataConnect.Gate.{
  Content, deadline, Turn, Gate, busy, unavailable, held, shared_gate, close_gate,
}
use ise_exporter_v.DataConnect.Connect.{Link}
use ise_exporter_v.DataConnect.Rows.{Kept}
use ise_exporter_v.DataConnect.Query.{Try, Tried, answered, failed, run_tries, Client}

-- One statement: whether the wait before it ends and the lease is written (for the second and later
-- ones), the clock then, its tries, the duration of its work, the clock after it, and whether the
-- cooldown is written then.
pub record Statement (Row : Type 0) : Type 0 where
  pub gap_ends : Bool
  pub lease_at : ℕ
  pub first : Try Row
  pub second : Try Row
  pub duration : ℕ
  pub done_at : ℕ
  pub done_works : Bool

pub record Batch (Row : Type 0) : Type 0 where
  pub mono : ℕ
  pub local_wait_ends : Bool
  pub turn : Turn
  pub statements : List (Statement Row)
  pub finished : ℕ
  pub released : ℕ
  pub release_works : Bool

-- The state of the loop: the connection, the gate's file, the work so far, and the batch's ceilings.
pub record Progress : Type 0 where
  pub link : Link
  pub file : Option Content
  pub worked : ℕ
  pub kept : Kept

-- What the batch gives: nothing yet, the results in order, or an exception.
pub data Results (Row : Type 0) : Type 0 where
  results : List (List Row) → Results Row
  raised : Results Row

abbrev pub rewrite : Option Content → ℕ → Option Content
rewrite none t = none
rewrite (some f) t = some (deadline t)

-- The state in which the loop starts.
abbrev pub first_state : Client → Option Content → Progress
first_state c lease = record {
  link = c.link;
  file = lease;
  worked = 0;
  kept = record { batch_active = true; batch_rows = 0; batch_bytes = 0 };
}

module _ {Row : Type 0} where
  -- The wait and the lease before a later statement.
  unfoldable pub next_lease : Settings → Statement Row → Progress → Progress
  unfolding crash_cooldown
  next_lease s q p = record p {
    file = rewrite p.file (q.lease_at + crash_cooldown s true p.worked);
  }

  -- What follows the tries of a statement: on an answer, the ceilings are counted and the cooldown
  -- is written.
  unfoldable pub settle :
      Settings → Statement Row → Progress → Tried Row → Progress × Option (List Row)
  unfolding cooldown_after
  settle s q p (failed f) = (p, none)
  settle s q p (answered rs b) =
      let kept : Kept = record p.kept {
        batch_rows = p.kept.batch_rows + length rs;
        batch_bytes = p.kept.batch_bytes + b;
      } in
      let written : Progress = record p {
        kept = kept;
        file = rewrite p.file (q.done_at + cooldown_after s true p.worked);
      } in
      if q.done_works then (written, some rs) else (record p { kept = kept }, none)

  unfoldable pub run_statement : Settings → Statement Row → Progress → Progress × Option (List Row)
  unfolding run_tries settle
  run_statement s q p =
      let (link, tried) = run_tries s p.kept q.first q.second p.link in
      settle s q (record p { link = link; worked = p.worked + q.duration }) tried

  abbrev pub prepend : List Row → Results Row → Results Row
  prepend rs raised = raised
  prepend rs (results out) = results (rs ∷ out)

  -- The rest of the loop, after a statement that gave its rows.
  unfoldable pub follow :
      Progress → Option (List Row) → Progress × Results Row → Progress × Results Row
  follow after none more = (after, raised)
  follow after (some rs) more = (more.0, prepend rs more.1)

  -- The loop; `is_first` is true before the first statement.
  unfoldable pub run_batch :
      Settings → Bool → List (Statement Row) → Progress → Progress × Results Row
  unfolding next_lease run_statement follow
  run_batch s is_first [] p = (p, results [])
  run_batch s is_first (q ∷ qs) p =
      let (after, answer) = run_statement s q (if is_first then p else next_lease s q p) in
      let more = run_batch s false qs after in
      if is_first || q.gap_ends then follow after answer more else (p, raised)

  -- The batch under the gate, and its release.
  unfoldable pub run_many :
      Settings → Batch Row → Option Content → Client → (Client × Option Content) × Results Row
  unfolding run_batch cooldown_after close_gate
  run_many s b lease c =
      let (last, out) = run_batch s true b.statements (first_state c lease) in
      let cooldown = cooldown_after s true last.worked in
      let after : Client = record { link = last.link; next_query_at = b.finished + cooldown } in
      let released = close_gate none b.release_works (b.released + cooldown) last.file in
      let unwritten : Bool = elim last.file [ none ↦ false | some f ↦ not b.release_works ] in
      ((after, released), if unwritten then raised else out)

  -- What follows the gate's answer.
  unfoldable pub after_turn :
      Settings → Batch Row → Gate → Content → Client → (Client × Option Content) × Results Row
  unfolding run_many
  after_turn s b busy lease c = ((c, some lease), raised)
  after_turn s b unavailable lease c = ((c, some lease), raised)
  after_turn s b (held started preserved) lease c = run_many s b (some lease) c

  -- query_many(statements, parameters)
  unfoldable pub query_many :
      Settings → Batch Row → Option Content → Client → (Client × Option Content) × Results Row
  unfolding run_many shared_gate after_turn
  query_many s b file c =
      let gated : (Client × Option Content) × Results Row = elim file [
        | none ↦ run_many s b none c
        | some f ↦
            let (gate, lease) = shared_gate s true true b.turn f in after_turn s b gate lease c
      ] in
      let paced : (Client × Option Content) × Results Row =
        if ltb b.mono c.next_query_at
        then (if b.local_wait_ends then gated else ((c, file), raised))
        else gated in
      elim b.statements [
        | [] ↦ ((c, file), results [])
        | _ ∷ _ ↦ if ltb max_batch_queries (length b.statements) then ((c, file), raised) else paced
      ]
