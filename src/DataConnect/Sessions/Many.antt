-- ===== src/DataConnect/Sessions/Many.antt =====
-- ise_exporter/clients/dataconnect.py: a batch as a turn at the gate.
use ise_exporter_v.Base.{
  ℕ, ◌+◌, ◌*◌, ◌≤◌, List, [], ◌∷◌, Bool, true, false, ◌&&◌, not, Option, none, some, length, ltb,
  if◌then◌else◌, ◌≡◌, arith, Bool-cases, inl, inr,
}
use ise_exporter_v.DataConnect.Pacing.{
  Settings, max_batch_queries, whole, max_duty_cycle, cooldown_after,
}
use ise_exporter_v.DataConnect.Gate.{
  Content, deadline, deadline_of, Gate, busy, unavailable, held, shared_gate,
}
use ise_exporter_v.DataConnect.Query.{Client}
use ise_exporter_v.DataConnect.Batch.{
  raised, first_state, Batch, Results, run_batch, run_many, after_turn, query_many,
}
use ise_exporter_v.DataConnect.Lease.{Leased, OnTime, shared_gate-Leased}
use ise_exporter_v.DataConnect.Sessions.Account.{
  kept_file, under_gate, InTime, passes, turn_bound, still_bound, passes-elim,
}
use ise_exporter_v.DataConnect.Sessions.Loop.{close_gate-has, run_batch-file}

-- A batch has statements, and no more than the ceiling.
abbrev pub sized : {A : Type 0} → List A → Bool
sized [] = false
sized (x ∷ xs) = not (ltb max_batch_queries (length (x ∷ xs)))

-- The ways that the checks of a batch go.
sized-elim :
    {A B : Type 0} {nothing large go : A} (P : Bool → A → Type 0) (xs : List B) (run : Bool)
    → P false nothing
    → P false large
    → P run go
    → P (sized xs && run) (elim xs as (λ x. A) [
      | [] ↦ nothing
      | _ ∷ _ ↦ if ltb max_batch_queries (length xs) then large else go
    ])
sized-elim P [] run a b g = a
sized-elim P (x ∷ xs) run a b g = elim (Bool-cases (ltb max_batch_queries (length (x ∷ xs)))) [
  | inl e ↦ rw e b
  | inr e ↦ rw e g
]

module _ {Row : Type 0} where
  -- The work of the statements of a batch, where the turn gave the gate.
  abbrev pub batch_work : Settings → Batch Row → Content → Client → ℕ
  batch_work s b f c =
      let turn = shared_gate s true true b.turn f in
      let ran = (run_batch s true b.statements (first_state c (some turn.1))).0.worked in
      if sized b.statements && passes b.mono c.next_query_at true b.local_wait_ends
      then under_gate turn.0 ran
      else 0

  -- A batch whose release is written, with a clock that is not set back below the deadline before the
  -- lease, nor by the time of the release.
  pub record FairBatch (s : Settings) (b : Batch Row) (f : Content) (c : Client) : Type 0 where
    pub released_ok : b.release_works ≡ true
    pub on_time : OnTime (shared_gate s true true b.turn f).0 f
    pub in_time :
        let turn = shared_gate s true true b.turn f in
        InTime turn.0
          (run_batch s true b.statements (first_state c (some turn.1))).0.worked
          b.released

  -- The end of a batch, from a loop that kept the file.
  run_many-file :
      (s : Settings) (b : Batch Row) (lease : Content) (c : Client)
      → b.release_works ≡ true
      → (run_many s b (some lease) c).0.1
        ≡ some (
            deadline (
              b.released
              + cooldown_after s true
                  (run_batch s true b.statements (first_state c (some lease))).0.worked))
  unfolding run_many
  run_many-file s b lease c ok =
      let last = (run_batch s true b.statements (first_state c (some lease))).0 in
      close_gate-has b.release_works (b.released + cooldown_after s true last.worked) last.file ok
        (run_batch-file s true b.statements (first_state c (some lease)))

  after_turn_bound :
      (s : Settings) (b : Batch Row) (f : Content) (c : Client) (g : Gate) (f' : Content)
      → b.release_works ≡ true
      → Leased s true f g f'
      → OnTime g f
      → let ran = (run_batch s true b.statements (first_state c (some f'))).0.worked in
        InTime g ran b.released
        → under_gate g ran * whole + max_duty_cycle s * deadline_of f
          ≤ max_duty_cycle s * (deadline_of (kept_file (after_turn s b g f' c).0.1 f) + 1)
  unfolding after_turn
  after_turn_bound s b f c busy f' ok l o t = rw l (still_bound (max_duty_cycle s) (deadline_of f))
  after_turn_bound s b f c unavailable f' ok l o t =
      rw l (still_bound (max_duty_cycle s) (deadline_of f))
  after_turn_bound s b f c (held started none) f' ok l o t =
      rw (run_many-file s b f' c ok) (turn_bound s (deadline_of f) started _ b.released o t)
  after_turn_bound s b f c (held started (some p)) f' ok l o t = grind (arith, l.0)

  pub query_many_bound :
      (s : Settings) (b : Batch Row) (f : Content) (c : Client)
      → FairBatch s b f c
      → batch_work s b f c * whole + max_duty_cycle s * deadline_of f
        ≤ max_duty_cycle s * (deadline_of (kept_file (query_many s b (some f) c).0.1 f) + 1)
  unfolding query_many
  query_many_bound s b f c h =
      let turn = shared_gate s true true b.turn f in
      let ran = (run_batch s true b.statements (first_state c (some turn.1))).0.worked in
      let P : Bool → (Client × Option Content) × Results Row → Type 0 = λ run r.
        (if run then under_gate turn.0 ran else 0) * whole + max_duty_cycle s * deadline_of f
        ≤ max_duty_cycle s * (deadline_of (kept_file r.0.1 f) + 1) in
      let still = still_bound (max_duty_cycle s) (deadline_of f) in
      sized-elim P b.statements _ still still (
        passes-elim {left = ((c, some f), raised)} P (ltb b.mono c.next_query_at) true
          b.local_wait_ends
          (after_turn_bound s b f c turn.0 turn.1 h.released_ok
            (shared_gate-Leased s true true b.turn f) h.on_time h.in_time)
          still still)
