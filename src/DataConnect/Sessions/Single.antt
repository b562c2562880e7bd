-- ===== src/DataConnect/Sessions/Single.antt =====
-- ise_exporter/clients/dataconnect.py: one query as a turn at the gate.
use ise_exporter_v.Base.{
  ℕ, ◌+◌, ◌*◌, ◌≤◌, Bool, true, Option, none, some, ltb, if◌then◌else◌, ◌≡◌, arith,
}
use mathlib.Core.Path.{subst}
use ise_exporter_v.DataConnect.Pacing.{Settings, whole, max_duty_cycle, cooldown_after}
use ise_exporter_v.DataConnect.Gate.{
  Content, deadline_of, Gate, busy, unavailable, held, shared_gate, close_gate,
}
use ise_exporter_v.DataConnect.Query.{Ask, Client, Reply, work, after_gate, query}
use ise_exporter_v.DataConnect.Lease.{Leased, OnTime, shared_gate-Leased}
use ise_exporter_v.DataConnect.Sessions.Account.{
  kept_file, under_gate, InTime, passes, turn_bound, still_bound, passes-elim,
}

module _ {Row : Type 0} where
  abbrev pub gate_of : Settings → Ask Row → Content → Gate
  gate_of s q f = (shared_gate s q.wait_for_pacing q.adaptive_duty q.turn f).0

  abbrev pub query_work : Settings → Ask Row → Content → Client → ℕ
  query_work s q f c =
      if passes q.mono c.next_query_at q.wait_for_pacing q.local_wait_ends
      then under_gate (gate_of s q f) q.duration
      else 0

  -- An adaptive query whose release is written, with a clock that is not set back below the deadline
  -- before the lease, nor by the time of the release.
  pub record Fair (s : Settings) (q : Ask Row) (f : Content) : Type 0 where
    pub adaptive : q.adaptive_duty ≡ true
    pub released_ok : q.release_works ≡ true
    pub on_time : OnTime (gate_of s q f) f
    pub in_time : InTime (gate_of s q f) q.duration q.released

  after_gate_bound :
      (s : Settings) (q : Ask Row) (f : Content) (c : Client) (g : Gate) (f' : Content)
      → q.adaptive_duty ≡ true
      → q.release_works ≡ true
      → Leased s true f g f'
      → OnTime g f
      → InTime g q.duration q.released
      → let last = kept_file (after_gate s q g f' c).0.1 f in
        under_gate g q.duration * whole + max_duty_cycle s * deadline_of f
        ≤ max_duty_cycle s * (deadline_of last + 1)
  unfolding after_gate work close_gate cooldown_after
  after_gate_bound s q f c busy f' ad ok l o t =
      rw l (still_bound (max_duty_cycle s) (deadline_of f))
  after_gate_bound s q f c unavailable f' ad ok l o t =
      rw l (still_bound (max_duty_cycle s) (deadline_of f))
  after_gate_bound s q f c (held started none) f' ad ok l o t =
      rw (ad, ok) (turn_bound s (deadline_of f) started q.duration q.released o t)
  after_gate_bound s q f c (held started (some p)) f' ad ok l o t = grind (arith, l.0)

  pub query_bound :
      (s : Settings) (q : Ask Row) (f : Content) (c : Client)
      → Fair s q f
      → query_work s q f c * whole + max_duty_cycle s * deadline_of f
        ≤ max_duty_cycle s * (deadline_of (kept_file (query s q (some f) c).0.1 f) + 1)
  unfolding query
  query_bound s q f c h =
      let g = shared_gate s q.wait_for_pacing q.adaptive_duty q.turn f in
      let leased : Leased s true f g.0 g.1 =
        subst (λ b. Leased s b f g.0 g.1) h.adaptive
          (shared_gate-Leased s q.wait_for_pacing q.adaptive_duty q.turn f) in
      let spent : Bool → ℕ = λ run. if run then under_gate g.0 q.duration else 0 in
      passes-elim
        (λ run (r : (Client × Option Content) × Reply Row).
          spent run * whole + max_duty_cycle s * deadline_of f
          ≤ max_duty_cycle s * (deadline_of (kept_file r.0.1 f) + 1))
        (ltb q.mono c.next_query_at) q.wait_for_pacing q.local_wait_ends
        (after_gate_bound s q f c g.0 g.1 h.adaptive h.released_ok leased h.on_time h.in_time)
        (still_bound (max_duty_cycle s) (deadline_of f))
        (still_bound (max_duty_cycle s) (deadline_of f))
