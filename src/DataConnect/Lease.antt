-- ===== src/DataConnect/Lease.antt =====
-- ise_exporter/clients/dataconnect.py: what a turn at the gate leaves in the pacing file.
use ise_exporter_v.Base.{
  ℕ, ◌+◌, ◌≤◌, max, Bool, true, false, none, some, ltb, if◌then◌else◌, ◌≡◌, refl, Bool-cases, inl,
  inr,
}
use ise_exporter_v.DataConnect.Pacing.{Settings, crash_cooldown, max_pacing_future}
use ise_exporter_v.DataConnect.Gate.{
  Content, empty, deadline, unreadable, deadline_of, Turn, Gate, busy, unavailable, held, Lock,
  free, freed, stopped, take_lock, write_lease, under_lock, read_gate, shared_gate,
}

-- A refused turn leaves the file. An adaptive turn leases from its start on; another turn leaves the
-- later of the deadline and the lease.
abbrev pub Leased : Settings → Bool → Content → Gate → Content → Type 0
Leased s adaptive f busy f' = f' ≡ f
Leased s adaptive f unavailable f' = f' ≡ f
Leased s adaptive f (held started none) f' =
    (adaptive ≡ true) × (f' ≡ deadline (started + crash_cooldown s true 0))
Leased s adaptive f (held started (some p)) f' =
    (adaptive ≡ false)
    × (p ≡ deadline_of f)
    × (f' ≡ deadline (max p (started + crash_cooldown s false 0)))

-- An adaptive turn takes its lease no earlier than the deadline that it found: the clock has not been
-- set back since the check of the deadline or the wait for it.
abbrev pub OnTime : Gate → Content → Type 0
OnTime (held started none) f = deadline_of f ≤ started
OnTime _ f = Unit {0}

write_lease-Leased :
    (s : Settings) (adaptive : Bool) (f : Content) (started : ℕ)
    → Leased s adaptive f
        (write_lease s adaptive (deadline_of f) started).0
        (write_lease s adaptive (deadline_of f) started).1
unfolding write_lease
write_lease-Leased s true f started = (refl, refl)
write_lease-Leased s false f started = (refl, refl, refl)

-- The wait for the deadline, of an adaptive turn that comes too early.
wait_for_lease-Leased :
    (s : Settings) (wait : Bool) (g : Turn) (f : Content)
    → let waited = write_lease s true (deadline_of f) g.leased_at in
      let r = if wait then (if g.wait_ends then waited else (unavailable, f)) else (busy, f) in
      Leased s true f r.0 r.1
wait_for_lease-Leased s false g f = refl
wait_for_lease-Leased s true g f = elim (Bool-cases g.wait_ends) [
  | inl ends ↦ rw ends (write_lease-Leased s true f g.leased_at)
  | inr stops ↦ rw stops refl
]

under_lock-Leased :
    (s : Settings) (wait adaptive : Bool) (g : Turn) (f : Content)
    → Leased s adaptive f (under_lock s wait adaptive g f).0 (under_lock s wait adaptive g f).1
unfolding under_lock
under_lock-Leased s wait adaptive g f =
    elim (Bool-cases (ltb (g.now + max_pacing_future s) (deadline_of f))) [
      | inl far ↦ rw far refl
      | inr near ↦ elim (Bool-cases (ltb g.now (deadline_of f))) [
        | inr past ↦ rw (near, past) (write_lease-Leased s adaptive f g.leased_at)
        | inl ahead ↦ elim (Bool-cases adaptive) [
          | inr other ↦ rw (near, ahead, other) (write_lease-Leased s false f g.leased_at)
          | inl own_ ↦ rw (near, ahead, own_) (wait_for_lease-Leased s wait g f)
        ]
      ]
    ]

take_lock-Leased :
    (s : Settings) (wait adaptive : Bool) (l : Lock) (f : Content) (inside : Gate × Content)
    → Leased s adaptive f inside.0 inside.1
    → let r : Gate × Content = elim (take_lock wait l) [ some t ↦ (t, f) | none ↦ inside ] in
      Leased s adaptive f r.0 r.1
unfolding take_lock
take_lock-Leased s wait adaptive free f inside h = h
take_lock-Leased s false adaptive freed f inside h = refl
take_lock-Leased s true adaptive freed f inside h = h
take_lock-Leased s false adaptive stopped f inside h = refl
take_lock-Leased s true adaptive stopped f inside h = refl

read_gate-Leased :
    (s : Settings) (wait adaptive : Bool) (g : Turn) (f : Content)
    → Leased s adaptive f (read_gate s wait adaptive g f).0 (read_gate s wait adaptive g f).1
unfolding read_gate
read_gate-Leased s wait adaptive g empty = under_lock-Leased s wait adaptive g empty
read_gate-Leased s wait adaptive g unreadable = refl
read_gate-Leased s wait adaptive g (deadline t) = under_lock-Leased s wait adaptive g (deadline t)

pub shared_gate-Leased :
    (s : Settings) (wait adaptive : Bool) (g : Turn) (f : Content)
    → Leased s adaptive f (shared_gate s wait adaptive g f).0 (shared_gate s wait adaptive g f).1
unfolding shared_gate
shared_gate-Leased s wait adaptive g f =
    let inside = read_gate s wait adaptive g f in
    elim (Bool-cases g.usable) [
      | inr fails ↦ rw fails refl
      | inl opens ↦
          rw opens (
            take_lock-Leased s wait adaptive g.lock f inside (read_gate-Leased s wait adaptive g f))
    ]
