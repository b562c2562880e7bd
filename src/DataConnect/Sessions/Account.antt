-- ===== src/DataConnect/Sessions/Account.antt =====
-- ise_exporter/clients/dataconnect.py: what a turn at the gate costs, and by how much it moves the deadline.
use ise_exporter_v.Base.{
  ℕ, ◌+◌, ◌*◌, ◌≤◌, Bool, true, false, ◌&&◌, ◌||◌, not, Option, ltb, if◌then◌else◌, ◌≡◌, arith,
  get_or,
}
use native.Mathlib.Nat.{mul-le-mul_left}
use ise_exporter_v.DataConnect.Pacing.{Settings, whole, max_duty_cycle, cooldown_after}
use ise_exporter_v.DataConnect.Gate.{Content, Gate, held}
use ise_exporter_v.DataConnect.Duty.{cooldown_after_bound}

-- The file after a call that was given one.
abbrev pub kept_file : Option Content → Content → Content
kept_file file f = get_or file f

-- The time that the work took, where the turn gave the gate.
abbrev pub under_gate : Gate → ℕ → ℕ
under_gate (held started preserved) duration = duration
under_gate _ duration = 0

-- The release comes no sooner after the lease than the work takes.
abbrev pub InTime : Gate → ℕ → ℕ → Type 0
InTime (held started preserved) duration released = started + duration ≤ released
InTime _ duration released = Unit {0}

-- The check of the client's own cooldown lets the call on to the gate.
abbrev pub passes : ℕ → ℕ → Bool → Bool → Bool
passes mono next_query_at wait wait_ends = not (ltb mono next_query_at) || (wait && wait_ends)

-- One turn: its work, and the distance by which it moves the deadline.
pub turn_bound :
    (s : Settings) (before started w released : ℕ)
    → before ≤ started
    → started + w ≤ released
    → w * whole + max_duty_cycle s * before
      ≤ max_duty_cycle s * (released + cooldown_after s true w + 1)
turn_bound s before started w released h e =
    let d = max_duty_cycle s in
    let cool = cooldown_after s true w in
    let share = cooldown_after_bound s w in
    let moved : d * (before + (w + cool + 1)) ≤ d * (released + cool + 1) =
      mul-le-mul_left d (omega arith) in
    let spread : d * (before + (w + cool + 1)) ≡ d * before + d * (w + cool + 1) = grind arith in
    omega (arith, share, moved, spread)

-- A turn that leaves the file.
pub still_bound : (d before : ℕ) → 0 * whole + d * before ≤ d * (before + 1)
still_bound d before =
    let more : d * before ≤ d * (before + 1) = mul-le-mul_left d (omega arith) in
    omega (arith, more)

-- The three ways that the check of the client's own cooldown goes.
pub passes-elim :
    {A : Type 0} {gated stopped left : A} (P : Bool → A → Type 0) (early wait wait_ends : Bool)
    → P true gated
    → P false stopped
    → P false left
    → P
        (not early || (wait && wait_ends))
        (if early then (if wait then (if wait_ends then gated else stopped) else left) else gated)
passes-elim P false wait wait_ends g a b = g
passes-elim P true false wait_ends g a b = b
passes-elim P true true true g a b = g
passes-elim P true true false g a b = a
