-- ===== src/DataConnect/Duty.antt =====
-- ise_exporter/clients/dataconnect.py: the share of time in which the database works.
use ise_exporter_v.Base.{ℕ, ◌+◌, ◌-◌, ◌*◌, ◌/◌, ◌≤◌, ◌<◌, true, ◌≡◌, arith}
use ise_exporter_v.Base.Int.{pos, negsuc}
use ise_exporter_v.Base.Float.{PyFloat, finite, not_finite}
use native.Mathlib.Nat.{lt-mul-div-succ, mul-le-mul_left}
use ise_exporter_v.DataConnect.Pacing.{
  Settings, whole, max_duty_cycle, positive_duty, duty_cooldown, cooldown_after,
}

positive_duty-pos : (v : PyFloat) → 0 < positive_duty v
positive_duty-pos not_finite = omega arith
positive_duty-pos (finite (negsuc n)) = omega arith
positive_duty-pos (finite (pos n)) = ground arith

work-le-share :
    (duration d : ℕ) → 0 < d → duration * whole ≤ d * (duration + duration * (whole - d) / d + 1)
work-le-share duration d h =
    let rest_ = whole - d in
    let covers : whole ≤ rest_ + d = omega arith in
    let q = duration * rest_ / d in
    let rounded : duration * rest_ < d * (q + 1) = lt-mul-div-succ (duration * rest_) h in
    let scaled : duration * whole ≤ duration * (rest_ + d) = mul-le-mul_left duration covers in
    let spread : duration * (rest_ + d) ≡ duration * rest_ + d * duration = grind arith in
    let joined : d * (duration + q + 1) ≡ d * duration + d * (q + 1) = grind arith in
    omega (arith, rounded, scaled, spread, joined)

-- Work and its cooldown: the work is within the duty cycle of the whole, up to the microsecond that
-- the quotient is rounded by.
pub cooldown_after_bound :
    (s : Settings) (duration : ℕ)
    → duration * whole ≤ max_duty_cycle s * (duration + cooldown_after s true duration + 1)
unfolding cooldown_after duty_cooldown
cooldown_after_bound s duration =
    let d = max_duty_cycle s in
    let share = work-le-share duration d (positive_duty-pos s.max_duty_cycle_percent) in
    let longer : duration * (whole - d) / d ≤ cooldown_after s true duration = omega arith in
    let more : d * (duration + duration * (whole - d) / d + 1)
        ≤ d * (duration + cooldown_after s true duration + 1) =
      mul-le-mul_left d (omega (arith, longer)) in
    omega (arith, share, more)
