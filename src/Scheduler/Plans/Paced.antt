-- ===== src/Scheduler/Plans/Paced.antt =====
-- ise_exporter/scheduler.py: the plan's intervals and the deadlines after an attempt.
use ise_exporter_v.Base.{
  ℕ, ◌+◌, ◌<◌, ◌≤◌, ◌⊎◌, ◌↔◌, min, Bool, true, false, Option, none, some, All, All-map, ◌≡◌, refl,
  arith,
}
use ise_exporter_v.Base.Int.{pos, negsuc}
use ise_exporter_v.Base.Float.{seconds}
use ise_exporter_v.Scheduler.Deadline.{due, wall_clock_skew_tolerance}
use ise_exporter_v.Scheduler.Deadline.Due.{due_iff}
use ise_exporter_v.Scheduler.Run.{Cadence, Plan, Dataset, failure_retry, settle}
use ise_exporter_v.Scheduler.Run.Retry.{failure_retry-pos}
use ise_exporter_v.Scheduler.Plans.{
  Setting, missing, refused, value, Settings, configured_interval, medium, slow, posture_cadence,
  dataset_plan, cadence_of, max_radius_active_interval, default_radius_active_interval,
}

configured_interval-pos :
    (v : Setting) (default : ℕ) → 0 < default → 0 < configured_interval v default
unfolding configured_interval
configured_interval-pos missing default h = h
configured_interval-pos refused default h = h
configured_interval-pos (value (pos n)) default h = ground arith
configured_interval-pos (value (negsuc n)) default h = h

posture_cadence-pos : (v : Setting) (m : ℕ) → 0 < posture_cadence v m
unfolding posture_cadence
posture_cadence-pos missing m = configured_interval-pos (value (pos m)) 300 (omega arith)
posture_cadence-pos refused m = omega arith
posture_cadence-pos (value n) m = configured_interval-pos (value n) 300 (omega arith)

-- A dataset that completed an attempt has a later deadline, and is due exactly from it on, or where the
-- clock reads more than the tolerated skew before the completion.
abbrev pub Paced : Plan → ℕ → Dataset → Type 0
Paced p completed d =
    (n : ℕ) × (d.next_run ≡ some n)
    × (completed < n)
    × ((now : ℕ)
        → (due d.next_run d.scheduled_delay now (seconds p.interval) ≡ true)
          ↔ ((n ≤ now) ⊎ (now + wall_clock_skew_tolerance < completed)))

delay-Paced :
    (p : Plan) (completed delay : ℕ) (d : Dataset)
    → d.next_run ≡ some (completed + seconds delay)
    → d.scheduled_delay ≡ some (seconds delay)
    → 0 < delay
    → Paced p completed d
delay-Paced p completed delay d n s h = (
  completed + seconds delay,
  n,
  omega (arith, h),
  (λ now.
      rw (n, s) (due_iff completed (seconds delay) now (seconds p.interval) (omega (arith, h)))),
)

settle-Paced :
    (c : Cadence) (p : Plan) (completed : ℕ) (outcome : Option Bool) (d : Dataset)
    → 0 < c.scrape_interval
    → 0 < p.interval
    → Paced p completed (settle c p completed outcome d)
unfolding settle
settle-Paced c p completed none d h i =
    delay-Paced p completed p.interval (settle c p completed none d) refl refl i
settle-Paced c p completed (some true) d h i =
    delay-Paced p completed p.interval (settle c p completed (some true) d) refl refl i
settle-Paced c p completed (some false) d h i =
    let retry = failure_retry c p.name p.source d.failures p.interval in
    delay-Paced p completed retry (settle c p completed (some false) d) refl refl
      (failure_retry-pos c p.name p.source d.failures p.interval h i)

dataset_plan-pos :
    (s : Settings) (managed : Bool) → All (λ p. 0 < p.interval) (dataset_plan s managed)
unfolding dataset_plan medium slow
dataset_plan-pos s managed =
    let medium_pos = configured_interval-pos s.medium_interval 300 (omega arith) in
    let slow_pos = configured_interval-pos s.slow_interval 21600 (omega arith) in
    let given = configured_interval-pos s.radius_active_interval 1800 (omega arith) in
    let active_pos : 0
        < min max_radius_active_interval
            (configured_interval s.radius_active_interval default_radius_active_interval) =
      omega (arith, given) in
    (
      medium_pos,
      (
        slow_pos,
        (
          slow_pos,
          (
            slow_pos,
            (
              slow_pos,
              (
                slow_pos,
                (
                  configured_interval-pos s.radius_interval 1800 (omega arith),
                  (
                    configured_interval-pos s.schema_interval 86400 (omega arith),
                    (
                      active_pos,
                      (
                        configured_interval-pos s.performance_interval 300 (omega arith),
                        (
                          configured_interval-pos s.accounting_counters_interval 300 (omega arith),
                          (
                            configured_interval-pos s.posture_counters_interval 300 (omega arith),
                            (
                              configured_interval-pos s.authentication_counters_interval 300
                                  (omega arith),
                              (
                                configured_interval-pos s.error_counters_interval 300 (omega arith),
                                (
                                  configured_interval-pos s.posture_interval 21600 (omega arith),
                                  (
                                    configured_interval-pos s.endpoints_interval 21600
                                        (omega arith),
                                    (
                                      configured_interval-pos s.freshness_interval 1800
                                          (omega arith),
                                      (
                                        configured_interval-pos s.endpoint_fleet_interval 900
                                            (omega arith),
                                        (
                                          configured_interval-pos s.nad_health_interval 21600
                                              (omega arith),
                                          (
                                            posture_cadence-pos s.mnt_active_posture_interval
                                                (medium s),
                                            (
                                              slow_pos,
                                              (
                                                configured_interval-pos s.tacacs_interval 21600
                                                    (omega arith),
                                                tt,
                                              ),
                                            ),
                                          ),
                                        ),
                                      ),
                                    ),
                                  ),
                                ),
                              ),
                            ),
                          ),
                        ),
                      ),
                    ),
                  ),
                ),
              ),
            ),
          ),
        ),
      ),
    )

-- Whatever the configuration holds, after an attempt of any dataset of the plan, with any outcome, the
-- dataset's next deadline is later than the attempt's end, and `_due` holds exactly from that deadline
-- on, or where the clock reads more than the tolerated skew before that end: no dataset is due again at
-- once.
pub dataset_plan-Paced :
    (s : Settings) (managed : Bool) (completed : ℕ) (outcome : Option Bool) (d : Dataset)
    → All
        (λ p. Paced p completed (settle (cadence_of s) p completed outcome d))
        (dataset_plan s managed)
unfolding cadence_of
dataset_plan-Paced s managed completed outcome d =
    All-map (λ p. 0 < p.interval) _ (dataset_plan s managed)
      (λ p i.
        settle-Paced (cadence_of s) p completed outcome d
          (configured_interval-pos s.scrape_interval 60 (omega arith)) i)
      (dataset_plan-pos s managed)
