-- ===== src/Posture/Collect.antt =====
-- ise_exporter/collectors/mnt_active_posture.py: collect. The client's answers, the order in which
-- the requests of the workers complete, `encode` (json.dumps) and `decode` (json.loads) are
-- arguments; the table is that of the posture cache, and `now` the one reading of the clock.
use ise_exporter_v.Base.{
  ℕ, ◌-◌, List, [], ◌∷◌, map, filter, mem, Bool, true, false, ◌&&◌, ◌||◌, not, Option, none, some,
  String, str_eq, length, ltb, ◌==◌, if◌then◌else◌, max,
}
use ise_exporter_v.Base.Int.{ℤ, pos, eqb_ℤ}
use ise_exporter_v.Base.Float.{PyFloat, finite, seconds}
use ise_exporter_v.Helpers.Attrs.{Attrs, first_nonempty, parse_other_attr_string}
use ise_exporter_v.Helpers.Steps.{parse_step_latencies}
use ise_exporter_v.State.Cache.{Row, Entry, finish_cycle}
use ise_exporter_v.State.Tables.{
  PostureValue, Signed, put_posture, posture_entries, finish_posture_cycle,
}
use ise_exporter_v.State.Read.{lookup_entry}
use ise_exporter_v.Posture.Session.{
  MntSessions, active_count, active_rows, session_signature, value_of,
}
use ise_exporter_v.Posture.Detail.{Compact, detail_of, compact_detail}
use ise_exporter_v.Posture.Plan.{
  PostureConfig, list_ceiling, refresh_ttl, select, is_unchanged, planned, deferred,
}

abbrev pub Table : Type 0
Table = List (Row PostureValue)

abbrev pub Details : Type 0
Details = List (Entry (Signed Compact))

-- The checks of the active list against its own count and against the ceiling.
abbrev check_list : ℕ → Option MntSessions → Option (List Attrs)
check_list ceiling none = none
check_list ceiling (some active) =
    if eqb_ℤ active.total (pos (length active.sessions))
    then (if ltb ceiling (length active.sessions) then none else some active.sessions)
    else none

-- `rows`: the active list, refused where it or the count before it is unusable or too large.
unfoldable pub session_rows :
    (String → Option ℤ)
    → PostureConfig
    → Option MntSessions
    → Option MntSessions
    → Option (List Attrs)
unfolding active_count
session_rows int_of cfg count_payload active = elim (active_count int_of count_payload) [
  | none ↦ none
  | some n ↦
      if ltb (list_ceiling cfg) n
      then none
      else check_list (list_ceiling cfg)
          (if n == 0 then some (record { total = pos 0; sessions = [] }) else active)
]

-- What a cycle publishes, in place of the aggregates of `usable` that are made of it.
pub record Published : Type 0 where
  pub active_total : ℕ
  pub candidates : ℕ
  pub selected : List String
  pub planned : List String
  pub deferred : ℕ
  pub fetched : List String
  pub usable : Details
  pub cache_hits : ℕ
  pub cache_misses : ℕ
  pub oldest_age : ℕ

-- `usable` in the order of `selected`: the entries of the current signature.
unfoldable pub usable_of : Details → (String → String) → List String → Details
usable_of current signatures [] = []
usable_of current signatures (mac ∷ selected) =
    let r = usable_of current signatures selected in
    elim (lookup_entry mac current) [
      | none ↦ r
      | some e ↦ if str_eq e.detail.signature (signatures mac) then e ∷ r else r
    ]

-- _bounded_details: the answers that give a detail, as the requests complete.
unfoldable pub bounded_details : (String → Option MntSessions) → List String → List (String × Attrs)
unfolding detail_of
bounded_details answer [] = []
bounded_details answer (mac ∷ completed) =
    let r = bounded_details answer completed in
    elim (detail_of (answer mac)) [ none ↦ r | some detail ↦ (mac, detail) ∷ r ]

abbrev pub oldest_age_of : ℕ → Details → ℕ
oldest_age_of now [] = 0
oldest_age_of now (e ∷ es) = max (now - e.updated_at) (oldest_age_of now es)

module _ (encode : Compact → Option String) (decode : String → Option Compact)
    (signatures : String → String) where
  -- The puts of the fetched details: `none` where one raises.
  unfoldable pub put_all : ℕ → List (String × Attrs) → Table → Option Table
  unfolding put_posture compact_detail
  put_all now [] rows = some rows
  put_all now ((mac, detail) ∷ fetched) rows =
      elim (put_posture encode mac (signatures mac) (compact_detail detail) (finite (pos now))
        rows) [ none ↦ none | some rows' ↦ put_all now fetched rows' ]

  module _ (cfg : PostureConfig) (now : ℕ) (active_total candidates : ℕ)
      (selected : List String) where
    -- The counts of the snapshot.
    abbrev pub snapshot_of : Details → List String → List String → ℕ → Details → Published
    snapshot_of cached planned fetched deferred current = record {
      active_total = active_total;
      candidates = candidates;
      selected = selected;
      planned = planned;
      deferred = deferred;
      fetched = fetched;
      usable = usable_of current signatures selected;
      cache_hits =
          length
            (filter (λ mac. is_unchanged cached signatures mac && not (mem mac fetched)) selected);
      cache_misses = length (
          filter (λ mac. elim (lookup_entry mac cached) [ none ↦ true | some _ ↦ false ]) selected);
      oldest_age = oldest_age_of now (usable_of current signatures selected);
    }

    -- The refusal of an empty snapshot.
    unfoldable pub publish : Details → List String → List String → ℕ → Details → Option Published
    unfolding usable_of
    publish cached planned fetched deferred current =
        if not (length selected == 0) && (length (usable_of current signatures selected) == 0)
        then none
        else some (snapshot_of cached planned fetched deferred current)

    module _ (answer : String → Option MntSessions) (order : List String → List String) where
      -- The cycle on the store: what is published, and the table that is left. What was not
      -- committed when an operation raised is rolled back.
      unfoldable pub cycle : Table → Option Published × Table
      unfolding posture_entries put_all finish_cycle bounded_details planned deferred publish
      cycle rows = elim (posture_entries decode selected rows) [
        | none ↦ (none, rows)
        | some (cached, rows1) ↦
            let plan = planned cached signatures cfg now selected in
            let fetched = bounded_details answer (order plan) in
            elim (put_all now fetched rows1) [
              | none ↦ (none, rows1)
              | some rows2 ↦
                  elim (finish_posture_cycle selected (finite (pos now)) (seconds (refresh_ttl cfg))
                    rows2) [
                      | none ↦ (none, rows1)
                      | some rows3 ↦ elim (posture_entries decode selected rows3) [
                        | none ↦ (none, rows3)
                        | some (current, rows4) ↦ (
                          publish cached plan (map (λ (f : String × Attrs). f.0) fetched)
                              (deferred cached signatures cfg now selected) current,
                          rows4,
                        )
                      ]
                    ]
            ]
      ]

abbrev pub row_of : List (String × Attrs) → String → Attrs
row_of [] mac = []
row_of ((m, row) ∷ rest) mac = if str_eq mac m then row else row_of rest mac

module _ (upper sha : String → String) (dumps : Attrs → String) where
  -- signatures, of the active rows
  abbrev pub signatures_of : List (String × Attrs) → String → String
  signatures_of active mac = session_signature upper sha dumps (row_of active mac)

-- The texts that _aggregate reads of a detail for its step samples.
abbrev text_of : Compact → List String → String
text_of d keys =
    value_of d.texts
      (parse_other_attr_string
        (first_nonempty d.texts ("other_attr_string" ∷ "otherAttrString" ∷ [])))
      keys

abbrev pub execution_steps_of : Compact → String
execution_steps_of d = text_of d ("execution_steps" ∷ "ExecutionSteps" ∷ "Steps" ∷ [])

abbrev pub step_latency_of : Compact → String
step_latency_of d = text_of d ("step_latency" ∷ "StepLatency" ∷ [])

-- `float_of` and `is_digits` are float() and str.isdigit(); `replaced` tells whether
-- the rest of _aggregate and replace_metric_snapshot return, which work on what is published.
module _ (int_of : String → Option ℤ) (float_of : String → Option PyFloat)
    (is_digits : String → Bool) (replaced : Published → Bool) where
  -- Whether _step_samples returns; without step codes it reads the positions and never raises.
  unfoldable pub is_sampled : Compact → Bool
  unfolding first_nonempty parse_other_attr_string value_of parse_step_latencies
  is_sampled d =
      let samples =
        parse_step_latencies int_of float_of is_digits (execution_steps_of d) (step_latency_of d) in
      str_eq (execution_steps_of d) "" || (elim samples [ none ↦ false | some _ ↦ true ])

  -- Whether _aggregate gets through the step samples of all details.
  unfoldable pub is_aggregated : Details → Bool
  unfolding is_sampled
  is_aggregated [] = true
  is_aggregated (e ∷ es) = let rest = is_aggregated es in is_sampled e.detail.detail && rest

  -- The end of the collection: _aggregate and replace_metric_snapshot.
  unfoldable pub emit : Option Published → Option Published
  unfolding is_aggregated
  emit none = none
  emit (some p) = if is_aggregated p.usable && replaced p then some p else none

module _ (int_of : String → Option ℤ) (float_of : String → Option PyFloat)
    (is_digits : String → Bool) (replaced : Published → Bool) (upper sha : String → String)
    (dumps : Attrs → String) (encode : Compact → Option String)
    (decode : String → Option Compact) where
  -- collect(client, cfg)
  unfoldable pub collect :
      PostureConfig
      → ℕ
      → Option MntSessions
      → Option MntSessions
      → (String → Option MntSessions)
      → (List String → List String)
      → Table
      → Option Published × Table
  unfolding session_rows active_rows session_signature select cycle emit
  collect cfg now count_payload active answer order rows =
      elim (session_rows int_of cfg count_payload active) [
        | none ↦ (none, rows)
        | some list ↦
            let entries = active_rows upper [] list in
            let candidates = map (λ (e : String × Attrs). e.0) entries in
            let (shown, left) =
              cycle encode decode (signatures_of upper sha dumps entries) cfg now (length list)
                (length candidates) (select sha cfg candidates) answer order rows in
            (emit int_of float_of is_digits replaced shown, left)
      ]
