-- ===== src/Posture/Whole.antt =====
-- ise_exporter/collectors/mnt_active_posture.py: a whole collection whose requests are answered.
use ise_exporter_v.Base.{
  ℕ, List, [], ◌∷◌, mem, String, str_eq_refl, Option, none, some, true, ◌≡◌, All, arith, length,
  Bool, false, map, ◌||◌, str_eq, ap, refl, In, ◌⊎◌, inl, inr, Bool-cases,
}
use ise_exporter_v.Base.Int.{ℤ}
use ise_exporter_v.Base.Float.{PyFloat}
use ise_exporter_v.Helpers.Text.{strip}
use ise_exporter_v.Helpers.Attrs.{Attrs}
use ise_exporter_v.Helpers.Steps.{
  split_char, parse_step_latencies, BadCode, parse_step_latencies-raises,
}
use ise_exporter_v.State.Cache.{Entry}
use ise_exporter_v.State.Tables.{Signed}
use ise_exporter_v.State.Keyed.{Keyed}
use ise_exporter_v.State.Total.{IsKey}
use ise_exporter_v.Posture.Session.{
  MntSessions, active_mac, active_rows, session_signature, material, signature_keys,
}
use ise_exporter_v.Posture.Detail.{Compact, detail_of, compact_detail}
use ise_exporter_v.Posture.Plan.{PostureConfig, select}
use ise_exporter_v.Posture.Bounds.{select_bounds}
use ise_exporter_v.Posture.Collect.{
  Table, Details, Published, execution_steps_of, step_latency_of, is_sampled, is_aggregated, emit,
  collect, session_rows, signatures_of, row_of,
}
use ise_exporter_v.Posture.Puts.{Storable}
use ise_exporter_v.Posture.Fresh.{mem-IsKey, Answered, FreshCycle}
use ise_exporter_v.Posture.Answered.{cycle-FreshCycle}
use ise_exporter_v.Posture.Rows.{macs_of, active_rows-IsKey}

All-mem :
    (P : String → Type 0) (xs : List String) → ((x : String) → mem x xs ≡ true → P x) → All P xs
All-mem P [] f = tt
All-mem P (x ∷ xs) f =
    (f x (ground (arith, str_eq_refl x)), All-mem P xs (λ y m. f y (ground (arith, m))))

unless_some :
    {A : Type 0} (b : Bool) (o : Option A)
    → (b || (elim o [ none ↦ false | some _ ↦ true ])) ≡ false
    → o ≡ none
unless_some true o h = cc
unless_some false none h = refl
unless_some false (some x) h = cc

module _ (int_of : String → Option ℤ) (float_of : String → Option PyFloat)
    (is_digits : String → Bool) (replaced : Published → Bool) where
  -- A shown detail with a step code that isdigit() accepts and int() refuses.
  abbrev pub Unreadable : Details → Type 0
  Unreadable es =
      (e : Entry (Signed Compact)) × In e es
      × BadCode int_of float_of is_digits
          (map strip (split_char 44 (execution_steps_of e.detail.detail)))

  is_sampled-raises :
      (d : Compact)
      → is_sampled int_of float_of is_digits replaced d ≡ false
      → BadCode int_of float_of is_digits (map strip (split_char 44 (execution_steps_of d)))
  unfolding is_sampled
  is_sampled-raises d h =
      let samples =
        parse_step_latencies int_of float_of is_digits (execution_steps_of d) (step_latency_of d) in
      parse_step_latencies-raises int_of float_of is_digits (execution_steps_of d)
        (step_latency_of d) (unless_some (str_eq (execution_steps_of d) "") samples h)

  is_aggregated-raises :
      (es : Details) → is_aggregated int_of float_of is_digits replaced es ≡ false → Unreadable es
  unfolding is_aggregated
  is_aggregated-raises [] h = cc
  is_aggregated-raises (e ∷ es) h =
      elim (Bool-cases (is_sampled int_of float_of is_digits replaced e.detail.detail)) [
        | inr n ↦ (e, inl refl, is_sampled-raises e.detail.detail n)
        | inl y ↦
            let (x, i, bad) = is_aggregated-raises es (ground (arith, y, h)) in (x, inr i, bad)
      ]

  -- What the end of a collection does with a snapshot.
  emit-cases :
      (p : Published)
      → (emit int_of float_of is_digits replaced (some p) ≡ some p)
        ⊎ ((emit int_of float_of is_digits replaced (some p) ≡ none)
            × (Unreadable p.usable ⊎ (replaced p ≡ false)))
  unfolding emit
  emit-cases p = elim (Bool-cases (is_aggregated int_of float_of is_digits replaced p.usable)) [
    | inr n ↦ inr (rw n refl, inl (is_aggregated-raises p.usable n))
    | inl y ↦ elim (Bool-cases (replaced p)) [
      | inl r ↦ inl (rw (y, r) refl)
      | inr r ↦ inr (rw (y, r) refl, inr r)
    ]
  ]

module _ (upper sha : String → String) (dumps : Attrs → String)
    (digests : (s : String) → IsKey (sha s)) where
  session_signature-IsKey : (row : Attrs) → IsKey (session_signature upper sha dumps row)
  unfolding session_signature
  session_signature-IsKey row =
      elim (material row signature_keys)
        as (λ m. IsKey (elim m [
          | [] ↦ sha (dumps (("mac", active_mac upper row) ∷ []))
          | x ∷ xs ↦ sha (dumps (x ∷ xs))
        ])) [
          | [] ↦ digests (dumps (("mac", active_mac upper row) ∷ []))
          | x ∷ xs ↦ digests (dumps (x ∷ xs))
        ]

  -- The selected endpoints of an active list.
  abbrev pub selected_of : PostureConfig → List Attrs → List String
  selected_of cfg list = select sha cfg (macs_of (active_rows upper [] list))

  module _ (int_of : String → Option ℤ) (encode : Compact → Option String)
      (decode : String → Option Compact) (cfg : PostureConfig) (now : ℕ) (list : List Attrs)
      (answer : String → Option MntSessions) (order : List String → List String) where
    abbrev pub signatures_in : String → String
    signatures_in = signatures_of upper sha dumps (active_rows upper [] list)

    -- What the client does in a cycle whose requests are all answered.
    pub record Answers : Type 0 where
      pub completes : (mac : String) (macs : List String) → mem mac (order macs) ≡ mem mac macs
      pub details :
          (mac : String)
          → mem mac (selected_of cfg list) ≡ true
          → (x : Attrs) × (detail_of (answer mac) ≡ some x)
            × Storable encode decode (compact_detail x)

    answered :
        Answers
        → Answered encode decode signatures_in cfg now
            (length list)
            (length (macs_of (active_rows upper [] list)))
            (selected_of cfg list)
            answer
            order
    answered a =
        let keys = active_rows-IsKey upper [] list in
        let b = select_bounds sha cfg (macs_of (active_rows upper [] list)) keys.1 in
        record {
          keys =
              All-mem (λ m. IsKey m) (selected_of cfg list)
                (λ m s. mem-IsKey m (macs_of (active_rows upper [] list)) keys.0 (b.2 m s));
          size = omega (arith, b.1);
          signed = λ m. session_signature-IsKey (row_of (active_rows upper [] list) m);
          completes = a.completes;
          answers = a.details;
        }

    -- Take a collection whose active list is accepted and in which every selected endpoint's request
    -- is answered with a detail that can be stored, in whatever order the workers complete. It
    -- publishes, unless one of the shown details has a step code that isdigit() accepts and int()
    -- refuses, or the rest of the aggregation or the replacement of the metrics raises. In what it publishes, each planned endpoint
    -- is shown with a detail of its current session from this very cycle, and if the request budget
    -- defers nothing, each selected endpoint is shown with a detail of its current session that is
    -- younger than the period of refresh. Either way the table keeps one row for each key, so that the
    -- next collection meets the condition again.
    pub collect-FreshCycle :
        (float_of : String → Option PyFloat) (is_digits : String → Bool)
        (replaced : Published → Bool) (count_payload active : Option MntSessions) (rows : Table)
        → session_rows int_of cfg count_payload active ≡ some list
        → Answers
        → Keyed rows
        → (f : FreshCycle encode decode signatures_in cfg now
            (length list)
            (length (macs_of (active_rows upper [] list)))
            (selected_of cfg list)
            answer
            order
            rows)
          × (let done =
                collect int_of float_of is_digits replaced upper sha dumps encode decode cfg now
                  count_payload active answer order rows in
              (done ≡ (some f.out, f.left))
              ⊎ ((done ≡ (none, f.left))
                  × (Unreadable int_of float_of is_digits replaced f.out.usable
                      ⊎ (replaced f.out ≡ false))))
    unfolding collect
    collect-FreshCycle float_of is_digits replaced count_payload active rows e a h =
        let f =
          cycle-FreshCycle encode decode signatures_in cfg now (length list)
            (length (macs_of (active_rows upper [] list))) (selected_of cfg list) answer order rows
            (answered a) h in
        (
          f,
          elim (emit-cases int_of float_of is_digits replaced f.out) [
            | inl y ↦
                inl (rw (e, collect, f.returned) (ap (λ (p : Option Published). (p, f.left)) y))
            | inr (n, why) ↦
                inr
                  (rw (e, collect, f.returned) (ap (λ (p : Option Published). (p, f.left)) n), why)
          ],
        )
