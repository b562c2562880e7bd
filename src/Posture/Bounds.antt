-- ===== src/Posture/Bounds.antt =====
-- ise_exporter/collectors/mnt_active_posture.py: what a cycle asks for.
use ise_exporter_v.Base.{
  ℕ, zero, suc, ◌+◌, ◌≤◌, ◌<◌, List, [], ◌∷◌, ◌++◌, filter, take, mem, Distinct, true, false, not,
  ◌&&◌, ◌||◌, String, length, leb, ◌≡◌, refl, sym, ap, ◌∙◌, arith, mem-take, take-Distinct,
  length-take_le, take_all, mem-unique, mem-append, mem-filter, unique_after-Distinct,
}
use Prim.Native.String.{compare}
use text.Mathlib.Text.{is_le}
use ise_exporter_v.Base.Float.{seconds}
use ise_exporter_v.State.Cache.{Entry}
use ise_exporter_v.State.Tables.{Signed}
use ise_exporter_v.Posture.Sort.{sorted, mem-sorted, sorted-Distinct}
use ise_exporter_v.Posture.Plan.{
  PostureConfig, limit, request_budget, refresh_ttl, select, is_unchanged, updated, mandatory,
  oldest, is_expired, rotation_target, refresh, planned, deferred,
}

-- The selection takes distinct candidates, at most `limit` of them.
pub select_bounds :
    (sha : String → String) (cfg : PostureConfig) (candidates : List String)
    → Distinct candidates
    → Distinct (select sha cfg candidates)
      × (length (select sha cfg candidates) ≤ limit cfg)
      × ((mac : String) → mem mac (select sha cfg candidates) ≡ true → mem mac candidates ≡ true)
unfolding select
select_bounds sha cfg candidates d =
    let le = λ (x y : String). is_le (compare (sha x) (sha y)) in
    (
      take-Distinct (limit cfg) (sorted le candidates) (sorted-Distinct le candidates d),
      length-take_le (limit cfg) (sorted le candidates),
      λ mac e.
          sym (mem-sorted le mac candidates) ∙ mem-take mac (limit cfg) (sorted le candidates) e,
    )

take_nil : (n : ℕ) (xs : List String) → 0 < n → take n xs ≡ [] → xs ≡ []
take_nil zero xs h e = absurd (omega (arith, h))
take_nil (suc n) [] h e = refl
take_nil (suc n) (x ∷ xs) h e = absurd (ground (arith, e))

module _ {D : Type 0} (cached : List (Entry (Signed D))) (signatures : String → String)
    (cfg : PostureConfig) (now : ℕ) (selected : List String) where
  mem-oldest :
      (mac : String)
      → mem mac (oldest cached signatures selected)
        ≡ (mem mac selected && is_unchanged cached signatures mac)
  unfolding oldest
  mem-oldest mac =
      mem-sorted (λ x y. leb (updated cached signatures x) (updated cached signatures y)) mac
        (filter (is_unchanged cached signatures) selected)
      ∙ mem-filter (is_unchanged cached signatures) mac selected

  mem-refresh :
      (mac : String)
      → mem mac (refresh cached signatures cfg now selected) ≡ (
          mem mac (mandatory cached signatures selected)
          || (mem mac
                (filter (is_expired cached signatures cfg now) (oldest cached signatures selected))
              || mem mac (
                  take
                    (rotation_target cached signatures cfg selected)
                    (oldest cached signatures selected))))
  unfolding refresh
  mem-refresh mac =
      let m = mandatory cached signatures selected in
      let x = filter (is_expired cached signatures cfg now) (oldest cached signatures selected) in
      let r =
        take (rotation_target cached signatures cfg selected) (oldest cached signatures selected) in
      mem-unique mac (m ++ (x ++ r))
      ∙ mem-append mac m (x ++ r)
      ∙ ap (λ b. mem mac m || b) (mem-append mac x r)

  -- Only selected endpoints are asked for, and each that is new, changed or expired.
  pub refresh_sound :
      (mac : String)
      → mem mac (refresh cached signatures cfg now selected) ≡ true
      → mem mac selected ≡ true
  unfolding mandatory
  refresh_sound mac e =
      let old = oldest cached signatures selected in
      let m = mem-filter (λ k. not (is_unchanged cached signatures k)) mac selected in
      let x = mem-filter (is_expired cached signatures cfg now) mac old in
      let r = mem-take mac (rotation_target cached signatures cfg selected) old in
      ground (arith, e, mem-refresh mac, m, x, r, mem-oldest mac)

  pub refresh_complete :
      (mac : String)
      → mem mac selected ≡ true
      → mem mac (refresh cached signatures cfg now selected) ≡ false
      → (is_unchanged cached signatures mac ≡ true)
        × (now < updated cached signatures mac + seconds (refresh_ttl cfg))
  unfolding mandatory
  refresh_complete mac s e =
      let old = oldest cached signatures selected in
      let m = mem-filter (λ k. not (is_unchanged cached signatures k)) mac selected in
      let x = mem-filter (is_expired cached signatures cfg now) mac old in
      let u : is_unchanged cached signatures mac ≡ true =
        ground (arith, e, s, mem-refresh mac, m) in
      let n : is_expired cached signatures cfg now mac ≡ false =
        ground (arith, e, s, u, mem-refresh mac, x, mem-oldest mac) in
      (u, ground (arith, n))

  refresh-Distinct : Distinct (refresh cached signatures cfg now selected)
  unfolding refresh
  refresh-Distinct = unique_after-Distinct [] _

  -- The planned requests.
  pub planned_bounds :
      Distinct (planned cached signatures cfg now selected)
      × (length (planned cached signatures cfg now selected) ≤ request_budget cfg)
      × ((mac : String)
          → mem mac (planned cached signatures cfg now selected) ≡ true
          → mem mac selected ≡ true)
  unfolding planned
  planned_bounds =
      let r = refresh cached signatures cfg now selected in
      (
        take-Distinct (request_budget cfg) r refresh-Distinct,
        length-take_le (request_budget cfg) r,
        λ mac e. refresh_sound mac (mem-take mac (request_budget cfg) r e),
      )

  planned_all :
      deferred cached signatures cfg now selected ≡ 0
      → planned cached signatures cfg now selected ≡ refresh cached signatures cfg now selected
  unfolding planned deferred
  planned_all e =
      let r = refresh cached signatures cfg now selected in
      let l = length-take_le (request_budget cfg) r in
      take_all (request_budget cfg) r (omega (arith, e, l))

  -- With nothing deferred, an endpoint that is not asked for has a detail of its current session,
  -- younger than the period of refresh.
  pub unplanned_fresh :
      (mac : String)
      → deferred cached signatures cfg now selected ≡ 0
      → mem mac selected ≡ true
      → mem mac (planned cached signatures cfg now selected) ≡ false
      → (is_unchanged cached signatures mac ≡ true)
        × (now < updated cached signatures mac + seconds (refresh_ttl cfg))
  unplanned_fresh mac e s h = refresh_complete mac s (ap (mem mac) (sym (planned_all e)) ∙ h)

  -- Where nothing is asked for, everything selected is unchanged.
  pub planned_nil :
      (mac : String)
      → planned cached signatures cfg now selected ≡ []
      → mem mac selected ≡ true
      → is_unchanged cached signatures mac ≡ true
  unfolding planned
  planned_nil mac e s =
      let r =
        take_nil (request_budget cfg) (refresh cached signatures cfg now selected) (omega arith)
          e in
      (refresh_complete mac s (ap (mem mac) r)).0
