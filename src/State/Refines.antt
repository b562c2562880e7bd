-- ===== src/State/Refines.antt =====
-- ise_exporter/state.py: a cache as a map from keys to rows.
use ise_exporter_v.Base.{
  ℕ, List, any, mem, Bool, false, ◌&&◌, ◌||◌, ◌+◌, ltb, leb, not, Option, none, some, String,
  str_eq, if◌then◌else◌, ◌≡◌, refl, sym, ap, ◌∙◌, arith, Bool-cases, Option-cases, inl, inr,
}
use mathlib.Core.Path.{subst}
use ise_exporter_v.Base.Int.{pos}
use ise_exporter_v.Base.Float.{finite}
use ise_exporter_v.State.Cache.{Row, cycle_row, finish_cache_cycle, finish_cycle}
use ise_exporter_v.State.Keyed.{
  Keyed, lookup_row, lookup_row-key, lookup-finish, finish-Keyed, finish_cycle-some,
}
use ise_exporter_v.State.Read.{cache_keys-mem}

module _ {V : Type 0} where
  grace_iff :
      (g : Bool) (now until : ℕ) (r : Row V)
      → (if not g || ltb until now then none else some r)
        ≡ (if g && leb now until then some r else none)
  grace_iff g now until r = ground arith

  -- What a cycle does to the row under a key.
  abbrev pub cycled : List String → ℕ → ℕ → String → Option (Row V) → Option (Row V)
  cycled active now grace k none = none
  cycled active now grace k (some r) =
      if mem k active
      then some (record r { last_seen = now })
      else if ltb 0 grace && leb now (r.last_seen + grace)
      then some r
      else none

  -- A cycle sees no more of its key list than which keys it has.
  cycle_row-cycled :
      (keys active : List String) (now grace : ℕ) (k : String) (r : Row V)
      → any (str_eq r.key) keys ≡ mem k active
      → cycle_row keys now grace r ≡ cycled active now grace k (some r)
  cycle_row-cycled keys active now grace k r e =
      ap
        (λ b.
          if b
          then some (record r { last_seen = now })
          else if not (ltb 0 grace) || ltb (r.last_seen + grace) now
          then none
          else some r)
        e
      ∙ elim (Bool-cases (mem k active)) [
        | inl m ↦ simp m refl
        | inr m ↦ simp m (grace_iff (ltb 0 grace) now (r.last_seen + grace) r)
      ]

  -- A cycle that returns is, for each key alone: an active row is marked as seen now, another row is
  -- kept while its grace lasts and deleted afterwards, and no row appears. The keys stay distinct.
  pub finish_cycle-refines :
      (active : List String) (now grace : ℕ) (rows : List (Row V)) (left : List (Row V))
      → Keyed rows
      → finish_cycle active (finite (pos now)) grace rows ≡ some left
      → Keyed left
        × ((k : String)
            → str_eq k "" ≡ false
            → lookup_row k left ≡ cycled active now grace k (lookup_row k rows))
  finish_cycle-refines active now grace rows left h e =
      let (t, keys, n, c, q) = finish_cycle-some active (finite (pos now)) grace rows e in
      let s : t ≡ now = ground (arith, n) in
      let q' : left ≡ finish_cache_cycle keys now grace rows =
        q ∙ ap (λ u. finish_cache_cycle keys u grace rows) s in
      (
        subst (λ l. Keyed l) (sym q') (finish-Keyed keys now grace rows h),
        λ k f.
            ap (lookup_row k) q'
            ∙ lookup-finish k keys now grace rows h
            ∙ elim (Option-cases (lookup_row k rows)) [
              | inl l ↦ rw l refl
              | inr (r, l) ↦
                  let j = lookup_row-key k rows r l in
                  let m : any (str_eq r.key) keys ≡ mem k active =
                    subst (λ z. mem z keys ≡ mem k active) j
                      (cache_keys-mem k active keys c ∙ ground (arith, f)) in
                  rw l (cycle_row-cycled keys active now grace k r m)
            ],
      )
