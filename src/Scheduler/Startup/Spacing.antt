-- ===== src/Scheduler/Startup/Spacing.antt =====
-- What the startup slots guarantee.
use ise_exporter_v.Base.{
  ℕ, ◌+◌, ◌≤◌, max, any, str_eq, ◌≡◌, refl, arith, Bool, true, false, ◌⊎◌, inl, inr, Option, some,
  none, String, List, [], ◌∷◌, All, All-map, eq_iff,
}
use ise_exporter_v.Base.Float.{seconds}
use ise_exporter_v.Scheduler.Startup.{Slots, reserve}

-- A reserved start of a dataset.
pub record Start : Type 0 where
  pub name : String
  pub asked_at : ℕ
  pub starts_at : ℕ

abbrev keep : String → ℕ → Option ℕ → List Start → List Start
keep name now none rest = rest
keep name now (some t) rest = record { name = name; asked_at = now; starts_at = t } ∷ rest

-- The reservations that a sequence of calls makes, in order; each call has its time and its name.
abbrev pub reserve_all : ℕ → List (ℕ × String) → Slots → List Start
reserve_all spacing [] s = []
reserve_all spacing ((now, name) ∷ calls) s =
    let (start, s') = reserve spacing now name s in
    keep name now start (reserve_all spacing calls s')

-- Every start is at `t` or later and not before it was asked for.
abbrev pub NotBefore : ℕ → List Start → Type 0
NotBefore t = All (λ e. (t ≤ e.starts_at) × (e.asked_at ≤ e.starts_at))

-- Any later start of the list is at least `spacing` seconds after an earlier one.
abbrev pub Spaced : ℕ → List Start → Type 0
Spaced spacing [] = Unit {0}
Spaced spacing (e ∷ es) = NotBefore (e.starts_at + seconds spacing) es × Spaced spacing es

abbrev pub named : String → List Start → Bool
named name = any (λ e. str_eq e.name name)

abbrev pub DistinctNames : List Start → Type 0
DistinctNames [] = Unit {0}
DistinctNames (e ∷ es) = (named e.name es ≡ false) × DistinctNames es

reserve-cases :
    (spacing now : ℕ) (name : String) (s : Slots)
    → (reserve spacing now name s ≡ (none, s))
      ⊎ ((any (λ n. str_eq n name) s.started ≡ false)
          × (reserve spacing now name s ≡ (
            some (max now s.next_at),
            record { started = name ∷ s.started; next_at = max now s.next_at + seconds spacing },
          )))
unfolding reserve
reserve-cases spacing now name s = ground arith

NotBefore-weaken : (t u : ℕ) (es : List Start) → t ≤ u → NotBefore u es → NotBefore t es
NotBefore-weaken t u es h = All-map _ _ es (λ e b. omega arith)

reserve_all-NotBefore :
    (spacing : ℕ) (calls : List (ℕ × String)) (s : Slots)
    → NotBefore s.next_at (reserve_all spacing calls s)
reserve_all-NotBefore spacing [] s = tt
reserve_all-NotBefore spacing ((now, name) ∷ calls) s = elim (reserve-cases spacing now name s) [
  | inl waits ↦ rw waits (reserve_all-NotBefore spacing calls s)
  | inr (new, waits) ↦ rw waits (
    omega arith,
    NotBefore-weaken s.next_at (max now s.next_at + seconds spacing) _ (omega arith) (
        reserve_all-NotBefore spacing calls
          (record { started = name ∷ s.started; next_at = max now s.next_at + seconds spacing })),
  )
]

spaced :
    (spacing : ℕ) (calls : List (ℕ × String)) (s : Slots)
    → Spaced spacing (reserve_all spacing calls s)
spaced spacing [] s = tt
spaced spacing ((now, name) ∷ calls) s = elim (reserve-cases spacing now name s) [
  | inl waits ↦ rw waits (spaced spacing calls s)
  | inr (new, waits) ↦ rw waits (
      let s' : Slots = record {
        started = name ∷ s.started;
        next_at = max now s.next_at + seconds spacing;
      } in
      (reserve_all-NotBefore spacing calls s', spaced spacing calls s'))
]

any-other :
    (other name : String) (names : List String)
    → any (λ n. str_eq n name) names ≡ true
    → any (λ n. str_eq n other) names ≡ false
    → str_eq other name ≡ false
any-other other name [] h k = cc
any-other other name (n ∷ names) h k =
    ground (arith, any-other other name names, eq_iff n name, eq_iff n other, eq_iff other name)

-- Whatever the order and the times of the calls, the reserved starts lie in order, at least the
-- spacing apart, and none before the time of its call.
pub reserve_all-Spaced :
    (spacing : ℕ) (calls : List (ℕ × String)) (s : Slots)
    → Spaced spacing (reserve_all spacing calls s)
      × NotBefore s.next_at (reserve_all spacing calls s)
reserve_all-Spaced spacing calls s = (spaced spacing calls s, reserve_all-NotBefore spacing calls s)

started-named :
    (spacing : ℕ) (calls : List (ℕ × String)) (s : Slots) (name : String)
    → any (λ n. str_eq n name) s.started ≡ true
    → named name (reserve_all spacing calls s) ≡ false
started-named spacing [] s name h = refl
started-named spacing ((now, other) ∷ calls) s name h = elim (reserve-cases spacing now other s) [
  | inl waits ↦ rw waits (started-named spacing calls s name h)
  | inr (new, waits) ↦ rw waits (
      ground (
        arith,
        new,
        any-other other name s.started,
        started-named spacing calls
            (record { started = other ∷ s.started; next_at = max now s.next_at + seconds spacing })
            name,
      ))
]

-- Each dataset is given one slot at most.
pub reserve_all-DistinctNames :
    (spacing : ℕ) (calls : List (ℕ × String)) (s : Slots)
    → DistinctNames (reserve_all spacing calls s)
reserve_all-DistinctNames spacing [] s = tt
reserve_all-DistinctNames spacing ((now, name) ∷ calls) s =
    elim (reserve-cases spacing now name s) [
      | inl waits ↦ rw waits (reserve_all-DistinctNames spacing calls s)
      | inr (new, waits) ↦ rw waits (
          let s' : Slots = record {
            started = name ∷ s.started;
            next_at = max now s.next_at + seconds spacing;
          } in
          (
            started-named spacing calls s' name (ground (arith, eq_iff name name)),
            reserve_all-DistinctNames spacing calls s',
          ))
    ]
