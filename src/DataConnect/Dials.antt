-- ===== src/DataConnect/Dials.antt =====
-- ise_exporter/clients/dataconnect.py: how often the client dials a database that refuses it.
use ise_exporter_v.Base.{
  ℕ, ◌+◌, ◌-◌, ◌≤◌, ◌<◌, max, List, [], ◌∷◌, false, ltb, leb, if◌then◌else◌, ◌≡◌, refl, arith, All,
  Bool-cases, inl, inr, leb→le, le→leb, ◌⊎◌, ◌∙◌,
}
use ise_exporter_v.Base.Float.{seconds}
use ise_exporter_v.AuthGuard.State.{blocked}
use ise_exporter_v.DataConnect.Pacing.{Settings, failure_threshold, failure_backoff}
use ise_exporter_v.DataConnect.Connect.{
  Link, Fault, rejected, Attempt, dial_failed, dialled_with, connect, close,
}

-- connect() for each attempt in turn, with a close after each.
unfoldable pub connects : Settings → List Attempt → Link → Link
connects s [] k = k
connects s (a ∷ as_) k = connects s as_ (close (connect s a k).0)

-- An attempt that starts and fails within a backoff's length of time from `start` on.
abbrev pub RefusedIn : Settings → ℕ → Attempt → Type 0
RefusedIn s start a =
    ((f : Fault) × (a.dial ≡ rejected f))
    × (a.mono < start + seconds (failure_backoff s))
    × (start ≤ a.failed_mono)

-- What an attempt does to a closed connection: no dial, or one that fails.
abbrev Undialled : Link → Link → Type 0
Undialled k k' =
    (k'.open_ ≡ false)
    × (k'.dialled ≡ k.dialled)
    × (k'.connect_failures ≡ k.connect_failures)
    × (k'.blocked_until ≡ k.blocked_until)

abbrev Dialled : Settings → Attempt → Link → Link → Type 0
Dialled s a k k' =
    (k'.open_ ≡ false)
    × (k'.dialled ≡ k.dialled + 1)
    × (k'.connect_failures ≡ k.connect_failures + 1)
    × (failure_threshold s ≤ k.connect_failures + 1
        → k'.blocked_until ≡ a.failed_mono + seconds (failure_backoff s))

dial_failed-Dialled :
    (s : Settings) (a : Attempt) (f : Fault) (k : Link)
    → k.open_ ≡ false
    → Dialled s a k (dial_failed s a f (record k { dialled = k.dialled + 1 })).0
unfolding dial_failed
dial_failed-Dialled s a f k o =
    let until : failure_threshold s ≤ k.connect_failures + 1
        → (if leb (failure_threshold s) (k.connect_failures + 1)
            then a.failed_mono + seconds (failure_backoff s)
            else k.blocked_until)
          ≡ a.failed_mono + seconds (failure_backoff s) =
      λ l. rw (le→leb (failure_threshold s) (k.connect_failures + 1) l) refl in
    elim (Bool-cases f.authentication) [
      | inr n ↦ rw n (o, refl, refl, until)
      | inl y ↦ elim (Bool-cases a.record_works) [
        | inl w ↦ rw (y, w) (o, refl, refl, until)
        | inr n ↦ rw (y, n) (o, refl, refl, until)
      ]
    ]

-- Where the guard cannot be asked, blocks, or the reconnects are suppressed, nothing is dialled.
connect_cases :
    (s : Settings) (a : Attempt) (f : Fault) (k : Link)
    → k.open_ ≡ false
    → a.dial ≡ rejected f
    → Undialled k (connect s a k).0 ⊎ ((k.blocked_until ≤ a.mono) × Dialled s a k (connect s a k).0)
unfolding connect dialled_with
connect_cases s a f k o d = elim (Bool-cases a.guard_works) [
  | inr n ↦ simp (o, n) (inl (refl, refl, refl, refl))
  | inl w ↦ elim (Bool-cases (blocked a.wall k.guard).1) [
    | inl b ↦ simp (o, w, b) (inl (refl, refl, refl, refl))
    | inr free ↦ elim (Bool-cases (ltb a.mono k.blocked_until)) [
      | inl l ↦ simp (o, w, free, l) (inl (refl, refl, refl, refl))
      | inr past ↦
          let reached =
            dial_failed-Dialled s a f
              (record k { open_ = false; guard = (blocked a.wall k.guard).0 }) refl in
          simp (o, w, free, past, d) (inr (ground (arith, past), reached))
    ]
  ]
]

pub connects_suppressed :
    (s : Settings) (start : ℕ) (as_ : List Attempt) (k : Link)
    → k.open_ ≡ false
    → start + seconds (failure_backoff s) ≤ k.blocked_until
    → All (RefusedIn s start) as_
    → (connects s as_ k).dialled ≡ k.dialled
unfolding connects
connects_suppressed s start [] k o b h = refl
connects_suppressed s start (a ∷ as_) k o b h =
    let (refusal, early, late) = h.0 in
    elim (connect_cases s a refusal.0 k o refusal.1) [
      | inr r ↦ absurd (omega (arith, r.0, early, b))
      | inl u ↦
          let rest_ =
            connects_suppressed s start as_ (close (connect s a k).0) refl (omega (arith, u.3, b))
              h.1 in
          rest_ ∙ u.1
    ]

-- From a closed connection, while every dial is refused and the attempts stay within the length of
-- the backoff from `start` on: the database is dialled at most as often as failures are left to the
-- threshold, and once where none is left.
pub connects_bound :
    (s : Settings) (start : ℕ) (as_ : List Attempt) (k : Link)
    → k.open_ ≡ false
    → All (RefusedIn s start) as_
    → (connects s as_ k).dialled ≤ k.dialled + max 1 (failure_threshold s - k.connect_failures)
unfolding connects
connects_bound s start [] k o h = omega arith
connects_bound s start (a ∷ as_) k o h =
    let (refusal, early, late) = h.0 in
    let k' = close (connect s a k).0 in
    let more = connects_bound s start as_ k' refl h.1 in
    elim (connect_cases s a refusal.0 k o refusal.1) [
      | inl u ↦ omega (arith, more, u.1, u.2)
      | inr (past, d) ↦ elim (Bool-cases (leb (failure_threshold s) (k.connect_failures + 1))) [
        | inl full ↦
            let e = d.3 (leb→le _ _ full) in
            let still = connects_suppressed s start as_ k' refl (omega (arith, e, late)) h.1 in
            omega (arith, still, d.1)
        | inr few ↦ ground (arith, few, more, d.1, d.2)
      ]
    ]
