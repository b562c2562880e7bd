-- ===== src/State/Whole.antt =====
-- ise_exporter/state.py: a reset removes every target or none.
use ise_exporter_v.Base.{
  List, [], ◌∷◌, map, filter, any, all, Bool, true, false, ◌&&◌, not, Option, none, some, String,
  str_eq, str_append, if◌then◌else◌, ◌≡◌, refl, ap, ◌∙◌, arith, if-elim, Bool-cases, inl, inr,
}
use ise_exporter_v.Base.{unique}
use ise_exporter_v.State.Reset.{
  Metadata, Opened, unopened, in_use, locked, FileSystem, reset_targets, add_existing,
  existing_targets, add_locked, lock_targets, same_file, unchanged, unlink_targets, or_raise,
  remove_locked, remove_candidates, reset_exporter_state,
}

abbrev pub is_present : Option Metadata → Bool
is_present none = false
is_present (some m) = true

abbrev pub is_regular : Option Metadata → Bool
is_regular none = true
is_regular (some m) = m.regular

-- The file can be opened and locked, and the path names the same file afterwards.
abbrev pub held_through : Opened → Option Metadata → Bool
held_through unopened current = false
held_through (in_use m) current = false
held_through (locked m) current = m.regular && same_file current m

abbrev pub present : FileSystem → List String → List String
present fs = filter (λ p. is_present (fs.before p))

-- What the reset requires of its candidates.
abbrev pub removable : FileSystem → List String → Bool
removable fs candidates =
    all (λ p. is_regular (fs.before p)) candidates
    && all (λ p. held_through (fs.opens p) (fs.after p)) (present fs candidates)

add_existing_lem :
    (p : String) (o : Option Metadata) (b : Bool) (qs : List String)
    → add_existing p o (if b then some qs else none)
      ≡ (if is_regular o && b then some (if is_present o then p ∷ qs else qs) else none)
add_existing_lem p none b qs = refl
add_existing_lem p (some m) false qs = elim (Bool-cases m.regular) [
  | inl e ↦ rw e refl
  | inr e ↦ rw e refl
]
add_existing_lem p (some m) true qs = elim (Bool-cases m.regular) [
  | inl e ↦ rw e refl
  | inr e ↦ rw e refl
]

existing_lem :
    (fs : FileSystem) (ps : List String)
    → existing_targets fs.before ps
      ≡ (if all (λ p. is_regular (fs.before p)) ps then some (present fs ps) else none)
unfolding existing_targets
existing_lem fs [] = refl
existing_lem fs (p ∷ ps) =
    ap (add_existing p (fs.before p)) (existing_lem fs ps)
    ∙ add_existing_lem p (fs.before p) (all (λ q. is_regular (fs.before q)) ps) (present fs ps)

-- The locked targets, where every lock is taken.
abbrev Locked : FileSystem → List String → Option (List (String × Metadata)) → Type 0
Locked fs ps none = all (λ p. held_through (fs.opens p) (fs.after p)) ps ≡ false
Locked fs ps (some ts) =
    (map (λ t. t.0) ts ≡ ps)
    × (unchanged fs.after ts ≡ all (λ p. held_through (fs.opens p) (fs.after p)) ps)

and_false : (a b : Bool) → ((a && b) && false) ≡ false
and_false a b = ground arith

add_locked-Locked :
    (fs : FileSystem) (p : String) (ps : List String) (o : Opened)
    (rest : Option (List (String × Metadata)))
    → fs.opens p ≡ o
    → Locked fs ps rest
    → Locked fs (p ∷ ps) (add_locked p o rest)
unfolding unchanged
add_locked-Locked fs p ps unopened rest e h = rw e refl
add_locked-Locked fs p ps (in_use m) rest e h = rw e refl
add_locked-Locked fs p ps (locked m) none e h =
    rw (e, h) (and_false m.regular (same_file (fs.after p) m))
add_locked-Locked fs p ps (locked m) (some ts) e h =
    if-elim (Locked fs (p ∷ ps)) m.regular (λ r. (ap (λ l. p ∷ l) h.0, simp (e, r, h.1) refl))
      (λ r. simp (e, r) refl)

lock-Locked : (fs : FileSystem) (ps : List String) → Locked fs ps (lock_targets fs.opens ps)
unfolding lock_targets unchanged
lock-Locked fs [] = (refl, refl)
lock-Locked fs (p ∷ ps) = add_locked-Locked fs p ps (fs.opens p) _ refl (lock-Locked fs ps)

unlink_lem :
    (fs : FileSystem) (ts : List (String × Metadata))
    → ((p : String) → fs.unlinks p ≡ true)
    → unlink_targets fs.unlinks ts ≡ (false, map (λ t. t.0) ts)
unfolding unlink_targets
unlink_lem fs [] h = refl
unlink_lem fs (t ∷ ts) h = rw (h t.0, unlink_lem fs ts h) refl

locked_lem :
    (fs : FileSystem) (ps : List String) (o : Option (List (String × Metadata)))
    → ((p : String) → fs.unlinks p ≡ true)
    → Locked fs ps o
    → or_raise o (remove_locked fs)
      ≡ (if all (λ p. held_through (fs.opens p) (fs.after p)) ps then (false, ps) else (true, []))
unfolding remove_locked
locked_lem fs ps none u h = rw h refl
locked_lem fs ps (some ts) u h = simp (h.1, unlink_lem fs ts u, h.0) refl

remove_lem :
    (fs : FileSystem) (cs : List String)
    → ((p : String) → fs.unlinks p ≡ true)
    → remove_candidates fs cs ≡ (if removable fs cs then (false, present fs cs) else (true, []))
unfolding remove_candidates
remove_lem fs cs u =
    let held = locked_lem fs (present fs cs) _ u (lock-Locked fs (present fs cs)) in
    elim (Bool-cases (all (λ p. is_regular (fs.before p)) cs)) [
      | inl r ↦
          let e : existing_targets fs.before cs ≡ some (present fs cs) =
            existing_lem fs cs ∙ rw r refl in
          rw (e, r) held
      | inr r ↦
          let e : existing_targets fs.before cs ≡ none = existing_lem fs cs ∙ rw r refl in
          rw (e, r) refl
    ]

three_tests :
    {A : Type 0} (a b c : Bool) (x y : A)
    → (if not a then y else if b then y else if c then x else y)
      ≡ (if a && not b && c then x else y)
three_tests true true c x y = refl
three_tests true false c x y = refl
three_tests false b c x y = refl

-- Where every unlink works. A reset removes all its targets that exist, in order, and nothing else,
-- if no exporter or reset holds the state, the lock of the runtime is no target, every existing target is
-- a regular file before and after it is opened, can be locked, and is still the file of its path when
-- all are locked. Otherwise it raises and removes none.
pub reset_whole :
    (resolve : String → String) (state_path : String) (guard_paths : List String) (fs : FileSystem)
    → ((p : String) → fs.unlinks p ≡ true)
    → let targets = reset_targets resolve state_path guard_paths in
      let candidates = unique targets.0 in
      reset_exporter_state resolve state_path guard_paths fs ≡ (
        if fs.runtime_free
          && not (any (str_eq (str_append targets.1 ".runtime.lock")) candidates)
          && removable fs candidates
        then (false, present fs candidates)
        else (true, []))
unfolding reset_exporter_state
reset_whole resolve state_path guard_paths fs h =
    let targets = reset_targets resolve state_path guard_paths in
    let candidates = unique targets.0 in
    let blocked = any (str_eq (str_append targets.1 ".runtime.lock")) candidates in
    ap
      (λ (r : Bool × List String).
        if not fs.runtime_free then (true, []) else if blocked then (true, []) else r)
      (remove_lem fs candidates h)
    ∙ three_tests fs.runtime_free blocked (removable fs candidates) (false, present fs candidates)
        (true, [])
