-- ===== src/State/Reset.antt =====
-- ise_exporter/state.py: reset_exporter_state. What the file system answers at each stage is an
-- argument, and so is os.path.abspath(os.path.expanduser(path)).
use ise_exporter_v.Base.{
  ℕ, List, [], ◌∷◌, ◌++◌, map, filter, any, Bool, true, false, ◌&&◌, not, ◌==◌, ◌||◌, Option, none,
  some, String, str_eq, str_append, if◌then◌else◌,
}
use ise_exporter_v.Base.{unique, unique_after}

-- What lstat or fstat says of a path: whether it is a regular file, and its device and inode.
pub record Metadata : Type 0 where
  pub regular : Bool
  pub inode : ℕ

-- How os.open, fstat and flock go.
pub data Opened : Type 0 where
  unopened : Opened
  in_use : Metadata → Opened
  locked : Metadata → Opened

-- The answers of one call: whether the runtime lock can be taken, lstat before (`none` where no file
-- is there), os.open, lstat after the locks, and whether each unlink works.
pub record FileSystem : Type 0 where
  pub runtime_free : Bool
  pub before : String → Option Metadata
  pub opens : String → Opened
  pub after : String → Option Metadata
  pub unlinks : String → Bool

-- The targets, and the path of the runtime state.
unfoldable pub reset_targets : (String → String) → String → List String → List String × String
reset_targets resolve state_path guard_paths =
    let guards = map resolve (filter (λ p. not (str_eq p "")) guard_paths) in
    let target = resolve state_path in
    if str_eq state_path "" || str_eq state_path ":memory:"
    then (guards, "/tmp/ise-exporter-memory-state")
    else (map (str_append target) ("" ∷ "-wal" ∷ "-shm" ∷ []) ++ guards, target)

abbrev pub add_existing : String → Option Metadata → Option (List String) → Option (List String)
add_existing p none rest = rest
add_existing p (some m) none = none
add_existing p (some m) (some qs) = if m.regular then some (p ∷ qs) else none

-- The preflight over the candidates: those that exist, or an OSError.
unfoldable pub existing_targets : (String → Option Metadata) → List String → Option (List String)
existing_targets lstat [] = some []
existing_targets lstat (p ∷ ps) =
    let rest = existing_targets lstat ps in add_existing p (lstat p) rest

abbrev pub add_locked :
    String → Opened → Option (List (String × Metadata)) → Option (List (String × Metadata))
add_locked p unopened rest = none
add_locked p (in_use m) rest = none
add_locked p (locked m) none = none
add_locked p (locked m) (some qs) = if m.regular then some ((p, m) ∷ qs) else none

-- The locks, all before the first unlink.
unfoldable pub lock_targets : (String → Opened) → List String → Option (List (String × Metadata))
lock_targets opens [] = some []
lock_targets opens (p ∷ ps) = let rest = lock_targets opens ps in add_locked p (opens p) rest

-- A path that still names the locked file.
abbrev pub same_file : Option Metadata → Metadata → Bool
same_file none m = false
same_file (some current) m = current.inode == m.inode

unfoldable pub unchanged : (String → Option Metadata) → List (String × Metadata) → Bool
unchanged lstat [] = true
unchanged lstat (t ∷ ts) = let rest = unchanged lstat ts in same_file (lstat t.0) t.1 && rest

-- The unlinks in turn, up to the first that raises: whether one does, and the paths removed.
unfoldable pub unlink_targets : (String → Bool) → List (String × Metadata) → Bool × List String
unlink_targets unlinks [] = (false, [])
unlink_targets unlinks (t ∷ ts) =
    let rest = unlink_targets unlinks ts in
    if unlinks t.0 then (rest.0, t.0 ∷ rest.1) else (true, [])

-- What follows an answer; an exception removes nothing.
abbrev pub or_raise : {A : Type 0} → Option A → (A → Bool × List String) → Bool × List String
or_raise none f = (true, [])
or_raise (some a) f = f a

-- The locked targets: the check of their paths, and the unlinks.
unfoldable pub remove_locked : FileSystem → List (String × Metadata) → Bool × List String
unfolding unchanged unlink_targets
remove_locked fs targets =
    if unchanged fs.after targets then unlink_targets fs.unlinks targets else (true, [])

-- The candidates, from the preflight on.
unfoldable pub remove_candidates : FileSystem → List String → Bool × List String
unfolding existing_targets lock_targets remove_locked
remove_candidates fs candidates =
    or_raise (existing_targets fs.before candidates)
      (λ existing. or_raise (lock_targets fs.opens existing) (remove_locked fs))

-- reset_exporter_state(state_path, guard_paths): whether it raises, and the paths that it removed
unfoldable pub reset_exporter_state :
    (String → String) → String → List String → FileSystem → Bool × List String
unfolding reset_targets unique_after remove_candidates
reset_exporter_state resolve state_path guard_paths fs =
    let (paths, runtime_state) = reset_targets resolve state_path guard_paths in
    let candidates = unique paths in
    if not fs.runtime_free
    then (true, [])
    else if any (str_eq (str_append runtime_state ".runtime.lock")) candidates
    then (true, [])
    else remove_candidates fs candidates
