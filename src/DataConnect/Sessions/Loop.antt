-- ===== src/DataConnect/Sessions/Loop.antt =====
-- ise_exporter/clients/dataconnect.py: the pacing file through the loop of a batch.
use ise_exporter_v.Base.{
  ℕ, List, [], ◌∷◌, Bool, true, false, ◌||◌, Option, none, some, if◌then◌else◌, ◌≡◌, refl, ◌∙◌,
  arith, Bool-cases, inl, inr,
}
use ise_exporter_v.DataConnect.Pacing.{Settings}
use ise_exporter_v.DataConnect.Gate.{Content, deadline, close_gate}
use ise_exporter_v.DataConnect.Query.{Tried, answered, failed}
use ise_exporter_v.DataConnect.Batch.{
  settle, follow, Statement, Progress, Results, rewrite, next_lease, run_statement, run_batch,
}

abbrev pub has_file : Option Content → Bool
has_file none = false
has_file (some f) = true

pub rewrite-has : (file : Option Content) (t : ℕ) → has_file (rewrite file t) ≡ has_file file
rewrite-has none t = refl
rewrite-has (some f) t = refl

pub close_gate-has :
    (works : Bool) (t : ℕ) (file : Option Content)
    → works ≡ true
    → has_file file ≡ true
    → close_gate none works t file ≡ some (deadline t)
unfolding close_gate
close_gate-has works t none w h = grind (arith, h)
close_gate-has works t (some f) w h = rw w refl

module _ {Row : Type 0} where
  settle-file :
      (s : Settings) (q : Statement Row) (p : Progress) (t : Tried Row)
      → has_file (settle s q p t).0.file ≡ has_file p.file
  unfolding settle
  settle-file s q p (failed f) = refl
  settle-file s q p (answered rs b) = elim (Bool-cases q.done_works) [
    | inl w ↦ rw w (rewrite-has p.file _)
    | inr n ↦ rw n refl
  ]

  run_statement-file :
      (s : Settings) (q : Statement Row) (p : Progress)
      → has_file (run_statement s q p).0.file ≡ has_file p.file
  unfolding run_statement
  run_statement-file s q p = settle-file s q _ _

  follow-file :
      (after : Progress) (answer : Option (List Row)) (more : Progress × Results Row) (b : Bool)
      → has_file after.file ≡ b
      → has_file more.0.file ≡ b
      → has_file (follow after answer more).0.file ≡ b
  unfolding follow
  follow-file after none more b h k = h
  follow-file after (some rs) more b h k = k

  ready-file :
      (s : Settings) (is_first : Bool) (q : Statement Row) (p : Progress)
      → has_file (if is_first then p else next_lease s q p).file ≡ has_file p.file
  unfolding next_lease
  ready-file s true q p = refl
  ready-file s false q p = rewrite-has p.file _

  -- The loop keeps the file.
  pub run_batch-file :
      (s : Settings) (is_first : Bool) (qs : List (Statement Row)) (p : Progress)
      → has_file (run_batch s is_first qs p).0.file ≡ has_file p.file
  unfolding run_batch
  run_batch-file s is_first [] p = refl
  run_batch-file s is_first (q ∷ qs) p =
      let ready = if is_first then p else next_lease s q p in
      let (after, answer) = run_statement s q ready in
      let e : has_file after.file ≡ has_file p.file =
        run_statement-file s q ready ∙ ready-file s is_first q p in
      elim (Bool-cases (is_first || q.gap_ends)) [
        | inl on ↦ rw on (
            follow-file after answer (run_batch s false qs after) (has_file p.file) e
              (run_batch-file s false qs after ∙ e))
        | inr off ↦ rw off refl
      ]
