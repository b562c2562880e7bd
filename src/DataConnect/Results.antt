-- ===== src/DataConnect/Results.antt =====
-- ise_exporter/clients/dataconnect.py: the results of a batch and its ceilings.
use ise_exporter_v.Base.{
  ℕ, ◌+◌, ◌≤◌, List, [], ◌∷◌, Bool, true, false, ◌||◌, Option, none, some, length, map,
  if◌then◌else◌, ◌≡◌, refl, arith, All, Bool-cases, inl, inr, ◌∙◌, ap, sym, suc, length-map,
}
use mathlib.Core.Path.{subst}
use ise_exporter_v.DataConnect.Gate.{Content}
use ise_exporter_v.DataConnect.Pacing.{Settings}
use ise_exporter_v.DataConnect.Connect.{Link, Linked, connected, refused, connect, close}
use ise_exporter_v.DataConnect.Rows.{Kept, fetch_rows, max_result_rows, max_batch_result_rows}
use ise_exporter_v.DataConnect.Query.{
  Client, Execution, fetched, broken, Try, Tried, answered, failed, execute, run_try, run_tries,
}
use ise_exporter_v.DataConnect.Batch.{
  first_state, Statement, Progress, Results, results, raised, prepend, settle, follow, next_lease,
  run_statement, run_batch,
}
use ise_exporter_v.DataConnect.Ceilings.{fits, total_size, fetch_rows_iff}

-- An answer within the ceilings.
abbrev pub Good : {Row : Type 0} → Kept → Tried Row → Type 0
Good k (failed f) = Unit {0}
Good k (answered rs b) = fits k (length rs) b ≡ true

abbrev pub Open : Kept → Type 0
Open k = (fits k 0 0 ≡ true) × (k.batch_active ≡ true)

-- The state and the answer after a statement, in a batch that had kept so many rows before it.
abbrev pub Settled : {Row : Type 0} → ℕ → Kept → Option (List Row) → Type 0
Settled before k none = Unit {0}
Settled before k (some rs) =
    (length rs ≤ max_result_rows) × (k.batch_rows ≡ before + length rs) × Open k

kept_more :
    (active : Bool) (u v n b : ℕ)
    → active ≡ true
    → fits (record { batch_active = active; batch_rows = u; batch_bytes = v }) n b ≡ true
    → (n ≤ max_result_rows)
      × (fits (record { batch_active = active; batch_rows = u + n; batch_bytes = v + b }) 0 0
          ≡ true)
kept_more true u v n b h g = (ground (arith, g), ground (arith, g))
kept_more false u v n b h g = grind (arith, h)

module _ {Row : Type 0} where
  execute-Good : (k : Kept) (e : Execution Row) → fits k 0 0 ≡ true → Good k (execute k e)
  unfolding execute
  execute-Good k (broken f) h = tt
  execute-Good k (fetched rs) h = elim (Bool-cases (fits k (length rs) (total_size rs))) [
    | inl y ↦
        let e : fetch_rows k [] 0 rs ≡ some (map (λ r. r.0) rs, total_size rs) =
          fetch_rows_iff k rs h ∙ rw y refl in
        let l : length (map (λ r. r.0) rs) ≡ length rs = length-map (λ r. r.0) rs in
        rw (Good, e) (rw l y)
    | inr n ↦
        let e : fetch_rows k [] 0 rs ≡ none = fetch_rows_iff k rs h ∙ rw n refl in rw (Good, e) tt
  ]

  try_end-Good :
      (k : Kept) (after : Link) (linked : Linked) (result : Tried Row)
      → Good k result
      → let r : Link × Tried Row = elim linked [
        | refused f ↦ (close after, failed f)
        | connected ↦ elim result [
          | answered rs b ↦ (after, answered rs b)
          | failed f ↦ (close after, failed f)
        ]
      ] in
        Good k r.1
  try_end-Good k after (refused f) result h = tt
  try_end-Good k after connected (failed f) h = tt
  try_end-Good k after connected (answered rs b) h = h

  run_try-Good :
      (s : Settings) (k : Kept) (t : Try Row) (l : Link)
      → fits k 0 0 ≡ true
      → Good k (run_try s k t l).1
  unfolding run_try
  run_try-Good s k t l h =
      try_end-Good k _ (connect s t.attempt l).1 _ (execute-Good k t.execution h)

  tries_end-Good :
      (k : Kept) (first second : Link × Tried Row)
      → Good k first.1
      → Good k second.1
      → let r : Link × Tried Row = elim first.1 [
        | answered rs b ↦ (first.0, answered rs b)
        | failed f ↦ if f.retryable then second else (first.0, failed f)
      ] in
        Good k r.1
  tries_end-Good k (after, answered rs b) second h h' = h
  tries_end-Good k (after, failed f) second h h' = elim (Bool-cases f.retryable) [
    | inl y ↦ rw y h'
    | inr n ↦ rw n tt
  ]

  run_tries-Good :
      (s : Settings) (k : Kept) (first second : Try Row) (l : Link)
      → fits k 0 0 ≡ true
      → Good k (run_tries s k first second l).1
  unfolding run_tries
  run_tries-Good s k first second l h =
      tries_end-Good k (run_try s k first l) _ (run_try-Good s k first l h)
        (run_try-Good s k second _ h)

  settle-Kept :
      (s : Settings) (q : Statement Row) (p : Progress) (t : Tried Row)
      → Open p.kept
      → Good p.kept t
      → Settled p.kept.batch_rows (settle s q p t).0.kept (settle s q p t).1
  unfolding settle
  settle-Kept s q p (failed f) h g = tt
  settle-Kept s q p (answered rs b) h g = elim (Bool-cases q.done_works) [
    | inr n ↦ rw n tt
    | inl w ↦
        let (few, open_) =
          kept_more p.kept.batch_active p.kept.batch_rows p.kept.batch_bytes (length rs) b h.1 g in
        rw w (few, refl, (open_, h.1))
  ]

  run_statement-Kept :
      (s : Settings) (q : Statement Row) (p : Progress)
      → Open p.kept
      → Settled p.kept.batch_rows (run_statement s q p).0.kept (run_statement s q p).1
  unfolding run_statement
  run_statement-Kept s q p h =
      settle-Kept s q _ _ h (run_tries-Good s p.kept q.first q.second p.link h.0)

  abbrev total_rows : List (List Row) → ℕ
  total_rows [] = 0
  total_rows (rs ∷ rss) = length rs + total_rows rss

  -- The results of so many statements, in a batch that had kept so many rows before them.
  abbrev pub Bounded : ℕ → ℕ → Results Row → Type 0
  Bounded before n raised = Unit {0}
  Bounded before n (results rss) =
      (length rss ≡ n)
      × (before + total_rows rss ≤ max_batch_result_rows)
      × All (λ rs. length rs ≤ max_result_rows) rss

  prepend-Bounded :
      (before n : ℕ) (rs : List Row) (out : Results Row)
      → length rs ≤ max_result_rows
      → Bounded (before + length rs) n out
      → Bounded before (suc n) (prepend rs out)
  prepend-Bounded before n rs raised few h = tt
  prepend-Bounded before n rs (results rss) few h = (ap suc h.0, omega (arith, h.1), (few, h.2))

  follow-Bounded :
      (before n : ℕ) (after : Progress) (answer : Option (List Row)) (more : Progress × Results Row)
      → Settled before after.kept answer
      → (Open after.kept → Bounded after.kept.batch_rows n more.1)
      → Bounded before (suc n) (follow after answer more).1
  unfolding follow
  follow-Bounded before n after none more h k = tt
  follow-Bounded before n after (some rs) more h k =
      prepend-Bounded before n rs more.1 h.0 (subst (λ m. Bounded m n more.1) h.1 (k h.2))

  ready-kept :
      (s : Settings) (is_first : Bool) (q : Statement Row) (p : Progress)
      → (if is_first then p else next_lease s q p).kept ≡ p.kept
  unfolding next_lease
  ready-kept s true q p = refl
  ready-kept s false q p = refl

  run_batch-Bounded :
      (s : Settings) (is_first : Bool) (qs : List (Statement Row)) (p : Progress)
      → Open p.kept
      → Bounded p.kept.batch_rows (length qs) (run_batch s is_first qs p).1
  unfolding run_batch
  run_batch-Bounded s is_first [] p h = (refl, ground (arith, h.0, h.1), tt)
  run_batch-Bounded s is_first (q ∷ qs) p h =
      let ready = if is_first then p else next_lease s q p in
      let e = ready-kept s is_first q p in
      let (after, answer) = run_statement s q ready in
      let settled : Settled p.kept.batch_rows after.kept answer =
        subst (λ k. Settled k.batch_rows after.kept answer) e
          (run_statement-Kept s q ready (subst Open (sym e) h)) in
      elim (Bool-cases (is_first || q.gap_ends)) [
        | inr off ↦ rw off tt
        | inl on ↦ rw on (
            follow-Bounded p.kept.batch_rows (length qs) after answer (run_batch s false qs after)
              settled (run_batch-Bounded s false qs after))
      ]

  -- The loop of a batch gives one result for each statement, in all at most the ceiling on a
  -- batch's rows, and each at most the ceiling on a result's rows; or it fails.
  pub first_state-Bounded :
      (s : Settings) (qs : List (Statement Row)) (c : Client) (lease : Option Content)
      → Bounded 0 (length qs) (run_batch s true qs (first_state c lease)).1
  first_state-Bounded s qs c lease = run_batch-Bounded s true qs (first_state c lease) (refl, refl)
