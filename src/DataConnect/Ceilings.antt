-- ===== src/DataConnect/Ceilings.antt =====
-- ise_exporter/clients/dataconnect.py: the ceilings on the rows of a result and of a batch.
use ise_exporter_v.Base.{
  ℕ, ◌+◌, List, [], ◌∷◌, ◌++◌, map, Bool, true, false, ◌&&◌, ◌||◌, not, none, some, length, ltb,
  leb, if◌then◌else◌, ◌≡◌, refl, arith, append-nil, append_assoc, length-append, Bool-cases, inl,
  inr, suc, ◌∙◌,
}
use ise_exporter_v.DataConnect.Rows.{
  Kept, fetch_rows, max_result_rows, max_batch_result_rows, max_result_bytes,
}

abbrev pub total_size : {Row : Type 0} → List (Row × ℕ) → ℕ
total_size [] = 0
total_size (r ∷ rs) = r.1 + total_size rs

-- A result of so many rows and bytes is within every ceiling, in a batch that has kept some before.
abbrev within : Bool → ℕ → ℕ → ℕ → ℕ → Bool
within active batch_rows batch_bytes rows bytes =
    leb rows max_result_rows
    && (not active || leb (batch_rows + rows) max_batch_result_rows)
    && leb ((if active then batch_bytes else 0) + bytes) max_result_bytes

abbrev pub fits : Kept → ℕ → ℕ → Bool
fits k rows bytes = within k.batch_active k.batch_rows k.batch_bytes rows bytes

-- The tests of the loop on the next row, where the rows before it fit.
within-suc :
    (active : Bool) (u v n b x : ℕ)
    → (leb max_result_rows n
        || (active && leb max_batch_result_rows (u + n))
        || ltb max_result_bytes ((if active then v else 0) + (b + x)))
      ≡ not (within active u v (suc n) (b + x))
within-suc true u v n b x = ground arith
within-suc false u v n b x = ground arith

within_less :
    (active : Bool) (u v n b i j : ℕ)
    → within active u v n b ≡ false
    → within active u v (n + i) (b + j) ≡ false
within_less true u v n b i j h = ground (arith, h)
within_less false u v n b i j h = ground (arith, h)

one_test :
    {A : Type 0} (p q r : Bool) (x m : A)
    → (if p then x else if q then x else if r then x else m) ≡ (if p || q || r then x else m)
one_test true q r x m = refl
one_test false true r x m = refl
one_test false false true x m = refl
one_test false false false x m = refl

module _ {Row : Type 0} where
  fetch_rows_from :
      (k : Kept) (rows : List Row) (bytes : ℕ) (rs : List (Row × ℕ))
      → fits k (length rows) bytes ≡ true
      → fetch_rows k rows bytes rs ≡ (
          if fits k (length rows + length rs) (bytes + total_size rs)
          then some (rows ++ map (λ r. r.0) rs, bytes + total_size rs)
          else none)
  unfolding fetch_rows
  fetch_rows_from k rows bytes [] h =
      let e : length rows + 0 ≡ length rows = omega arith in
      let e' : bytes + 0 ≡ bytes = omega arith in simp (e, e', h, append-nil) refl
  fetch_rows_from k rows bytes (r ∷ rs) h =
      let n = length rows in
      let e : n + suc (length rs) ≡ suc n + length rs = omega arith in
      let e' : bytes + (r.1 + total_size rs) ≡ bytes + r.1 + total_size rs = omega arith in
      one_test (leb max_result_rows n)
        (k.batch_active && leb max_batch_result_rows (k.batch_rows + n))
        (ltb max_result_bytes ((if k.batch_active then k.batch_bytes else 0) + (bytes + r.1))) none
        (fetch_rows k (rows ++ r.0 ∷ []) (bytes + r.1) rs)
      ∙ rw (within-suc k.batch_active k.batch_rows k.batch_bytes n bytes r.1, e, e')
          (elim (Bool-cases (fits k (suc n) (bytes + r.1))) [
            | inl f ↦
                let l : length (rows ++ r.0 ∷ []) ≡ suc n =
                  length-append rows (r.0 ∷ []) ∙ omega arith in
                let more = fetch_rows_from k (rows ++ r.0 ∷ []) (bytes + r.1) rs (rw l f) in
                rw (f, more, l, append_assoc rows (r.0 ∷ []) (map (λ x. x.0) rs)) refl
            | inr f ↦
                rw
                  (
                    f,
                    within_less k.batch_active k.batch_rows k.batch_bytes (suc n) (bytes + r.1)
                        (length rs) (total_size rs) f,
                  )
                  refl
          ])

  -- From no rows, in a batch that has not passed its ceilings: the loop gives all rows, in order, with
  -- their total size, where together with what the batch has kept they are within the ceilings on a
  -- result's rows, on a batch's rows and on the bytes; otherwise it fails.
  pub fetch_rows_iff :
      (k : Kept) (rs : List (Row × ℕ))
      → fits k 0 0 ≡ true
      → fetch_rows k [] 0 rs ≡ (
          if fits k (length rs) (total_size rs)
          then some (map (λ r. r.0) rs, total_size rs)
          else none)
  fetch_rows_iff k rs h =
      let e : 0 + length rs ≡ length rs = omega arith in
      let e' : 0 + total_size rs ≡ total_size rs = omega arith in
      fetch_rows_from k [] 0 rs h ∙ rw (e, e') refl
