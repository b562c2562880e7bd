-- ===== src/Posture/Sort.antt =====
-- sorted(names, key=...): a stable sort, for any order of the keys.
use ise_exporter_v.Base.{
  List, [], ◌∷◌, mem, Distinct, Bool, false, ◌||◌, String, str_eq, str_eq_sym, if◌then◌else◌, ◌≡◌,
  refl, ap, ◌∙◌, arith, Bool-cases, inl, inr,
}

module _ (le : String → String → Bool) where
  unfoldable pub insert_sorted : String → List String → List String
  insert_sorted x [] = x ∷ []
  insert_sorted x (y ∷ ys) = let r = insert_sorted x ys in if le x y then x ∷ y ∷ ys else y ∷ r

  unfoldable pub sorted : List String → List String
  unfolding insert_sorted
  sorted [] = []
  sorted (x ∷ xs) = insert_sorted x (sorted xs)

  mem-insert_sorted :
      (z x : String) (ys : List String) → mem z (insert_sorted x ys) ≡ (str_eq z x || mem z ys)
  unfolding insert_sorted
  mem-insert_sorted z x [] = refl
  mem-insert_sorted z x (y ∷ ys) = let ih = mem-insert_sorted z x ys in ground (arith, ih)

  pub mem-sorted : (z : String) (xs : List String) → mem z (sorted xs) ≡ mem z xs
  unfolding sorted
  mem-sorted z [] = refl
  mem-sorted z (x ∷ xs) =
      mem-insert_sorted z x (sorted xs) ∙ ap (λ b. str_eq z x || b) (mem-sorted z xs)

  insert_sorted-Distinct :
      (x : String) (ys : List String)
      → mem x ys ≡ false
      → Distinct ys
      → Distinct (insert_sorted x ys)
  unfolding insert_sorted
  insert_sorted-Distinct x [] h d = (refl, tt)
  insert_sorted-Distinct x (y ∷ ys) h d = elim (Bool-cases (le x y)) [
    | inl e ↦ rw e (h, d)
    | inr e ↦
        let ih = insert_sorted-Distinct x ys (ground (arith, h)) d.1 in
        let s : str_eq y x ≡ false = str_eq_sym y x ∙ ground (arith, h) in
        let m = mem-insert_sorted y x ys in rw e (m ∙ ground (arith, s, d.0), ih)
  ]

  pub sorted-Distinct : (xs : List String) → Distinct xs → Distinct (sorted xs)
  unfolding sorted
  sorted-Distinct [] d = tt
  sorted-Distinct (x ∷ xs) d =
      insert_sorted-Distinct x (sorted xs) (mem-sorted x xs ∙ d.0) (sorted-Distinct xs d.1)
