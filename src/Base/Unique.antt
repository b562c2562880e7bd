-- ===== src/Base/Unique.antt =====
-- Strings as keys: Python's `in`, and dict.fromkeys as the list of its keys.
use Prim.Native.Nat.{ℕ, zero, suc, ◌≤◌}
use Prim.Native.String.{String}
use mathlib.Core.Path.{◌≡◌, refl, sym, ap, ◌∙◌, subst}
use mathlib.Core.Logic.{inl, inr}
use mathlib.Core.Bool.{Bool, true, false, ◌&&◌, ◌||◌, not}
use mathlib.Core.List.{List, [], ◌∷◌, ◌++◌}
use native.Mathlib.Omega.{arith}
use text.Mathlib.Text.{◌==◌ as str_eq}
use text.Mathlib.TextEquality.{eq_iff}
use ise_exporter_v.Base.Tests.{if◌then◌else◌, Bool-cases}
use ise_exporter_v.Base.Lists.{any, filter, take, length}

-- key in keys
abbrev pub mem : String → List String → Bool
mem x xs = any (str_eq x) xs

-- tuple(dict.fromkeys(names)): each name once, in the order of its first occurrence.
unfoldable pub unique_after : List String → List String → List String
unique_after seen [] = []
unique_after seen (n ∷ names) =
    let fresh = unique_after (n ∷ seen) names in
    let skipped = unique_after seen names in if any (str_eq n) seen then skipped else n ∷ fresh

abbrev pub unique : List String → List String
unique names = unique_after [] names

abbrev pub Distinct : List String → Type 0
Distinct [] = Unit {0}
Distinct (x ∷ xs) = (mem x xs ≡ false) × Distinct xs

pub str_eq_refl : (a : String) → str_eq a a ≡ true
str_eq_refl a = (eq_iff a a).1 refl

pub str_eq_sym : (a b : String) → str_eq a b ≡ str_eq b a
str_eq_sym a b = elim (Bool-cases (str_eq a b)) [
  | inl e ↦ let s = (eq_iff a b).0 e in rw s refl
  | inr e ↦ elim (Bool-cases (str_eq b a)) [
    | inr f ↦ e ∙ sym f
    | inl f ↦ let s = (eq_iff b a).0 f in let r : str_eq a b ≡ true = rw s (str_eq_refl a) in cc
  ]
]

pub mem_subst : (x y : String) (xs : List String) → str_eq x y ≡ true → mem x xs ≡ mem y xs
mem_subst x y xs e = ap (λ z. mem z xs) ((eq_iff x y).0 e)

pub mem-append : (x : String) (xs ys : List String) → mem x (xs ++ ys) ≡ (mem x xs || mem x ys)
mem-append x [] ys = refl
mem-append x (y ∷ xs) ys = let r = mem-append x xs ys in ground (arith, r)

pub mem-filter :
    (p : String → Bool) (x : String) (xs : List String) → mem x (filter p xs) ≡ (mem x xs && p x)
mem-filter p x [] = refl
mem-filter p x (y ∷ xs) =
    let r = mem-filter p x xs in
    elim (Bool-cases (p y)) [
      | inl e ↦ elim (Bool-cases (str_eq x y)) [
        | inl s ↦ let q : p x ≡ true = ap p ((eq_iff x y).0 s) ∙ e in rw (e, s, q) refl
        | inr s ↦ rw (e, s) r
      ]
      | inr e ↦ elim (Bool-cases (str_eq x y)) [
        | inl s ↦
            let q : p x ≡ false = ap p ((eq_iff x y).0 s) ∙ e in rw (e, s) (r ∙ ground (arith, q))
        | inr s ↦ rw (e, s) r
      ]
    ]

pub mem-unique_after :
    (x : String) (seen xs : List String)
    → mem x (unique_after seen xs) ≡ (mem x xs && not (mem x seen))
unfolding unique_after
mem-unique_after x seen [] = refl
mem-unique_after x seen (y ∷ xs) =
    let skipped = mem-unique_after x seen xs in
    let fresh = mem-unique_after x (y ∷ seen) xs in
    elim (Bool-cases (mem y seen)) [
      | inl e ↦ elim (Bool-cases (str_eq x y)) [
        | inl s ↦ let q = mem_subst x y seen s ∙ e in rw (e, s) (skipped ∙ ground (arith, q))
        | inr s ↦ rw (e, s) skipped
      ]
      | inr e ↦ elim (Bool-cases (str_eq x y)) [
        | inl s ↦ let q = mem_subst x y seen s ∙ e in rw (e, s) (ground (arith, q))
        | inr s ↦ rw (e, s) (fresh ∙ ground (arith, s))
      ]
    ]

pub unique_after-Distinct : (seen xs : List String) → Distinct (unique_after seen xs)
unfolding unique_after
unique_after-Distinct seen [] = tt
unique_after-Distinct seen (y ∷ xs) = elim (Bool-cases (mem y seen)) [
  | inl e ↦ rw e (unique_after-Distinct seen xs)
  | inr e ↦
      let q = mem-unique_after y (y ∷ seen) xs in
      let s = str_eq_refl y in rw e (q ∙ ground (arith, s), unique_after-Distinct (y ∷ seen) xs)
]

pub mem-unique : (x : String) (xs : List String) → mem x (unique xs) ≡ mem x xs
mem-unique x xs = let q = mem-unique_after x [] xs in q ∙ ground arith

-- What a prefix keeps.
pub mem-take : (x : String) (n : ℕ) (xs : List String) → mem x (take n xs) ≡ true → mem x xs ≡ true
mem-take x zero xs h = let e : false ≡ true = h in cc
mem-take x (suc n) [] h = h
mem-take x (suc n) (y ∷ xs) h =
    let r = mem-take x n xs in
    elim (Bool-cases (str_eq x y)) [
      | inl e ↦ rw e refl
      | inr e ↦
          let k : mem x (take n xs) ≡ true = subst (λ b. (b || mem x (take n xs)) ≡ true) e h in
          rw e (r k)
    ]

pub mem-take-false :
    (x : String) (n : ℕ) (xs : List String) → mem x xs ≡ false → mem x (take n xs) ≡ false
mem-take-false x n xs h = elim (Bool-cases (mem x (take n xs))) [
  | inl e ↦ let k = mem-take x n xs e in cc
  | inr e ↦ e
]

pub take-Distinct : (n : ℕ) (xs : List String) → Distinct xs → Distinct (take n xs)
take-Distinct zero xs h = tt
take-Distinct (suc n) [] h = tt
take-Distinct (suc n) (y ∷ xs) h = (mem-take-false y n xs h.0, take-Distinct n xs h.1)

pub length-take_le : {A : Type 0} (n : ℕ) (xs : List A) → length (take n xs) ≤ n
length-take_le zero xs = omega arith
length-take_le (suc n) [] = omega arith
length-take_le (suc n) (x ∷ xs) = let r = length-take_le n xs in omega (arith, r)

pub take_all : {A : Type 0} (n : ℕ) (xs : List A) → length xs ≤ n → take n xs ≡ xs
take_all zero [] h = refl
take_all zero (x ∷ xs) h = absurd (omega (arith, h))
take_all (suc n) [] h = refl
take_all {A = A} (suc n) (x ∷ xs) h = ap (λ (r : List A). x ∷ r) (take_all n xs (omega (arith, h)))
