-- ===== src/Posture/Groups.antt =====
-- ise_exporter/collectors/mnt_active_posture.py: the bounded counters of _aggregate, as lists of
-- their items. `same` compares two keys.
use ise_exporter_v.Base.{
  ℕ, ◌+◌, ◌-◌, ◌≤◌, ◌<◌, List, [], ◌∷◌, any, length, length-map, Bool, true, ◌||◌, ltb,
  if◌then◌else◌, ◌≡◌, refl, map, ◌⊎◌, arith, Bool-cases, inl, inr,
}

-- The sum of the counts.
module _ {K : Type 0} where
  abbrev pub total : List (K × ℕ) → ℕ
  total [] = 0
  total ((j, n) ∷ counter) = n + total counter

module _ {K : Type 0} (same : K → K → Bool) where
  -- key in counter
  abbrev pub has_key : K → List (K × ℕ) → Bool
  has_key k counter = any (λ (c : K × ℕ). same k c.0) counter

  -- counter[key] += 1
  unfoldable pub increment_key : K → List (K × ℕ) → List (K × ℕ)
  increment_key k [] = (k, 1) ∷ []
  increment_key k ((j, n) ∷ counter) =
      let rest = increment_key k counter in if same k j then (j, n + 1) ∷ counter else (j, n) ∷ rest

  -- increment_bounded(counter, key, limit, overflow)
  unfoldable pub increment_bounded : List (K × ℕ) → K → ℕ → K → List (K × ℕ)
  unfolding increment_key
  increment_bounded counter key limit overflow =
      increment_key
        (if has_key key counter || ltb (length counter) (limit - 1) then key else overflow) counter

  -- The calls for one counter: each key with its overflow.
  unfoldable pub count_all : ℕ → List (K × K) → List (K × ℕ) → List (K × ℕ)
  unfolding increment_bounded
  count_all limit [] counter = counter
  count_all limit ((key, overflow) ∷ keys) counter =
      count_all limit keys (increment_bounded counter key limit overflow)

  total-increment_key :
      (k : K) (counter : List (K × ℕ)) → total (increment_key k counter) ≡ total counter + 1
  unfolding increment_key
  total-increment_key k [] = omega arith
  total-increment_key k ((j, n) ∷ counter) =
      let ih = total-increment_key k counter in ground (arith, ih)

  length-increment_key :
      (k : K) (counter : List (K × ℕ))
      → length (increment_key k counter)
        ≡ (if has_key k counter then length counter else length counter + 1)
  unfolding increment_key
  length-increment_key k [] = refl
  length-increment_key k ((j, n) ∷ counter) =
      let ih = length-increment_key k counter in ground (arith, ih)

  has_key-increment_key :
      (z k : K) (counter : List (K × ℕ))
      → has_key z counter ≡ true
      → has_key z (increment_key k counter) ≡ true
  unfolding increment_key
  has_key-increment_key z k [] h = cc
  has_key-increment_key z k ((j, n) ∷ counter) h =
      let ih = has_key-increment_key z k counter in ground (arith, ih, h)

  -- Nothing is lost: every call is counted under some key.
  pub total-count_all :
      (limit : ℕ) (keys : List (K × K)) (counter : List (K × ℕ))
      → total (count_all limit keys counter) ≡ total counter + length keys
  unfolding count_all increment_bounded
  total-count_all limit [] counter = omega arith
  total-count_all limit ((key, overflow) ∷ keys) counter =
      let k = if has_key key counter || ltb (length counter) (limit - 1) then key else overflow in
      let ih = total-count_all limit keys (increment_key k counter) in
      omega (arith, ih, total-increment_key k counter)

  module _ (overflow : K) (reflexive : (k : K) → same k k ≡ true) where
    -- Below the limit, or at the limit with the overflow among the keys.
    abbrev Within : ℕ → List (K × ℕ) → Type 0
    Within limit counter =
        (length counter ≤ limit - 1)
        ⊎ ((has_key overflow counter ≡ true) × (length counter ≤ limit))

    has_key-increment_key_self :
        (k : K) (counter : List (K × ℕ)) → has_key k (increment_key k counter) ≡ true
    unfolding increment_key
    has_key-increment_key_self k [] = ground (arith, reflexive k)
    has_key-increment_key_self k ((j, n) ∷ counter) =
        let ih = has_key-increment_key_self k counter in
        let r = reflexive k in ground (arith, ih, r)

    increment_bounded-Within :
        (limit : ℕ) (key : K) (counter : List (K × ℕ))
        → 0 < limit
        → Within limit counter
        → Within limit (increment_bounded counter key limit overflow)
    unfolding increment_bounded
    increment_bounded-Within limit key counter p w =
        let lk = length-increment_key key counter in
        let lo = length-increment_key overflow counter in
        let so = has_key-increment_key_self overflow counter in
        let ko = has_key-increment_key overflow key counter in
        elim (Bool-cases (has_key key counter || ltb (length counter) (limit - 1))) [
          | inl e ↦ elim w [
            | inl l ↦ rw e (inl (ground (arith, lk, l, e, p)))
            | inr (o, l) ↦ elim (Bool-cases (has_key key counter)) [
              | inl k ↦ rw e (inr (ko o, ground (arith, lk, k, l)))
              | inr k ↦ rw e (inl (ground (arith, lk, k, e, p)))
            ]
          ]
          | inr e ↦ elim w [
            | inl l ↦ rw e (inr (so, ground (arith, lo, l, p)))
            | inr (o, l) ↦ rw e (inr (so, ground (arith, lo, o, l)))
          ]
        ]

    count_all-Within :
        (limit : ℕ) (keys : List K) (counter : List (K × ℕ))
        → 0 < limit
        → Within limit counter
        → Within limit (count_all limit (map (λ (k : K). (k, overflow)) keys) counter)
    unfolding count_all
    count_all-Within limit [] counter p w = w
    count_all-Within limit (k ∷ keys) counter p w =
        count_all-Within limit keys (increment_bounded counter k limit overflow) p
          (increment_bounded-Within limit k counter p w)

    -- A counter whose calls name one overflow key never has more than `limit` keys, whatever is
    -- counted, and its counts add up to the number of calls.
    pub count_all_bounds :
        (limit : ℕ) (keys : List K)
        → 0 < limit
        → (length (count_all limit (map (λ (k : K). (k, overflow)) keys) []) ≤ limit)
          × (total (count_all limit (map (λ (k : K). (k, overflow)) keys) []) ≡ length keys)
    count_all_bounds limit keys p =
        let w = count_all-Within limit keys [] p (inl (omega arith)) in
        let t = total-count_all limit (map (λ (k : K). (k, overflow)) keys) [] in
        let l = length-map {B = K × K} (λ (k : K). (k, overflow)) keys in
        (elim w [ inl a ↦ omega (arith, a) | inr (o, a) ↦ a ], omega (arith, t, l))
