-- ===== src/State/Total.antt =====
-- ise_exporter/state.py: for keys within the limits the operations on the caches do not raise.
use ise_exporter_v.Base.{
  ℕ, ◌≤◌, List, [], ◌∷◌, filter, any, unique, unique_after, Bool, false, not, Option, some, String,
  str_eq, length, ltb, ◌≡◌, refl, arith, All,
}
use Prim.Native.String.{len}
use ise_exporter_v.Base.Int.{pos}
use ise_exporter_v.Base.Float.{finite}
use ise_exporter_v.State.Cache.{
  Row, Entry, state_key, max_state_key_bytes, max_cache_cycle_keys, cache_keys, read_entries,
  read_rows, delete_invalid, finish_cache_cycle, finish_cycle,
}

-- A key that may be stored.
abbrev pub IsKey : String → Type 0
IsKey k = (str_eq k "" ≡ false) × (ltb max_state_key_bytes (len k) ≡ false)

pub IsKey-state_key : (k : String) → IsKey k → state_key k ≡ some k
IsKey-state_key k h = rw (h.0, h.1) refl

any-filter :
    (p q : String → Bool) (xs : List String) → any p xs ≡ false → any p (filter q xs) ≡ false
any-filter p q [] h = refl
any-filter p q (x ∷ xs) h = let ih = any-filter p q xs (ground (arith, h)) in ground (arith, h, ih)

any-unique_after :
    (p : String → Bool) (seen xs : List String)
    → any p xs ≡ false
    → any p (unique_after seen xs) ≡ false
unfolding unique_after
any-unique_after p seen [] h = refl
any-unique_after p seen (x ∷ xs) h =
    let skipped = any-unique_after p seen xs (ground (arith, h)) in
    let fresh = any-unique_after p (x ∷ seen) xs (ground (arith, h)) in
    ground (arith, h, skipped, fresh)

length-filter_le : {A : Type 0} (q : A → Bool) (xs : List A) → length (filter q xs) ≤ length xs
length-filter_le q [] = omega arith
length-filter_le q (x ∷ xs) = let ih = length-filter_le q xs in ground (arith, ih)

pub length-unique_after_le : (seen xs : List String) → length (unique_after seen xs) ≤ length xs
unfolding unique_after
length-unique_after_le seen [] = omega arith
length-unique_after_le seen (x ∷ xs) =
    let skipped = length-unique_after_le seen xs in
    let fresh = length-unique_after_le (x ∷ seen) xs in ground (arith, skipped, fresh)

any-IsKey :
    (xs : List String) → All IsKey xs → any (λ k. ltb max_state_key_bytes (len k)) xs ≡ false
any-IsKey [] h = refl
any-IsKey (x ∷ xs) h = let ih = any-IsKey xs h.1 in rw (h.0.1) ih

pub cache_keys-total :
    (values : List String)
    → All IsKey values
    → length values ≤ max_cache_cycle_keys
    → (keys : List String) × (cache_keys values ≡ some keys)
unfolding cache_keys
cache_keys-total values h n =
    let fresh = filter (λ v. not (str_eq v "")) values in
    let a =
      any-unique_after (λ k. ltb max_state_key_bytes (len k)) [] fresh
        (any-filter (λ k. ltb max_state_key_bytes (len k)) (λ v. not (str_eq v "")) values
          (any-IsKey values h)) in
    let l = length-unique_after_le [] fresh in
    let m = length-filter_le (λ v. not (str_eq v "")) values in
    let q : ltb max_cache_cycle_keys (length (unique fresh)) ≡ false = ground (arith, l, m, n) in
    (unique fresh, rw (q, a) refl)

module _ {V B : Type 0} (check : V → Option B) (values : List String) (h : All IsKey values)
    (n : length values ≤ max_cache_cycle_keys) (rows : List (Row V)) where
  pub read_entries-total :
      (out : List (Entry B) × List (Row V)) × (read_entries check values rows ≡ some out)
  unfolding read_entries
  read_entries-total =
      let (keys, e) = cache_keys-total values h n in
      let sel = filter (λ (r : Row V). any (str_eq r.key) keys) rows in
      let out = read_rows check sel in
      ((out.0, delete_invalid out.1 rows), rw (e, read_entries) refl)

  pub finish_cycle-total :
      (now grace : ℕ)
      → (left : List (Row V)) × (finish_cycle values (finite (pos now)) grace rows ≡ some left)
  unfolding finish_cycle
  finish_cycle-total now grace =
      let (keys, e) = cache_keys-total values h n in
      (finish_cache_cycle keys now grace rows, rw (e, finish_cycle) refl)
