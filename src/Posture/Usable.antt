-- ===== src/Posture/Usable.antt =====
-- ise_exporter/collectors/mnt_active_posture.py: the entries that a cycle uses.
use ise_exporter_v.Base.{
  List, [], ◌∷◌, mem, true, false, ◌==◌, some, String, str_eq, eq_iff, length, ◌≡◌, refl, sym, ap,
  ◌∙◌, arith, Bool-cases, Option-cases, inl, inr,
}
use mathlib.Core.Path.{subst}
use ise_exporter_v.State.Cache.{Entry}
use ise_exporter_v.State.Tables.{Signed}
use ise_exporter_v.State.Read.{lookup_entry, lookup_entry-id}
use ise_exporter_v.Posture.Detail.{Compact}
use ise_exporter_v.Posture.Collect.{Details, usable_of}

module _ (current : Details) (signatures : String → String) where
  -- The entry of a selected endpoint is used if its signature is the current one.
  pub lookup-usable_of :
      (mac : String) (selected : List String) (e : Entry (Signed Compact))
      → mem mac selected ≡ true
      → lookup_entry mac current ≡ some e
      → e.detail.signature ≡ signatures mac
      → lookup_entry mac (usable_of current signatures selected) ≡ some e
  unfolding usable_of
  lookup-usable_of mac [] e h l s = cc
  lookup-usable_of mac (m ∷ ms) e h l s =
      let id = lookup_entry-id mac current e l in
      elim (Bool-cases (str_eq mac m)) [
        | inl i ↦
            let q : mac ≡ m = (eq_iff mac m).0 i in
            let l' : lookup_entry m current ≡ some e =
              subst (λ x. lookup_entry x current ≡ some e) q l in
            let s' : str_eq e.detail.signature (signatures m) ≡ true =
              (eq_iff e.detail.signature (signatures m)).1 (s ∙ ap signatures q) in
            rw (l', usable_of) (simp (s', id) refl)
        | inr i ↦
            let ih = lookup-usable_of mac ms e (ground (arith, h, i)) l s in
            elim (Option-cases (lookup_entry m current)) [
              | inl n ↦ rw (n, usable_of) ih
              | inr (x, n) ↦
                  let j : m ≡ x.id = (eq_iff m x.id).0 (lookup_entry-id m current x n) in
                  let k : str_eq mac x.id ≡ false = ap (str_eq mac) (sym j) ∙ i in
                  elim (Bool-cases (str_eq x.detail.signature (signatures m))) [
                    | inl t ↦ rw (n, usable_of) (simp (t, k) ih)
                    | inr t ↦ rw (n, usable_of) (simp t ih)
                  ]
            ]
      ]

pub usable_of_some :
    (mac : String) (es : Details) (e : Entry (Signed Compact))
    → lookup_entry mac es ≡ some e
    → (length es == 0) ≡ false
usable_of_some mac [] e h = cc
usable_of_some mac (x ∷ xs) e h = ground arith
