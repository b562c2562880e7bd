-- ===== src/Rest/Body.antt =====
-- The bound on a retained body.
use ise_exporter_v.Base.{
  ℕ, ◌+◌, ◌≤◌, List, [], ◌∷◌, ◌++◌, append-nil, append_assoc, length, length-append, Option, none,
  some, get_or, ltb, Bool-cases, inl, inr, ◌↔◌, ◌≡◌, refl, sym, ap, ◌∙◌, arith, false,
}
use ise_exporter_v.Base.Int.{ℤ, pos, negsuc}
use ise_exporter_v.Rest.Transport.{max_http_response_bytes, retain, buffer_response}

abbrev pub concat : List (List ℕ) → List ℕ
concat [] = []
concat (c ∷ cs) = c ++ concat cs

-- The length that the answer declares, where it declares one.
abbrev pub declared_length : Option ℤ → ℕ
declared_length (some (pos n)) = n
declared_length _ = 0

retain_sound :
    (cs : List (List ℕ)) (kept body : List ℕ)
    → length kept ≤ max_http_response_bytes
    → retain kept cs ≡ some body
    → (body ≡ kept ++ concat cs) × (length body ≤ max_http_response_bytes)
unfolding retain
retain_sound [] kept body h e =
    let same : kept ≡ body = ap (λ o. get_or o kept) e in
    (sym same ∙ sym (append-nil kept), rw (sym same) h)
retain_sound (c ∷ cs) kept body h e =
    elim (Bool-cases (ltb max_http_response_bytes (length kept + length c))) [
      | inl b ↦ let r : retain kept (c ∷ cs) ≡ none = rw (b, retain) refl in cc
      | inr b ↦
          let r : retain (kept ++ c) cs ≡ some body = sym (rw (b, retain) refl) ∙ e in
          let fits : length (kept ++ c) ≤ max_http_response_bytes =
            rw (length-append kept c) (ground arith) in
          let (o, l) = retain_sound cs (kept ++ c) body fits r in
          (o ∙ append_assoc kept c (concat cs), l)
    ]

retain_complete :
    (cs : List (List ℕ)) (kept : List ℕ)
    → length (kept ++ concat cs) ≤ max_http_response_bytes
    → retain kept cs ≡ some (kept ++ concat cs)
unfolding retain
retain_complete [] kept h = ap some (sym (append-nil kept))
retain_complete (c ∷ cs) kept h =
    let assoc = append_assoc kept c (concat cs) in
    let long = ap length assoc in
    let total = length-append (kept ++ c) (concat cs) in
    let part = length-append kept c in
    let b : ltb max_http_response_bytes (length kept + length c) ≡ false =
      ground (arith, long, total, part) in
    rw (b, retain) (retain_complete cs (kept ++ c) (omega (arith, h, long)) ∙ ap some assoc)

retained_sound :
    (cs : List (List ℕ)) (body : List ℕ)
    → retain [] cs ≡ some body
    → (body ≡ concat cs) × (length (concat cs) ≤ max_http_response_bytes)
retained_sound cs body e = let (o, l) = retain_sound cs [] body (omega arith) e in (o, rw (sym o) l)

retained_complete :
    (cs : List (List ℕ)) (body : List ℕ)
    → body ≡ concat cs
    → length (concat cs) ≤ max_http_response_bytes
    → retain [] cs ≡ some body
retained_complete cs body o l = retain_complete cs [] l ∙ ap some (sym o)

-- A successful body is retained just when neither the declared length nor the chunks together exceed
-- 64 MiB, and then it is the chunks in order, without a byte lost.
pub buffer_response_iff :
    (declared : Option ℤ) (chunks : List (List ℕ)) (body : List ℕ)
    → (buffer_response declared chunks ≡ some body) ↔ (
        (body ≡ concat chunks)
        × (length (concat chunks) ≤ max_http_response_bytes)
        × (declared_length declared ≤ max_http_response_bytes))
unfolding buffer_response
buffer_response_iff none chunks body = (
  λ e. let (o, l) = retained_sound chunks body e in (o, l, omega arith),
  λ h. retained_complete chunks body h.0 h.1,
)
buffer_response_iff (some (negsuc n)) chunks body = (
  λ e. let (o, l) = retained_sound chunks body e in (o, l, omega arith),
  λ h. retained_complete chunks body h.0 h.1,
)
buffer_response_iff (some (pos n)) chunks body = elim (Bool-cases (ltb max_http_response_bytes n)) [
  | inl b ↦
      let r : buffer_response (some (pos n)) chunks ≡ none = rw (b, buffer_response) refl in
      (λ e. cc, λ h. absurd (ground (arith, b, h.2)))
  | inr b ↦
      let r : buffer_response (some (pos n)) chunks ≡ retain [] chunks =
        rw (b, buffer_response) refl in
      let bound : n ≤ max_http_response_bytes = ground arith in
      (
        λ e. let (o, l) = retained_sound chunks body (sym r ∙ e) in (o, l, bound),
        λ h. r ∙ retained_complete chunks body h.0 h.1,
      )
]
