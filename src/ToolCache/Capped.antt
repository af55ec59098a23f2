-- ===== src/ToolCache/Capped.antt =====
-- The cap on a download (`read_capped` of crates/cja-build/src/tool_cache.rs).
use cja.Common.{
  ℕ, zero, suc, ◌≤◌, ◌≡◌, ◌↔◌, refl, sym, ap, ◌∙◌, subst, Option, none, some, Bool, true, false,
  ltb, List, [], ◌∷◌, length, if◌then◌else◌, Bool-cases, inl, inr, arith,
}
use cja.ToolCache.{ToolSpec, take, exceeds, capped, read_body, read_capped}

-- What is read short of the limit is the whole body.
take-same : (n : ℕ) (xs : List ℕ) → length (take (suc n) xs) ≤ n → take (suc n) xs ≡ xs
unfolding take
take-same zero [] h = refl
take-same zero (x ∷ xs) h = absurd (omega (arith, h))
take-same (suc n) [] h = refl
take-same (suc n) (x ∷ xs) h = ap (λ t. x ∷ t) (take-same n xs (omega (arith, h)))

take-short : (n : ℕ) (xs : List ℕ) → length xs ≤ n → take (suc n) xs ≡ xs
unfolding take
take-short zero [] h = refl
take-short zero (x ∷ xs) h = absurd (omega (arith, h))
take-short (suc n) [] h = refl
take-short (suc n) (x ∷ xs) h = ap (λ t. x ∷ t) (take-short n xs (omega (arith, h)))

some_of : Option (List ℕ) → List ℕ → List ℕ
some_of none d = d
some_of (some x) d = x

capped-some :
    (limit : ℕ) (xs bytes : List ℕ)
    → capped limit xs ≡ some bytes
    → (xs ≡ bytes) × (length xs ≤ limit)
capped-some limit xs bytes e = elim (Bool-cases (ltb limit (length xs))) [
  | inl t ↦ absurd (differ (rw t at e))
  | inr f ↦ (unfold some_of in ap (λ o. some_of o []) (rw f at e), ground arith)
]
  where
    differ : ◌≡◌ {A = Option (List ℕ)} none (some bytes) → ⊥
    differ h = cc

body_read :
    (limit : ℕ) (body : Option (List ℕ)) (bytes : List ℕ)
    → read_body limit body ≡ some bytes
    → (body ≡ some bytes) × (length bytes ≤ limit)
body_read limit none bytes e = absurd (cc)
body_read limit (some xs) bytes e =
    let h = capped-some limit (take (suc limit) xs) bytes e in
    (ap some (sym (take-same limit xs h.1) ∙ h.0), subst (λ b. length b ≤ limit) h.0 h.1)

read_short :
    (limit : ℕ) (bytes : List ℕ) → length bytes ≤ limit → read_body limit (some bytes) ≡ some bytes
read_short limit bytes h = rw (take-short limit bytes h) (short (ltb limit (length bytes)) refl)
  where
    short :
        (b : Bool) → ltb limit (length bytes) ≡ b → (if b then none else some bytes) ≡ some bytes
    short true e = absurd (ground arith)
    short false e = refl

-- A download is accepted exactly if its declared length, if there is one, and its real length are
-- within the specification's limit, and what is returned is the whole body, never a cut-off part.
pub read_capped_iff :
    (spec : ToolSpec) (content_length : Option ℕ) (body : Option (List ℕ)) (bytes : List ℕ)
    → (read_capped spec content_length body ≡ some bytes) ↔ (
        (body ≡ some bytes)
        × (length bytes ≤ spec.max_bytes)
        × (exceeds spec.max_bytes content_length ≡ false))
unfolding read_capped
read_capped_iff spec content_length body bytes = (to _ refl, from)
  where
    to :
        (b : Bool)
        → exceeds spec.max_bytes content_length ≡ b
        → (if b then none else read_body spec.max_bytes body) ≡ some bytes
        → (body ≡ some bytes)
          × (length bytes ≤ spec.max_bytes)
          × (exceeds spec.max_bytes content_length ≡ false)
    to true e h = absurd (cc)
    to false e h = let r = body_read spec.max_bytes body bytes h in (r.0, r.1, e)

    from :
        (body ≡ some bytes)
          × (length bytes ≤ spec.max_bytes)
          × (exceeds spec.max_bytes content_length ≡ false)
        → (if exceeds spec.max_bytes content_length then none else read_body spec.max_bytes body)
          ≡ some bytes
    from h = rw (h.2, h.0) (read_short spec.max_bytes bytes h.1)
