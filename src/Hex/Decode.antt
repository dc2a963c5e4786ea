-- ===== src/Hex/Decode.antt =====
-- src/hex.cc: what `decode` returns on any text, errors included.
use opentelemetry_php_ext.Common.{
  ℕ, ◌+◌, ◌/◌, ◌%◌, ◌≡◌, ◌⊎◌, inl, inr, refl, false, [], ◌∷◌, ◌++◌, Option, none, some, arith,
  Bytes, IsByte, All, All-append, ◌==◌, length, length-append, Bool-cases, Option-cases,
}
use opentelemetry_php_ext.Hex.{atoul, decode_pairs, decode_odd, decode, or_empty}

abbrev Fills : ℕ → Bytes → Type 0
Fills n t = (length t ≡ n) × All IsByte t

push-Fills :
    (segment : Bytes) (out : ℕ) → All IsByte segment → All IsByte (segment ++ (out % 256) ∷ [])
push-Fills segment out h = All-append IsByte segment ((out % 256) ∷ []) h (omega arith)

decode_pairs-Fills :
    (s segment t : Bytes)
    → decode_pairs s segment ≡ some t
    → All IsByte segment
    → Fills (length segment + (length s + 1) / 2) t
unfolding decode_pairs
decode_pairs-Fills [] segment t e h = ground arith
decode_pairs-Fills (a ∷ []) segment t e h = elim (Option-cases (atoul (a ∷ []))) [
  | inl bad ↦ cc
  | inr (out, good) ↦
      let e' : segment ++ (out % 256) ∷ [] ≡ t = ground arith in
      rw (← e')
        (omega (arith, length-append {0} segment ((out % 256) ∷ [])), push-Fills segment out h)
]
decode_pairs-Fills (a ∷ b ∷ s) segment t e h = elim (Option-cases (atoul (a ∷ b ∷ []))) [
  | inl bad ↦ cc
  | inr (out, good) ↦
      let (len, fits) =
        decode_pairs-Fills s (segment ++ (out % 256) ∷ []) t (rw good at e)
          (push-Fills segment out h) in
      (omega (arith, length-append {0} segment ((out % 256) ∷ [])), fits)
]

decode_odd-Fills :
    (s t : Bytes) → decode_odd s ≡ some t → length s % 2 ≡ 1 → Fills ((length s + 1) / 2) t
unfolding decode_odd
decode_odd-Fills [] t e odd = absurd (omega arith)
decode_odd-Fills (a ∷ s) t e odd = elim (Option-cases (atoul (a ∷ []))) [
  | inl bad ↦ cc
  | inr (out, good) ↦
      let (len, fits) = decode_pairs-Fills s ((out % 256) ∷ []) t (rw good at e) (omega arith) in
      (omega arith, fits)
]

or_empty-Fills :
    (n : ℕ) (r : Option Bytes)
    → ((t : Bytes) → r ≡ some t → Fills n t)
    → (or_empty r ≡ []) ⊎ Fills n (or_empty r)
unfolding or_empty
or_empty-Fills n none h = inl refl
or_empty-Fills n (some t) h = inr (h t refl)

-- The result is empty, or holds one byte for every two digits, a leading odd digit rounded up.
pub decode-Fills :
    (s : Bytes)
    → (decode s ≡ []) ⊎ ((length (decode s) ≡ (length s + 1) / 2) × All IsByte (decode s))
unfolding decode
decode-Fills s = elim (Bool-cases ((length s % 2) == 1)) [
  | inl odd ↦ rw odd (or_empty-Fills _ _ (λ t e. decode_odd-Fills s t e (ground arith)))
  | inr even ↦ rw even (
      or_empty-Fills _ _
        (λ t e. let (len, fits) = decode_pairs-Fills s [] t e tt in (omega arith, fits)))
]

decode_pairs-none :
    (p s segment : Bytes) (a b : ℕ)
    → atoul (a ∷ b ∷ []) ≡ none
    → length p % 2 ≡ 0
    → decode_pairs (p ++ a ∷ b ∷ s) segment ≡ none
unfolding decode_pairs
decode_pairs-none [] s segment a b bad even = rw bad
decode_pairs-none (c ∷ []) s segment a b bad even = absurd (omega arith)
decode_pairs-none (c ∷ d ∷ p) s segment a b bad even = elim (Option-cases (atoul (c ∷ d ∷ []))) [
  | inl e ↦ rw e
  | inr (out, e) ↦ rw e (decode_pairs-none p s (segment ++ (out % 256) ∷ []) a b bad (omega arith))
]

-- One pair that is no number, anywhere at an even place, empties the whole result.
pub decode_bad_pair :
    (p s : Bytes) (a b : ℕ)
    → atoul (a ∷ b ∷ []) ≡ none
    → length p % 2 ≡ 0
    → length s % 2 ≡ 0
    → decode (p ++ a ∷ b ∷ s) ≡ []
unfolding decode or_empty
decode_bad_pair p s a b bad hp hs =
    let even : ((length (p ++ a ∷ b ∷ s) % 2) == 1) ≡ false =
      ground (arith, length-append p (a ∷ b ∷ s)) in
    rw (even, decode_pairs-none p s [] a b bad hp)
