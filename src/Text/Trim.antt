-- ===== src/Text/Trim.antt =====
-- src/utils.cc: what `trim` takes away.
use opentelemetry_php_ext.Common.{
  ℕ, zero, suc, ◌≡◌, ◌≢◌, refl, ap, ◌∙◌, ◌&&◌, [], ◌∷◌, ◌++◌, arith, Bytes, ◌==◌, is_empty,
  Bool-cases, inl, inr, if◌then◌else◌,
}
use opentelemetry_php_ext.Text.{erase_left, erase_right, trim}

abbrev pub blanks : ℕ → Bytes
blanks zero = []
blanks (suc n) = b' ' ∷ blanks n

-- No blank stands first, and none stands last.
abbrev pub IsFlushLeft : Bytes → Type 0
IsFlushLeft [] = Unit
IsFlushLeft (c ∷ s) = c ≢ b' '

abbrev pub IsFlushRight : Bytes → Type 0
IsFlushRight [] = Unit
IsFlushRight (c ∷ []) = c ≢ b' '
IsFlushRight (c ∷ d ∷ s) = IsFlushRight (d ∷ s)

erase_left_lem : (s : Bytes) → (n : ℕ) × (s ≡ blanks n ++ erase_left s) × IsFlushLeft (erase_left s)
unfolding erase_left
erase_left_lem [] = (0, refl, tt)
erase_left_lem (c ∷ s) = elim (Bool-cases (c == b' ')) [
  | inl e ↦
      let (n, same, flush) = erase_left_lem s in
      let blank : c ≡ b' ' = ground arith in
      (suc n, rw (blank) (ap (λ t. b' ' ∷ t) same), rw e flush)
  | inr e ↦ (0, rw e refl, rw e (let other : c ≢ b' ' = ground arith in other))
]

-- What `erase_right` makes of a byte and what it leaves of the rest.
keep_byte : ℕ → Bytes → Bytes
keep_byte c rest = if is_empty rest && c == b' ' then [] else c ∷ rest

keep_byte_lem :
    (c n : ℕ) (s rest : Bytes)
    → s ≡ rest ++ blanks n
    → IsFlushRight rest
    → (m : ℕ) × (c ∷ s ≡ keep_byte c rest ++ blanks m) × IsFlushRight (keep_byte c rest)
unfolding keep_byte
keep_byte_lem c n s [] same flush = elim (Bool-cases (c == b' ')) [
  | inl e ↦
      let blank : c ≡ b' ' = ground arith in
      (suc n, rw (e, blank) (ap (λ t. b' ' ∷ t) same), rw e tt)
  | inr e ↦ (n, rw e (ap (λ t. c ∷ t) same), rw e (let other : c ≢ b' ' = ground arith in other))
]
keep_byte_lem c n s (d ∷ rest) same flush = (n, ap (λ t. c ∷ t) same, flush)

erase_right_lem :
    (s : Bytes) → (n : ℕ) × (s ≡ erase_right s ++ blanks n) × IsFlushRight (erase_right s)
unfolding erase_right keep_byte
erase_right_lem [] = (0, refl, tt)
erase_right_lem (c ∷ s) =
    let (n, same, flush) = erase_right_lem s in keep_byte_lem c n s (erase_right s) same flush

erase_right-IsFlushLeft : (s : Bytes) → IsFlushLeft s → IsFlushLeft (erase_right s)
unfolding erase_right
erase_right-IsFlushLeft [] h = tt
erase_right-IsFlushLeft (c ∷ s) h = elim (Bool-cases (is_empty (erase_right s) && c == b' ')) [
  | inl e ↦ rw e tt
  | inr e ↦ rw e h
]

-- A text is what `trim` leaves of it between two runs of blanks, and what is left neither begins nor
-- ends with a blank.
pub trim-blanks :
    (s : Bytes)
    → (left : ℕ) × (right : ℕ) × (s ≡ blanks left ++ (trim s ++ blanks right))
      × IsFlushLeft (trim s)
      × IsFlushRight (trim s)
unfolding trim
trim-blanks [] = (0, 0, refl, tt, tt)
trim-blanks (c ∷ s) =
    let (left, same, flush) = erase_left_lem (c ∷ s) in
    let (right, same', flush') = erase_right_lem (erase_left (c ∷ s)) in
    (
      left,
      right,
      same ∙ ap (λ t. blanks left ++ t) same',
      erase_right-IsFlushLeft (erase_left (c ∷ s)) flush,
      flush',
    )
