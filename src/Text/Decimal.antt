-- ===== src/Text/Decimal.antt =====
-- `std::to_string` on numbers that are not negative, as src/provider.cc and src/utils.cc use it.
use Prim.Native.Nat.{min}
use opentelemetry_php_ext.Common.{
  ℕ, zero, suc, ◌+◌, ◌-◌, ◌*◌, ◌/◌, ◌%◌, ◌≤◌, ◌≡◌, ap, ◌∙◌, Bool, true, false, [], ◌∷◌, arith,
  Bytes, ltb, leb, ◌==◌, ◌&&◌, ◌||◌, ◌^◌, c_str, if◌then◌else◌, Bool-cases, inl, inr, Option, none,
  some,
}
use opentelemetry_php_ext.Span.{ℤ, pos, negsuc}

-- Digits from the last to the first. Each round divides by ten, so `n` rounds are enough.
emit : ℕ → ℕ → Bytes → Bytes
emit zero n out = (b'0' + n % 10) ∷ out
emit (suc fuel) n out = elim (ltb n 10) [
  | true ↦ (b'0' + n % 10) ∷ out
  | false ↦ emit fuel (n / 10) ((b'0' + n % 10) ∷ out)
]

unfoldable pub to_string : ℕ → Bytes
unfolding emit
to_string n = emit n n []

abbrev pub is_digit : ℕ → Bool
is_digit c = leb b'0' c && leb c b'9'

-- `strtol(s, nullptr, 10)`: blanks, a sign, digits; the result stops at the ends of `long`.
strtol_digits : Bytes → ℕ → ℕ
strtol_digits [] n = n
strtol_digits (c ∷ s) n = elim (is_digit c) [
  | true ↦ strtol_digits s (n * 10 + (c - b'0'))
  | false ↦ n
]

-- The magnitude and the sign of the result, true for a minus.
abbrev clamp : Bool → ℕ → ℕ × Bool
clamp negative n = if negative then (min n (2 ^ 63), true) else (min n (2 ^ 63 - 1), false)

strtol_signed : Bytes → ℕ × Bool
unfolding strtol_digits
strtol_signed [] = (0, false)
strtol_signed (c ∷ s) =
    if c == b'-'
    then clamp true (strtol_digits s 0)
    else if c == b'+'
    then clamp false (strtol_digits s 0)
    else clamp false (strtol_digits (c ∷ s) 0)

strtol_blanks : Bytes → Bytes
strtol_blanks [] = []
strtol_blanks (c ∷ s) =
    let rest = strtol_blanks s in if c == b' ' || (leb 9 c && leb c 13) then rest else c ∷ s

unfoldable pub strtol : Bytes → ℕ × Bool
unfolding strtol_signed strtol_blanks c_str
strtol s = strtol_signed (strtol_blanks (c_str s))

-- `std::stoll`: as `strtoll`, but it throws (`none`) without digits and beyond 64 bits.
stoll_range : Bool → ℕ → Option ℤ
stoll_range false n = if ltb n (2 ^ 63) then some (pos n) else none
stoll_range true zero = some (pos zero)
stoll_range true (suc n) = if ltb n (2 ^ 63) then some (negsuc n) else none

stoll_number : Bool → Bytes → Option ℤ
unfolding strtol_digits stoll_range
stoll_number negative [] = none
stoll_number negative (c ∷ s) =
    if is_digit c then stoll_range negative (strtol_digits (c ∷ s) 0) else none

stoll_signed : Bytes → Option ℤ
unfolding stoll_number
stoll_signed [] = none
stoll_signed (c ∷ s) =
    if c == b'-'
    then stoll_number true s
    else if c == b'+'
    then stoll_number false s
    else stoll_number false (c ∷ s)

unfoldable pub stoll : Bytes → Option ℤ
unfolding stoll_signed strtol_blanks c_str
stoll s = stoll_signed (strtol_blanks (c_str s))

-- The number that digits spell behind `n`.
abbrev pub value_of : ℕ → Bytes → ℕ
value_of n [] = n
value_of n (c ∷ s) = value_of (n * 10 + (c - b'0')) s

emit_last :
    (fuel n : ℕ) (out : Bytes) → ltb n 10 ≡ true → emit (suc fuel) n out ≡ (b'0' + n % 10) ∷ out
unfolding emit
emit_last fuel n out e = rw (e, emit)

emit_more :
    (fuel n : ℕ) (out : Bytes)
    → ltb n 10 ≡ false
    → emit (suc fuel) n out ≡ emit fuel (n / 10) ((b'0' + n % 10) ∷ out)
unfolding emit
emit_more fuel n out e = rw (e, emit)

value_of-emit :
    (fuel n : ℕ) (out : Bytes) → n ≤ fuel → value_of 0 (emit fuel n out) ≡ value_of n out
unfolding emit
value_of-emit zero n out h =
    let e : 0 * 10 + (b'0' + n % 10 - b'0') ≡ n = omega arith in ap (λ t. value_of t out) e
value_of-emit (suc fuel) n out h = elim (Bool-cases (ltb n 10)) [
  | inl e ↦
      let last : 0 * 10 + (b'0' + n % 10 - b'0') ≡ n = ground arith in
      rw (emit_last fuel n out e) (ap (λ t. value_of t out) last)
  | inr e ↦
      let whole : n / 10 * 10 + (b'0' + n % 10 - b'0') ≡ n = omega arith in
      let less : n / 10 ≤ fuel = ground arith in
      rw (emit_more fuel n out e)
        (value_of-emit fuel (n / 10) ((b'0' + n % 10) ∷ out) less ∙ ap (λ t. value_of t out) whole)
]

-- The text of a number spells that number.
pub value_of-to_string : (n : ℕ) → value_of 0 (to_string n) ≡ n
unfolding to_string
value_of-to_string n = value_of-emit n n [] (omega arith)
