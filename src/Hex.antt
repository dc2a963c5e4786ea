-- ===== src/Hex.antt =====
-- src/hex.cc: bytes to hexadecimal text and back. `encode` reads `length` bytes behind a pointer,
-- and faults (`none`) if there are fewer; `strtoul` is the C library's, at base 16.
pub mod RoundTrip
pub mod Decode
use opentelemetry_php_ext.Common.{
  ℕ, zero, suc, ◌+◌, ◌-◌, ◌*◌, ◌/◌, ◌%◌, ◌^◌, Bool, true, false, ◌&&◌, ◌||◌, List, [], ◌∷◌, ◌++◌,
  Option, none, some, Bytes, text, c_str, leb, ◌==◌, if◌then◌else◌, ◌>>=◌, get_elem?, length,
}

abbrev pub digits : Bytes
digits = text "0123456789abcdef"

-- `digits[i]`; the index is below 16 at every call.
abbrev pub digit : ℕ → ℕ
digit i = elim (get_elem? digits i) [ none ↦ 0 | some c ↦ c ]

unfoldable pub encode : Bytes → ℕ → Option Bytes
encode bytes zero = some []
encode [] (suc n) = none
encode (d ∷ bytes) (suc n) = do ret ← encode bytes n; some (digit (d / 16) ∷ digit (d % 16) ∷ ret)

abbrev pub hex_value : ℕ → Option ℕ
hex_value c =
    if leb b'0' c && leb c b'9'
    then some (c - b'0')
    else if leb b'a' c && leb c b'f'
    then some (c - b'a' + 10)
    else if leb b'A' c && leb c b'F'
    then some (c - b'A' + 10)
    else none

abbrev is_space : ℕ → Bool
is_space c = c == b' ' || (leb 9 c && leb c 13)

skip_spaces : Bytes → Bytes
skip_spaces [] = []
skip_spaces (c ∷ s) = let rest = skip_spaces s in if is_space c then rest else c ∷ s

-- The digits from the front, and the text behind them.
scan : Bytes → ℕ → ℕ × Bytes
scan [] n = (n, [])
scan (c ∷ s) n = elim (hex_value c) [ none ↦ (n, c ∷ s) | some v ↦ scan s (n * 16 + v) ]

-- `0x` counts as a prefix only before a digit.
skip_prefix : Bytes → Bytes
skip_prefix (c ∷ x ∷ h ∷ s) = elim (hex_value h) [
  | none ↦ c ∷ x ∷ h ∷ s
  | some _ ↦ if c == b'0' && (x == b'x' || x == b'X') then h ∷ s else c ∷ x ∷ h ∷ s
]
skip_prefix s = s

pub record Parsed : Type 0 where
  pub value : ℕ
  pub rest : Bytes
  pub out_of_range : Bool

abbrev ulong_max : ℕ
ulong_max = 2 ^ 64 - 1

-- With no digit at all `strtoul` returns 0 and leaves `end_ptr` at the start, `whole`.
number : Bool → Bytes → Bytes → Parsed
unfolding scan
number negative whole [] = record { value = 0; rest = whole; out_of_range = false }
number negative whole (c ∷ s) = elim (hex_value c) [
  | none ↦ record { value = 0; rest = whole; out_of_range = false }
  | some _ ↦
      let (n, rest) = scan (c ∷ s) 0 in
      if leb (ulong_max + 1) n
      then record { value = ulong_max; rest = rest; out_of_range = true }
      else record {
        value = if negative then (2 ^ 64 - n) % 2 ^ 64 else n;
        rest = rest;
        out_of_range = false;
      }
]

signed : Bytes → Bytes → Parsed
unfolding number skip_prefix
signed whole [] = number false whole []
signed whole (c ∷ s) =
    if c == b'-'
    then number true whole (skip_prefix s)
    else if c == b'+'
    then number false whole (skip_prefix s)
    else number false whole (skip_prefix (c ∷ s))

strtoul : Bytes → Parsed
unfolding signed skip_spaces
strtoul s = signed s (skip_spaces s)

-- `out`, if the function returns true. `errno` is taken not to be `ERANGE` before the call.
accept : Bytes → Parsed → Option ℕ
accept [] p = if p.value == ulong_max && p.out_of_range then none else some p.value
accept (c ∷ end) p = none

atoul_str : Bytes → Option ℕ
unfolding accept strtoul
atoul_str [] = none
atoul_str (c ∷ s) = accept (strtoul (c ∷ s)).rest (strtoul (c ∷ s))

unfoldable pub atoul : Bytes → Option ℕ
unfolding atoul_str c_str
atoul str = atoul_str (c_str str)

-- The loop over pairs; `push_back` keeps the low byte of `out`.
decode_pairs : Bytes → Bytes → Option Bytes
decode_pairs [] segment = some segment
decode_pairs (a ∷ []) segment = do out ← atoul (a ∷ []); some (segment ++ (out % 256) ∷ [])
decode_pairs (a ∷ b ∷ s) segment = do
  out ← atoul (a ∷ b ∷ [])
  decode_pairs s (segment ++ (out % 256) ∷ [])

decode_odd : Bytes → Option Bytes
decode_odd [] = some []
decode_odd (a ∷ s) = do out ← atoul (a ∷ []); decode_pairs s ((out % 256) ∷ [])

-- `return {}` on an error, else the segment.
or_empty : Option Bytes → Bytes
or_empty none = []
or_empty (some segment) = segment

-- A text of odd length starts with a digit of its own.
unfoldable pub decode : Bytes → Bytes
unfolding decode_pairs decode_odd or_empty
decode s = or_empty (if length s % 2 == 1 then decode_odd s else decode_pairs s [])
