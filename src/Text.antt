-- ===== src/Text.antt =====
-- src/utils.cc: the functions on text.
pub mod Explode
pub mod Split
pub mod Trim
pub mod Decimal
use opentelemetry_php_ext.Common.{
  ℕ, zero, suc, ◌+◌, ◌-◌, Bool, true, false, not, ◌&&◌, ◌||◌, List, [], ◌∷◌, ◌++◌, Option, none,
  some, Bytes, text, c_str, leb, ◌==◌, if◌then◌else◌, ◌>>=◌, length, bytes_eq, is_empty, drop, take,
  ltb,
}

-- Whether `str` begins with `pre`.
unfoldable pub is_prefix : Bytes → Bytes → Bool
is_prefix [] str = true
is_prefix (p ∷ pre) [] = false
is_prefix (p ∷ pre) (c ∷ str) = if p == c then is_prefix pre str else false

-- Two C strings: `strlen`, then `memcmp` of the first `len_pre` bytes.
unfoldable pub starts_with : Bytes → Bytes → Bool
unfolding is_prefix c_str
starts_with pre str =
    leb (length (c_str pre)) (length (c_str str)) && is_prefix (c_str pre) (c_str str)

-- `strstr(search, str)`: whether `str` occurs in `search`.
occurs : Bytes → Bytes → Bool
occurs str [] = is_prefix str []
occurs str (c ∷ search) = is_prefix str (c ∷ search) || occurs str search

unfoldable pub is_contain : Bytes → Bytes → Bool
unfolding occurs is_prefix c_str
is_contain str search = occurs (c_str str) (c_str search)

-- `strcmp(a, b) == 0`.
unfoldable pub is_equal : Bytes → Bytes → Bool
unfolding c_str
is_equal a b = bytes_eq (c_str a) (c_str b)

-- `s.erase(0, s.find_first_not_of(' '))`; `npos` erases all.
erase_left : Bytes → Bytes
erase_left [] = []
erase_left (c ∷ s) = let rest = erase_left s in if c == b' ' then rest else c ∷ s

-- `s.erase(s.find_last_not_of(' ') + 1)`; `npos + 1` is 0.
erase_right : Bytes → Bytes
erase_right [] = []
erase_right (c ∷ s) =
    let rest = erase_right s in if is_empty rest && c == b' ' then [] else c ∷ rest

unfoldable pub trim : Bytes → Bytes
unfolding erase_left erase_right
trim s = if is_empty s then s else erase_right (erase_left s)

-- The loop of `explode`: `cur` is `str[k..i)`, `rest` is `str[i..]`, and each round moves `i`.
explode_loop : ℕ → Bytes → Bytes → Bytes → List Bytes
explode_loop zero delimiter cur rest = cur ∷ []
explode_loop (suc fuel) delimiter cur [] = cur ∷ []
explode_loop (suc fuel) delimiter cur (c ∷ rest) =
    let found = cur ∷ explode_loop fuel delimiter [] (drop (length delimiter) (c ∷ rest)) in
    let next = explode_loop fuel delimiter (cur ++ c ∷ []) rest in
    if is_prefix delimiter (c ∷ rest) then found else next

-- Each round takes a byte or more, so the length of `str` is fuel enough.
unfoldable pub explode : Bytes → Bytes → List Bytes
unfolding explode_loop
explode [] str = []
explode (d ∷ delimiter) str = explode_loop (length str) (d ∷ delimiter) [] str

-- `basicString.find(pattern)`: where the pattern stands first; `none` is `npos`.
unfoldable pub find : Bytes → Bytes → Option ℕ
unfolding is_prefix
find pattern [] = if is_prefix pattern [] then some 0 else none
find pattern (c ∷ s) =
    let later = (find pattern s >>= λ i. some (suc i)) in
    if is_prefix pattern (c ∷ s) then some 0 else later

-- A round of `split` on where the pattern stands: the text behind it begins one byte after its start;
-- `substr` throws behind the end.
abbrev piece_at : Option ℕ → Bytes → (Bytes → Option (List Bytes)) → Option (List Bytes)
piece_at none s more = some []
piece_at (some pos) s more =
    if ltb (length s) (pos + 1)
    then none
    else (do rest ← more (drop (pos + 1) s); some (take pos s ∷ rest))

-- The loop of `split`; each round takes a byte at least. `none` is the throw of `substr`, which an empty
-- pattern comes to, and the end of the fuel, which no other pattern comes to.
unfoldable pub split_loop : ℕ → Bytes → Bytes → Option (List Bytes)
unfolding find
split_loop zero pattern s = none
split_loop (suc fuel) pattern s = piece_at (find pattern s) s (split_loop fuel pattern)

-- `split`, with the pattern behind the text; one round more than the text has bytes finds no pattern.
unfoldable pub split : Bytes → Bytes → Option (List Bytes)
unfolding split_loop
split [] pattern = some []
split (c ∷ s) pattern = split_loop (suc (length ((c ∷ s) ++ pattern))) pattern ((c ∷ s) ++ pattern)
