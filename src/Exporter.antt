-- ===== src/Exporter.antt =====
-- src/otel_exporter.cc: how a request is sent by UDP. The socket and `sendto` belong to the system:
-- a send is the packet that it is given.
pub mod Shards
pub mod Consumer
pub mod Addresses
pub mod Rotation
pub mod Lookups
pub mod Rpc
use opentelemetry_php_ext.Common.{
  Option, none, some, ◌>>=◌, ℕ, zero, suc, ◌+◌, ◌-◌, ◌*◌, ◌/◌, ◌%◌, ◌^◌, Bool, true, false, List,
  [], ◌∷◌, ◌++◌, Bytes, text, ltb, leb, ◌==◌, if◌then◌else◌, length, take, drop, is_empty,
}
use opentelemetry_php_ext.Text.Decimal.{to_string}

-- `maxUdpSize`.
abbrev pub max_udp_size : ℕ
max_udp_size = 60000

-- The integer nearest to a quotient; of two that are as near, the even one.
unfoldable pub nearest : ℕ → ℕ → ℕ
nearest n d =
    if ltb (n % d * 2) d then n / d else if ltb d (n % d * 2) then n / d + 1 else n / d + n / d % 2

-- How many binary places a number of 24 bits drops, at most 8 for 32 bits.
abbrev excess : ℕ → ℕ → ℕ → ℕ
excess zero s n = s
excess (suc fuel) s n = let more = excess fuel (suc s) n in if ltb n (2 ^ (24 + s)) then s else more

-- `(float) n` for a number of 32 bits.
unfoldable pub to_float : ℕ → ℕ
unfolding nearest
to_float n = if ltb n (2 ^ 24) then n else nearest n (2 ^ excess 8 0 n) * 2 ^ excess 8 0 n

-- How many binary places behind the point a quotient by 60000 keeps in 24 bits, if it is 1 or more.
unfoldable pub places : ℕ → ℕ → ℕ
places zero a = zero
places (suc k) a =
    let fewer = places k a in if ltb (a * 2 ^ suc k) (max_udp_size * 2 ^ 24) then suc k else fewer

-- The quotient rounded to `k` binary places, and up from there to the next integer.
unfoldable pub ceil_rounded : ℕ → ℕ → ℕ
unfolding nearest
ceil_rounded k a = (nearest (a * 2 ^ k) max_udp_size + (2 ^ k - 1)) / 2 ^ k

-- `ceil((float) dataSize / (float) maxUdpSize)`.
unfoldable pub shards : ℕ → ℕ
unfolding to_float places ceil_rounded
shards n = ceil_rounded (places 23 (to_float n)) (to_float n)

-- `data.substr(start, maxUdpSize)`, which throws behind the end.
unfoldable pub piece : ℕ → Bytes → Option Bytes
piece start bytes =
    if ltb (length bytes) start then none else some (take max_udp_size (drop start bytes))

-- `id:shards,i:end:` and the piece.
unfoldable pub warp : Bytes → ℕ → ℕ → Bytes → Option Bytes
unfolding piece
warp id count i bytes = do
  p ← piece (i * max_udp_size) bytes
  some (id ++ text ":" ++ to_string count ++ text "," ++ to_string i ++ text ":end:" ++ p)

-- The loop from shard `i` on, `n` of them; each packet is sent twice.
unfoldable pub send_shards : Bytes → ℕ → ℕ → ℕ → Bytes → Option (List Bytes)
unfolding warp
send_shards id count i zero bytes = some []
send_shards id count i (suc n) bytes = do
  packet ← warp id count i bytes
  rest ← send_shards id count (suc i) n bytes
  some (packet ∷ packet ∷ rest)

-- `static_cast<int>(data.size()) <= maxUdpSize`, by the sign bit of the 32 bits.
unfoldable pub fits_packet : ℕ → Bool
fits_packet size = if leb (2 ^ 31) (size % 2 ^ 32) then true else leb (size % 2 ^ 32) max_udp_size

-- `sendTracerByUDP` on an open socket with an address; `id` is the new trace id in hexadecimal.
unfoldable pub send_tracer_by_udp : Bytes → Bytes → Option (List Bytes)
unfolding fits_packet send_shards shards
send_tracer_by_udp id bytes =
    if is_empty bytes
    then some []
    else if fits_packet (length bytes)
    then some (bytes ∷ [])
    else send_shards id (shards (length bytes % 2 ^ 32)) 0 (shards (length bytes % 2 ^ 32)) bytes
