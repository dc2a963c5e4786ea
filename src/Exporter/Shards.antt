-- ===== src/Exporter/Shards.antt =====
-- src/otel_exporter.cc: the number of the shards.
use opentelemetry_php_ext.Common.{
  some, ltb, false, ℕ, zero, suc, ◌+◌, ◌*◌, ◌/◌, ◌%◌, ◌^◌, ◌≤◌, ◌<◌, ◌≡◌, refl, sym, ap, ◌∙◌, arith,
  List, [], ◌∷◌, ◌++◌, Bytes, text, length, take, drop, length-drop, take-append-drop,
}
use opentelemetry_php_ext.Text.Decimal.{to_string}
use opentelemetry_php_ext.Exporter.{
  max_udp_size, piece, nearest, to_float, places, ceil_rounded, shards, warp, send_shards,
  fits_packet, send_tracer_by_udp,
}

small_float : (n : ℕ) → n < 2 ^ 24 → to_float n ≡ n
unfolding to_float
small_float n h = ground arith

ceil_any : (n : ℕ) → 60000 ≤ n → n < 2 ^ 24 → ceil_rounded (places 23 n) n ≡ (n + 59999) / 60000
unfolding ceil_rounded nearest places
ceil_any n a b = ground arith

-- Below 2 ^ 24 bytes the rounding of the numbers in floating point does not show: there is one shard
-- for each 60000 bytes, and one for the rest.
pub shards-ceil : (n : ℕ) → 60000 ≤ n → n < 2 ^ 24 → shards n ≡ (n + 59999) / 60000
unfolding shards
shards-ceil n a b = rw (small_float n b) (ceil_any n a b)

-- The text cut into `n` pieces.
abbrev pub pieces : ℕ → Bytes → List Bytes
pieces zero bytes = []
pieces (suc n) bytes = take max_udp_size bytes ∷ pieces n (drop max_udp_size bytes)

abbrev pub concat : List Bytes → Bytes
concat [] = []
concat (p ∷ ps) = p ++ concat ps

-- The packets of pieces from number `i` on, each twice.
abbrev pub packets : Bytes → ℕ → ℕ → List Bytes → List Bytes
packets id count i [] = []
packets id count i (p ∷ ps) =
    let packet =
      id ++ text ":" ++ to_string count ++ text "," ++ to_string i ++ text ":end:" ++ p in
    packet ∷ packet ∷ packets id count (suc i) ps

concat-pieces :
    (n : ℕ) (bytes : Bytes) → length bytes ≤ n * max_udp_size → concat (pieces n bytes) ≡ bytes
concat-pieces zero [] h = refl
concat-pieces zero (b ∷ bytes) h = absurd (omega arith)
concat-pieces (suc n) bytes h =
    rw (concat-pieces n (drop max_udp_size bytes) (omega (arith, length-drop max_udp_size bytes)))
      (take-append-drop max_udp_size bytes)

drop-nil {ℓ} : {A : Type ℓ} (n : ℕ) → drop {A = A} n [] ≡ []
drop-nil zero = refl
drop-nil (suc n) = refl

drop-drop {ℓ} : {A : Type ℓ} (m n : ℕ) (xs : List A) → drop m (drop n xs) ≡ drop (n + m) xs
drop-drop m zero xs = ap (λ k. drop k xs) (omega arith)
drop-drop m (suc n) [] = drop-nil m ∙ sym (drop-nil (suc n + m))
drop-drop m (suc n) (x ∷ xs) =
    let e : suc (n + m) ≡ suc n + m = omega arith in drop-drop m n xs ∙ ap (λ k. drop k (x ∷ xs)) e

warp-piece :
    (id : Bytes) (count i : ℕ) (bytes : Bytes)
    → i * max_udp_size ≤ length bytes
    → warp id count i bytes
      ≡ some (
          id
          ++ text ":"
          ++ to_string count
          ++ text ","
          ++ to_string i
          ++ text ":end:"
          ++ take max_udp_size (drop (i * max_udp_size) bytes))
unfolding warp piece
warp-piece id count i bytes h =
    let inside : ltb (length bytes) (i * max_udp_size) ≡ false = ground arith in rw inside refl

send_shards-packets :
    (id : Bytes) (count n i : ℕ) (bytes : Bytes)
    → (i + n) * max_udp_size < length bytes + max_udp_size
    → send_shards id count i n bytes
      ≡ some (packets id count i (pieces n (drop (i * max_udp_size) bytes)))
unfolding send_shards
send_shards-packets id count zero i bytes h = refl
send_shards-packets id count (suc n) i bytes h =
    let next : drop max_udp_size (drop (i * max_udp_size) bytes)
        ≡ drop (suc i * max_udp_size) bytes =
      drop-drop max_udp_size (i * max_udp_size) bytes ∙ ap (λ k. drop k bytes) (omega arith) in
    rw
      (
        warp-piece id count i bytes (omega arith),
        send_shards-packets id count n (suc i) bytes (omega arith),
        ← next,
      )
      refl

-- How many pieces a text has.
abbrev pub piece_count : Bytes → ℕ
piece_count bytes = (length bytes + 59999) / 60000

-- A text of more than 60000 and fewer than 2 ^ 24 bytes goes out in pieces of 60000 bytes and one
-- for the rest, numbered in order, each of them twice, with the number of the pieces; and the pieces
-- behind one another are the text.
pub send_tracer_by_udp-pieces :
    (id bytes : Bytes)
    → 60000 < length bytes
    → length bytes < 2 ^ 24
    → (send_tracer_by_udp id bytes
        ≡ some (packets id (piece_count bytes) 0 (pieces (piece_count bytes) bytes)))
      × (concat (pieces (piece_count bytes) bytes) ≡ bytes)
unfolding send_tracer_by_udp fits_packet
send_tracer_by_udp-pieces id [] low high = absurd (omega arith)
send_tracer_by_udp-pieces id (b ∷ bytes) low high =
    let n : ℕ = length (b ∷ bytes) in
    let whole : n % 2 ^ 32 ≡ n = omega arith in
    let large : fits_packet n ≡ false = ground arith in
    let count : shards (n % 2 ^ 32) ≡ (n + 59999) / 60000 =
      ap shards whole ∙ shards-ceil n (omega arith) high in
    (
      rw (large, count)
          (send_shards-packets id ((n + 59999) / 60000) ((n + 59999) / 60000) 0 (b ∷ bytes)
            (omega arith)),
      concat-pieces ((n + 59999) / 60000) (b ∷ bytes) (omega arith),
    )
