-- ===== src/Exporter/Consumer.antt =====
-- src/core.cc: the loop of a consumer, which hands the messages of the queue to its exporter. The
-- loop has no end of its own: `consume` is its rounds on the messages that `receive` gives until it
-- throws.
use opentelemetry_php_ext.Common.{
  ℕ, ◌<◌, ◌≤◌, ◌^◌, ◌≡◌, ◌≢◌, refl, Bool, true, List, [], ◌∷◌, ◌++◌, Option, some, Bytes, text, leb,
  length, if◌then◌else◌, ◌>>=◌, arith, Bool-cases, inl, inr, ◌==◌, ◌&&◌,
}
use opentelemetry_php_ext.Text.{is_equal}
use opentelemetry_php_ext.Exporter.{max_udp_size, fits_packet, send_tracer_by_udp}
use opentelemetry_php_ext.Exporter.Shards.{packets, pieces, piece_count, send_tracer_by_udp-pieces}

-- What an exporter sends: a request by gRPC, which is parsed from these bytes, or datagrams.
pub data Sent : Type 0 where
  rpc : Bytes → Sent
  datagrams : List Bytes → Sent

unfoldable pub is_exporter_grpc : Bytes → Bool
unfolding is_equal
is_exporter_grpc receiver_type = is_equal receiver_type (text "grpc")

unfoldable pub is_exporter_udp : Bytes → Bool
unfolding is_equal
is_exporter_udp receiver_type = is_equal receiver_type (text "udp")

abbrev by_grpc : Bytes → Bytes → List Sent
by_grpc receiver_type message = if is_exporter_grpc receiver_type then rpc message ∷ [] else []

-- `is_open` is the guard of `sendTracerByUDP`: the socket has a number above 0, and addr_in points to
-- an address.
abbrev by_udp : Bool → Bytes → Bytes → Bytes → Option (List Sent)
by_udp is_open receiver_type id message =
    if is_exporter_udp receiver_type && is_open
    then (do sent ← send_tracer_by_udp id message; some (datagrams sent ∷ []))
    else some []

-- One round. The test for an empty text is made on the buffer, before it takes the size of the
-- message.
unfoldable pub consumer_round : Bool → ℕ → Bytes → Bytes → Bytes → Option (List Sent)
unfolding is_exporter_grpc is_exporter_udp
consumer_round is_open max_message_size receiver_type id message =
    if max_message_size == 0 then some [] else (do
      sent ← by_udp is_open receiver_type id message
      some (by_grpc receiver_type message ++ sent))

-- The messages come with the ids that their rounds may draw.
unfoldable pub consume : Bool → ℕ → Bytes → List (Bytes × Bytes) → Option (List Sent)
unfolding consumer_round
consume is_open max_message_size receiver_type [] = some []
consume is_open max_message_size receiver_type ((id, message) ∷ messages) = do
  sent ← consumer_round is_open max_message_size receiver_type id message
  rest ← consume is_open max_message_size receiver_type messages
  some (sent ++ rest)

-- The datagrams of a message: itself, or its numbered pieces, each twice.
abbrev pub datagrams_of : Bytes → Bytes → List Bytes
datagrams_of id message =
    if leb (length message) max_udp_size
    then message ∷ []
    else packets id (piece_count message) 0 (pieces (piece_count message) message)

abbrev pub wire : Bytes × Bytes → Sent
wire (id, message) = datagrams (datagrams_of id message)

-- A message that is not empty and has fewer than 2 ^ 24 bytes.
abbrev pub IsSendable : Bytes × Bytes → Type 0
IsSendable (id, message) = (message ≢ []) × (length message < 2 ^ 24)

send_small :
    (id message : Bytes)
    → message ≢ []
    → length message ≤ max_udp_size
    → send_tracer_by_udp id message ≡ some (message ∷ [])
unfolding send_tracer_by_udp fits_packet
send_small id [] ne small = absurd (ne refl)
send_small id (b ∷ message) ne small =
    let fits : fits_packet (length (b ∷ message)) ≡ true = ground arith in rw fits refl

pub send_tracer_by_udp-datagrams_of :
    (id message : Bytes)
    → IsSendable (id, message)
    → send_tracer_by_udp id message ≡ some (datagrams_of id message)
send_tracer_by_udp-datagrams_of id message (ne, bound) =
    elim (Bool-cases (leb (length message) max_udp_size)) [
      | inl e ↦ rw (e, send_small id message ne (ground arith)) refl
      | inr e ↦ rw (e, (send_tracer_by_udp-pieces id message (ground arith) bound).0) refl
    ]
