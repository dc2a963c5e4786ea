-- ===== src/Exporter/Addresses.antt =====
-- src/otel_exporter.cc, include/otel_exporter.h: the socket and the addresses of an exporter for UDP.
-- `inet_addr`, `getaddrinfo` and `socket` are parameters. The list of `getaddrinfo` is kept in
-- `addr_info`, empty for the null pointer, and a pointer into it is an index.
use opentelemetry_php_ext.Common.{
  ℕ, zero, suc, ◌+◌, Bool, true, false, ◌&&◌, not, ltb, if◌then◌else◌, List, [], ◌∷◌, map, Option,
  none, some, ◌>>=◌, Bytes, length, get_elem?, is_empty, set,
}
use opentelemetry_php_ext.Span.{ℤ, pos, negsuc}
use opentelemetry_php_ext.Timer.{Timer, new_timer, async_loop}
use opentelemetry_php_ext.Exporter.{send_tracer_by_udp}

-- `sockaddr_in`: the address and the port.
pub record Address : Type 0 where
  pub ip : ℕ
  pub port : ℕ

-- What `addr_in` points to: the local variable of the constructor, which is gone, or the address of
-- an entry of the list.
pub data Pointer : Type 0 where
  local : Pointer
  entry : ℕ → Pointer

pub record OtelExporter : Type 0 where
  pub sock_fd : ℤ
  pub addr_in : Pointer
  pub addr_ip : Bytes
  pub addr_port : ℕ
  pub addr_info : List Address
  pub current_addr_info : Option ℕ

-- The answers of the system: the number that a text stands for as an address, and what a look-up
-- gives, by the number of tries that are left after it; `none` is a negative return code.
pub record Network : Type 0 where
  pub inet_addr : Bytes → Option ℕ
  -- The addresses of IPv4, though AF_UNSPEC is asked for.
  pub getaddrinfo : ℕ → Bytes → ℕ → Option (List Address)

-- `OtelExporter::OtelExporter`.
abbrev pub new_exporter : OtelExporter
new_exporter = record {
  sock_fd = negsuc 0;
  addr_in = local;
  addr_ip = [];
  addr_port = 0;
  addr_info = [];
  current_addr_info = none;
}

-- A write and a read through `addr_in`.
abbrev write_address : Pointer → Address → OtelExporter → Option OtelExporter
write_address local a e = none
write_address (entry i) a e = some (record e { addr_info = set e.addr_info i a })

abbrev pub read_address : Pointer → OtelExporter → Option Address
read_address local e = none
read_address (entry i) e = get_elem? e.addr_info i

-- The list of a look-up that answered; a list without an entry is a null pointer, which is read.
abbrev take_list : List Address → OtelExporter → Option OtelExporter
take_list [] e = none
take_list (a ∷ list) e =
    some (record e { addr_info = a ∷ list; current_addr_info = some 0; addr_in = entry 0 })

-- The branches of `resolveUDPAddr` on what `inet_addr` and `getaddrinfo` give; `again` is the next try.
abbrev on_answer : Option (List Address) → OtelExporter → Option OtelExporter → Option OtelExporter
on_answer none e again = again
on_answer (some list) e again = take_list list e

abbrev on_number :
    Option ℕ → Option (List Address) → OtelExporter → Option OtelExporter → Option OtelExporter
on_number (some ip) answer e again =
    write_address e.addr_in (record { ip = ip; port = e.addr_port }) e
on_number none answer e again = on_answer answer e again

-- `resolveUDPAddr`; a numeric address needs no look-up, and is written through `addr_in`.
unfoldable pub resolve_udp_addr : Network → ℕ → OtelExporter → Option OtelExporter
resolve_udp_addr net zero e = some e
resolve_udp_addr net (suc re_try) e =
    on_number (net.inet_addr e.addr_ip) (net.getaddrinfo re_try e.addr_ip e.addr_port) e
      (resolve_udp_addr net re_try e)

abbrev is_negative : ℤ → Bool
is_negative (pos n) = false
is_negative (negsuc n) = true

abbrev pub is_positive : ℤ → Bool
is_positive (pos n) = ltb 0 n
is_positive (negsuc n) = false

-- `initUDP` on the descriptor that `socket` gives: the first look-up, and the timer for the next ones.
unfoldable pub init_udp :
    Network → ℤ → Bytes → ℕ → OtelExporter → Option (OtelExporter × Option Timer)
unfolding resolve_udp_addr
init_udp net fd ip port e =
    let opened = record e { addr_ip = ip; addr_port = port; sock_fd = fd } in
    if is_negative fd
    then some (opened, none)
    else (do resolved ← resolve_udp_addr net 3 opened; some (resolved, some (async_loop new_timer)))

-- `ai_next`, or the start of the list again.
abbrev next_entry : ℕ → List Address → ℕ
next_entry i list = if ltb (i + 1) (length list) then i + 1 else 0

-- What `sendTracerByUDP` does after it sent.
unfoldable pub rotate : OtelExporter → OtelExporter
rotate e = elim e.current_addr_info [
  | none ↦ e
  | some i ↦ record e {
    current_addr_info = some (next_entry i e.addr_info);
    addr_in = entry (next_entry i e.addr_info);
  }
]

-- `sendTracerByUDP`: the datagrams with the address that they go to.
unfoldable pub send_datagrams :
    Bytes → Bytes → OtelExporter → Option (List (Address × Bytes) × OtelExporter)
unfolding rotate
send_datagrams id message e =
    if is_positive e.sock_fd && not (is_empty message)
    then (do
      target ← read_address e.addr_in e
      sent ← send_tracer_by_udp id message
      some (map (λ datagram. (target, datagram)) sent, rotate e))
    else some ([], e)

-- The messages of a queue between two look-ups of the timer, each with the id that it may draw.
unfoldable pub send_messages :
    List (Bytes × Bytes) → OtelExporter → Option (List (List (Address × Bytes)) × OtelExporter)
unfolding send_datagrams
send_messages [] e = some ([], e)
send_messages ((id, message) ∷ messages) e = do
  sent ← send_datagrams id message e
  rest ← send_messages messages sent.1
  some (sent.0 ∷ rest.0, rest.1)
