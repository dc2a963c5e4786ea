-- ===== src/Exporter/Lookups.antt =====
-- src/otel_exporter.cc: from the set-up of an exporter for UDP to the messages that it sends.
use opentelemetry_php_ext.Common.{
  ℕ, zero, suc, ◌+◌, ◌%◌, ◌<◌, ◌≡◌, refl, ap, ◌∙◌, sym, true, List, ◌∷◌, map, none, some, ◌>>=◌,
  Bytes, length, get_elem?, All, arith,
}
use opentelemetry_php_ext.Span.{pos}
use opentelemetry_php_ext.Timer.{new_timer, async_loop}
use opentelemetry_php_ext.Exporter.Consumer.{IsSendable, datagrams_of}
use opentelemetry_php_ext.Exporter.Addresses.{
  is_positive, Address, entry, OtelExporter, Network, new_exporter, resolve_udp_addr, init_udp,
  send_datagrams, send_messages,
}
use opentelemetry_php_ext.Exporter.Rotation.{IsReady, at_entry, send_messages-IsReady}

-- An exporter at the first entry of a list.
abbrev looked_up : List Address → OtelExporter → OtelExporter
looked_up list e = record e { addr_info = list; current_addr_info = some 0; addr_in = entry 0 }

-- The exporter that `initUDP` resolves.
abbrev opened : ℕ → Bytes → ℕ → OtelExporter
opened fd ip port = record new_exporter { addr_ip = ip; addr_port = port; sock_fd = pos fd }

resolve-again :
    (net : Network) (e : OtelExporter) (n : ℕ)
    → net.inet_addr e.addr_ip ≡ none
    → net.getaddrinfo n e.addr_ip e.addr_port ≡ none
    → resolve_udp_addr net (suc n) e ≡ resolve_udp_addr net n e
unfolding resolve_udp_addr
resolve-again net e n name fails = rw (name, fails) refl

-- Of the tries that are left, `m` fail before one answers.
resolve-answer :
    (net : Network) (e : OtelExporter) (m k : ℕ) (a : Address) (list : List Address)
    → net.inet_addr e.addr_ip ≡ none
    → ((j : ℕ) → j < m → net.getaddrinfo (suc k + j) e.addr_ip e.addr_port ≡ none)
    → net.getaddrinfo k e.addr_ip e.addr_port ≡ some (a ∷ list)
    → resolve_udp_addr net (suc (k + m)) e ≡ some (looked_up (a ∷ list) e)
unfolding resolve_udp_addr
resolve-answer net e zero k a list name fails answers =
    let same : k + 0 ≡ k = omega arith in rw (same, name, answers) refl
resolve-answer net e (suc m) k a list name fails answers =
    let less : k + suc m ≡ suc (k + m) = omega arith in
    let shifted : suc (k + m) ≡ suc k + m = omega arith in
    resolve-again net e (k + suc m) name
      (ap (λ j. net.getaddrinfo j e.addr_ip e.addr_port) (less ∙ shifted) ∙ fails m (omega arith))
    ∙ ap (λ n. resolve_udp_addr net n e) less
    ∙ resolve-answer net e m k a list name (λ j h. fails j (omega arith)) answers

resolve-silence :
    (net : Network) (e : OtelExporter) (n : ℕ)
    → net.inet_addr e.addr_ip ≡ none
    → ((j : ℕ) → j < n → net.getaddrinfo j e.addr_ip e.addr_port ≡ none)
    → resolve_udp_addr net n e ≡ some e
unfolding resolve_udp_addr
resolve-silence net e zero name fails = refl
resolve-silence net e (suc n) name fails =
    resolve-again net e n name (fails n (omega arith))
    ∙ resolve-silence net e n name (λ j h. fails j (omega arith))

-- An exporter of a name, on a socket whose number is not 0, one of whose three look-ups answers with
-- addresses, all of IPv4: it is set up with a timer for the next look-ups, and whatever messages
-- follow before the timer looks up again, none empty or of 2 ^ 24 bytes or more, they are sent, the
-- n-th to the address in place n of the answer, counted round, as one datagram or in its numbered
-- pieces.
pub init_udp-send_messages :
    (net : Network) (fd : ℕ) (ip : Bytes) (port k m : ℕ) (a : Address) (list : List Address)
    (messages : List (Bytes × Bytes)) (n : ℕ) (id message : Bytes) (b : Address)
    → net.inet_addr ip ≡ none
    → k + m ≡ 2
    → ((j : ℕ) → j < m → net.getaddrinfo (suc k + j) ip port ≡ none)
    → net.getaddrinfo k ip port ≡ some (a ∷ list)
    → All IsSendable messages
    → get_elem? messages n ≡ some (id, message)
    → get_elem? (a ∷ list) (n % length (a ∷ list)) ≡ some b
    → (e : OtelExporter) × (q : OtelExporter) × (sent : List (List (Address × Bytes))) × (init_udp
          net
          (pos (suc fd))
          ip
          port
          new_exporter
        ≡ some (e, some (async_loop new_timer)))
      × (send_messages messages e ≡ some (sent, q))
      × (get_elem? sent n ≡ some (map (λ datagram. (b, datagram)) (datagrams_of id message)))
unfolding init_udp
init_udp-send_messages net fd ip port k m a list messages n id message b name three fails answers
      sendable has there =
    let e : OtelExporter = looked_up (a ∷ list) (opened (suc fd) ip port) in
    let ready : IsReady e 0 = record {
      is_open = ground arith;
      current = refl;
      target = refl;
      inside = omega arith;
    } in
    let (sent, sends, places) = send_messages-IsReady messages e 0 ready sendable in
    let tries : suc (k + m) ≡ 3 = omega arith in
    let resolved = resolve-answer net (opened (suc fd) ip port) m k a list name fails answers in
    let start : 0 + n ≡ n = omega arith in
    (
      e,
      at_entry ((0 + length messages) % length (a ∷ list)) e,
      sent,
      ap
            (λ i. resolve_udp_addr net i (opened (suc fd) ip port) >>= λ r.
              some (r, some (async_loop new_timer)))
            (sym tries)
          ∙ ap (λ r. r >>= λ x. some (x, some (async_loop new_timer))) resolved,
      sends,
      places n id message b has
          (ap (λ i. get_elem? (a ∷ list) (i % length (a ∷ list))) start ∙ there),
    )

-- Whatever the socket, the set-up with a numeric address faults, since it writes through the pointer
-- to the constructor's variable.
pub numeric_fault :
    (net : Network) (fd : ℕ) (ip : Bytes) (port number : ℕ)
    → net.inet_addr ip ≡ some number
    → init_udp net (pos fd) ip port new_exporter ≡ none
unfolding init_udp resolve_udp_addr
numeric_fault net fd ip port number numeric = rw numeric refl

-- On a socket whose number is not 0, if no look-up of a name answers, the set-up returns all the same;
-- and the first message that is not empty, if it comes before the timer looks up again, faults, since
-- it is sent through the pointer to the constructor's variable.
pub unresolved_fault :
    (net : Network) (fd : ℕ) (ip : Bytes) (port : ℕ) (id : Bytes) (c : ℕ) (message : Bytes)
    → net.inet_addr ip ≡ none
    → ((j : ℕ) → j < 3 → net.getaddrinfo j ip port ≡ none)
    → (e : OtelExporter) × (init_udp net (pos (suc fd)) ip port new_exporter
        ≡ some (e, some (async_loop new_timer)))
      × (send_datagrams id (c ∷ message) e ≡ none)
unfolding init_udp send_datagrams
unresolved_fault net fd ip port id c message name fails = (
  opened (suc fd) ip port,
  ap (λ r. r >>= λ x. some (x, some (async_loop new_timer)))
      (resolve-silence net (opened (suc fd) ip port) 3 name fails),
  let positive : is_positive (pos (suc fd)) ≡ true = ground arith in rw positive refl,
)
