-- ===== src/Exporter/Rotation.antt =====
-- src/otel_exporter.cc: which address a message goes to.
use native.Mathlib.Nat.{mod-eq_of_lt, mod-add-mod, mod_self}
use opentelemetry_php_ext.Common.{
  ℕ, zero, suc, ◌+◌, ◌%◌, ◌<◌, ◌≡◌, refl, ap, ◌∙◌, sym, true, ltb, if◌then◌else◌, List, [], ◌∷◌,
  map, some, Bytes, length, get_elem?, All, Bool-cases, inl, inr, arith,
}
use opentelemetry_php_ext.Exporter.Consumer.{
  IsSendable, datagrams_of, send_tracer_by_udp-datagrams_of,
}
use opentelemetry_php_ext.Exporter.Addresses.{
  is_positive, Address, entry, OtelExporter, rotate, send_datagrams, send_messages,
}

-- The exporter at an entry of its list.
abbrev pub at_entry : ℕ → OtelExporter → OtelExporter
at_entry i e = record e { current_addr_info = some i; addr_in = entry i }

-- An open socket, and an entry of the list that both pointers are at.
pub record IsReady (e : OtelExporter) (i : ℕ) : Type 0 where
  pub is_open : is_positive e.sock_fd ≡ true
  pub current : e.current_addr_info ≡ some i
  pub target : e.addr_in ≡ entry i
  pub inside : i < length e.addr_info

next-mod : (i n : ℕ) → i < n → (if ltb (i + 1) n then i + 1 else 0) ≡ (i + 1) % n
next-mod i n h = elim (Bool-cases (ltb (i + 1) n)) [
  | inl e ↦ rw e (sym (mod-eq_of_lt {n = i + 1} {m = n} (ground arith)))
  | inr e ↦ rw e (let same : i + 1 ≡ n = ground arith in rw same (sym (mod_self n)))
]

get_elem?-inside {ℓ} :
    {A : Type ℓ} (xs : List A) (i : ℕ) → i < length xs → (a : A) × (get_elem? xs i ≡ some a)
get_elem?-inside [] i h = absurd (omega arith)
get_elem?-inside (x ∷ xs) zero h = (x, refl)
get_elem?-inside (x ∷ xs) (suc i) h = get_elem?-inside xs i (omega arith)

send_datagrams-IsReady :
    (e : OtelExporter) (i : ℕ) (id message : Bytes) (a : Address)
    → IsReady e i
    → get_elem? e.addr_info i ≡ some a
    → IsSendable (id, message)
    → send_datagrams id message e
      ≡ some (
        map (λ datagram. (a, datagram)) (datagrams_of id message),
        at_entry ((i + 1) % length e.addr_info) e,
      )
unfolding send_datagrams rotate
send_datagrams-IsReady e i id [] a r at s = absurd (s.0 refl)
send_datagrams-IsReady e i id (c ∷ message) a r at s =
    rw
      (
        r.is_open,
        r.target,
        at,
        send_tracer_by_udp-datagrams_of id (c ∷ message) s,
        r.current,
        next-mod i (length e.addr_info) r.inside,
      )
      refl

at_entry_self : (e : OtelExporter) (i : ℕ) → IsReady e i → e ≡ at_entry i e
at_entry_self e i r t = record e { current_addr_info = r.current t; addr_in = r.target t }

at_entry-IsReady :
    (e : OtelExporter) (i j : ℕ) → IsReady e i → j < length e.addr_info → IsReady (at_entry j e) j
at_entry-IsReady e i j r h = record {
  is_open = r.is_open;
  current = refl;
  target = refl;
  inside = h;
}

-- What stands behind the first message goes one place further round.
later_place :
    (e : OtelExporter) (i : ℕ) (id message : Bytes) (messages : List (Bytes × Bytes)) (a : Address)
    (rest : List (List (Address × Bytes)))
    → i < length e.addr_info
    → get_elem? e.addr_info i ≡ some a
    → ((k : ℕ) (id' message' : Bytes) (a' : Address)
        → get_elem? messages k ≡ some (id', message')
        → get_elem? e.addr_info (((i + 1) % length e.addr_info + k) % length e.addr_info) ≡ some a'
        → get_elem? rest k ≡ some (map (λ datagram. (a', datagram)) (datagrams_of id' message')))
    → (k : ℕ) (id' message' : Bytes) (a' : Address)
    → get_elem? ((id, message) ∷ messages) k ≡ some (id', message')
    → get_elem? e.addr_info ((i + k) % length e.addr_info) ≡ some a'
    → get_elem? (map (λ datagram. (a, datagram)) (datagrams_of id message) ∷ rest) k
      ≡ some (map (λ datagram. (a', datagram)) (datagrams_of id' message'))
later_place e i id message messages a rest low at later zero id' message' a' has there =
    let here : (i + 0) % length e.addr_info ≡ i =
      ap (λ k. k % length e.addr_info) (omega arith) ∙ mod-eq_of_lt low in
    let same : a ≡ a' = let e1 = ap (get_elem? e.addr_info) here in cc in
    let same_id : id ≡ id' = cc in
    let same_message : message ≡ message' = cc in rw (same, same_id, same_message) refl
later_place e i id message messages a rest low at later (suc k) id' message' a' has there =
    later k id' message' a' has (
      ap (get_elem? e.addr_info) (
        mod-add-mod (i + 1) (length e.addr_info) k ∙ ap (λ m. m % length e.addr_info) (omega arith))
      ∙ there)

-- However many messages go out, the k-th goes to the address that stands k places behind the current
-- one, going round at the end of the list, as one datagram or in its numbered pieces; and the exporter
-- is ready for the next.
pub send_messages-IsReady :
    (messages : List (Bytes × Bytes)) (e : OtelExporter) (i : ℕ) (r : IsReady e i)
    → All IsSendable messages
    → (sent : List (List (Address × Bytes))) × (send_messages messages e
        ≡ some (sent, at_entry ((i + length messages) % length e.addr_info) e))
      × ((k : ℕ) (id message : Bytes) (a : Address)
          → get_elem? messages k ≡ some (id, message)
          → get_elem? e.addr_info ((i + k) % length e.addr_info) ≡ some a
          → get_elem? sent k ≡ some (map (λ datagram. (a, datagram)) (datagrams_of id message)))
unfolding send_messages
send_messages-IsReady [] e i r s = (
  [],
  ap (λ x. some ([], x)) (at_entry_self e i r)
      ∙ ap (λ j. some ([], at_entry j e))
          (sym (mod-eq_of_lt {n = i} {m = length e.addr_info} (r.inside))
            ∙ ap (λ j. j % length e.addr_info) (omega arith)),
  λ k id message a h. cc,
)
send_messages-IsReady ((id, message) ∷ messages) e i r (s, ss) =
    let n : ℕ = length e.addr_info in
    let (a, at) = get_elem?-inside e.addr_info i r.inside in
    let j : ℕ = (i + 1) % n in
    let ready = at_entry-IsReady e i j r (let low = r.inside in omega arith) in
    let (rest, sends, places) = send_messages-IsReady messages (at_entry j e) j ready ss in
    let first : List (Address × Bytes) =
      map (λ datagram. (a, datagram)) (datagrams_of id message) in
    (
      first ∷ rest,
      rw (send_datagrams-IsReady e i id message a r at s, sends)
          (ap (λ k. some (first ∷ rest, at_entry k e))
            (mod-add-mod (i + 1) n (length messages) ∙ ap (λ k. k % n) (omega arith))),
      later_place e i id message messages a rest r.inside at places,
    )
