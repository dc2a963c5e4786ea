-- ===== src/Handlers/Peers.antt =====
-- What the handlers of several clients read alike: membership in a vector of names, the address of a
-- peer, and the text of an argument.
use opentelemetry_php_ext.Common.{
  Bool, true, false, List, [], ◌∷◌, Bytes, text, bytes_eq, is_empty, if◌then◌else◌,
}
use opentelemetry_php_ext.Span.{ℤ, KeyValue, set_string_attribute, set_int64_attribute}
use opentelemetry_php_ext.Text.{trim}
use opentelemetry_php_ext.Handlers.{lower}

-- `std::find(names.begin(), names.end(), cmd) != names.end()`.
unfoldable pub is_member : List Bytes → Bytes → Bool
is_member [] cmd = false
is_member (name ∷ names) cmd = if bytes_eq name cmd then true else is_member names cmd

-- `inet_addr(host) != INADDR_NONE`, a function of the system.
abbrev pub IsAddress : Type 0
IsAddress = Bytes → Bool

unfoldable pub set_peer : IsAddress → Bytes → List KeyValue → List KeyValue
set_peer is_address host attributes =
    if is_address host
    then set_string_attribute attributes (text "net.peer.ip") host
    else set_string_attribute attributes (text "net.peer.name") host

unfoldable pub set_peer_port : IsAddress → Bytes → ℤ → List KeyValue → List KeyValue
unfolding set_peer
set_peer_port is_address host port attributes =
    set_int64_attribute (set_peer is_address host attributes) (text "net.peer.port") port

-- The statement, without blanks at its ends and in small letters.
unfoldable pub set_statement : Bytes → Bytes → List KeyValue → List KeyValue
set_statement key command attributes =
    if is_empty command
    then attributes
    else set_string_attribute attributes key (trim (lower command))
