-- ===== src/Sockets.antt =====
-- src/utils.cc: the descriptors that the helpers open: `connect_nonb`,
-- `opentelemetry_write_unix_socket` and `get_current_machine_ip`. What the system answers is a
-- parameter; what is asked of a descriptor is listed in order.
pub mod Closing
use opentelemetry_php_ext.Common.{
  ℕ, ◌+◌, Bool, true, false, ltb, ◌==◌, if◌then◌else◌, List, [], ◌∷◌, ◌++◌, Option, none, some,
  Bytes, text, c_str, take, length, is_empty,
}

-- The flag of a descriptor for calls that do not wait, its text, and its end.
pub data SystemCall : Type 0 where
  set_nonblocking set_blocking close : ℕ → SystemCall
  write : ℕ → Bytes → SystemCall

-- `connect`: at once, under way (`EINPROGRESS`), or refused.
pub data Connect : Type 0 where
  connected in_progress refused : Connect

-- `select`: 0, -1, or a number of descriptors, of which the socket may be one.
pub data Select : Type 0 where
  timed_out failed : Select
  ready : Bool → Select

-- What the system answers on a socket: `socket`, `connect`, `select`, and what `getsockopt` says is
-- pending, 0 for nothing.
pub record SocketAnswers : Type 0 where
  pub socket : Option ℕ
  pub connect : Connect
  pub select : Select
  pub pending : Option ℕ

-- From `done` on.
abbrev finish_connect : ℕ → ℕ → Bool × List SystemCall
finish_connect fd error =
    if error == 0 then (true, set_blocking fd ∷ []) else (false, set_blocking fd ∷ close fd ∷ [])

abbrev after_pending : ℕ → Option ℕ → Bool × List SystemCall
after_pending fd none = (false, [])
after_pending fd (some error) = finish_connect fd error

abbrev after_select : ℕ → Select → Option ℕ → Bool × List SystemCall
after_select fd timed_out pending = (false, close fd ∷ [])
after_select fd failed pending = (false, close fd ∷ [])
after_select fd (ready true) pending = after_pending fd pending
after_select fd (ready false) pending = finish_connect fd 0

abbrev pub after_connect : ℕ → Connect → Select → Option ℕ → Bool × List SystemCall
after_connect fd connected select pending = finish_connect fd 0
after_connect fd in_progress select pending = after_select fd select pending
after_connect fd refused select pending = (false, [])

-- `connect_nonb`: whether it returns 0, and what it asks.
unfoldable pub connect_nonb : SocketAnswers → ℕ → Bool × List SystemCall
connect_nonb a fd =
    let (is_connected, calls) = after_connect fd a.connect a.select a.pending in
    (is_connected, set_nonblocking fd ∷ calls)

abbrev pub write_line : Bool → ℕ → Bytes → List SystemCall
write_line true fd message = write fd (c_str (message ++ text "\n")) ∷ []
write_line false fd message = []

abbrev write_on : Option ℕ → SocketAnswers → Bytes → List SystemCall
write_on none a message = []
write_on (some fd) a message =
    let (is_connected, calls) = connect_nonb a fd in
    calls ++ (write_line is_connected fd message ++ close fd ∷ [])

-- `opentelemetry_write_unix_socket`; the path is copied to the 108 bytes of `sun_path`, its NUL with
-- it.
unfoldable pub write_unix_socket : SocketAnswers → Bytes → Bytes → Option (List SystemCall)
unfolding connect_nonb c_str
write_unix_socket a message unix_socket =
    if is_empty message
    then some []
    else if ltb (length (c_str unix_socket)) 108
    then some (write_on a.socket a message)
    else none

-- The name that `ioctl` is asked for: `IFNAMSIZ` is 16.
unfoldable pub interface_name : Bytes → Bytes
unfolding c_str
interface_name eth_inf = take 15 (c_str eth_inf)

abbrev address_on : Option ℕ → Option Bytes → Bytes × List SystemCall
address_on none address = ([], [])
address_on (some fd) none = ([], close fd ∷ [])
address_on (some fd) (some address) = (address, close fd ∷ [])

-- `get_current_machine_ip` on what `socket` gives and what `ioctl` says the address of an interface is.
unfoldable pub get_current_machine_ip :
    Option ℕ → (Bytes → Option Bytes) → Bytes → Bytes × List SystemCall
unfolding interface_name
get_current_machine_ip socket ioctl eth_inf = address_on socket (ioctl (interface_name eth_inf))
