-- ===== src/Sockets/Closing.antt =====
-- src/utils.cc: how often a descriptor is closed, and what is written.
use opentelemetry_php_ext.Common.{
  ℕ, zero, suc, ◌+◌, ◌≤◌, ◌<◌, ◌≡◌, refl, Bool, true, false, ltb, ◌==◌, ==_iff, if◌then◌else◌, List,
  [], ◌∷◌, ◌++◌, Option, none, some, Bytes, text, c_str, length, arith, Option-cases, inl, inr,
}
use opentelemetry_php_ext.Sockets.{
  SystemCall, set_nonblocking, close, write, Connect, connected, in_progress, refused, Select,
  timed_out, failed, ready, SocketAnswers, connect_nonb, write_unix_socket, get_current_machine_ip,
  interface_name, after_connect, write_line,
}

-- How often a descriptor is closed.
abbrev pub closes : ℕ → List SystemCall → ℕ
closes fd [] = 0
closes fd (close n ∷ calls) = (if n == fd then 1 else 0) + closes fd calls
closes fd (call ∷ calls) = closes fd calls

-- The texts that are written.
abbrev pub written : List SystemCall → List Bytes
written [] = []
written (write n s ∷ calls) = s ∷ written calls
written (call ∷ calls) = written calls

-- A connection under way that runs out of time, cannot be waited for, or ends with an error.
abbrev pub breaks_late : Connect → Select → Option ℕ → Bool
breaks_late in_progress timed_out pending = true
breaks_late in_progress failed pending = true
breaks_late in_progress (ready true) (some (suc error)) = true
breaks_late c select pending = false

-- A connection that stands: at once, or at the end of the wait.
abbrev pub stands : Connect → Select → Option ℕ → Bool
stands connected select pending = true
stands in_progress (ready false) pending = true
stands in_progress (ready true) (some zero) = true
stands c select pending = false

-- The calls after `socket`, by what the system answers.
abbrev calls_on : ℕ → Connect → Select → Option ℕ → Bytes → List SystemCall
calls_on fd connect select pending message =
    let (is_connected, calls) = after_connect fd connect select pending in
    (set_nonblocking fd ∷ calls) ++ (write_line is_connected fd message ++ close fd ∷ [])

module _ (fd : ℕ) (message : Bytes) where
  calls_on_lem :
      (connect : Connect) (select : Select) (pending : Option ℕ)
      → (written (calls_on fd connect select pending message)
          ≡ (if stands connect select pending then c_str (message ++ text "\n") ∷ [] else []))
        × (closes fd (calls_on fd connect select pending message)
            ≡ (if breaks_late connect select pending then 2 else 1))
  calls_on_lem connected select pending = (refl, rw ((==_iff fd fd).1 refl) refl)
  calls_on_lem refused select pending = (refl, rw ((==_iff fd fd).1 refl) refl)
  calls_on_lem in_progress timed_out pending = (refl, rw ((==_iff fd fd).1 refl) refl)
  calls_on_lem in_progress failed pending = (refl, rw ((==_iff fd fd).1 refl) refl)
  calls_on_lem in_progress (ready false) pending = (refl, rw ((==_iff fd fd).1 refl) refl)
  calls_on_lem in_progress (ready true) none = (refl, rw ((==_iff fd fd).1 refl) refl)
  calls_on_lem in_progress (ready true) (some zero) = (refl, rw ((==_iff fd fd).1 refl) refl)
  calls_on_lem in_progress (ready true) (some (suc error)) =
      let pending : (suc error == 0) ≡ false = ground arith in
      rw (pending, (==_iff fd fd).1 refl) (refl, refl)

-- On a socket that opens, a text that is not empty and a path that fits: the text is written with a
-- line end, up to its first NUL, exactly if the connection stands; and the descriptor is closed once,
-- but twice after a connection that broke while it was waited for.
pub write_unix_socket-closes :
    (a : SocketAnswers) (fd c : ℕ) (message unix_socket : Bytes)
    → a.socket ≡ some fd
    → length (c_str unix_socket) < 108
    → (calls : List SystemCall) × (write_unix_socket a (c ∷ message) unix_socket ≡ some calls)
      × (written calls ≡ (
          if stands a.connect a.select a.pending
          then c_str ((c ∷ message) ++ text "\n") ∷ []
          else []))
      × (closes fd calls ≡ (if breaks_late a.connect a.select a.pending then 2 else 1))
unfolding write_unix_socket connect_nonb
write_unix_socket-closes a fd c message unix_socket opens fits =
    let small : ltb (length (c_str unix_socket)) 108 ≡ true = ground arith in
    let (lines, ends) = calls_on_lem fd (c ∷ message) a.connect a.select a.pending in
    (calls_on fd a.connect a.select a.pending (c ∷ message), rw (opens, small) refl, lines, ends)

-- A path of 108 bytes or more is written past the end of the address, whatever the system answers;
-- and an empty text is not sent anywhere.
pub write_unix_socket_overflow :
    (a : SocketAnswers) (c : ℕ) (message unix_socket : Bytes)
    → 108 ≤ length (c_str unix_socket)
    → (write_unix_socket a (c ∷ message) unix_socket ≡ none)
      × (write_unix_socket a [] unix_socket ≡ some [])
unfolding write_unix_socket
write_unix_socket_overflow a c message unix_socket long =
    let large : ltb (length (c_str unix_socket)) 108 ≡ false = ground arith in (rw large refl, refl)

-- The descriptor for the look-up of the machine's address is closed once, whatever is answered.
pub get_current_machine_ip-closes :
    (fd : ℕ) (ioctl : Bytes → Option Bytes) (eth_inf : Bytes)
    → closes fd ((get_current_machine_ip (some fd) ioctl eth_inf).1) ≡ 1
unfolding get_current_machine_ip
get_current_machine_ip-closes fd ioctl eth_inf =
    elim (Option-cases (ioctl (interface_name eth_inf))) [
      | inl e ↦ rw (e, (==_iff fd fd).1 refl) refl
      | inr (address, e) ↦ rw (e, (==_iff fd fd).1 refl) refl
    ]
