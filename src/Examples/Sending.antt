-- ===== src/Examples/Sending.antt =====
-- Tests: the exporter, descriptors, settings and text (src/otel_exporter.cc, src/utils.cc,
-- opentelemetry.cc, src/Timer.cc).
use opentelemetry_php_ext.Common.{
  ℕ, ◌<◌, ◌≡◌, refl, true, false, ◌==◌, if◌then◌else◌, List, [], ◌∷◌, ◌++◌, map, none, some, Bytes,
  text, c_str, length, get_elem?, All, arith,
}
use opentelemetry_php_ext.Span.{pos}
use opentelemetry_php_ext.Text.{explode, split}
use opentelemetry_php_ext.Text.Split.{split-explode, split_long}
use opentelemetry_php_ext.Timer.{Timer, new_timer, async_loop, ended, woken, destroy}
use opentelemetry_php_ext.Timer.Rounds.{rounds}
use opentelemetry_php_ext.Timer.Ends.{rounds-destroy}
use opentelemetry_php_ext.Exporter.Consumer.{IsSendable, datagrams_of}
use opentelemetry_php_ext.Exporter.Addresses.{
  Address, OtelExporter, Network, new_exporter, init_udp, send_datagrams, send_messages,
}
use opentelemetry_php_ext.Exporter.Lookups.{init_udp-send_messages, unresolved_fault}
use opentelemetry_php_ext.Exporter.Rpc.{
  Completion, send_requests, occurrences, tags, addresses, sent, async_complete_rpc,
  async_complete_rpc-send_requests,
}
use opentelemetry_php_ext.Sockets.{
  SystemCall, SocketAnswers, in_progress, timed_out, write_unix_socket,
}
use opentelemetry_php_ext.Sockets.Closing.{
  closes, written, stands, breaks_late, write_unix_socket-closes,
}
use opentelemetry_php_ext.Ini.{Memory, read_field, ini_entries, register_ini_entries, on_update}
use opentelemetry_php_ext.Ini.Registered.{
  held, setting, register_ini_entries-held, on_update_neighbour,
}

abbrev near : Address
near = record { ip = 1; port = 5337 }

abbrev far : Address
far = record { ip = 2; port = 5337 }

-- The second try answers, with two addresses.
abbrev network : Network
network = record {
  inet_addr = λ ip. none;
  getaddrinfo = λ re_try ip port. if re_try == 1 then some (near ∷ far ∷ []) else none;
}

abbrev messages : List (Bytes × Bytes)
messages = (text "i", text "a") ∷ (text "j", text "b") ∷ (text "k", text "c") ∷ []

messages-IsSendable : All IsSendable messages
messages-IsSendable =
    (((λ e. cc), omega arith), (((λ e. cc), omega arith), (((λ e. cc), omega arith), tt)))

init_udp-send_messages_example :
    (e : OtelExporter) × (q : OtelExporter) × (all_sent : List (List (Address × Bytes))) × (init_udp
        network
        (pos 4)
        (text "db")
        5337
        new_exporter
      ≡ some (e, some (async_loop new_timer)))
    × (send_messages messages e ≡ some (all_sent, q))
    × (get_elem? all_sent 2
        ≡ some (map (λ datagram. (near, datagram)) (datagrams_of (text "k") (text "c"))))
init_udp-send_messages_example =
    init_udp-send_messages network 3 (text "db") 5337 1 1 near (far ∷ []) messages 2 (text "k")
      (text "c") near refl refl (λ j h. ground arith) refl messages-IsSendable refl refl

abbrev silent : Network
silent = record { inet_addr = λ ip. none; getaddrinfo = λ re_try ip port. none }

unresolved_fault_example :
    (e : OtelExporter) × (init_udp silent (pos 4) (text "db") 5337 new_exporter
      ≡ some (e, some (async_loop new_timer)))
    × (send_datagrams (text "i") (text "a") e ≡ none)
unresolved_fault_example =
    unresolved_fault silent 3 (text "db") 5337 (text "i") b'a' [] refl (λ j h. refl)

abbrev two_requests : List (ℕ × Bytes)
two_requests = (10, text "a") ∷ (20, text "b") ∷ []

abbrev back : List Completion
back = record { tag = 0; is_ok = true } ∷ record { tag = 1; is_ok = true } ∷ []

back_once :
    (a : ℕ) → occurrences a (tags back) ≡ occurrences a (addresses (sent 100 two_requests).live)
unfolding send_requests
back_once a = omega arith

async_complete_rpc-send_requests_example :
    async_complete_rpc back (sent 100 two_requests)
    ≡ some (record (sent 100 two_requests) { live = [] })
async_complete_rpc-send_requests_example =
    async_complete_rpc-send_requests 100 two_requests back (refl, (refl, tt)) back_once

split-explode_example : split (text "a,b") (text ",") ≡ some (explode (text ",") (text "a,b"))
split-explode_example = split-explode b',' (text "a,b") (λ e. cc)

split_long_example : split (text "a=>b") (text "=>") ≡ some (text "a" ∷ text ">b" ∷ [])
split_long_example =
    split_long b'=' (text ">") b'a' [] (text "b") (omega arith) (omega arith) (omega arith)

abbrev late : SocketAnswers
late = record { socket = some 7; connect = in_progress; select = timed_out; pending = none }

short_path : length (c_str (text "/run/agent.sock")) < 108
unfolding c_str
short_path = omega arith

write_unix_socket-closes_example :
    (calls : List SystemCall) × (write_unix_socket late (text "m") (text "/run/agent.sock")
      ≡ some calls)
    × (written calls ≡ (
        if stands late.connect late.select late.pending
        then c_str (text "m" ++ text "\n") ∷ []
        else []))
    × (closes 7 calls ≡ (if breaks_late late.connect late.select late.pending then 2 else 1))
write_unix_socket-closes_example =
    write_unix_socket-closes late 7 b'm' [] (text "/run/agent.sock") refl short_path

abbrev filled : ℕ → Memory
filled n = record { flags = λ k. n; cells = λ k. n }

register_ini_entries-held_example :
    All
      (λ e.
        read_field e.field (register_ini_entries (λ x. 1000) ini_entries (filled 0))
        ≡ held e.field 1000)
      ini_entries
register_ini_entries-held_example =
    register_ini_entries-held (λ x. 1000) (filled 0) (λ e. omega arith)

on_update_neighbour_example :
    (read_field
        (setting "sample_ratio_based")
        (on_update (setting "sample_ratio_based") 2 (filled 1000))
      ≡ 2)
    × (read_field
          (setting "max_time_consuming")
          (on_update (setting "sample_ratio_based") 2 (filled 1000))
        ≡ 0)
    × (read_field
          (setting "cli_consumer_nums")
          (on_update (setting "consumer_nums") 2 (filled 1000))
        ≡ 0)
    × ((on_update (setting "udp_look_up_time") 2 (filled 1000)).cells 24 ≡ 0)
on_update_neighbour_example = on_update_neighbour 2 (filled 1000) (omega arith)

abbrev awake : Timer
awake = record new_timer { expired = false; has_thread = true; place = woken }

rounds-destroy_example :
    ((rounds 6 (destroy awake)).place ≡ ended) × ((rounds 6 (destroy awake)).runs ≡ 0)
rounds-destroy_example = rounds-destroy awake
