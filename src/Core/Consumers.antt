-- ===== src/Core/Consumers.antt =====
-- src/core.cc: the message queue and the consumers that empty it.
use opentelemetry_php_ext.Common.{
  ℕ, zero, suc, ◌+◌, true, ◌++◌, Bytes, text, is_empty, if◌then◌else◌,
}
use opentelemetry_php_ext.Text.Decimal.{to_string}
use opentelemetry_php_ext.Core.Globals.{
  Globals, World, remove_queue, open_queue, start_rpc, start_udp, start_consumer, do_effect,
  is_receiver_grpc, is_receiver_udp,
}

-- `message_queue::remove`.
unfoldable pub clean_consumers : Globals → Globals
clean_consumers g = do_effect (remove_queue g.message_queue_name) g

-- One round of the loop over `consumer_nums`.
unfoldable pub start_one : ℕ → Globals → Globals
unfolding is_receiver_grpc is_receiver_udp
start_one i g =
    let rpc = if is_receiver_grpc g then do_effect (start_rpc i) g else g in
    let udp = if is_receiver_udp g then do_effect (start_udp i) rpc else rpc in
    do_effect (start_consumer i) udp

-- The rounds from `i` on, `n` of them.
unfoldable pub start_from : ℕ → ℕ → Globals → Globals
unfolding start_one
start_from zero i g = g
start_from (suc n) i g = start_from n (i + 1) (start_one i g)

-- An exception of the queue's library ends the `try` block before any consumer is started.
abbrev open_consumers : World → Globals → Globals
open_consumers w g =
    if w.queue_opens
    then start_from g.consumer_nums 0 (do_effect (open_queue g.message_queue_name) g)
    else g

abbrev pub queue_name : Globals → Bytes
queue_name g = text "opentelemetry_" ++ to_string g.settings.pid

unfoldable pub init_consumers : World → Globals → Globals
unfolding clean_consumers start_from
init_consumers w g =
    if g.is_init_consumers
    then g
    else let named =
        if is_empty g.message_queue_name
        then record g { message_queue_name = queue_name g }
        else g in
      let marked = record (clean_consumers named) { is_init_consumers = true } in
      let counted =
        if w.host.is_cli
        then record marked { consumer_nums = marked.cli_consumer_nums }
        else marked in
      open_consumers w counted
