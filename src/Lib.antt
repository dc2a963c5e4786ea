-- ===== src/Lib.antt =====
-- Verification of the tracing extension for PHP (src/, include/, opentelemetry.cc).
--
-- The extension opens a trace at the start of a request, or when a script on the command line asks
-- for it, hooks functions of PHP so that calls leave spans under the trace's first span, hands the
-- trace on in HTTP headers, and puts the finished request into a message queue that threads of its
-- own empty. The parts, and the files that model them:
--
-- - Hex (src/hex.cc): `encode`, `decode` and `atoul`. Hex/RoundTrip and Hex/Decode hold the proofs.
-- - Text (src/utils.cc): `starts_with`, `is_contain`, `is_equal`, `trim`, `split`, `explode`. The
--   loops of `explode` and `split` run on fuel, the length of the text and, for `split`, one round
--   more; each round takes a byte at least. Text/Trim and Text/Split hold proofs.
--   Text/Decimal has `std::to_string` and `strtol` as the source calls them; `emit` runs on the number itself, which
--   each round divides by ten.
-- - Span (src/utils.cc and src/provider.cc): the protocol messages as records of the fields that the
--   code sets, and the setters of attributes.
-- - Provider (src/provider.cc, include/provider.h): the state of one process is a `Slot`. The class
--   keeps one in its plain fields and one for each parent's pid in its maps; `slot` and `set_slot`
--   choose between them as every method does by `is_cli_sapi()`. Provider/State has `getTracer`,
--   `createSpan` and `createFirstSpan`, Provider/Finish `isSampled`, `okEnd`, `errorEnd`, `clean` and
--   the Redis exception, Provider/TraceParent and Provider/Baggage the headers, Provider/Child the
--   span of a hook (`latestSpan`, `createSpan`, `set_parent_span_id`). A pointer to a span is the
--   index of the span in the request.
-- - Hooks (src/zend_hook.cc and the register functions of src/zend_hook_*.cc): the function table,
--   the classes' tables and the maps of the handlers that were there before. A handler is a number
--   or the group of the hook that stands in its place.
-- - Core (src/core.cc, php_opentelemetry.h): the globals, `start_tracer`, `shutdown_tracer`,
--   `init_consumers` and the entry points of the module and of the request. What reaches the system
--   is a list of effects in the globals, in order; what PHP and the system answer (the `_SERVER`
--   array, addresses, whether the queue opens and takes a request) is the record `World`.
-- - Sdk (src/sdk.cc): the functions for PHP, on what `zend_parse_parameters` makes of the arguments;
--   Sdk/Attributes reads the arrays of attributes.
-- - Handlers (src/zend_hook_redis.cc, src/zend_hook_memcached.cc, src/zend_hook_pdo.cc,
--   src/zend_hook_pdo_statement.cc, src/zend_hook_mysqli.cc, src/zend_hook_yar.cc,
--   src/zend_hook_error.cc, src/zend_hook_exception.cc, src/zend_hook_curl.cc, and the names of
--   frames in src/utils.cc): a handler opens a span, runs what it stands for and ends the span; most
--   are `around`. What PHP's own functions do is a parameter, `Run`, which may change the globals
--   through other hooks; the theorems take it to return and to keep an open request
--   (Handlers/Kept), which the handlers do in turn, so that they nest. What clients and extensions
--   of PHP answer are records (`RedisClient`, `Connection`, `Response` and others). The vectors of
--   the commands do not change in a call. Handlers/Traced has the theorem that the handlers share,
--   Handlers/Calls, Handlers/Alerts and Handlers/Executions what it gives for each, Handlers/Failures
--   a call of Redis that throws, with the exception hook inside the handler of the call.
-- - Exporter (src/otel_exporter.cc): `sendTracerByUDP` on an open socket, as the list of packets.
--   Floats are computed exactly: a float is the nearest number of 24 bits. `excess` and `places` look
--   for an exponent on fuel, 8 and 23, which are all that 32 bits and quotients from 1 need.
--   Exporter/Consumer has the rounds of a consumer (src/core.cc) on the messages that its queue
--   gives until it throws. Exporter/Addresses (with include/otel_exporter.h) has the set-up, the
--   look-ups with their tries, and the rotation of the addresses; a pointer into the list of
--   `getaddrinfo` is an index, and the pointer to the constructor's variable is a value of its own.
--   Exporter/Rpc has the calls by gRPC as objects that are made and deleted.
-- - Timer (src/Timer.cc, include/Timer.h): the timer as a step relation of its thread and of one
--   user; the calls that start it, the destructor, and its time stamps.
-- - Sockets (src/utils.cc): `connect_nonb`, `opentelemetry_write_unix_socket` and
--   `get_current_machine_ip`, as what they ask of a descriptor, in order.
-- - Ini (opentelemetry.cc, php_opentelemetry.h): the table of the settings, and the globals as cells
--   of four bytes that the registration writes.
-- - Requests (src/core.cc with the hooks): web requests from their start through the handlers that
--   their scripts enter to their end, and many of them in one process. Requests/Spans has the spans
--   that a script leaves, Requests/Served what a process serves, Requests/Nested handlers inside the
--   functions of PHP that other handlers stand for, to any depth.
-- - Entry (opentelemetry.cc): the module entry, and whole processes as PHP runs them with it: the
--   start, the requests, the end. Core/Settled, Handlers/Settled and Requests/Settled have what the
--   calls of a process leave alone, Entry/Process what a process does.
-- - Examples: the theorems at concrete inputs.
--
-- `Option` stands for a call that may fault: `none` is a null pointer that is read, a read outside a
-- buffer, or a remainder by zero. UUIDs and clock readings are arguments (`Fresh`, `Times`).
--
-- Not modelled: logging, what a socket and gRPC do (src/otel_exporter.cc), the other clock functions
-- of the timer, JSON, and memory that is freed by PHP. The table of the functions for PHP is data that
-- only PHP reads. Ini stands beside Core: the globals of Core are the values that the fields hold, and
-- the handlers of curl are not among the entries of Requests, since curl_exec faults on a body that is
-- no string. The look-ups that the timer makes between two messages are left out of Exporter/Addresses,
-- as are addresses that are not of IPv4. The methods of the provider choose between the class's fields
-- and its maps each for themselves, with the same test and the same key; the model has the choice once,
-- in `slot`. PHP's error callback is taken to be set, as PHP does before it starts a module. Whether
-- PHP has the version 8 is in `World`, for the exception hook.
-- A double is its bit pattern; the duration that `isSampled` compares is a quotient of integers, which agrees with the source for
-- durations below 2 ^ 53 ns.
pub mod Common
pub mod Core
pub mod Entry
pub mod Examples
pub mod Exporter
pub mod Handlers
pub mod Hex
pub mod Hooks
pub mod Ini
pub mod Provider
pub mod Requests
pub mod Sdk
pub mod Sockets
pub mod Span
pub mod Text
pub mod Timer
