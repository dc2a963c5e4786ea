-- ===== src/Handlers/Curl.antt =====
-- src/zend_hook_curl.cc: the handlers of curl_exec, curl_setopt, curl_setopt_array and curl_close.
use opentelemetry_php_ext.Common.{
  ℕ, ◌==◌, ◌&&◌, ◌||◌, not, List, [], ◌∷◌, ◌++◌, Option, none, some, Bytes, text, c_str, is_empty,
  leb, if◌then◌else◌, ◌>>=◌,
}
use opentelemetry_php_ext.Span.{
  pos, KeyValue, kind_client, set_string_attribute, set_int64_attribute, set_double_attribute,
}
use opentelemetry_php_ext.Text.{starts_with, is_contain, is_equal}
use opentelemetry_php_ext.Text.Decimal.{to_string}
use opentelemetry_php_ext.Provider.{change_slot}
use opentelemetry_php_ext.Provider.State.{Slot, Fresh, Baggage, span_at, set_span}
use opentelemetry_php_ext.Provider.Finish.{ok_end, error_end}
use opentelemetry_php_ext.Core.Globals.{
  Globals, World, is_has_provider, change_provider, do_effect, set_headers,
}
use opentelemetry_php_ext.Handlers.{Call, Run, open_span, run_original, add_stacktrace}
use opentelemetry_php_ext.Handlers.Yar.{trace_headers}

-- A URL as PHP parses it.
pub record Url : Type 0 where
  pub scheme : Option Bytes
  pub host : Option Bytes
  pub path : Option Bytes
  pub query : Option Bytes

-- What `curl_getinfo` gives after the call, with its JSON, what `curl_error` and `curl_errno` give,
-- and the value that the call returned, if that is a string. The times are the patterns of doubles.
pub record Response : Type 0 where
  pub http_code : ℕ
  pub primary_ip : Bytes
  pub json : Bytes
  pub total_time : ℕ
  pub namelookup_time : ℕ
  pub connect_time : ℕ
  pub pretransfer_time : ℕ
  pub starttransfer_time : ℕ
  pub redirect_time : ℕ
  pub curl_error : Bytes
  pub curl_errno : ℕ
  pub return_value : Option Bytes

-- What PHP gives to a call: the handle, if the arguments are as they should be, the URL of the
-- handle, how it is parsed, the JSON of a list, and the order of the baggage.
pub record Transfer : Type 0 where
  pub handle : Option ℕ
  pub url : Bytes
  pub parse : Bytes → Option Url
  pub json_encode : List Bytes → Bytes
  pub order : Baggage → Baggage
  pub response : Response

-- The lists of headers that were set, by handle: `zend_hash_index_find`, `add_index_zval` and
-- `zend_hash_index_del`.
unfoldable pub find_header : ℕ → List (ℕ × List Bytes) → Option (List Bytes)
find_header cid [] = none
find_header cid ((k, l) ∷ headers) = if k == cid then some l else find_header cid headers

unfoldable pub put_header : ℕ → List Bytes → List (ℕ × List Bytes) → List (ℕ × List Bytes)
put_header cid l [] = (cid, l) ∷ []
put_header cid l ((k, old) ∷ headers) =
    if k == cid then (k, l) ∷ headers else (k, old) ∷ put_header cid l headers

unfoldable pub delete_header : ℕ → List (ℕ × List Bytes) → List (ℕ × List Bytes)
delete_header cid [] = []
delete_header cid ((k, l) ∷ headers) =
    if k == cid then headers else (k, l) ∷ delete_header cid headers

abbrev has_both : Url → Option Url
has_both u = do s ← u.scheme; h ← u.host; some u

-- The URL that is recorded: one of HTTP with a scheme and a host.
unfoldable pub recorded_url : Transfer → Option Url
recorded_url c =
    if not (is_empty (c_str c.url))
      && (starts_with (text "http://") c.url || starts_with (text "https://") c.url)
    then (do u ← c.parse (c_str c.url); has_both u)
    else none

abbrev pub or_else : Bytes → Option Bytes → Bytes
or_else d none = d
or_else d (some s) = c_str s

abbrev with_query : Bytes → Option Bytes → Bytes
with_query target none = target
with_query target (some query) =
    if not (is_contain [] query) then target ++ text "?" ++ c_str query else target

-- The attributes of the URL.
unfoldable pub url_attributes : Url → List KeyValue
url_attributes u =
    let a1 = set_string_attribute [] (text "http.scheme") (or_else [] u.scheme) in
    let a2 = set_string_attribute a1 (text "http.host") (or_else [] u.host) in
    set_string_attribute a2 (text "http.target") (with_query (or_else [] u.path) u.query)

-- The headers go behind those that were set on the handle, in their own list; without such a list
-- they are in one of the call.
abbrev pub kept_headers : ℕ → List Bytes → Globals → Option (List Bytes) → Globals
kept_headers cid l g none = g
kept_headers cid l g (some old) = record g { curl_header = put_header cid (old ++ l) g.curl_header }

abbrev pub all_headers : List Bytes → Option (List Bytes) → List Bytes
all_headers l none = l
all_headers l (some old) = old ++ l

unfoldable pub add_attributes : List KeyValue → ℕ → Slot → Option Slot
add_attributes attributes i t = do
  span ← span_at t i
  some (set_span t i (record span { attributes = span.attributes ++ attributes }))

-- The headers of the span, its attribute of them, and the call of `curl_setopt`.
unfoldable pub curl_headers : World → ℕ → Transfer → ℕ → ℕ → Globals → Option Globals
unfolding find_header put_header trace_headers add_attributes change_provider change_slot
curl_headers w now c cid i g = do
  l ← trace_headers w c.order now i g
  let old = find_header cid g.curl_header
  let sent = all_headers l old
  h ←
      change_provider
        (change_slot w.host
          (add_attributes (set_string_attribute [] (text "http.header") (c.json_encode sent)) i))
        (kept_headers cid l g old)
  some (do_effect (set_headers sent) h)

-- The attributes of the response.
unfoldable pub response_attributes : Call → Response → List KeyValue
response_attributes f r =
    let a1 = add_stacktrace f.callers [] in
    let a2 = set_int64_attribute a1 (text "http.status_code") (pos r.http_code) in
    let a3 = set_string_attribute a2 (text "net.peer.ip") (c_str r.primary_ip) in
    let a4 = set_string_attribute a3 (text "http.curl.response") r.json in
    let a5 = set_double_attribute a4 (text "http.response_total_time") r.total_time in
    let a6 = set_double_attribute a5 (text "http.response_name_lookup_time") r.namelookup_time in
    let a7 = set_double_attribute a6 (text "http.response_connect_time") r.connect_time in
    let a8 = set_double_attribute a7 (text "http.response_pre_transfer_time") r.pretransfer_time in
    let a9 =
      set_double_attribute a8 (text "http.response_start_transfer_time") r.starttransfer_time in
    set_double_attribute a9 (text "http.response_redirect_time") r.redirect_time

unfoldable pub find_error : ℕ → List (ℕ × Bytes) → Option Bytes
find_error n [] = none
find_error n ((k, message) ∷ errors) = if k == n then some message else find_error n errors

abbrev other_code : ℕ → Option Bytes → Bytes
other_code n none = text "CURLE_OTHER_CODE:" ++ to_string n
other_code n (some message) = message

-- The message of a transfer without a status.
unfoldable pub curl_message : List (ℕ × Bytes) → Response → Bytes
unfolding find_error
curl_message errors r =
    if is_equal r.curl_error []
    then other_code r.curl_errno (find_error r.curl_errno errors)
    else c_str r.curl_error

-- The body is read from the returned value, which is not tested for being a string.
unfoldable pub set_body : Option Bytes → ℕ → Slot → Option Slot
unfolding add_attributes
set_body none i t = none
set_body (some body) i t =
    add_attributes (set_string_attribute [] (text "http.response.body") (c_str body)) i t

abbrev pub fail_with_body : ℕ → Option Bytes → ℕ → Slot → Option Slot
fail_with_body now none i t = none
fail_with_body now (some body) i t = error_end now i (c_str body) t

-- The status of the response.
unfoldable pub status_end : ℕ → List (ℕ × Bytes) → Response → ℕ → Slot → Option Slot
unfolding curl_message set_body
status_end now errors r i t =
    if r.http_code == 0
    then error_end now i (curl_message errors r) t
    else if leb 400 r.http_code
    then (do q ← set_body r.return_value i t; fail_with_body now r.return_value i q)
    else if r.http_code == 200
    then set_body r.return_value i t
    else some t

-- What follows the transfer.
unfoldable pub curl_end : ℕ → List (ℕ × Bytes) → Call → Response → ℕ → Slot → Option Slot
unfolding add_attributes response_attributes status_end
curl_end now errors f r i t = do
  t1 ← add_attributes (response_attributes f r) i t
  t2 ← status_end now errors r i t1
  ok_end now i t2

-- A call that is recorded, of the URL `u` by the handle `cid`.
unfoldable pub record_exec :
    World → Fresh → ℕ → ℕ → Call → Transfer → ℕ → Url → Run → Globals → Option Globals
unfolding url_attributes curl_headers curl_end change_provider change_slot
record_exec w fresh sent now f c cid u run g = do
  opened ← open_span w fresh (or_else (text "/") u.path) kind_client (some (url_attributes u)) g
  i ← opened.0
  g1 ← curl_headers w sent c cid i (opened.1)
  g2 ← run_original run g1.engine.curl_originals (text "curl_exec") g1
  change_provider (change_slot w.host (curl_end now g2.engine.commands.curl_errors f c.response i))
      g2

abbrev pub exec_url :
    World → Fresh → ℕ → ℕ → Call → Transfer → ℕ → Run → Globals → Option Url → Option Globals
exec_url w fresh sent now f c cid run g none =
    run_original run g.engine.curl_originals (text "curl_exec") g
exec_url w fresh sent now f c cid run g (some u) = record_exec w fresh sent now f c cid u run g

-- `opentelemetry_curl_exec_handler`; arguments that do not parse end the call.
unfoldable pub curl_exec : World → Fresh → ℕ → ℕ → Call → Transfer → Run → Globals → Option Globals
unfolding recorded_url record_exec is_has_provider
curl_exec w fresh sent now f c run g =
    if not (is_has_provider g)
    then run_original run g.engine.curl_originals (text "curl_exec") g
    else elim c.handle [
      | none ↦ some g
      | some cid ↦ exec_url w fresh sent now f c cid run g (recorded_url c)
    ]
