-- ===== src/Handlers/CurlOptions.antt =====
-- src/zend_hook_curl.cc: the handlers of curl_setopt, curl_setopt_array and curl_close, which keep
-- the headers that a script sets.
use opentelemetry_php_ext.Common.{
  ℕ, ◌==◌, ◌≡◌, not, Bool, true, false, List, [], ◌∷◌, Option, none, some, Bytes, text,
  if◌then◌else◌, arith,
}
use opentelemetry_php_ext.Core.Globals.{Globals, is_has_provider}
use opentelemetry_php_ext.Handlers.{Run, run_original}
use opentelemetry_php_ext.Handlers.Curl.{find_header, put_header, delete_header}

-- `CURLOPT_HTTPHEADER`, and the number that stands for it in the extension's own calls.
abbrev pub curlopt_httpheader : ℕ
curlopt_httpheader = 10023

abbrev pub opentelemetry_curlopt_httpheader : ℕ
opentelemetry_curlopt_httpheader = 9923

-- The arguments of `curl_setopt` that parse: the handle, the option, and the value, if that is an
-- array.
pub record SetOption : Type 0 where
  pub handle : ℕ
  pub option : ℕ
  pub array_value : Option (List Bytes)

abbrev keep_array : ℕ → Option (List Bytes) → Globals → Globals
keep_array cid none g = g
keep_array cid (some l) g = record g { curl_header = put_header cid l g.curl_header }

-- Whether the option is exchanged for `CURLOPT_HTTPHEADER`, and the headers that are kept.
unfoldable pub set_option : SetOption → Globals → Bool × Globals
unfolding put_header
set_option a g =
    if a.option == opentelemetry_curlopt_httpheader
    then (true, g)
    else if a.option == curlopt_httpheader
    then (false, keep_array a.handle a.array_value g)
    else (false, g)

-- `opentelemetry_curl_setopt_handler`: the original is called with the arguments as they are, or with
-- the option exchanged.
unfoldable pub curl_setopt : Option SetOption → (Bool → Run) → Globals → Option Globals
unfolding is_has_provider set_option
curl_setopt none run g =
    if not (is_has_provider g)
    then run_original (run false) g.engine.curl_originals (text "curl_setopt") g
    else some g
curl_setopt (some a) run g =
    if not (is_has_provider g)
    then run_original (run false) g.engine.curl_originals (text "curl_setopt") g
    else run_original (run ((set_option a g).0)) g.engine.curl_originals (text "curl_setopt")
        ((set_option a g).1)

-- `opentelemetry_curl_setopt_array_handler`: the handle, and the headers in the array, if it has
-- them.
unfoldable pub curl_setopt_array : Option (ℕ × Option (List Bytes)) → Run → Globals → Option Globals
unfolding is_has_provider put_header
curl_setopt_array none run g =
    if not (is_has_provider g)
    then run_original run g.engine.curl_originals (text "curl_setopt_array") g
    else some g
curl_setopt_array (some (cid, headers)) run g =
    if not (is_has_provider g)
    then run_original run g.engine.curl_originals (text "curl_setopt_array") g
    else run_original run g.engine.curl_originals (text "curl_setopt_array")
        (keep_array cid headers g)

-- `opentelemetry_curl_close_handler`.
unfoldable pub curl_close : Option ℕ → Run → Globals → Option Globals
unfolding is_has_provider delete_header
curl_close none run g =
    if not (is_has_provider g)
    then run_original run g.engine.curl_originals (text "curl_close") g
    else some g
curl_close (some cid) run g =
    if not (is_has_provider g)
    then run_original run g.engine.curl_originals (text "curl_close") g
    else run_original run g.engine.curl_originals (text "curl_close")
        (record g { curl_header = delete_header cid g.curl_header })

pub find-put :
    (cid k : ℕ) (l : List Bytes) (h : List (ℕ × List Bytes))
    → find_header k (put_header cid l h) ≡ (if cid == k then some l else find_header k h)
unfolding find_header put_header
find-put cid k l [] = ground arith
find-put cid k l ((j, old) ∷ h) = ground (arith, find-put cid k l h)
