-- ===== src/Core/Preserved.antt =====
-- src/core.cc: what `init_consumers` and the naming of the service leave alone.
use opentelemetry_php_ext.Common.{
  ℕ, zero, suc, ◌+◌, ◌≡◌, refl, ◌∙◌, Bool, true, false, not, ◌&&◌, arith, text, is_empty,
  if◌then◌else◌,
}
use opentelemetry_php_ext.Core.Globals.{Globals, World, open_queue, do_effect, find_server_string}
use opentelemetry_php_ext.Text.{is_equal}
use opentelemetry_php_ext.Core.Tracer.{name_service}
use opentelemetry_php_ext.Core.Consumers.{
  init_consumers, start_from, start_one, clean_consumers, queue_name,
}

-- The two agree in what the preparation of a trace leaves alone.
abbrev pub SameTracer : Globals → Globals → Type 0
SameTracer g q =
    (q.provider ≡ g.provider)
    × (q.cli_enable ≡ g.cli_enable)
    × (q.is_started_cli_tracer ≡ g.is_started_cli_tracer)
    × (q.enable ≡ g.enable)
    × (q.enabled ≡ g.enabled)
    × (q.engine ≡ g.engine)
    × (q.settings.sample_ratio_based ≡ g.settings.sample_ratio_based)

start_one-SameTracer : (i : ℕ) (g : Globals) → SameTracer g (start_one i g)
unfolding start_one
start_one-SameTracer i g = ground arith

start_from-SameTracer : (n i : ℕ) (g : Globals) → SameTracer g (start_from n i g)
unfolding start_from
start_from-SameTracer zero i g = (refl, refl, refl, refl, refl, refl, refl)
start_from-SameTracer (suc n) i g =
    let (a, b, c, d, e, f, r) = start_from-SameTracer n (i + 1) (start_one i g) in
    let (a', b', c', d', e', f', r') = start_one-SameTracer i g in
    (a ∙ a', b ∙ b', c ∙ c', d ∙ d', e ∙ e', f ∙ f', r ∙ r')

pub if-SameTracer :
    (b : Bool) (g x y : Globals)
    → SameTracer g x
    → SameTracer g y
    → SameTracer g (if b then x else y)
if-SameTracer true g x y h i = h
if-SameTracer false g x y h i = i

pub SameTracer-trans : (g x y : Globals) → SameTracer g x → SameTracer x y → SameTracer g y
SameTracer-trans g x y (a, b, c, d, e, f, r) (a', b', c', d', e', f', r') =
    (a' ∙ a, b' ∙ b, c' ∙ c, d' ∙ d, e' ∙ e, f' ∙ f, r' ∙ r)

pub SameTracer-refl : (g : Globals) → SameTracer g g
SameTracer-refl g = (refl, refl, refl, refl, refl, refl, refl)

pub init_consumers-SameTracer : (w : World) (g : Globals) → SameTracer g (init_consumers w g)
unfolding init_consumers clean_consumers
init_consumers-SameTracer w g =
    let renamed = record g { message_queue_name = queue_name g } in
    let named : Globals = if is_empty g.message_queue_name then renamed else g in
    let same_named : SameTracer g named =
      if-SameTracer (is_empty g.message_queue_name) g renamed g
        (refl, refl, refl, refl, refl, refl, refl) (SameTracer-refl g) in
    let marked = record (clean_consumers named) { is_init_consumers = true } in
    let on_cli = record marked { consumer_nums = marked.cli_consumer_nums } in
    let counted : Globals = if w.host.is_cli then on_cli else marked in
    let same_counted : SameTracer named counted =
      if-SameTracer w.host.is_cli named on_cli marked (refl, refl, refl, refl, refl, refl, refl)
        (refl, refl, refl, refl, refl, refl, refl) in
    let opened' = do_effect (open_queue counted.message_queue_name) counted in
    let started = start_from counted.consumer_nums 0 opened' in
    let running : Globals = if w.queue_opens then started else counted in
    let same_opened : SameTracer counted running =
      if-SameTracer w.queue_opens counted started counted
        (SameTracer-trans counted opened' started (refl, refl, refl, refl, refl, refl, refl)
          (start_from-SameTracer counted.consumer_nums 0 opened'))
        (SameTracer-refl counted) in
    if-SameTracer g.is_init_consumers g g running (SameTracer-refl g) (
      SameTracer-trans g counted running (SameTracer-trans g named counted same_named same_counted)
        same_opened)

pub name_service-SameTracer : (w : World) (g : Globals) → SameTracer g (name_service w g)
unfolding name_service
name_service-SameTracer w g =
    if-SameTracer
      (not w.host.is_cli
        && (is_equal g.settings.service_name (text "opentelemetry")
            && not (is_empty (find_server_string w g.service_name_key))))
      g
      (record g {
        settings = record (g.settings) { service_name = find_server_string w g.service_name_key };
      })
      g (refl, refl, refl, refl, refl, refl, refl) (SameTracer-refl g)
