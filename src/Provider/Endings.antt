-- ===== src/Provider/Endings.antt =====
-- src/provider.cc: a span after `okEnd` and `errorEnd`, and a process after `clean`.
use opentelemetry_php_ext.Common.{
  ℕ, zero, suc, ◌≡◌, ◌≢◌, refl, Bool, true, false, List, [], ◌∷◌, Option, none, some, arith, Bytes,
  ◌>>=◌, ap, get_elem?, set, Option-cases, inl, inr, ◌∙◌,
}
use opentelemetry_php_ext.Span.{error, Span, Request}
use opentelemetry_php_ext.Provider.State.{Slot, Settings, span_at, set_span}
use opentelemetry_php_ext.Provider.Finish.{
  set_sampled, is_sampled, ok_end, ok_status, error_end, clean,
}

module _ {ℓ} {A : Type ℓ} where
  pub get_elem?-set_self :
      (xs : List A) (i : ℕ) (x y : A) → get_elem? xs i ≡ some x → get_elem? (set xs i y) i ≡ some y
  get_elem?-set_self [] i x y h = cc
  get_elem?-set_self (z ∷ xs) zero x y h = refl
  get_elem?-set_self (z ∷ xs) (suc i) x y h = get_elem?-set_self xs i x y h

  pub get_elem?-set_ne :
      (xs : List A) (i j : ℕ) (y : A) → i ≢ j → get_elem? (set xs i y) j ≡ get_elem? xs j
  get_elem?-set_ne [] i j y h = refl
  get_elem?-set_ne (z ∷ xs) zero zero y h = absurd (h refl)
  get_elem?-set_ne (z ∷ xs) zero (suc j) y h = refl
  get_elem?-set_ne (z ∷ xs) (suc i) zero y h = refl
  get_elem?-set_ne (z ∷ xs) (suc i) (suc j) y h = get_elem?-set_ne xs i j y (λ e. h (ap suc e))

pub span_at-set_span :
    (t : Slot) (i : ℕ) (x y : Span) → span_at t i ≡ some x → span_at (set_span t i y) i ≡ some y
span_at-set_span t i x y h = elim (Option-cases t.request) [
  | inl e ↦ absurd (cc (rw e at h))
  | inr (r, e) ↦ rw e (get_elem?-set_self r.spans i x y (rw e at h))
]

pub span_at-set_span_ne :
    (t : Slot) (i j : ℕ) (y : Span) → i ≢ j → span_at (set_span t i y) j ≡ span_at t j
span_at-set_span_ne t i j y h = elim (Option-cases t.request) [
  | inl e ↦ rw e
  | inr (r, e) ↦ rw e (get_elem?-set_ne r.spans i j y h)
]

abbrev pub failed : ℕ → Bytes → Span → Span
failed now message x = record x {
  status = record { code = error; message = message };
  end_time_unix_nano = now;
}

pub error_end_lem :
    (now i : ℕ) (message : Bytes) (t : Slot) (x : Span)
    → span_at t i ≡ some x
    → error_end now i message t ≡ some (set_sampled true (set_span t i (failed now message x)))
unfolding error_end
error_end_lem now i message t x h = rw h

abbrev pub ended : ℕ → Span → Span
ended now x = record x { status = ok_status x.status; end_time_unix_nano = now }

pub ok_end_lem :
    (now i : ℕ) (t : Slot) (x : Span)
    → span_at t i ≡ some x
    → ok_end now i t ≡ some (set_span t i (ended now x))
unfolding ok_end
ok_end_lem now i t x h = rw h

set_span-sampled : (t : Slot) (i : ℕ) (y : Span) → (set_span t i y).is_sampled ≡ t.is_sampled
set_span-sampled t i y = ground arith

-- A span that ended with an error keeps it through a later `okEnd`, which only moves the end time;
-- and from the error on the request is reported, whatever its duration.
pub ok_end-error_end :
    (s : Settings) (now later i : ℕ) (message : Bytes) (t : Slot) (x : Span)
    → span_at t i ≡ some x
    → (q : Slot) × ((error_end now i message t >>= ok_end later i) ≡ some q)
      × (span_at q i
          ≡ some (record x {
            status = record { code = error; message = message };
            end_time_unix_nano = later;
          }))
      × (is_sampled s later q ≡ some true)
unfolding is_sampled set_sampled
ok_end-error_end s now later i message t x h =
    let mid : Slot = set_sampled true (set_span t i (failed now message x)) in
    let there : span_at mid i ≡ some (failed now message x) =
      span_at-set_span t i x (failed now message x) h in
    (
      set_span mid i (ended later (failed now message x)),
      ap (λ o. o >>= ok_end later i) (error_end_lem now i message t x h)
          ∙ ok_end_lem later i mid (failed now message x) there,
      span_at-set_span mid i (failed now message x) _ there,
      rw (set_span-sampled mid i (ended later (failed now message x))),
    )

-- What holds between the operations: without a request nothing of one is left.
abbrev TidyUnder : Slot → Option Request → Type 0
TidyUnder t none =
    (t.first_span ≡ none) × (t.is_sampled ≡ false) × (t.baggage ≡ []) × (t.redis_exception ≡ [])
TidyUnder t (some r) = Unit

abbrev pub IsTidy : Slot → Type 0
IsTidy t = TidyUnder t t.request

abbrev IsClean : Slot → Type 0
IsClean q =
    (q.request ≡ none)
    × (q.first_span ≡ none)
    × (q.is_sampled ≡ false)
    × (q.baggage ≡ [])
    × (q.redis_exception ≡ [])

tidy_clean : (cli : Bool) (t : Slot) → t.request ≡ none → TidyUnder t none → IsClean (clean cli t)
unfolding clean
tidy_clean true t e (a, b, c, d) = ground arith
tidy_clean false t e (a, b, c, d) = ground arith

full_clean : (cli : Bool) (t : Slot) (r : Request) → t.request ≡ some r → IsClean (clean cli t)
unfolding clean
full_clean true t r e = ground arith
full_clean false t r e = ground arith

-- `clean` leaves a tidy process without request, first span, sampled flag, baggage and Redis
-- exception, on the command line and outside it.
pub clean-IsTidy :
    (cli : Bool) (t : Slot)
    → IsTidy t
    → let q = clean cli t in
      (q.request ≡ none)
      × (q.first_span ≡ none)
      × (q.is_sampled ≡ false)
      × (q.baggage ≡ [])
      × (q.redis_exception ≡ [])
clean-IsTidy cli t v = elim (Option-cases t.request) [
  | inl e ↦ let tidy : TidyUnder t none = rw e at v in tidy_clean cli t e tidy
  | inr (r, e) ↦ full_clean cli t r e
]
