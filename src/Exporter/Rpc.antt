-- ===== src/Exporter/Rpc.antt =====
-- src/otel_exporter.cc: requests by gRPC. A call object is known by its address; the completion queue
-- belongs to the library, and gives an address back with what became of its call.
use opentelemetry_php_ext.Common.{
  ℕ, suc, ◌+◌, ◌<◌, ◌≡◌, refl, ap, sym, Bool, true, ltb, ◌==◌, if◌then◌else◌, List, [], ◌∷◌, map,
  Option, none, some, ◌>>=◌, Bytes, All, arith, inl, inr, Bool-cases,
}
use opentelemetry_php_ext.Span.{ℤ, pos, negsuc}

-- `AsyncClientCall`: where it stands, its deadline, and the request that it carries.
pub record AsyncClientCall : Type 0 where
  pub address : ℕ
  pub deadline : ℕ
  pub request : Bytes

-- The calls that were made and not deleted, and an address that is free.
pub record Calls : Type 0 where
  pub live : List AsyncClientCall
  pub free : ℕ

-- An answer of the completion queue: the tag, and whether `Finish` could report the result.
pub record Completion : Type 0 where
  pub tag : ℕ
  pub is_ok : Bool

-- The deadline of `sendTracer`, if the time is positive.
unfoldable pub send_tracer : ℕ → ℤ → Option ℕ
send_tracer now (pos milliseconds) = if ltb 0 milliseconds then some (now + milliseconds) else none
send_tracer now (negsuc milliseconds) = none

-- `sendAsyncTracer`, on a time that is not negative.
unfoldable pub send_async_tracer : ℕ → ℕ → Bytes → Calls → Calls
send_async_tracer now milliseconds request c = record {
  live = record { address = c.free; deadline = now + milliseconds; request = request } ∷ c.live;
  free = suc c.free;
}

-- `delete` of an address; one that has no call faults.
unfoldable pub delete_call : ℕ → List AsyncClientCall → Option (List AsyncClientCall)
delete_call tag [] = none
delete_call tag (c ∷ calls) =
    let rest = delete_call tag calls in
    if c.address == tag then some calls else (rest >>= λ left. some (c ∷ left))

-- `AsyncCompleteRpc` on what the queue gives until it is shut down; `GPR_ASSERT` ends the process.
unfoldable pub async_complete_rpc : List Completion → Calls → Option Calls
unfolding delete_call
async_complete_rpc [] c = some c
async_complete_rpc (e ∷ events) c =
    let next = (do
      left ← delete_call e.tag c.live
      async_complete_rpc events (record c { live = left })) in
    if e.is_ok then next else none

-- The requests of a consumer, one after another, each with the time of its round.
unfoldable pub send_requests : ℕ → List (ℕ × Bytes) → Calls → Calls
unfolding send_async_tracer
send_requests milliseconds [] c = c
send_requests milliseconds ((now, request) ∷ requests) c =
    send_requests milliseconds requests (send_async_tracer now milliseconds request c)

-- How often a number stands in a list.
abbrev pub occurrences : ℕ → List ℕ → ℕ
occurrences a [] = 0
occurrences a (x ∷ xs) = (if x == a then 1 else 0) + occurrences a xs

abbrev pub addresses : List AsyncClientCall → List ℕ
addresses = map (λ c. c.address)

abbrev pub tags : List Completion → List ℕ
tags = map (λ e. e.tag)

delete_call-occurrences :
    (tag : ℕ) (calls : List AsyncClientCall)
    → 0 < occurrences tag (addresses calls)
    → (left : List AsyncClientCall) × (delete_call tag calls ≡ some left)
      × ((a : ℕ)
          → (if tag == a then 1 else 0) + occurrences a (addresses left)
            ≡ occurrences a (addresses calls))
unfolding delete_call
delete_call-occurrences tag [] h = absurd (omega arith)
delete_call-occurrences tag (c ∷ calls) h = elim (Bool-cases (c.address == tag)) [
  | inl e ↦ (calls, rw e refl, λ a. let same : c.address ≡ tag = ground arith in rw same refl)
  | inr e ↦
      let (left, deletes, counts) = delete_call-occurrences tag calls (ground arith) in
      (c ∷ left, rw (e, deletes) refl, λ a. omega (arith, counts a))
]

nothing-left :
    (calls : List AsyncClientCall) → ((a : ℕ) → occurrences a (addresses calls) ≡ 0) → calls ≡ []
nothing-left [] h = refl
nothing-left (c ∷ calls) h = absurd (let h' = h c.address in ground arith)

complete_every :
    (events : List Completion) (c : Calls)
    → All (λ e. e.is_ok ≡ true) events
    → ((a : ℕ) → occurrences a (tags events) ≡ occurrences a (addresses c.live))
    → async_complete_rpc events c ≡ some (record c { live = [] })
unfolding async_complete_rpc
complete_every [] c ok once =
    ap (λ l. some (record c { live = l })) (nothing-left c.live (λ a. sym (once a)))
complete_every (e ∷ events) c (is_ok, ok) once =
    let (left, deletes, counts) =
      delete_call-occurrences e.tag c.live (let o = once e.tag in ground arith) in
    rw (is_ok, deletes)
      (complete_every events (record c { live = left }) ok (λ a. omega (arith, once a, counts a)))

-- What a consumer has sent, from the start of its exporter.
abbrev pub sent : ℕ → List (ℕ × Bytes) → Calls
sent milliseconds requests = send_requests milliseconds requests (record { live = []; free = 0 })

-- Whatever requests a consumer sent, if the completion queue gives the address of every call once, in
-- whatever order, and reports each result, then every call is deleted, and none twice: the loop
-- returns, and no call is left.
pub async_complete_rpc-send_requests :
    (milliseconds : ℕ) (requests : List (ℕ × Bytes)) (events : List Completion)
    → All (λ e. e.is_ok ≡ true) events
    → ((a : ℕ)
        → occurrences a (tags events) ≡ occurrences a (addresses (sent milliseconds requests).live))
    → async_complete_rpc events (sent milliseconds requests)
      ≡ some (record (sent milliseconds requests) { live = [] })
async_complete_rpc-send_requests milliseconds requests events ok once =
    complete_every events (sent milliseconds requests) ok once
