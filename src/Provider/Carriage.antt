-- ===== src/Provider/Carriage.antt =====
-- src/provider.cc: baggage that one process hands on in a header is taken up by the next.
use opentelemetry_php_ext.Common.{
  ◌≡◌, ◌≢◌, refl, ap, ◌∙◌, true, false, List, [], ◌∷◌, ◌++◌, append_assoc, Option, some, arith,
  Bytes, text, is_empty, Lacks, All, All-append, Option-cases, inl, inr, ◌>>=◌,
}
use opentelemetry_php_ext.Text.{explode}
use opentelemetry_php_ext.Text.Explode.{implode, explode-implode}
use opentelemetry_php_ext.Provider.State.{Slot, Baggage}
use opentelemetry_php_ext.Provider.Baggage.{
  add_baggage, parse_item, parse_items, parse_baggage, format_entries, format_baggage,
}

-- Neither of the two bytes that the header gives a meaning stands in the text.
abbrev pub IsPlain : Bytes → Type 0
IsPlain s = Lacks b',' s × Lacks b'=' s

abbrev pub IsPlainPair : Bytes × Bytes → Type 0
IsPlainPair (k, v) = IsPlain k × IsPlain v

-- The entries added one after the other.
abbrev pub load : Baggage → Slot → Option Slot
load [] t = some t
load ((k, v) ∷ b) t = add_baggage k v t >>= load b

abbrev item : Bytes × Bytes → Bytes
item (k, v) = k ++ (text "=" ++ v)

abbrev items : Baggage → List Bytes
items [] = []
items (e ∷ b) = item e ∷ items b

item-Lacks : (e : Bytes × Bytes) → IsPlainPair e → Lacks b',' (item e)
item-Lacks (k, v) ((kc, ke), (vc, ve)) =
    All-append (λ c. c ≢ b',') k (text "=" ++ v) kc ((omega arith), vc)

items-Lacks : (b : Baggage) → All IsPlainPair b → All (Lacks b',') (items b)
items-Lacks [] h = tt
items-Lacks (e ∷ b) (he, hb) = (item-Lacks e he, items-Lacks b hb)

append_entry :
    (h k v : Bytes) → (((h ++ text ",") ++ k) ++ text "=") ++ v ≡ h ++ (text "," ++ item (k, v))
append_entry h k v =
    append_assoc ((h ++ text ",") ++ k) (text "=") v
    ∙ ap (λ x. x ++ (text "=" ++ v)) (append_assoc h (text ",") k)
    ∙ append_assoc h (text "," ++ k) (text "=" ++ v)

-- Entries behind a header that has some.
format_entries-more :
    (h : Bytes) (e : Bytes × Bytes) (b : Baggage)
    → format_entries false h (e ∷ b) ≡ h ++ (text "," ++ implode (text ",") (items (e ∷ b)))
unfolding format_entries
format_entries-more h (k, v) [] = append_entry h k v
format_entries-more h (k, v) (e ∷ b) =
    let rest = text "," ++ implode (text ",") (items (e ∷ b)) in
    format_entries-more ((((h ++ text ",") ++ k) ++ text "=") ++ v) e b
    ∙ ap (λ x. x ++ rest) (append_entry h k v)
    ∙ append_assoc h (text "," ++ item (k, v)) rest

format_entries-implode : (b : Baggage) → format_entries true [] b ≡ implode (text ",") (items b)
unfolding format_entries
format_entries-implode [] = refl
format_entries-implode ((k, v) ∷ []) = append_assoc k (text "=") v
format_entries-implode ((k, v) ∷ e ∷ b) =
    format_entries-more ((k ++ text "=") ++ v) e b
    ∙ ap (λ x. x ++ (text "," ++ implode (text ",") (items (e ∷ b)))) (append_assoc k (text "=") v)

parse_item-add :
    (k v : Bytes) (t : Slot)
    → IsPlainPair (k, v)
    → parse_item (explode (text "=") (item (k, v))) t ≡ add_baggage k v t
unfolding parse_item
parse_item-add k v t ((kc, ke), (vc, ve)) =
    ap (λ kv. parse_item kv t) (explode-implode b'=' (k ∷ v ∷ []) (cc) (ke, (ve, tt)))

parse_items-load : (b : Baggage) (t : Slot) → All IsPlainPair b → parse_items (items b) t ≡ load b t
unfolding parse_items
parse_items-load [] t h = refl
parse_items-load ((k, v) ∷ b) t (he, hb) = elim (Option-cases (add_baggage k v t)) [
  | inl bad ↦ rw (parse_item-add k v t he, bad)
  | inr (q, good) ↦ rw (parse_item-add k v t he, good) (parse_items-load b q hb)
]

-- Every entry has its equals sign, so some bytes stand in the header.
implode-full :
    (e : Bytes × Bytes) (b : Baggage) → is_empty (implode (text ",") (items (e ∷ b))) ≡ false
implode-full ([], v) [] = refl
implode-full (c ∷ k, v) [] = refl
implode-full ([], v) (f ∷ b) = refl
implode-full (c ∷ k, v) (f ∷ b) = refl

explode-items :
    (e : Bytes × Bytes) (b : Baggage)
    → All IsPlainPair (e ∷ b)
    → explode (text ",") (implode (text ",") (items (e ∷ b))) ≡ items (e ∷ b)
explode-items e b h = explode-implode b',' (items (e ∷ b)) (cc) (items-Lacks (e ∷ b) h)

parse_baggage-implode :
    (b : Baggage) (t : Slot)
    → All IsPlainPair b
    → parse_baggage (implode (text ",") (items b)) t ≡ load b t
unfolding parse_baggage
parse_baggage-implode [] t h = refl
parse_baggage-implode (e ∷ b) t h =
    rw (implode-full e b, explode-items e b h) (parse_items-load (e ∷ b) t h)

-- Whatever the order in which the map gives its entries: if no key and no value holds a comma or an
-- equals sign, the receiver of the header adds exactly these entries, in that order.
pub parse_baggage-format_baggage :
    (order : Baggage → Baggage) (sender receiver : Slot)
    → All IsPlainPair (order sender.baggage)
    → parse_baggage (format_baggage order sender) receiver ≡ load (order sender.baggage) receiver
unfolding format_baggage
parse_baggage-format_baggage order sender receiver h =
    ap (λ s. parse_baggage s receiver) (format_entries-implode (order sender.baggage))
    ∙ parse_baggage-implode (order sender.baggage) receiver h
