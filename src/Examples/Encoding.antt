-- ===== src/Examples/Encoding.antt =====
-- Tests of the encodings: src/hex.cc, src/utils.cc and the baggage of src/provider.cc.
use opentelemetry_php_ext.Common.{
  ◌≡◌, ◌⊎◌, ◌+◌, ◌/◌, refl, [], ◌∷◌, some, arith, Bytes, text, IsByte, All, length,
}
use opentelemetry_php_ext.Hex.{encode, decode, atoul}
use opentelemetry_php_ext.Hex.RoundTrip.{decode-encode}
use opentelemetry_php_ext.Hex.Decode.{decode-Fills}
use opentelemetry_php_ext.Text.{explode, is_prefix}
use opentelemetry_php_ext.Text.Explode.{implode, explode-implode}
use opentelemetry_php_ext.Provider.State.{Slot, empty_slot, own}
use opentelemetry_php_ext.Provider.Baggage.{parse_baggage, format_baggage}
use opentelemetry_php_ext.Provider.Carriage.{load, parse_baggage-format_baggage}

abbrev bytes : Bytes
bytes = 0 ∷ 15 ∷ 171 ∷ 255 ∷ []

decode-encode_example : (t : Bytes) × (encode bytes (length bytes) ≡ some t) × (decode t ≡ bytes)
decode-encode_example = decode-encode bytes (ground arith)

decode-Fills_example :
    (decode (text "abc") ≡ [])
    ⊎ ((length (decode (text "abc")) ≡ (length (text "abc") + 1) / 2)
        × All IsByte (decode (text "abc")))
decode-Fills_example = decode-Fills (text "abc")

explode-implode_example :
    explode (b',' ∷ []) (implode (b',' ∷ []) (text "a" ∷ [] ∷ text "bc" ∷ []))
    ≡ text "a" ∷ [] ∷ text "bc" ∷ []
explode-implode_example = explode-implode b',' (text "a" ∷ [] ∷ text "bc" ∷ []) (cc) (ground arith)

explode_test : explode (text ",") (text "a,,b") ≡ text "a" ∷ [] ∷ text "b" ∷ []
unfolding explode is_prefix
explode_test = refl

decode_test : decode (text "0g") ≡ []
unfolding decode atoul
decode_test = refl

abbrev carrier : Slot
carrier = record empty_slot { baggage = (text "a", text "b") ∷ (text "c", []) ∷ [] }

abbrev taker : Slot
taker = record empty_slot { resource = own (record { attributes = [] }) }

parse_baggage-format_baggage_example :
    parse_baggage (format_baggage (λ b. b) carrier) taker ≡ load carrier.baggage taker
parse_baggage-format_baggage_example =
    parse_baggage-format_baggage (λ b. b) carrier taker (ground arith)
