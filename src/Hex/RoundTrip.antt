-- ===== src/Hex/RoundTrip.antt =====
-- src/hex.cc: what `encode` writes, `decode` reads back.
use opentelemetry_php_ext.Common.{
  ℕ, ◌*◌, ◌/◌, ◌%◌, ◌<◌, ◌≢◌, not, sym, ◌∙◌, ◌≡◌, refl, ap, Bool, true, false, [], ◌∷◌, ◌++◌,
  append_assoc, append-nil, Option, none, some, arith, Bytes, IsByte, Lacks, All, ◌==◌, ==_iff,
  length, all_below, all_below_sound,
}
use opentelemetry_php_ext.Hex.{digit, encode, atoul, decode_pairs, decode}

abbrev reads_back : ℕ → Bool
reads_back d = elim (atoul (digit (d / 16) ∷ digit (d % 16) ∷ [])) [
  | none ↦ false
  | some out ↦ out == d
]

not-true : (b : Bool) → not b ≡ true → b ≡ true → ⊥
not-true true h e = cc
not-true false h e = cc

reads_back_table : all_below 256 reads_back ≡ true
unfolding all_below atoul
reads_back_table = refl

reads_back_some :
    (o : Option ℕ) (d : ℕ) → elim o [ none ↦ false | some out ↦ out == d ] ≡ true → o ≡ some d
reads_back_some none d h = cc
reads_back_some (some out) d h = ap some ((==_iff out d).0 h)

-- The two digits of a byte are read as that byte.
atoul_pair : (d : ℕ) → IsByte d → atoul (digit (d / 16) ∷ digit (d % 16) ∷ []) ≡ some d
atoul_pair d h = reads_back_some _ d (all_below_sound 256 reads_back d reads_back_table h)

-- The text of all the bytes: two digits for each, the high one first.
abbrev pub hex : Bytes → Bytes
hex [] = []
hex (d ∷ ds) = digit (d / 16) ∷ digit (d % 16) ∷ hex ds

pub encode-hex : (bs : Bytes) → encode bs (length bs) ≡ some (hex bs)
unfolding encode
encode-hex [] = refl
encode-hex (d ∷ ds) = rw (encode-hex ds)

decode_pairs-hex :
    (bs segment : Bytes) → All IsByte bs → decode_pairs (hex bs) segment ≡ some (segment ++ bs)
unfolding decode_pairs
decode_pairs-hex [] segment h = rw append-nil
decode_pairs-hex (d ∷ ds) segment (hd, hs) =
    let small : d % 256 ≡ d = omega arith in
    rw (atoul_pair d hd, small, decode_pairs-hex ds (segment ++ d ∷ []) hs, append_assoc)

length-hex : (bs : Bytes) → length (hex bs) ≡ 2 * length bs
length-hex [] = omega arith
length-hex (d ∷ ds) = omega (arith, length-hex ds)

pub decode-hex : (bs : Bytes) → All IsByte bs → decode (hex bs) ≡ bs
unfolding decode
decode-hex bs h =
    let even : ((length (hex bs) % 2) == 1) ≡ false = ground (arith, length-hex bs) in
    rw (even, decode_pairs-hex bs [] h)

-- Every byte string that is encoded whole is decoded to itself.
pub decode-encode :
    (bs : Bytes) → All IsByte bs → (t : Bytes) × (encode bs (length bs) ≡ some t) × (decode t ≡ bs)
decode-encode bs h = (hex bs, encode-hex bs, decode-hex bs h)

not_dash_table : all_below 16 (λ d. not (digit d == b'-')) ≡ true
unfolding all_below
not_dash_table = refl

digit-ne-dash : (d : ℕ) → d < 16 → digit d ≢ b'-'
digit-ne-dash d h e =
    let t = all_below_sound 16 (λ d. not (digit d == b'-')) d not_dash_table h in
    absurd (not-true _ t ((==_iff (digit d) b'-').1 e))

-- No dash stands in the text, so it can be a field of a dashed header.
pub hex-Lacks : (bs : Bytes) → All IsByte bs → Lacks b'-' (hex bs)
hex-Lacks [] h = tt
hex-Lacks (d ∷ ds) (hd, hs) =
    (digit-ne-dash (d / 16) (omega arith), (digit-ne-dash (d % 16) (omega arith), hex-Lacks ds hs))

hex-injective : (xs bs : Bytes) → All IsByte xs → All IsByte bs → hex xs ≡ hex bs → xs ≡ bs
hex-injective xs bs ha hb e = sym (decode-hex xs ha) ∙ ap decode e ∙ decode-hex bs hb
