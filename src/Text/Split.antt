-- ===== src/Text/Split.antt =====
-- src/utils.cc: `split` against `explode`.
use opentelemetry_php_ext.Common.{
  ℕ, zero, suc, ◌+◌, ◌-◌, ◌<◌, ◌≡◌, ◌≢◌, refl, ap, sym, ◌∙◌, true, false, List, [], ◌∷◌, ◌++◌, none,
  some, append_assoc, append-nil, arith, Bytes, ◌==◌, ==_iff, ltb, if◌then◌else◌, ◌>>=◌, length,
  drop, take, length-append, Bool-cases, Option-cases, length-drop, inl, inr, Lacks,
}
use opentelemetry_php_ext.Text.{explode, explode_loop, is_prefix, find, split_loop, split}

-- The pieces of a text at one byte, from what is gathered of the first one.
cut : ℕ → Bytes → Bytes → List Bytes
cut d cur [] = cur ∷ []
cut d cur (c ∷ rest) =
    let next = cut d (cur ++ c ∷ []) rest in
    let found = cur ∷ cut d [] rest in if d == c then found else next

explode_loop-cut :
    (d : ℕ) (cur rest : Bytes) → explode_loop (length rest) (d ∷ []) cur rest ≡ cut d cur rest
unfolding explode_loop is_prefix cut
explode_loop-cut d cur [] = refl
explode_loop-cut d cur (c ∷ rest) = elim (Bool-cases (d == c)) [
  | inl e ↦ rw e (ap (λ l. cur ∷ l) (explode_loop-cut d [] rest))
  | inr e ↦ rw e (explode_loop-cut d (cur ++ c ∷ []) rest)
]

-- The first place of a pattern behind a text without its first byte.
find-append :
    (d : ℕ) (e cur rest : Bytes)
    → Lacks d cur
    → is_prefix (d ∷ e) rest ≡ true
    → find (d ∷ e) (cur ++ rest) ≡ some (length cur)
unfolding find is_prefix
find-append d e [] [] h p = cc
find-append d e [] (c ∷ rest) h p = rw p
find-append d e (c ∷ cur) rest (hc, h) p =
    let other : (d == c) ≡ false = ground arith in rw (other, find-append d e cur rest h p)

take-length {ℓ} : {A : Type ℓ} (xs ys : List A) → take (length xs) (xs ++ ys) ≡ xs
take-length [] ys = refl
take-length (x ∷ xs) ys = ap (λ l. x ∷ l) (take-length xs ys)

drop-suc {ℓ} :
    {A : Type ℓ} (xs : List A) (y : A) (ys : List A) → drop (suc (length xs)) (xs ++ y ∷ ys) ≡ ys
drop-suc [] y ys = refl
drop-suc (x ∷ xs) y ys = drop-suc xs y ys

drop-length {ℓ} :
    {A : Type ℓ} (xs : List A) (y : A) (ys : List A) → drop (length xs + 1) (xs ++ y ∷ ys) ≡ ys
drop-length xs y ys =
    let more : length xs + 1 ≡ suc (length xs) = omega arith in
    ap (λ n. drop n (xs ++ y ∷ ys)) more ∙ drop-suc xs y ys

-- A round on a text that begins with a piece and the pattern.
split_loop-round :
    (n d : ℕ) (e cur rest : Bytes)
    → Lacks d cur
    → is_prefix (d ∷ e) (d ∷ rest) ≡ true
    → split_loop (suc n) (d ∷ e) (cur ++ d ∷ rest)
      ≡ (split_loop n (d ∷ e) rest >>= λ more. some (cur ∷ more))
unfolding split_loop
split_loop-round n d e cur rest h p =
    let inside : ltb (length (cur ++ d ∷ rest)) (length cur + 1) ≡ false =
      let l = length-append {0} cur (d ∷ rest) in ground arith in
    rw
      (
        find-append d e cur (d ∷ rest) h p,
        inside,
        take-length cur (d ∷ rest),
        drop-length cur d rest,
      )
      refl

Lacks-append : (d : ℕ) (cur : Bytes) (c : ℕ) → Lacks d cur → c ≢ d → Lacks d (cur ++ c ∷ [])
Lacks-append d [] c h ne = (ne, tt)
Lacks-append d (x ∷ cur) c (hx, h) ne = (hx, Lacks-append d cur c h ne)

one_prefix : (d : ℕ) (rest : Bytes) → is_prefix (d ∷ []) (d ∷ rest) ≡ true
unfolding is_prefix
one_prefix d rest = rw ((==_iff d d).1 refl) refl

split_loop-end : (n d : ℕ) (e : Bytes) → split_loop (suc n) (d ∷ e) [] ≡ some []
unfolding split_loop find is_prefix
split_loop-end n d e = refl

split_loop-cut :
    (rest : Bytes) (n d : ℕ) (cur : Bytes)
    → Lacks d cur
    → length rest < n
    → split_loop (suc n) (d ∷ []) (cur ++ (rest ++ d ∷ [])) ≡ some (cut d cur rest)
unfolding cut
split_loop-cut rest zero d cur h fuel = elim fuel [ ]
split_loop-cut [] (suc n) d cur h fuel =
    split_loop-round (suc n) d [] cur [] h (one_prefix d [])
    ∙ ap (λ r. r >>= λ more. some (cur ∷ more)) (split_loop-end n d [])
split_loop-cut (c ∷ rest) (suc n) d cur h fuel = elim (Bool-cases (d == c)) [
  | inl e ↦
      let same : d ≡ c = ground arith in
      rw (e, ← same)
        (split_loop-round (suc n) d [] cur (rest ++ d ∷ []) h (one_prefix d _)
          ∙ ap (λ r. r >>= λ more. some (cur ∷ more)) (split_loop-cut rest n d [] tt (omega arith)))
  | inr e ↦
      let other : c ≢ d = ground arith in
      rw (e, ← append_assoc cur (c ∷ []) (rest ++ d ∷ []))
        (split_loop-cut rest (suc n) d (cur ++ c ∷ []) (Lacks-append d cur c h other) (omega arith))
]

-- At a pattern of one byte `split` returns the pieces that `explode` returns, for a text that is not
-- empty.
pub split-explode : (d : ℕ) (s : Bytes) → s ≢ [] → split s (d ∷ []) ≡ some (explode (d ∷ []) s)
unfolding split explode
split-explode d [] h = absurd (h refl)
split-explode d (c ∷ s) h =
    split_loop-cut (c ∷ s) (length ((c ∷ s) ++ d ∷ [])) d [] tt
      (omega (arith, length-append {0} (c ∷ s) (d ∷ [])))
    ∙ ap some (sym (explode_loop-cut d [] (c ∷ s)))

find-bound : (d : ℕ) (e s : Bytes) (i : ℕ) → find (d ∷ e) s ≡ some i → i < length s
unfolding find is_prefix
find-bound d e [] i h = cc
find-bound d e (c ∷ s) i h = elim (Bool-cases (is_prefix (d ∷ e) (c ∷ s))) [
  | inl p ↦ let first : some 0 ≡ some i = rw p at h in ground arith
  | inr p ↦ elim (Option-cases (find (d ∷ e) s)) [
    | inl f ↦ absurd (cc (rw (p, f) at h))
    | inr (j, f) ↦
        let later : some (suc j) ≡ some i = rw (p, f) at h in
        let low = find-bound d e s j f in ground arith
  ]
]

split_loop_total :
    (n d : ℕ) (e s : Bytes)
    → length s < n
    → (pieces : List Bytes) × (split_loop n (d ∷ e) s ≡ some pieces)
unfolding split_loop
split_loop_total zero d e s h = elim h [ ]
split_loop_total (suc n) d e s h = elim (Option-cases (find (d ∷ e) s)) [
  | inl f ↦ ([], rw f refl)
  | inr (i, f) ↦
      let low = find-bound d e s i f in
      let inside : ltb (length s) (i + 1) ≡ false = ground arith in
      let (pieces, more) =
        split_loop_total n d e (drop (i + 1) s) (omega (arith, length-drop {0} (i + 1) s)) in
      (take i s ∷ pieces, rw (f, inside, more) refl)
]

split_loop_empty : (n : ℕ) (s : Bytes) → split_loop n [] s ≡ none
unfolding split_loop find is_prefix
split_loop_empty zero s = refl
split_loop_empty (suc n) [] = refl
split_loop_empty (suc n) (c ∷ s) =
    let inside : ltb (suc (length s)) (0 + 1) ≡ false = ground arith in
    rw (inside, split_loop_empty n s) refl

-- Whatever the text, `split` returns at every pattern that is not empty; at the empty pattern it
-- returns nothing on a text that is not empty.
pub split_total :
    (c d : ℕ) (e s : Bytes)
    → ((pieces : List Bytes) × (split s (d ∷ e) ≡ some pieces)) × (split (c ∷ s) [] ≡ none)
unfolding split
split_total c d e s = (returns s, split_loop_empty (suc (length ((c ∷ s) ++ []))) ((c ∷ s) ++ []))
  where
    returns : (s : Bytes) → (pieces : List Bytes) × (split s (d ∷ e) ≡ some pieces)
    returns [] = ([], refl)
    returns (x ∷ s) =
        split_loop_total (suc (length ((x ∷ s) ++ d ∷ e))) d e ((x ∷ s) ++ d ∷ e) (omega arith)

prefix-append : (p rest : Bytes) → is_prefix p (p ++ rest) ≡ true
unfolding is_prefix
prefix-append [] rest = refl
prefix-append (c ∷ p) rest = rw ((==_iff c c).1 refl) (prefix-append p rest)

find-none : (d : ℕ) (e s : Bytes) → Lacks d s → find (d ∷ e) s ≡ none
unfolding find is_prefix
find-none d e [] h = refl
find-none d e (c ∷ s) (hc, h) =
    let other : (d == c) ≡ false = ground arith in rw (other, find-none d e s h) refl

split_loop_last : (n d : ℕ) (e s : Bytes) → Lacks d s → split_loop (suc n) (d ∷ e) s ≡ some []
unfolding split_loop
split_loop_last n d e s h = rw (find-none d e s h) refl

two_rounds :
    (n d : ℕ) (e p q : Bytes)
    → Lacks d p
    → Lacks d (e ++ q)
    → Lacks d e
    → split_loop (suc (suc (suc n))) (d ∷ e) (p ++ (d ∷ ((e ++ q) ++ (d ∷ e))))
      ≡ some (p ∷ (e ++ q) ∷ [])
two_rounds n d e p q hp hq he =
    let first : is_prefix (d ∷ e) (d ∷ ((e ++ q) ++ (d ∷ e))) ≡ true =
      ap (λ t. is_prefix (d ∷ e) (d ∷ t)) (append_assoc e q (d ∷ e))
      ∙ prefix-append (d ∷ e) (q ++ (d ∷ e)) in
    let second : is_prefix (d ∷ e) (d ∷ e) ≡ true =
      ap (λ t. is_prefix (d ∷ e) (d ∷ t)) (sym (append-nil e)) ∙ prefix-append (d ∷ e) [] in
    rw
      (
        split_loop-round (suc (suc n)) d e p ((e ++ q) ++ (d ∷ e)) hp first,
        split_loop-round (suc n) d e (e ++ q) e hq second,
        split_loop_last n d e e he,
      )
      refl

-- At a pattern of more bytes the rest of the pattern stays in front of the piece behind it: two
-- pieces with the pattern between them come back with its rest before the second, if the first has a
-- byte and neither they nor the rest hold the pattern's first byte.
pub split_long :
    (d : ℕ) (e : Bytes) (c : ℕ) (p q : Bytes)
    → Lacks d (c ∷ p)
    → Lacks d (e ++ q)
    → Lacks d e
    → split ((c ∷ p) ++ (d ∷ e ++ q)) (d ∷ e) ≡ some ((c ∷ p) ∷ (e ++ q) ∷ [])
unfolding split
split_long d e c p q hp hq he =
    let whole : Bytes = ((c ∷ p) ++ (d ∷ (e ++ q))) ++ (d ∷ e) in
    let fuel : suc (length whole) ≡ suc (suc (suc (length whole - 2))) =
      let l = length-append {0} ((c ∷ p) ++ (d ∷ (e ++ q))) (d ∷ e) in omega arith in
    ap (λ n. split_loop n (d ∷ e) whole) fuel
    ∙ ap (split_loop (suc (suc (suc (length whole - 2)))) (d ∷ e))
        (append_assoc (c ∷ p) (d ∷ (e ++ q)) (d ∷ e))
    ∙ two_rounds (length whole - 2) d e (c ∷ p) q hp hq he
