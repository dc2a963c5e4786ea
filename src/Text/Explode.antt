-- ===== src/Text/Explode.antt =====
-- src/utils.cc: `explode` against the joining of its pieces.
use opentelemetry_php_ext.Common.{
  ℕ, zero, suc, ◌+◌, ◌≤◌, ◌≡◌, ◌≢◌, refl, ap, sym, ◌∙◌, true, false, List, [], ◌∷◌, ◌++◌,
  append_assoc, append-nil, arith, Bytes, ◌==◌, ==_iff, length, drop, length-drop, length-append,
  Bool-cases, inl, inr, Lacks, All,
}
use opentelemetry_php_ext.Text.{explode, explode_loop, is_prefix}

-- The pieces with the delimiter between them.
abbrev pub implode : Bytes → List Bytes → Bytes
implode delimiter [] = []
implode delimiter (p ∷ []) = p
implode delimiter (p ∷ q ∷ ps) = p ++ (delimiter ++ implode delimiter (q ∷ ps))

is_prefix-append : (p s : Bytes) → is_prefix p s ≡ true → p ++ drop (length p) s ≡ s
unfolding is_prefix
is_prefix-append [] s h = refl
is_prefix-append (c ∷ p) [] h = cc
is_prefix-append (c ∷ p) (d ∷ s) h = ground (arith, is_prefix-append p s)

explode_loop-ne-nil : (n : ℕ) (del cur rest : Bytes) → explode_loop n del cur rest ≢ []
unfolding explode_loop
explode_loop-ne-nil zero del cur rest h = cc
explode_loop-ne-nil (suc n) del cur [] h = cc
explode_loop-ne-nil (suc n) del cur (c ∷ rest) h =
    ground (arith, explode_loop-ne-nil n del (cur ++ c ∷ []) rest)

implode-cons :
    (del p : Bytes) (ps : List Bytes)
    → ps ≢ []
    → implode del (p ∷ ps) ≡ p ++ (del ++ implode del ps)
implode-cons del p [] h = absurd (h refl)
implode-cons del p (q ∷ ps) h = refl

implode-explode_loop :
    (n : ℕ) (d : ℕ) (del cur rest : Bytes)
    → length rest ≤ n
    → implode (d ∷ del) (explode_loop n (d ∷ del) cur rest) ≡ cur ++ rest
unfolding explode_loop
implode-explode_loop zero d del cur [] h = sym (append-nil cur)
implode-explode_loop zero d del cur (c ∷ rest) h = absurd (omega arith)
implode-explode_loop (suc n) d del cur [] h = sym (append-nil cur)
implode-explode_loop (suc n) d del cur (c ∷ rest) h =
    elim (Bool-cases (is_prefix (d ∷ del) (c ∷ rest))) [
      | inl e ↦ rw e (
          implode-cons (d ∷ del) cur _ (explode_loop-ne-nil n _ _ _)
          ∙ ap (λ t. cur ++ t)
              (ap (λ t. d ∷ del ++ t)
                  (implode-explode_loop n d del [] (drop (length del) rest)
                    (omega (arith, length-drop {0} (length del) rest)))
                ∙ is_prefix-append (d ∷ del) (c ∷ rest) e))
      | inr e ↦ rw e (
          implode-explode_loop n d del (cur ++ c ∷ []) rest (omega arith)
          ∙ append_assoc cur (c ∷ []) rest)
    ]

-- Joining the pieces with a delimiter that is not empty gives the text back.
pub implode-explode :
    (delimiter str : Bytes) → delimiter ≢ [] → implode delimiter (explode delimiter str) ≡ str
unfolding explode
implode-explode [] str h = absurd (h refl)
implode-explode (d ∷ delimiter) str h =
    implode-explode_loop (length str) d delimiter [] str (omega arith)

-- A piece without the delimiter is gathered byte by byte.
explode_loop-append :
    (n m d : ℕ) (cur p rest : Bytes)
    → Lacks d p
    → n ≡ length p + m
    → explode_loop n (d ∷ []) cur (p ++ rest) ≡ explode_loop m (d ∷ []) (cur ++ p) rest
unfolding explode_loop is_prefix
explode_loop-append n m d cur [] rest h e = let e' : n ≡ m = omega arith in rw (e', append-nil)
explode_loop-append zero m d cur (c ∷ p) rest h e = absurd (omega arith)
explode_loop-append (suc n) m d cur (c ∷ p) rest (hc, hp) e =
    let other : (d == c) ≡ false = ground arith in
    rw other (
      explode_loop-append n m d (cur ++ c ∷ []) p rest hp (omega arith)
      ∙ ap (λ t. explode_loop m (d ∷ []) t rest) (append_assoc cur (c ∷ []) p))

explode_loop_delimiter :
    (n d : ℕ) (cur rest : Bytes)
    → explode_loop (suc n) (d ∷ []) cur (d ∷ rest) ≡ cur ∷ explode_loop n (d ∷ []) [] rest
unfolding explode_loop is_prefix
explode_loop_delimiter n d cur rest = rw ((==_iff d d).1 refl)

explode_loop-implode :
    (ps : List Bytes) (n d : ℕ) (p : Bytes)
    → All (Lacks d) (p ∷ ps)
    → n ≡ length (implode (d ∷ []) (p ∷ ps))
    → explode_loop n (d ∷ []) [] (implode (d ∷ []) (p ∷ ps)) ≡ p ∷ ps
explode_loop-implode [] n d p h e =
    ap (explode_loop n (d ∷ []) []) (sym (append-nil p))
    ∙ explode_loop-append n 0 d [] p [] h.0 (omega arith)
    ∙ unfold explode_loop in refl
explode_loop-implode (q ∷ ps) n d p (hp, hs) e =
    let rest = implode (d ∷ []) (q ∷ ps) in
    explode_loop-append n (suc (length rest)) d [] p (d ∷ rest) hp
      (omega (arith, length-append {0} p (d ∷ rest)))
    ∙ explode_loop_delimiter (length rest) d p rest
    ∙ ap (λ l. p ∷ l) (explode_loop-implode ps (length rest) d q hs refl)

-- Exploding joined pieces at a one-byte delimiter gives the pieces back, if there is a piece and
-- none holds that byte.
pub explode-implode :
    (d : ℕ) (ps : List Bytes)
    → ps ≢ []
    → All (Lacks d) ps
    → explode (d ∷ []) (implode (d ∷ []) ps) ≡ ps
unfolding explode
explode-implode d [] h _ = absurd (h refl)
explode-implode d (p ∷ ps) _ h = explode_loop-implode ps _ d p h refl
