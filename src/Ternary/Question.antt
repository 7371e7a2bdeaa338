-- ===== src/Ternary/Question.antt =====
-- The scan for the `?` of a ternary, over its condition.
use plx.Ternary.{is_quote, depth_behind, string_rest, find_q, find_ternary_q}
use plx.Ternary.Laws.{
  is_plain, Quotes, single_quotes, double_quotes, Brackets, round_brackets, square_brackets, Expr,
  text, string, bracketed, brackets, cast, both, ternary, quote, opening, closing, print_rest,
  print, IsExpr, string_rest-le, string_rest-closed,
}
use plx.Prelude.Int.{ℤ, pos, is_zero}
use plx.Prelude.{
  ℕ, zero, suc, ◌<◌, Bytes, length, true, false, ◌&&◌, ◌==◌, All, [], ◌∷◌, ◌++◌, append_assoc, some,
  ◌≡◌, refl, arith,
}

-- No ternary, but in brackets.
abbrev pub IsCondition : Expr → Type 0
IsCondition (text c cs) = Unit
IsCondition (string q ps) = Unit
IsCondition (bracketed k e) = Unit
IsCondition (brackets k) = Unit
IsCondition (cast e c cs) = IsCondition e
IsCondition (both e f) = IsCondition e × IsCondition f
IsCondition (ternary e a b) = ⊥

-- The scan comes to a position, whatever fuel above the length of the text it has.
Finds : ℤ → Bytes → Bytes → Type 0
Finds depth r p = (fuel : ℕ) → length r < fuel → find_q fuel depth r ≡ some (some p)

Finds-byte :
    (depth depth' : ℤ) (c : ℕ) (r p : Bytes)
    → is_quote c ≡ false
    → (c == b'?' && is_zero depth) ≡ false
    → depth_behind c depth ≡ depth'
    → Finds depth' r p
    → Finds depth (c ∷ r) p
unfolding Finds find_q
Finds-byte depth depth' c r p byte far e finds zero small = absurd (omega arith)
Finds-byte depth depth' c r p byte far e finds (suc fuel) small =
    rw (far, byte, e) (finds fuel (omega arith))

Finds-plain :
    (depth : ℤ) (c : ℕ) (r p : Bytes) → is_plain c ≡ true → Finds depth r p → Finds depth (c ∷ r) p
Finds-plain depth c r p h finds =
    Finds-byte depth depth c r p (ground arith) (ground arith) (ground arith) finds

Finds-string :
    (depth : ℤ) (q : Quotes) (r p : Bytes)
    → Finds depth (string_rest (quote q) r) p
    → Finds depth (quote q ∷ r) p
unfolding Finds find_q
Finds-string depth q r p finds zero small = absurd (omega arith)
Finds-string depth single_quotes r p finds (suc fuel) small =
    finds fuel (omega (arith, string_rest-le b'\'' r))
Finds-string depth double_quotes r p finds (suc fuel) small =
    finds fuel (omega (arith, string_rest-le b'"' r))

Finds-open :
    (n : ℕ) (k : Brackets) (r p : Bytes) → Finds (pos (suc n)) r p → Finds (pos n) (opening k ∷ r) p
Finds-open n round_brackets r p finds =
    Finds-byte (pos n) (pos (suc n)) b'(' r p refl refl refl finds
Finds-open n square_brackets r p finds =
    Finds-byte (pos n) (pos (suc n)) b'[' r p refl refl refl finds

Finds-close :
    (n : ℕ) (k : Brackets) (r p : Bytes) → Finds (pos n) r p → Finds (pos (suc n)) (closing k ∷ r) p
Finds-close n round_brackets r p finds =
    Finds-byte (pos (suc n)) (pos n) b')' r p refl refl refl finds
Finds-close n square_brackets r p finds =
    Finds-byte (pos (suc n)) (pos n) b']' r p refl refl refl finds

text-Finds :
    (depth : ℤ) (cs rest p : Bytes)
    → All (λ x. is_plain x ≡ true) cs
    → Finds depth rest p
    → Finds depth (cs ++ rest) p
text-Finds depth [] rest p h finds = finds
text-Finds depth (c ∷ cs) rest p h finds =
    Finds-plain depth c (cs ++ rest) p h.0 (text-Finds depth cs rest p h.1 finds)

-- The scan passes over every expression in brackets, and over a condition outside them.
print-Finds :
    (n : ℕ) (e : Expr) (rest p : Bytes)
    → IsExpr e
    → (n ≡ 0 → IsCondition e)
    → Finds (pos n) rest p
    → Finds (pos n) (print e ++ rest) p
print-Finds n (text c cs) rest p h k finds = text-Finds (pos n) (c ∷ cs) rest p h finds
print-Finds n (string q ps) rest p h k finds =
    Finds-string (pos n) q (print_rest q ps ++ rest) p (rw (string_rest-closed q ps rest h) finds)
print-Finds n (bracketed b e) rest p h k finds =
    Finds-open n b ((print e ++ closing b ∷ []) ++ rest) p (
      rw (append_assoc (print e) (closing b ∷ []) rest) (
        print-Finds (suc n) e (closing b ∷ rest) p h (λ z. absurd (omega arith))
          (Finds-close n b rest p finds)))
print-Finds n (brackets b) rest p h k finds =
    Finds-open n b (closing b ∷ rest) p (Finds-close n b rest p finds)
print-Finds n (cast e c cs) rest p h k finds =
    let type : Finds (pos n) (c ∷ (cs ++ rest)) p = text-Finds (pos n) (c ∷ cs) rest p h.1 finds in
    let colon : Finds (pos n) (b':' ∷ c ∷ (cs ++ rest)) p =
      Finds-byte _ (pos n) b':' _ p refl refl refl type in
    rw (append_assoc (print e) (b':' ∷ b':' ∷ c ∷ cs) rest)
      (print-Finds n e _ p h.0 k (Finds-byte _ (pos n) b':' _ p refl refl refl colon))
print-Finds n (both e f) rest p h k finds = rw (append_assoc (print e) (print f) rest) (
    print-Finds n e (print f ++ rest) p h.0 (λ z. (k z).0)
      (print-Finds n f rest p h.1 (λ z. (k z).1) finds))
print-Finds zero (ternary e a b) rest p h k finds = absurd (k refl)
print-Finds (suc n) (ternary e a b) rest p h k finds =
    let deep : suc n ≡ 0 → ⊥ = λ z. omega arith in
    let colon : Finds (pos (suc n)) (b':' ∷ (print b ++ rest)) p =
      Finds-byte _ (pos (suc n)) b':' _ p refl refl refl
        (print-Finds (suc n) b rest p h.2 (λ z. absurd (deep z)) finds) in
    let question : Finds (pos (suc n)) (b'?' ∷ (print a ++ b':' ∷ (print b ++ rest))) p =
      Finds-byte _ (pos (suc n)) b'?' _ p refl refl refl
        (print-Finds (suc n) a _ p h.1 (λ z. absurd (deep z)) colon) in
    rw
      (
        append_assoc (print e) (b'?' ∷ (print a ++ b':' ∷ print b)) rest,
        append_assoc (print a) (b':' ∷ print b) rest,
      )
      (print-Finds (suc n) e _ p h.0 (λ z. absurd (deep z)) question)

Finds-question : (r : Bytes) → Finds (pos 0) (b'?' ∷ r) (b'?' ∷ r)
unfolding Finds find_q
Finds-question r zero small = absurd (omega arith)
Finds-question r (suc fuel) small = refl

-- The scan over a ternary comes to its `?`, where the condition is an expression of the grammar
-- with no ternary outside brackets, whatever ternaries its brackets and whatever bytes its strings
-- hold, and whatever follows.
pub find_ternary_q-print :
    (e : Expr) (r : Bytes)
    → IsExpr e
    → IsCondition e
    → find_ternary_q (print e ++ b'?' ∷ r) ≡ some (some (b'?' ∷ r))
unfolding find_ternary_q Finds
find_ternary_q-print e r h k =
    print-Finds 0 e (b'?' ∷ r) (b'?' ∷ r) h (λ _. k) (Finds-question r)
      (suc (length (print e ++ b'?' ∷ r))) (omega arith)
