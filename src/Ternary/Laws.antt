-- ===== src/Ternary/Laws.antt =====
-- The scan for the colon of a ternary, on expressions of text, strings, brackets, casts and ternaries.
use plx.Ternary.{is_quote, depth_behind, string_rest, find_colon, find_ternary_colon}
use mathlib.Core.Path.{subst}
use plx.Prelude.Int.{ℤ, pos}
use plx.Prelude.{
  ℕ, zero, suc, ◌≤◌, ◌<◌, Bytes, length, Bool, true, false, not, ◌||◌, ◌==◌, All, List, [], ◌∷◌,
  ◌++◌, append_assoc, append-nil, some, ◌≡◌, ◌≢◌, refl, ◌∙◌, arith,
}

-- A byte with no meaning to the scans.
abbrev pub is_plain : ℕ → Bool
is_plain c =
    not (is_quote c || c == b'(' || c == b'[' || c == b')' || c == b']' || c == b'?' || c == b':')

pub data Quotes : Type 0 where
  single_quotes double_quotes : Quotes

pub data Brackets : Type 0 where
  round_brackets square_brackets : Brackets

-- A byte of a string, or one behind a backslash.
pub data Piece : Type 0 where
  byte escaped : ℕ → Piece

-- An expression: plain bytes, at least one; a string; brackets with an expression in them or with
-- none, as of a call or an index; a cast `e::t`; two expressions one behind the other; a ternary.
pub data Expr : Type 0 where
  text : ℕ → Bytes → Expr
  string : Quotes → List Piece → Expr
  bracketed : Brackets → Expr → Expr
  brackets : Brackets → Expr
  cast : Expr → ℕ → Bytes → Expr
  both : Expr → Expr → Expr
  ternary : Expr → Expr → Expr → Expr

abbrev pub quote : Quotes → ℕ
quote single_quotes = b'\''
quote double_quotes = b'"'

abbrev pub opening : Brackets → ℕ
opening round_brackets = b'('
opening square_brackets = b'['

abbrev pub closing : Brackets → ℕ
closing round_brackets = b')'
closing square_brackets = b']'

-- The rest of a string, with its closing quote.
abbrev pub print_rest : Quotes → List Piece → Bytes
print_rest q [] = quote q ∷ []
print_rest q (byte c ∷ ps) = c ∷ print_rest q ps
print_rest q (escaped c ∷ ps) = b'\\' ∷ c ∷ print_rest q ps

abbrev pub print : Expr → Bytes
print (text c cs) = c ∷ cs
print (string q ps) = quote q ∷ print_rest q ps
print (bracketed k e) = opening k ∷ (print e ++ closing k ∷ [])
print (brackets k) = opening k ∷ closing k ∷ []
print (cast e c cs) = print e ++ b':' ∷ b':' ∷ c ∷ cs
print (both e f) = print e ++ print f
print (ternary e a b) = print e ++ b'?' ∷ (print a ++ b':' ∷ print b)

-- The bytes of a string are neither its quote nor a backslash; behind a backslash is any byte.
abbrev pub IsPiece : Quotes → Piece → Type 0
IsPiece q (byte c) = ((c == quote q) ≡ false) × ((c == b'\\') ≡ false)
IsPiece q (escaped c) = Unit

abbrev pub IsExpr : Expr → Type 0
IsExpr (text c cs) = All (λ x. is_plain x ≡ true) (c ∷ cs)
IsExpr (string q ps) = All (IsPiece q) ps
IsExpr (bracketed k e) = IsExpr e
IsExpr (brackets k) = Unit
IsExpr (cast e c cs) = IsExpr e × All (λ x. is_plain x ≡ true) (c ∷ cs)
IsExpr (both e f) = IsExpr e × IsExpr f
IsExpr (ternary e a b) = IsExpr e × IsExpr a × IsExpr b

pub string_rest-le : (q : ℕ) (r : Bytes) → length (string_rest q r) ≤ length r
unfolding string_rest
string_rest-le q [] = omega arith
string_rest-le q (c ∷ []) = omega arith
string_rest-le q (c ∷ d ∷ r) = ground (arith, string_rest-le q r, string_rest-le q (d ∷ r))

string_rest-byte :
    (q c : ℕ) (ps r : Bytes)
    → (c == q) ≡ false
    → (c == b'\\') ≡ false
    → 0 < length ps
    → string_rest q (c ∷ (ps ++ r)) ≡ string_rest q (ps ++ r)
unfolding string_rest
string_rest-byte q c [] r h k small = absurd (omega arith)
string_rest-byte q c (d ∷ ps) r h k small = rw (h, k) refl

print_rest-nonempty : (q : Quotes) (ps : List Piece) → 0 < length (print_rest q ps)
print_rest-nonempty q [] = omega arith
print_rest-nonempty q (byte c ∷ ps) = omega arith
print_rest-nonempty q (escaped c ∷ ps) = omega arith

-- The scan over a string ends behind its closing quote.
pub string_rest-closed :
    (q : Quotes) (ps : List Piece) (r : Bytes)
    → All (IsPiece q) ps
    → string_rest (quote q) (print_rest q ps ++ r) ≡ r
unfolding string_rest
string_rest-closed single_quotes [] [] h = refl
string_rest-closed single_quotes [] (c ∷ r) h = refl
string_rest-closed double_quotes [] [] h = refl
string_rest-closed double_quotes [] (c ∷ r) h = refl
string_rest-closed q (byte c ∷ ps) r h =
    string_rest-byte (quote q) c (print_rest q ps) r h.0.0 h.0.1 (print_rest-nonempty q ps)
    ∙ string_rest-closed q ps r h.1
string_rest-closed single_quotes (escaped c ∷ ps) r h = string_rest-closed single_quotes ps r h.1
string_rest-closed double_quotes (escaped c ∷ ps) r h = string_rest-closed double_quotes ps r h.1

-- The scan comes to a position, whatever fuel above the length of the text it has.
Finds : ℤ → ℕ → ℕ → Bytes → Bytes → Type 0
Finds depth tern prev r p =
    (fuel : ℕ) → length r < fuel → find_colon fuel depth tern prev r ≡ some (some p)

Finds-plain :
    (depth : ℤ) (tern prev c : ℕ) (r p : Bytes)
    → is_plain c ≡ true
    → Finds depth tern c r p
    → Finds depth tern prev (c ∷ r) p
unfolding Finds find_colon
Finds-plain depth tern prev c r p h finds zero small = absurd (omega arith)
Finds-plain depth tern prev c [] p h finds (suc fuel) small =
    ground (arith, finds fuel (omega arith))
Finds-plain depth tern prev c (d ∷ r) p h finds (suc fuel) small =
    ground (arith, finds fuel (omega arith))

Finds-string :
    (depth : ℤ) (tern prev : ℕ) (q : Quotes) (r p : Bytes)
    → Finds depth tern (quote q) (string_rest (quote q) r) p
    → Finds depth tern prev (quote q ∷ r) p
unfolding Finds find_colon
Finds-string depth tern prev q r p finds zero small = absurd (omega arith)
Finds-string depth tern prev single_quotes [] p finds (suc fuel) small =
    ground (arith, finds fuel (omega arith))
Finds-string depth tern prev double_quotes [] p finds (suc fuel) small =
    ground (arith, finds fuel (omega arith))
Finds-string depth tern prev single_quotes (d ∷ r) p finds (suc fuel) small =
    let e = finds fuel (omega (arith, string_rest-le b'\'' (d ∷ r))) in ground (arith, e)
Finds-string depth tern prev double_quotes (d ∷ r) p finds (suc fuel) small =
    let e = finds fuel (omega (arith, string_rest-le b'"' (d ∷ r))) in ground (arith, e)

-- A byte that is neither quote, `?` nor `:`.
Finds-bracket :
    (depth depth' : ℤ) (tern prev c : ℕ) (r p : Bytes)
    → (is_quote c || c == b'?' || c == b':') ≡ false
    → depth_behind c depth ≡ depth'
    → Finds depth' tern c r p
    → Finds depth tern prev (c ∷ r) p
unfolding Finds find_colon
Finds-bracket depth depth' tern prev c r p h e finds zero small = absurd (omega arith)
Finds-bracket depth depth' tern prev c [] p h e finds (suc fuel) small =
    ground (arith, finds fuel (omega arith))
Finds-bracket depth depth' tern prev c (d ∷ r) p h e finds (suc fuel) small =
    ground (arith, finds fuel (omega arith))

Finds-open :
    (n tern prev : ℕ) (k : Brackets) (r p : Bytes)
    → Finds (pos (suc n)) tern (opening k) r p
    → Finds (pos n) tern prev (opening k ∷ r) p
Finds-open n tern prev round_brackets r p finds =
    Finds-bracket (pos n) (pos (suc n)) tern prev b'(' r p refl refl finds
Finds-open n tern prev square_brackets r p finds =
    Finds-bracket (pos n) (pos (suc n)) tern prev b'[' r p refl refl finds

Finds-close :
    (n tern prev : ℕ) (k : Brackets) (r p : Bytes)
    → Finds (pos n) tern (closing k) r p
    → Finds (pos (suc n)) tern prev (closing k ∷ r) p
Finds-close n tern prev round_brackets r p finds =
    Finds-bracket (pos (suc n)) (pos n) tern prev b')' r p refl refl finds
Finds-close n tern prev square_brackets r p finds =
    Finds-bracket (pos (suc n)) (pos n) tern prev b']' r p refl refl finds

-- The `::` of a cast.
Finds-cast :
    (n tern prev : ℕ) (c : ℕ) (r p : Bytes)
    → Finds (pos n) tern b':' (c ∷ r) p
    → Finds (pos n) tern prev (b':' ∷ b':' ∷ c ∷ r) p
unfolding Finds find_colon
Finds-cast n tern prev c r p finds zero small = absurd (omega arith)
Finds-cast n tern prev c r p finds (suc zero) small = absurd (omega arith)
Finds-cast zero tern prev c r p finds (suc (suc fuel)) small =
    ground (arith, finds fuel (omega arith))
Finds-cast (suc n) tern prev c r p finds (suc (suc fuel)) small =
    ground (arith, finds fuel (omega arith))

-- The ternaries that are open behind a `?`: at depth 0 only they are counted.
abbrev inner : ℕ → ℕ → ℕ
inner zero tern = suc tern
inner (suc n) tern = tern

Finds-question :
    (n tern prev : ℕ) (r p : Bytes)
    → Finds (pos n) (inner n tern) b'?' r p
    → Finds (pos n) tern prev (b'?' ∷ r) p
unfolding Finds find_colon
Finds-question n tern prev r p finds zero small = absurd (omega arith)
Finds-question zero tern prev [] p finds (suc fuel) small = ground (arith, finds fuel (omega arith))
Finds-question zero tern prev (d ∷ r) p finds (suc fuel) small =
    ground (arith, finds fuel (omega arith))
Finds-question (suc n) tern prev [] p finds (suc fuel) small =
    ground (arith, finds fuel (omega arith))
Finds-question (suc n) tern prev (d ∷ r) p finds (suc fuel) small =
    ground (arith, finds fuel (omega arith))

Begins : Bytes → Type 0
Begins [] = ⊥
Begins (c ∷ r) = c ≢ b':'

Finds-colon :
    (n tern prev : ℕ) (r p : Bytes)
    → prev ≢ b':'
    → Begins r
    → Finds (pos n) tern b':' r p
    → Finds (pos n) (inner n tern) prev (b':' ∷ r) p
unfolding Finds find_colon Begins
Finds-colon n tern prev r p lone begins finds zero small = absurd (omega arith)
Finds-colon zero tern prev (d ∷ r) p lone begins finds (suc fuel) small =
    ground (arith, finds fuel (omega arith))
Finds-colon (suc n) tern prev (d ∷ r) p lone begins finds (suc fuel) small =
    ground (arith, finds fuel (omega arith))
Finds-colon n tern prev [] p lone begins finds (suc fuel) small = absurd begins

print-Begins : (e : Expr) (r : Bytes) → IsExpr e → Begins (print e ++ r)
unfolding Begins
print-Begins (text c cs) r h = ground arith
print-Begins (string single_quotes ps) r h = ground arith
print-Begins (string double_quotes ps) r h = ground arith
print-Begins (bracketed round_brackets e) r h = ground arith
print-Begins (bracketed square_brackets e) r h = ground arith
print-Begins (brackets round_brackets) r h = ground arith
print-Begins (brackets square_brackets) r h = ground arith
print-Begins (cast e c cs) r h =
    rw (append_assoc (print e) (b':' ∷ b':' ∷ c ∷ cs) r)
      (print-Begins e ((b':' ∷ b':' ∷ c ∷ cs) ++ r) h.0)
print-Begins (both e f) r h =
    rw (append_assoc (print e) (print f) r) (print-Begins e (print f ++ r) h.0)
print-Begins (ternary e a b) r h =
    rw (append_assoc (print e) (b'?' ∷ (print a ++ b':' ∷ print b)) r)
      (print-Begins e ((b'?' ∷ (print a ++ b':' ∷ print b)) ++ r) h.0)

-- Behind any byte but a `:`.
Goes : ℕ → ℕ → Bytes → Bytes → Type 0
Goes n tern r p = (prev : ℕ) → prev ≢ b':' → Finds (pos n) tern prev r p

text-Finds :
    (n tern prev c : ℕ) (cs rest p : Bytes)
    → All (λ x. is_plain x ≡ true) (c ∷ cs)
    → Goes n tern rest p
    → Finds (pos n) tern prev (c ∷ (cs ++ rest)) p
unfolding Goes
text-Finds n tern prev c [] rest p h goes =
    Finds-plain (pos n) tern prev c rest p h.0 (goes c (ground (arith, h.0)))
text-Finds n tern prev c (d ∷ cs) rest p h goes =
    Finds-plain (pos n) tern prev c (d ∷ (cs ++ rest)) p h.0
      (text-Finds n tern c d cs rest p h.1 goes)

quote-ne : (q : Quotes) → quote q ≢ b':'
quote-ne single_quotes = ground arith
quote-ne double_quotes = ground arith

closing-ne : (k : Brackets) → closing k ≢ b':'
closing-ne round_brackets = ground arith
closing-ne square_brackets = ground arith

-- The scan passes over an expression.
print-Finds :
    (n tern prev : ℕ) (e : Expr) (rest p : Bytes)
    → IsExpr e
    → Goes n tern rest p
    → Finds (pos n) tern prev (print e ++ rest) p
unfolding Goes
print-Finds n tern prev (text c cs) rest p h goes = text-Finds n tern prev c cs rest p h goes
print-Finds n tern prev (string q ps) rest p h goes =
    Finds-string (pos n) tern prev q (print_rest q ps ++ rest) p
      (rw (string_rest-closed q ps rest h) (goes (quote q) (quote-ne q)))
print-Finds n tern prev (bracketed k e) rest p h goes =
    Finds-open n tern prev k ((print e ++ closing k ∷ []) ++ rest) p (
      rw (append_assoc (print e) (closing k ∷ []) rest) (
        print-Finds (suc n) tern (opening k) e (closing k ∷ rest) p h
          (λ prev' ne. Finds-close n tern prev' k rest p (goes (closing k) (closing-ne k)))))
print-Finds n tern prev (brackets k) rest p h goes =
    Finds-open n tern prev k (closing k ∷ rest) p
      (Finds-close n tern (opening k) k rest p (goes (closing k) (closing-ne k)))
print-Finds n tern prev (cast e c cs) rest p h goes =
    rw (append_assoc (print e) (b':' ∷ b':' ∷ c ∷ cs) rest) (
      print-Finds n tern prev e (b':' ∷ b':' ∷ c ∷ (cs ++ rest)) p h.0 (λ prev' ne.
        Finds-cast n tern prev' c (cs ++ rest) p (text-Finds n tern b':' c cs rest p h.1 goes)))
print-Finds n tern prev (both e f) rest p h goes = rw (append_assoc (print e) (print f) rest) (
    print-Finds n tern prev e (print f ++ rest) p h.0
      (λ prev' ne. print-Finds n tern prev' f rest p h.1 goes))
print-Finds n tern prev (ternary e a b) rest p h goes =
    let colon : Goes n (inner n tern) (b':' ∷ (print b ++ rest)) p = λ prev' ne.
      Finds-colon n tern prev' (print b ++ rest) p ne (print-Begins b rest h.2)
        (print-Finds n tern b':' b rest p h.2 goes) in
    let question : Goes n tern (b'?' ∷ (print a ++ b':' ∷ (print b ++ rest))) p = λ prev' ne.
      Finds-question n tern prev' (print a ++ b':' ∷ (print b ++ rest)) p
        (print-Finds n (inner n tern) b'?' a (b':' ∷ (print b ++ rest)) p h.1 colon) in
    rw
      (
        append_assoc (print e) (b'?' ∷ (print a ++ b':' ∷ print b)) rest,
        append_assoc (print a) (b':' ∷ print b) rest,
      )
      (print-Finds n tern prev e _ p h.0 question)

-- The end of the scan: the colon at depth 0 with no ternary open.
Finds-end :
    (prev : ℕ) (r : Bytes) → prev ≢ b':' → Begins r → Finds (pos 0) 0 prev (b':' ∷ r) (b':' ∷ r)
unfolding Finds find_colon Begins
Finds-end prev r lone begins zero small = absurd (omega arith)
Finds-end prev [] lone begins (suc fuel) small = absurd begins
Finds-end prev (d ∷ r) lone begins (suc fuel) small = ground arith

-- From behind the `?` of a ternary whose arms are expressions of the grammar, the scan comes to the
-- colon of that ternary: it passes the ternaries, the brackets of both kinds, the casts and the
-- strings of both kinds that the first arm holds.
pub find_ternary_colon-print :
    (a b : Expr)
    → IsExpr a
    → IsExpr b
    → find_ternary_colon (print a ++ b':' ∷ print b) ≡ some (some (b':' ∷ print b))
unfolding find_ternary_colon Finds Goes
find_ternary_colon-print a b ha hb =
    let begins : Begins (print b) = subst Begins (append-nil (print b)) (print-Begins b [] hb) in
    print-Finds 0 0 b'?' a (b':' ∷ print b) (b':' ∷ print b) ha
      (λ prev ne. Finds-end prev (print b) ne begins) (suc (length (print a ++ b':' ∷ print b)))
      (omega arith)
