-- ===== src/Go/Value.antt =====
-- The literal that `go_emit_str` writes has the value that the string has in Go.
use plx.Prelude.{
  ℕ, suc, ◌-◌, Bytes, length, take, Bool, true, false, ◌==◌, if◌then◌else◌, [], ◌∷◌, ◌++◌,
  append-nil, append_assoc, Option, none, some, ◌≡◌, refl, sym, ap, ◌∙◌, arith, inl, inr, if-split,
  Bool-cases, ==_iff,
}
use plx.Go.Literal.{sql_char, raw_chars, escape, escaped_chars, unquoted, go_emit_str}

-- A byte in front of the value that is read.
abbrev read_byte : ℕ → Option (Bytes × Bytes) → Option (Bytes × Bytes)
read_byte c none = none
read_byte c (some (value, rest)) = some (c ∷ value, rest)

-- A literal of SQL from behind its opening quote: its value, and what stands behind it. A quote
-- inside is written twice, and a backslash is a byte like any other.
unfoldable sql_value : Bytes → Option (Bytes × Bytes)
sql_value [] = none
sql_value (c ∷ []) = if c == b'\'' then some ([], []) else none
sql_value (c ∷ d ∷ r) =
    let doubled = read_byte c (sql_value r) in
    let one = read_byte c (sql_value (d ∷ r)) in
    if c == b'\'' then (if d == b'\'' then doubled else some ([], d ∷ r)) else one

unfoldable pub sql_literal : Bytes → Option (Bytes × Bytes)
unfolding sql_value
sql_literal [] = none
sql_literal (q ∷ r) = if q == b'\'' then sql_value r else none

-- The byte of an escape of one letter, of those that the front end decodes.
abbrev go_escape : ℕ → Option ℕ
go_escape c =
    if c == b'n'
    then some b'\n'
    else if c == b't'
    then some b'\t'
    else if c == b'r'
    then some b'\r'
    else if c == b'\\'
    then some b'\\'
    else if c == b'\''
    then some b'\''
    else if c == b'"'
    then some b'"'
    else none

abbrev first_byte : Option ℕ → Option Bytes → Option Bytes
first_byte none value = none
first_byte (some c) none = none
first_byte (some c) (some value) = some (c ∷ value)

-- What a string in quotes is in Go, where its escapes are of those letters.
unfoldable pub quoted_value : Bytes → Option Bytes
quoted_value [] = some []
quoted_value (c ∷ []) = if c == b'\\' then none else some (c ∷ [])
quoted_value (c ∷ d ∷ r) =
    let escaped = first_byte (go_escape d) (quoted_value r) in
    let one = first_byte (some c) (quoted_value (d ∷ r)) in if c == b'\\' then escaped else one

-- What a raw string is in Go, which drops carriage returns, where it holds none.
unfoldable pub raw_value : Bytes → Option Bytes
raw_value [] = some []
raw_value (c ∷ r) = if c == b'\r' then none else first_byte (some c) (raw_value r)

abbrev pub go_value : ℕ → Bytes → Option Bytes
go_value q body = if q == b'`' then raw_value body else quoted_value body

-- What stands behind the literal does not begin with a quote.
abbrev pub no_quote : Bytes → Bool
no_quote [] = true
no_quote (c ∷ r) = if c == b'\'' then false else true

end_read : (rest : Bytes) → no_quote rest ≡ true → sql_value (b'\'' ∷ rest) ≡ some ([], rest)
unfolding sql_value
end_read [] h = refl
end_read (c ∷ r) h = elim (Bool-cases (c == b'\'')) [ inl e ↦ cc (rw e at h) | inr e ↦ rw e refl ]

-- A byte of a literal in front of a text that is not empty.
char_read :
    (c d : ℕ) (r : Bytes) → sql_value (sql_char c ++ (d ∷ r)) ≡ read_byte c (sql_value (d ∷ r))
unfolding sql_value
char_read c d r = elim (Bool-cases (c == b'\'')) [
  | inl e ↦ rw e (ap (λ b. read_byte b (sql_value (d ∷ r))) (sym ((==_iff c b'\'').0 e)))
  | inr e ↦ rw e (rw e refl)
]

char_in_front :
    (c : ℕ) (xs rest : Bytes)
    → sql_value ((sql_char c ++ xs) ++ (b'\'' ∷ rest))
      ≡ read_byte c (sql_value (xs ++ (b'\'' ∷ rest)))
char_in_front c [] rest =
    ap sql_value (append_assoc (sql_char c) [] (b'\'' ∷ rest)) ∙ char_read c b'\'' rest
char_in_front c (d ∷ xs) rest =
    ap sql_value (append_assoc (sql_char c) (d ∷ xs) (b'\'' ∷ rest))
    ∙ char_read c d (xs ++ (b'\'' ∷ rest))

-- A text whose value is read up to the quote behind it.
abbrev Reads : Bytes → Bytes → Bytes → Type 0
Reads xs value rest = sql_value (xs ++ (b'\'' ∷ rest)) ≡ some (value, rest)

sql_char-Reads :
    (c : ℕ) (xs value rest : Bytes)
    → Reads xs value rest
    → Reads (sql_char c ++ xs) (c ∷ value) rest
sql_char-Reads c xs value rest h = char_in_front c xs rest ∙ ap (read_byte c) h

some-injective {ℓ} : {A : Type ℓ} {x y : A} → some x ≡ some y → x ≡ y
some-injective e = cc

-- The byte in front of a value that is read.
front-Reads :
    (c : ℕ) (xs value rest : Bytes) (o : Option Bytes)
    → ((v : Bytes) → o ≡ some v → Reads xs v rest)
    → first_byte (some c) o ≡ some value
    → Reads (sql_char c ++ xs) value rest
front-Reads c xs value rest none more e = cc e
front-Reads c xs value rest (some v) more e =
    sql_char-Reads c xs v rest (more v refl) ∙ ap (λ w. some (w, rest)) (some-injective e)

raw_chars-Reads :
    (s value rest : Bytes)
    → raw_value s ≡ some value
    → no_quote rest ≡ true
    → Reads (raw_chars s) value rest
unfolding raw_value raw_chars
raw_chars-Reads [] value rest h k = end_read rest k ∙ ap (λ v. some (v, rest)) (some-injective h)
raw_chars-Reads (c ∷ r) value rest h k =
    if-split (λ (o : Option Bytes). o ≡ some value → Reads (raw_chars (c ∷ r)) value rest)
      (c == b'\r') (λ _ e. cc e)
      (λ _ e.
        front-Reads c (raw_chars r) value rest (raw_value r) (λ v l. raw_chars-Reads r v rest l k)
          e)
      h

-- An escape that is decoded stands for the byte that it is in Go.
go_escape-agrees : (d b : ℕ) → go_escape d ≡ some b → escape d ≡ b
unfolding escape
go_escape-agrees d b h =
    let P = λ (o : Option ℕ). o ≡ some b → escape d ≡ b in
    if-split P (d == b'n') (λ e k. rw e (some-injective k))
      (λ n.
        if-split P (d == b't') (λ e k. rw (n, e) (some-injective k))
          (λ t.
            if-split P (d == b'r') (λ e k. rw (n, t, e) (some-injective k))
              (λ r.
                let same : (c : ℕ) → d == c ≡ true → some c ≡ some b → escape d ≡ b =
                  λ c e k. rw (n, t, r) ((==_iff d c).0 e ∙ some-injective k) in
                if-split P (d == b'\\') (same b'\\') (λ _.
                  if-split P (d == b'\'') (same b'\'')
                    (λ _. if-split P (d == b'"') (same b'"') (λ _ k. cc k))))))
      h

escaped_chars-Reads :
    (s value rest : Bytes)
    → quoted_value s ≡ some value
    → no_quote rest ≡ true
    → Reads (escaped_chars s) value rest
unfolding quoted_value escaped_chars
escaped_chars-Reads [] value rest h k =
    end_read rest k ∙ ap (λ v. some (v, rest)) (some-injective h)
escaped_chars-Reads (c ∷ []) value rest h k =
    if-split (λ (o : Option Bytes). o ≡ some value → Reads (sql_char c) value rest) (c == b'\\')
      (λ _ e. cc e)
      (λ _ e.
        ap (λ xs. sql_value (xs ++ (b'\'' ∷ rest))) (sym (append-nil (sql_char c)))
        ∙ (sql_char-Reads c [] [] rest (end_read rest k)
            ∙ ap (λ v. some (v, rest)) (some-injective e)))
      h
escaped_chars-Reads (c ∷ d ∷ r) value rest h k = elim (Bool-cases (c == b'\\')) [
  | inl e ↦ rw e (
      escape-Reads (go_escape d) (λ b. go_escape-agrees d b)
        (λ v m. escaped_chars-Reads r v rest m k) (rw e at h))
  | inr e ↦ rw e (
      front-Reads c (escaped_chars (d ∷ r)) value rest (quoted_value (d ∷ r))
        (λ v l. escaped_chars-Reads (d ∷ r) v rest l k) (rw e at h))
]
  where
    escape-Reads :
        (o : Option ℕ)
        → ((b : ℕ) → o ≡ some b → escape d ≡ b)
        → ((v : Bytes) → quoted_value r ≡ some v → Reads (escaped_chars r) v rest)
        → first_byte o (quoted_value r) ≡ some value
        → Reads (sql_char (escape d) ++ escaped_chars r) value rest
    escape-Reads none agrees more l = cc l
    escape-Reads (some b) agrees more l =
        rw (agrees b refl) (front-Reads b (escaped_chars r) value rest (quoted_value r) more l)

-- What stands between the quotes of a token.
unquoted_lem : (q : ℕ) (body : Bytes) → unquoted (q ∷ (body ++ (q ∷ []))) ≡ body
unquoted_lem q body =
    inside body (suc (length (body ++ (q ∷ []))) - 2) (omega (arith, one_more body))
  where
    one_more : (xs : Bytes) → length (xs ++ (q ∷ [])) ≡ suc (length xs)
    one_more [] = refl
    one_more (x ∷ xs) = ap suc (one_more xs)

    inside : (xs : Bytes) (n : ℕ) → n ≡ length xs → take n (xs ++ (q ∷ [])) ≡ xs
    inside [] n e = rw e refl
    inside (x ∷ xs) n e = rw e (ap (λ ys. x ∷ ys) (inside xs (length xs) refl))

-- Where a string has a value in Go, by the readers above, and what stands behind its literal does not
-- begin with a quote, the literal that is written is read as that value, up to what stands behind it.
pub go_emit_str-value :
    (q : ℕ) (body value rest : Bytes)
    → go_value q body ≡ some value
    → no_quote rest ≡ true
    → sql_literal (go_emit_str (q ∷ (body ++ (q ∷ []))) ++ rest) ≡ some (value, rest)
unfolding go_emit_str sql_literal
go_emit_str-value q body value rest h k = elim (Bool-cases (q == b'`')) [
  | inl e ↦
      rw (e, unquoted_lem q body)
        (behind_quote (raw_chars body) (raw_chars-Reads body value rest (rw e at h) k))
  | inr e ↦
      rw (e, unquoted_lem q body)
        (behind_quote (escaped_chars body) (escaped_chars-Reads body value rest (rw e at h) k))
]
  where
    behind_quote :
        (xs : Bytes)
        → Reads xs value rest
        → sql_value ((xs ++ (b'\'' ∷ [])) ++ rest) ≡ some (value, rest)
    behind_quote xs l = ap sql_value (append_assoc xs (b'\'' ∷ []) rest) ∙ l
