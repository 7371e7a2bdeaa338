-- ===== src/Plsql/Rewrite/Laws.antt =====
-- The loop over the tokens ends, and what it does not know passes through.
use mathlib.Core.Option
use mathlib.Core.Option.{some-injective}
use mathlib.Core.Path.{subst}
use plx.Plsql.Lexer.Lossless.{pl_lex-source_of}
use plx.Plsql.Lexer.{pl_lex}
use plx.Plsql.Rewrite.{
  Written, put_line, application_error, sequence_or_word, error_or_word, rewrite_word,
  rewrite_token, still_decls, rewrite, end_trivia, need_declare, rewrite_all, plsql_transpile,
  plain_word,
}
use plx.Plsql.Token.{is_eof, PlTok, source_of, Ended}
use plx.Plsql.Words.{pl_ci, pl_match_paren, find_comma, pl_type_map, pl_word_map}
use plx.Prelude.Int.{pos}
use plx.Prelude.{
  ℕ, zero, suc, ◌+◌, ◌<◌, Bytes, codes, length, length-drop, take, drop, Bool, true, false,
  if◌then◌else◌, Bool-cases, Option-cases, List, [], ◌∷◌, ◌++◌, Option, none, some, ◌≡◌, refl, sym,
  ◌∙◌, arith, inl, inr, All, append_assoc, append-nil,
}

-- A round that may not apply leaves fewer tokens where it does.
abbrev Shorter : List PlTok → Option Written → Type 0
Shorter ts none = Unit
Shorter ts (some w) = length w.1 < length ts

put_line-Shorter : (t : PlTok) (ts : List PlTok) → Shorter (t ∷ ts) (put_line (t ∷ ts))
unfolding put_line
put_line-Shorter t ts = elim (Option-cases (pl_match_paren (drop 3 (t ∷ ts)))) [
  | inl e ↦ rw (e, put_line, Shorter) tt
  | inr (n, e) ↦ rw (e, put_line, Shorter) (omega (arith, length-drop (3 + n) ts))
]

application_error-Shorter :
    (t : PlTok) (ts : List PlTok) → Shorter (t ∷ ts) (application_error (t ∷ ts))
unfolding application_error
application_error-Shorter t ts = elim (Option-cases (pl_match_paren ts)) [
  | inl e ↦ rw (e, application_error, Shorter) tt
  | inr (n, e) ↦
      let args = drop 2 (take (1 + n) (t ∷ ts)) in
      elim (Option-cases (find_comma (pos 0) 2 args)) [
        | inl none_there ↦ rw (e, none_there, application_error, Shorter) tt
        | inr (comma, there) ↦
            rw (e, there, application_error, Shorter) (omega (arith, length-drop (1 + n) ts))
      ]
]

module _ (ci : Bytes → Bytes → Bool) where
  sequence_or_word-lt :
      (d : Bool) (t : PlTok) (ts : List PlTok)
      → length (sequence_or_word ci d t ts).1 < suc (length ts)
  unfolding sequence_or_word
  sequence_or_word-lt d t ts = ground (arith, length-drop 2 ts)

  error_or_word-lt :
      (d : Bool) (t : PlTok) (ts : List PlTok)
      → length (error_or_word ci d t ts).1 < suc (length ts)
  unfolding error_or_word
  error_or_word-lt d t ts =
      ground (arith, sequence_or_word-lt d t ts, application_error-Shorter t ts)

  rewrite_word-lt :
      (d : Bool) (t : PlTok) (ts : List PlTok) → length (rewrite_word ci d t ts).1 < suc (length ts)
  unfolding rewrite_word
  rewrite_word-lt d t ts =
      ground
        (arith, error_or_word-lt d t ts, put_line-Shorter t ts, length-drop 1 ts, length-drop 2 ts)

  rewrite_token-lt :
      (d : Bool) (t : PlTok) (ts : List PlTok)
      → length (rewrite_token ci d t ts).1 < suc (length ts)
  unfolding rewrite_token
  rewrite_token-lt d t ts = ground (arith, rewrite_word-lt d t ts)

  -- Enough fuel.
  rewrite_total :
      (fuel : ℕ) (d : Bool) (ts : List PlTok)
      → length ts < fuel
      → (out : Bytes) × (rewrite ci fuel d ts ≡ some out)
  unfolding rewrite
  rewrite_total zero d ts h = elim h [ ]
  rewrite_total (suc fuel) d [] h = ([], refl)
  rewrite_total (suc fuel) d (t ∷ ts) h = elim (Bool-cases (is_eof t.kind)) [
    | inl end ↦ ([], rw end refl)
    | inr more ↦
        let decls = still_decls ci d t in
        let w = rewrite_token ci decls t ts in
        let (out, e) = rewrite_total fuel decls w.1 (omega (arith, rewrite_token-lt decls t ts)) in
        (t.pre ++ (w.0 ++ out), rw (more, e) refl)
  ]

  -- What stands in front of what the loop writes, and behind it.
  abbrev framed : List PlTok → Bytes → Bytes
  framed ts b = (if need_declare ci ts then codes "DECLARE" else []) ++ (b ++ end_trivia ts)

  -- The PL/SQL front end ends on every body, and refuses none.
  pub plsql_transpile_total : (body : Bytes) → (out : Bytes) × (plsql_transpile ci body ≡ some out)
  unfolding plsql_transpile rewrite_all Option.bind
  plsql_transpile_total body =
      let (ts, e, _, _) = pl_lex-source_of body in
      let (out, q) = rewrite_total (suc (length ts)) true ts (omega arith) in
      (framed ts out, rw (e, q) refl)

  -- The words that the front end acts on.
  abbrev pub acted_on : List Bytes
  acted_on =
      codes "EXECUTE"
      ∷ codes "FROM"
      ∷ codes "CURSOR"
      ∷ codes "DBMS_OUTPUT"
      ∷ codes "RAISE_APPLICATION_ERROR"
      ∷ codes "NEXTVAL"
      ∷ codes "CURRVAL"
      ∷ []

  -- The token is none of those words, and in neither table.
  pub record IsPlain (t : PlTok) : Type 0 where
    pub not_acted_on : All (λ w. pl_ci ci t w ≡ false) acted_on
    pub no_type : pl_type_map ci t ≡ none
    pub no_word : pl_word_map ci t ≡ none

  -- The tables and the rewritings leave a plain word alone, if the next token but one is plain.
  rewrite_token-IsPlain :
      (d : Bool) (t : PlTok) (ts : List PlTok)
      → All IsPlain (t ∷ ts)
      → rewrite_token ci d t ts ≡ (t.s, ts)
  unfolding rewrite_token rewrite_word plain_word
  rewrite_token-IsPlain d t [] p = ground arith
  rewrite_token-IsPlain d t (u ∷ []) p = ground arith
  rewrite_token-IsPlain d t (u ∷ v ∷ ts) p = ground arith

  rewrite-IsPlain :
      (fuel : ℕ) (d : Bool) (ts : List PlTok)
      → length ts < fuel
      → Ended ts
      → All IsPlain ts
      → (b : Bytes) × (rewrite ci fuel d ts ≡ some b) × (b ++ end_trivia ts ≡ source_of ts)
  unfolding rewrite
  rewrite-IsPlain zero d ts h e p = elim h [ ]
  rewrite-IsPlain (suc fuel) d [] h e p = absurd e
  rewrite-IsPlain (suc fuel) d (t ∷ []) h e p =
      ([], rw e.0 refl, rw (e.1, e.0) (sym (append-nil t.pre)))
  rewrite-IsPlain (suc fuel) d (t ∷ u ∷ ts) h e p =
      let decls = still_decls ci d t in
      let (b, q, text) = rewrite-IsPlain fuel decls (u ∷ ts) (omega arith) e.1 p.1 in
      (
        t.pre ++ (t.s ++ b),
        rw (e.0, rewrite_token-IsPlain decls t (u ∷ ts) p, q) refl,
        simp append_assoc (rw text refl),
      )

  -- A body with no word that the front end acts on passes through byte for byte, comments and
  -- blanks included. The one thing added is the word DECLARE, straight in front, where the body
  -- begins with neither BEGIN nor DECLARE.
  pub plsql_transpile-IsPlain :
      (body : Bytes) {ts : List PlTok}
      → pl_lex body ≡ some ts
      → All IsPlain ts
      → plsql_transpile ci body
        ≡ some ((if need_declare ci ts then codes "DECLARE" else []) ++ body)
  unfolding plsql_transpile rewrite_all Option.bind
  plsql_transpile-IsPlain body {ts} lexed p =
      let (us, e, spans, ended) = pl_lex-source_of body in
      let same : us ≡ ts = some-injective _ _ (sym e ∙ lexed) in
      let (b, q, text) =
        rewrite-IsPlain (suc (length ts)) true ts (omega arith) (subst Ended same ended) p in
      let whole : source_of ts ≡ body = subst (λ x. source_of x ≡ body) same spans in
      rw (lexed, q, text, whole) refl
