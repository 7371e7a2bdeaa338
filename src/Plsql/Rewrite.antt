-- ===== src/Plsql/Rewrite.antt =====
-- `plsql_transpile`: the loop over the tokens. A position is the list of the tokens from it on.
pub mod Laws
use mathlib.Core.Option
use mathlib.Core.Option.{get_or}
use plx.Plsql.Lexer.{pl_lex}
use plx.Plsql.Token.{is_eof, PlTok}
use plx.Plsql.Words.{
  is_word, is_punct_char, pl_emit_raw, pl_match_paren, find_comma, pl_ci, pl_type_map, pl_word_map,
}
use plx.Prelude.Int.{pos}
use plx.Prelude.{
  ℕ, zero, suc, ◌+◌, Bytes, codes, length, take, drop, get_elem?, Bool, true, false, not, ◌&&◌,
  ◌||◌, if◌then◌else◌, List, [], ◌∷◌, ◌++◌, Option, none, some,
}

-- What a round writes, and the tokens that it leaves.
abbrev pub Written : Type 0
Written = Bytes × List PlTok

-- `i + k < nt && pl_punct(&t[i + k], c)`
abbrev pub punct_at : List PlTok → ℕ → ℕ → Bool
punct_at ts k c = elim (get_elem? ts k) [ none ↦ false | some t ↦ is_punct_char t c ]

abbrev pub is_word_at : List PlTok → ℕ → Bool
is_word_at ts k = elim (get_elem? ts k) [ none ↦ false | some t ↦ is_word t.kind ]

abbrev pub text_at : List PlTok → ℕ → Bytes
text_at ts k = elim (get_elem? ts k) [ none ↦ [] | some t ↦ t.s ]

-- Behind `DBMS_OUTPUT.PUT_LINE`, whose `(` is token 3: the argument becomes a notice.
unfoldable pub put_line : List PlTok → Option Written
put_line ts = elim (pl_match_paren (drop 3 ts)) [
  | none ↦ none
  | some n ↦
      let close = 3 + n in
      some
        (codes "RAISE NOTICE '%', (" ++ (pl_emit_raw ts 4 close ++ codes ")"), drop (suc close) ts)
]

-- The message of RAISE_APPLICATION_ERROR runs from behind the first comma to the next, or to the
-- `)`.
unfoldable pub application_error_at : List PlTok → ℕ → ℕ → Written
application_error_at ts close comma =
    let mend = get_or (find_comma (pos 0) (suc comma) (drop (suc comma) (take close ts))) close in
    (
      codes "RAISE EXCEPTION '%', (" ++ (pl_emit_raw ts (suc comma) mend ++ codes ")"),
      drop (suc close) ts,
    )

-- Behind RAISE_APPLICATION_ERROR, whose `(` is token 1.
unfoldable pub application_error : List PlTok → Option Written
unfolding application_error_at
application_error ts = elim (pl_match_paren (drop 1 ts)) [
  | none ↦ none
  | some n ↦
      let close = 1 + n in
      elim (find_comma (pos 0) 2 (drop 2 (take close ts))) [
        | none ↦ none
        | some comma ↦ some (application_error_at ts close comma)
      ]
]

-- The first of two rewritings that applies.
abbrev pub or_else : Option Written → Written → Written
or_else none w = w
or_else (some w) _ = w

-- The trivia of the end token.
abbrev pub end_trivia : List PlTok → Bytes
end_trivia [] = []
end_trivia (t ∷ []) = if is_eof t.kind then t.pre else []
end_trivia (t ∷ u ∷ ts) = end_trivia (u ∷ ts)

module _ (ci : Bytes → Bytes → Bool) where
  -- `i + k < nt && pl_ci(&t[i + k], w)`
  abbrev pub ci_at : List PlTok → ℕ → Bytes → Bool
  ci_at ts k w = elim (get_elem? ts k) [ none ↦ false | some t ↦ pl_ci ci t w ]

  -- The type table (in the declarations only), then the word table, then the word as it is.
  unfoldable pub plain_word : Bool → PlTok → Bytes
  plain_word in_decls t =
      let mapped = if in_decls then pl_type_map ci t else none in
      elim mapped [ some r ↦ r | none ↦ get_or (pl_word_map ci t) t.s ]

  -- `seq.NEXTVAL`, `seq.CURRVAL`, or a word by itself.
  unfoldable pub sequence_or_word : Bool → PlTok → List PlTok → Written
  unfolding plain_word
  sequence_or_word in_decls t rest =
      let ts = t ∷ rest in
      if punct_at ts 1 b'.' && (ci_at ts 2 (codes "NEXTVAL") || ci_at ts 2 (codes "CURRVAL"))
      then (
        (if ci_at ts 2 (codes "NEXTVAL") then codes "nextval" else codes "currval")
            ++ (codes "('" ++ (t.s ++ codes "')")),
        drop 3 ts,
      )
      else (plain_word in_decls t, rest)

  -- RAISE_APPLICATION_ERROR with a message, or what is tried behind it.
  unfoldable pub error_or_word : Bool → PlTok → List PlTok → Written
  unfolding sequence_or_word application_error
  error_or_word in_decls t rest =
      let ts = t ∷ rest in
      if pl_ci ci t (codes "RAISE_APPLICATION_ERROR") && punct_at ts 1 b'('
      then or_else (application_error ts) (sequence_or_word in_decls t rest)
      else sequence_or_word in_decls t rest

  -- A round at a word.
  unfoldable pub rewrite_word : Bool → PlTok → List PlTok → Written
  unfolding error_or_word put_line
  rewrite_word in_decls t rest =
      let ts = t ∷ rest in
      if pl_ci ci t (codes "EXECUTE") && ci_at ts 1 (codes "IMMEDIATE")
      then (codes "EXECUTE", drop 2 ts)
      else if pl_ci ci t (codes "FROM") && ci_at ts 1 (codes "DUAL")
      then ([], drop 2 ts)
      else if pl_ci ci t (codes "CURSOR") && is_word_at ts 1 && ci_at ts 2 (codes "IS")
      then (text_at ts 1 ++ codes " CURSOR FOR", drop 3 ts)
      else if pl_ci ci t (codes "DBMS_OUTPUT")
          && punct_at ts 1 b'.'
          && (ci_at ts 2 (codes "PUT_LINE") || ci_at ts 2 (codes "PUT"))
          && punct_at ts 3 b'('
      then or_else (put_line ts) (error_or_word in_decls t rest)
      else error_or_word in_decls t rest

  -- A round at any token that is not the end.
  unfoldable pub rewrite_token : Bool → PlTok → List PlTok → Written
  unfolding rewrite_word
  rewrite_token in_decls t rest =
      if is_word t.kind then rewrite_word in_decls t rest else (t.s, rest)

  -- The first BEGIN ends the declarations.
  abbrev pub still_decls : Bool → PlTok → Bool
  still_decls in_decls t = in_decls && not (pl_ci ci t (codes "BEGIN"))

  -- The loop, on fuel; `none` is a loop cut short.
  unfoldable pub rewrite : ℕ → Bool → List PlTok → Option Bytes
  rewrite zero in_decls ts = none
  rewrite (suc fuel) in_decls [] = some []
  rewrite (suc fuel) in_decls (t ∷ ts) =
      let decls = still_decls in_decls t in
      let (out, rest) = rewrite_token decls t ts in
      let more = Option.map (λ b. t.pre ++ (out ++ b)) (rewrite fuel decls rest) in
      if is_eof t.kind then some [] else more

  unfoldable pub need_declare : List PlTok → Bool
  need_declare [] = false
  need_declare (t ∷ ts) =
      not (is_eof t.kind) && not (pl_ci ci t (codes "BEGIN")) && not (pl_ci ci t (codes "DECLARE"))

  -- From the tokens to the text.
  unfoldable pub rewrite_all : List PlTok → Option Bytes
  unfolding rewrite need_declare
  rewrite_all ts =
      Option.map (λ b. (if need_declare ts then codes "DECLARE" else []) ++ (b ++ end_trivia ts))
        (rewrite (suc (length ts)) true ts)

  unfoldable pub plsql_transpile : Bytes → Option Bytes
  plsql_transpile body = Option.bind (pl_lex body) rewrite_all
