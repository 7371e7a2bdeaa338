-- ===== src/Go/Progress/Lexer.antt =====
-- The Go lexer ends on every body, and refuses one only for a string that is not closed.
use mathlib.Core.Option
use plx.Prelude.Result.{Result, ok, err, map_ok, syntax}
use plx.Prelude.Suffix.{IsSuffix-le}
use plx.Prelude.{
  ℕ, zero, suc, ◌<◌, ◌≤◌, Bytes, length, true, false, List, [], ◌∷◌, ◌++◌, Option, none, some, ◌≡◌,
  refl, arith, if-split,
}
use plx.Go.Lexer.{Round, asi, go_round, last_tok, finish_toks, go_lex_from, go_lex}
use plx.Go.Token.{GoTok, is_eof}
use plx.Go.Progress.Rounds.{NoEnd, OpenString, Reads, to, open_string, go_round-Reads}

-- The last token is the end, and no other one is.
pub data EndsOnce : List GoTok → Type 0 where
  last : {t : GoTok} → is_eof t.kind ≡ true → EndsOnce (t ∷ [])
  more : {t : GoTok} {ts : List GoTok} → is_eof t.kind ≡ false → EndsOnce ts → EndsOnce (t ∷ ts)

NoEnd-EndsOnce : (us ts : List GoTok) → NoEnd us → EndsOnce ts → EndsOnce (us ++ ts)
NoEnd-EndsOnce [] ts h k = k
NoEnd-EndsOnce (u ∷ us) ts h k = more h.0 (NoEnd-EndsOnce us ts h.1 k)

finish_toks-EndsOnce : (prev : Option GoTok) (line : ℕ) → EndsOnce (finish_toks prev line)
unfolding finish_toks
finish_toks-EndsOnce prev line =
    if-split EndsOnce (asi prev) (λ _. more refl (last refl)) (λ _. last refl)

-- The tokens that the lexer leaves, and its only reports.
pub data IsOpenText : Result (List GoTok) → Type 0 where
  lexed : {ts : List GoTok} → EndsOnce ts → IsOpenText (ok ts)
  open_at : (line : ℕ) {msg : Bytes} → OpenString msg → IsOpenText (err (syntax line msg))

-- Tokens in front, none of which is the end.
map_ok-IsOpenText :
    (us : List GoTok) {res : Result (List GoTok)}
    → NoEnd us
    → IsOpenText res
    → IsOpenText (map_ok (λ ts. us ++ ts) res)
map_ok-IsOpenText us h (lexed {ts} k) = lexed (NoEnd-EndsOnce us ts h k)
map_ok-IsOpenText us h (open_at line what) = open_at line what

go_lex_from-total :
    (fuel : ℕ) (prev : Option GoTok) (line : ℕ) (r : Bytes)
    → length r < fuel
    → (res : Result (List GoTok)) × (go_lex_from fuel prev line r ≡ some res) × IsOpenText res
unfolding go_lex_from
go_lex_from-total zero prev line r small = absurd (omega arith)
go_lex_from-total (suc fuel) prev line [] small = (_, refl, lexed (finish_toks-EndsOnce prev line))
go_lex_from-total (suc fuel) prev line (c ∷ r) small =
    from (go_round prev line c r) (go_round-Reads prev line c r)
      (λ last next u less. go_lex_from-total fuel last next u (omega (arith, less, small)))
  where
    from :
        (round : Result Round)
        → Reads r round
        → ((last : Option GoTok) (next : ℕ) (u : Bytes)
            → length u ≤ length r
            → (res : Result (List GoTok)) × (go_lex_from fuel last next u ≡ some res)
              × IsOpenText res)
        → (res : Result (List GoTok)) × (elim round [
          | err e ↦ some (err e)
          | ok w ↦
              Option.map
                (map_ok (λ ts. w.toks ++ ts))
                (go_lex_from fuel (last_tok prev w.toks) w.line w.left)
        ]
            ≡ some res)
          × IsOpenText res
    from (ok w) (to h none_ends) rest =
        let (res, made, good) = rest (last_tok prev w.toks) w.line w.left (IsSuffix-le h) in
        (map_ok (λ ts. w.toks ++ ts) res, rw made refl, map_ok-IsOpenText w.toks none_ends good)
    from (err e) (open_string at what) rest = (err e, refl, open_at at what)

-- On every body the lexer ends, with tokens of which the last one and no other is the end, or with
-- the report of a string or a raw string that is not closed.
pub go_lex_total :
    (body : Bytes) → (res : Result (List GoTok)) × (go_lex body ≡ some res) × IsOpenText res
unfolding go_lex
go_lex_total body = go_lex_from-total (suc (length body)) none 1 body (omega arith)
