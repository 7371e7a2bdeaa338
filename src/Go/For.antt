-- ===== src/Go/For.antt =====
-- `go_for`: counting loops, loops on a condition, and which loop a header makes.
use plx.Context.{indent}
use plx.Prelude.Int.{pos}
use plx.Prelude.Outcome.{Outcome, done, ◌>>=◌}
use plx.Prelude.{
  ℕ, zero, suc, Bytes, codes, take, drop, Bool, if◌then◌else◌, List, [], ◌∷◌, ◌++◌, Option, none,
  some,
}
use plx.Go.Counting.{Counting, counting}
use plx.Go.If.{Stmt, go_block}
use plx.Go.Scan.{Split, tops, last_of, sub, go_header_end}
use plx.Go.Simple.{go_simple}
use plx.Go.State.{GoState, at, write, go_err, go_eat_semi, emit_behind, emit_line}
use plx.Go.Token.{GoTok, all_brackets, is_semi, go_ci}
use plx.Go.Range.{loop_body, range_for}

-- The last of some offsets, the first of which is given.
abbrev pub last_or : ℕ → List ℕ → ℕ
last_or k [] = k
last_or k (l ∷ ks) = last_or l ks

module _ (ci : Bytes → Bytes → Bool) (stmt : Stmt) where
  abbrev pub with_bound : Counting → GoState → Outcome GoState
  with_bound c st =
      if c.inclusive
      then emit_behind ci [] c.bound st
      else emit_behind ci (codes " (") c.bound st
        >>= (λ made. done (write (if c.down then codes ") + 1" else codes ") - 1") made))

  abbrev pub with_step : Option (List GoTok) → List GoTok → GoState → Outcome GoState
  with_step none ts st = done st
  with_step (some []) ts st = go_err ts (codes "for loop step (+=/-=) is missing its amount")
  with_step (some (t ∷ step)) ts st = emit_behind ci (codes " BY") (t ∷ step) st

  unfoldable pub counting_for :
      ℕ → ℕ → Counting → List GoTok → List GoTok → GoState → Outcome GoState
  unfolding emit_behind emit_line loop_body
  counting_for depth ind c rest ts st =
      emit_line ci ind
        (codes "FOR " ++ (c.name ++ (codes " IN" ++ (if c.down then codes " REVERSE" else []))))
        c.start (codes " ..") st
      >>= with_bound c
      >>= with_step c.step ts
      >>= (λ made. loop_body ci stmt depth ind rest (write (codes " LOOP\n") made))

  -- The statement in front of a loop: `k` tokens of the header.
  abbrev pub init_stmt : ℕ → ℕ → List GoTok → List GoTok → GoState → Outcome GoState
  init_stmt ind zero header ts st = done st
  init_stmt ind (suc k) header ts st = go_simple ci ind (take (suc k) header, drop (suc k) ts) ts st

  -- The statement at the end of the body, if there is one; the position stays.
  abbrev pub post_stmt : ℕ → List GoTok → List GoTok → GoState → Outcome GoState
  post_stmt ind [] rest st = done st
  post_stmt ind (t ∷ post) rest st =
      go_simple ci (suc ind) (t ∷ post, rest) ((t ∷ post) ++ rest) st
      >>= (λ made. done (at st.toks made))

  abbrev pub while_head : ℕ → List GoTok → GoState → Outcome GoState
  while_head ind [] st = done (write (indent ind ++ codes "WHILE true LOOP\n") st)
  while_head ind (t ∷ cond) st = emit_line ci ind (codes "WHILE") (t ∷ cond) (codes " LOOP\n") st

  -- With the first semicolon and the parts behind it: the condition and the last statement.
  unfoldable pub general_for : ℕ → ℕ → ℕ → Split → Split → List GoTok → GoState → Outcome GoState
  unfolding go_simple emit_line go_block go_eat_semi indent
  general_for depth ind k (cond, post) (header, rest) ts st =
      init_stmt ind k header ts (at ts st)
      >>= while_head ind cond
      >>= (λ made. go_block ci stmt depth (suc ind) (at rest made))
      >>= post_stmt ind post rest
      >>= (λ made. go_eat_semi (write (indent ind ++ codes "END LOOP;\n") made))

  unfoldable pub while_for : ℕ → ℕ → Split → GoState → Outcome GoState
  unfolding emit_line loop_body indent
  while_for depth ind ([], rest) st =
      loop_body ci stmt depth ind rest (write (indent ind ++ codes "LOOP\n") st)
  while_for depth ind (t ∷ header, rest) st =
      emit_line ci ind (codes "WHILE") (t ∷ header) (codes " LOOP\n") st
      >>= loop_body ci stmt depth ind rest

  abbrev pub count_or :
      ℕ → ℕ → ℕ → Option Counting → Split → Split → List GoTok → GoState → Outcome GoState
  count_or depth ind k (some c) parts (header, rest) ts st = counting_for depth ind c rest ts st
  count_or depth ind k none parts p ts st = general_for depth ind k parts p ts st

  -- With the first and the last semicolon.
  abbrev three_parts : ℕ → ℕ → ℕ → ℕ → Split → List GoTok → GoState → Outcome GoState
  three_parts depth ind k m (header, rest) ts st =
      let cond = sub (suc k) m header in
      let post = drop (suc m) header in
      count_or depth ind k (counting (take k header) cond post) (cond, post) (header, rest) ts st

  -- By the semicolons of the header outside brackets.
  unfoldable pub plain_for : ℕ → ℕ → List ℕ → Split → List GoTok → GoState → Outcome GoState
  unfolding counting counting_for general_for while_for
  plain_for depth ind [] (header, rest) ts st = while_for depth ind (header, rest) st
  plain_for depth ind (k ∷ []) (header, rest) ts st =
      general_for depth ind k ([], []) (header, rest) ts st
  plain_for depth ind (k ∷ l ∷ ks) (header, rest) ts st =
      three_parts depth ind k (last_or l ks) (header, rest) ts st

  -- Where `range` stands in the header, and the tokens `ts` from the header on.
  unfoldable pub for_at : ℕ → ℕ → Option ℕ → Split → List GoTok → GoState → Outcome GoState
  unfolding tops range_for plain_for
  for_at depth ind (some r) (header, rest) ts st =
      range_for ci stmt depth ind (take r header) (drop (suc r) header) rest ts (at ts st)
  for_at depth ind none (header, rest) ts st =
      plain_for depth ind (tops all_brackets (λ t. is_semi t.kind) (pos 0) 0 header) (header, rest)
        ts (at ts st)

  abbrev range_at : List GoTok → Option ℕ
  range_at header = last_of (tops all_brackets (λ t. go_ci t (codes "range")) (pos 0) 0 header)

  unfoldable pub go_for : ℕ → ℕ → List GoTok → GoState → Outcome GoState
  unfolding go_header_end for_at tops
  go_for depth ind ts st = let p = go_header_end ts in for_at depth ind (range_at p.0) p ts st
