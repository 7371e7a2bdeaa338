-- ===== src/Go/Progress/For.antt =====
-- Loops of Go keep what the statements in them keep.
use plx.Context.{indent}
use plx.Prelude.Outcome.{◌>>=◌}
use plx.Prelude.{
  ℕ, zero, suc, ◌≤◌, Bytes, codes, length, take, drop, Bool, if◌then◌else◌, List, [], ◌∷◌, ◌++◌,
  Option, none, some, arith, if-split,
}
use plx.Go.Counting.{Counting, counting, is_set}
use plx.Go.Range.{range_for, query_at, range_names, clause_words}
use plx.Go.For.{
  with_bound, with_step, counting_for, init_stmt, post_stmt, while_head, general_for, while_for,
  count_or, plain_for, for_at, go_for, last_or,
}
use plx.Go.If.{Stmt, go_block}
use plx.Go.Progress.Brackets.{drop-le}
use plx.Go.Progress.If.{AllTake, then_on, go_block-Ends}
use plx.Go.Progress.Range.{loop_body-Ends, with_body, range_by-Ends}
use plx.Go.Progress.Scan.{go_header_end-le}
use plx.Go.Progress.Simple.{go_simple-Ends}
use plx.Go.Progress.State.{Within, go_err-Ends, go_eat_semi-Ends, emit_behind-Ends, emit_line-Ends}
use plx.Prelude.Int.{pos}
use plx.Go.Scan.{Split, sub, tops, last_of, spots, go_header_end}
use plx.Go.Simple.{go_simple}
use plx.Go.State.{GoState, at, write, emit_behind, emit_line}
use plx.Go.Token.{GoTok, all_brackets, is_semi}
use plx.Prelude.Ends.{Ends, returns}

module _ (ci : Bytes → Bytes → Bool) (stmt : Stmt) (n : ℕ) (takes : AllTake stmt n) where
  with_bound-Ends :
      (c : Counting) (st : GoState) → Within n st → Ends (Within n) (with_bound ci stmt c st)
  with_bound-Ends c st h =
      if-split (Ends (Within n)) c.inclusive (λ _. emit_behind-Ends ci n [] c.bound st h)
        (λ _.
          then_on n (emit_behind ci (codes " (") c.bound st) _
            (emit_behind-Ends ci n (codes " (") c.bound st h) (λ mid k. returns k))

  with_step-Ends :
      (step : Option (List GoTok)) (ts : List GoTok) (st : GoState)
      → Within n st
      → Ends (Within n) (with_step ci stmt step ts st)
  with_step-Ends none ts st h = returns h
  with_step-Ends (some []) ts st h = go_err-Ends _ ts _
  with_step-Ends (some (t ∷ step)) ts st h = emit_behind-Ends ci n (codes " BY") (t ∷ step) st h

  counting_for-Ends :
      (depth ind : ℕ) (c : Counting) (rest ts : List GoTok) (st : GoState)
      → length rest ≤ n
      → Within n st
      → Ends (Within n) (counting_for ci stmt depth ind c rest ts st)
  unfolding counting_for
  counting_for-Ends depth ind c rest ts st h k =
      let front =
        codes "FOR " ++ (c.name ++ (codes " IN" ++ (if c.down then codes " REVERSE" else []))) in
      let head = emit_line ci ind front c.start (codes " ..") st in
      then_on n (head >>= with_bound ci stmt c >>= with_step ci stmt c.step ts) _
        (then_on n (head >>= with_bound ci stmt c) (with_step ci stmt c.step ts)
          (then_on n head (with_bound ci stmt c)
            (emit_line-Ends ci n ind front c.start (codes " ..") st k)
            (λ mid l. with_bound-Ends c mid l))
          (λ mid l. with_step-Ends c.step ts mid l))
        (λ mid _. loop_body-Ends ci stmt n takes depth ind rest (write (codes " LOOP\n") mid) h)

  init_stmt-Ends :
      (ind k : ℕ) (header ts : List GoTok) (st : GoState)
      → length ts ≤ n
      → Within n st
      → Ends (Within n) (init_stmt ci stmt ind k header ts st)
  init_stmt-Ends ind zero header ts st few h = returns h
  init_stmt-Ends ind (suc k) header ts st few h =
      go_simple-Ends ci n ind (take (suc k) header, drop (suc k) ts) ts st
        (omega (arith, drop-le (suc k) ts, few))

  post_stmt-Ends :
      (ind : ℕ) (post rest : List GoTok) (st : GoState)
      → length rest ≤ n
      → Within n st
      → Ends (Within n) (post_stmt ci stmt ind post rest st)
  post_stmt-Ends ind [] rest st few h = returns h
  post_stmt-Ends ind (t ∷ post) rest st few h =
      then_on n (go_simple ci (suc ind) (t ∷ post, rest) ((t ∷ post) ++ rest) st) _
        (go_simple-Ends ci n (suc ind) (t ∷ post, rest) _ st few) (λ made _. returns h)

  while_head-Ends :
      (ind : ℕ) (cond : List GoTok) (st : GoState)
      → Within n st
      → Ends (Within n) (while_head ci stmt ind cond st)
  while_head-Ends ind [] st h = returns h
  while_head-Ends ind (t ∷ cond) st h =
      emit_line-Ends ci n ind (codes "WHILE") (t ∷ cond) (codes " LOOP\n") st h

  general_for-Ends :
      (depth ind k : ℕ) (parts p : Split) (ts : List GoTok) (st : GoState)
      → length p.1 ≤ n
      → length ts ≤ n
      → Ends (Within n) (general_for ci stmt depth ind k parts p ts st)
  unfolding general_for
  general_for-Ends depth ind k (cond, post) (header, rest) ts st h few =
      let init = init_stmt ci stmt ind k header ts (at ts st) in
      let opened = init >>= while_head ci stmt ind cond in
      let block = λ (made : GoState). go_block ci stmt depth (suc ind) (at rest made) in
      let last = post_stmt ci stmt ind post rest in
      then_on n (opened >>= block >>= last) _
        (then_on n (opened >>= block) last
          (then_on n opened block
            (then_on n init (while_head ci stmt ind cond)
              (init_stmt-Ends ind k header ts (at ts st) few few)
              (λ mid l. while_head-Ends ind cond mid l))
            (λ mid _. go_block-Ends ci stmt n takes depth (suc ind) (at rest mid) h))
          (λ mid l. post_stmt-Ends ind post rest mid h l))
        (λ mid l. go_eat_semi-Ends n (write (indent ind ++ codes "END LOOP;\n") mid) l)

  while_for-Ends :
      (depth ind : ℕ) (p : Split) (st : GoState)
      → length p.1 ≤ n
      → Within n st
      → Ends (Within n) (while_for ci stmt depth ind p st)
  unfolding while_for
  while_for-Ends depth ind ([], rest) st h k =
      loop_body-Ends ci stmt n takes depth ind rest (write (indent ind ++ codes "LOOP\n") st) h
  while_for-Ends depth ind (t ∷ header, rest) st h k =
      with_body ci stmt n takes depth ind rest _
        (emit_line-Ends ci n ind (codes "WHILE") (t ∷ header) (codes " LOOP\n") st k) h

  count_or-Ends :
      (depth ind k : ℕ) (o : Option Counting) (parts p : Split) (ts : List GoTok) (st : GoState)
      → length p.1 ≤ n
      → length ts ≤ n
      → Within n st
      → Ends (Within n) (count_or ci stmt depth ind k o parts p ts st)
  count_or-Ends depth ind k (some c) parts (header, rest) ts st h few l =
      counting_for-Ends depth ind c rest ts st h l
  count_or-Ends depth ind k none parts p ts st h few l =
      general_for-Ends depth ind k parts p ts st h few

  plain_for-Ends :
      (depth ind : ℕ) (ks : List ℕ) (p : Split) (ts : List GoTok) (st : GoState)
      → length p.1 ≤ n
      → length ts ≤ n
      → Within n st
      → Ends (Within n) (plain_for ci stmt depth ind ks p ts st)
  unfolding plain_for
  plain_for-Ends depth ind [] (header, rest) ts st h few l =
      while_for-Ends depth ind (header, rest) st h l
  plain_for-Ends depth ind (k ∷ []) (header, rest) ts st h few l =
      general_for-Ends depth ind k ([], []) (header, rest) ts st h few
  plain_for-Ends depth ind (k ∷ m ∷ ks) (header, rest) ts st h few l =
      let cond = sub (suc k) (last_or m ks) header in
      let post = drop (suc (last_or m ks)) header in
      count_or-Ends depth ind k (counting (take k header) cond post) (cond, post) (header, rest) ts
        st h few l

  for_at-Ends :
      (depth ind : ℕ) (o : Option ℕ) (p : Split) (ts : List GoTok) (st : GoState)
      → length p.1 ≤ n
      → length ts ≤ n
      → Ends (Within n) (for_at ci stmt depth ind o p ts st)
  unfolding for_at range_for
  for_at-Ends depth ind (some r) (header, rest) ts st h few =
      range_by-Ends ci stmt n takes depth ind (query_at (drop (suc r) header))
        (range_names
          (take 4 (clause_words (last_of (spots is_set 0 (take r header))) (take r header))))
        (drop (suc r) header) rest ts (at ts st) h few
  for_at-Ends depth ind none (header, rest) ts st h few =
      plain_for-Ends depth ind (tops all_brackets (λ t. is_semi t.kind) (pos 0) 0 header)
        (header, rest) ts (at ts st) h few few

  pub go_for-Ends :
      (depth ind : ℕ) (ts : List GoTok) (st : GoState)
      → length ts ≤ n
      → Ends (Within n) (go_for ci stmt depth ind ts st)
  unfolding go_for
  go_for-Ends depth ind ts st h =
      for_at-Ends depth ind _ (go_header_end ts) ts st (omega (arith, h, go_header_end-le ts)) h
