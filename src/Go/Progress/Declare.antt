-- ===== src/Go/Progress/Declare.antt =====
-- Declarations of Go are not cut short and take back no token.
use plx.Prelude.Outcome.{◌>>=◌}
use plx.Prelude.{
  ℕ, suc, ◌≤◌, Bytes, codes, length, Bool, true, false, ◌&&◌, ◌==◌, List, [], ◌∷◌, ◌++◌, Option,
  none, some, arith, if-case, if-split,
}
use plx.Go.Declare.{
  or_no_type, declared_type, initialise, go_declare_one, var_value, var_type, one_var, at_rp,
  over_rp, var_group, go_var,
}
use plx.Go.Progress.Emit.{go_emit_range-Returns}
use plx.Go.Progress.Scan.{
  Stops, ReadsType, go_read_type-Ends, go_infer_type-Stops, go_stmt_end-size,
}
use plx.Go.Progress.State.{Within, go_err-Ends, go_eat_semi-Ends, loop_until-Ends, emit_line-Ends}
use plx.Go.State.{GoState, at, add_local, new_local, go_eat_semi}
use plx.Go.Token.{GoTok, is_word, is_lp, is_rp, is_op, op_is}
use plx.Lexer.Scan.{starts}
use plx.Prelude.Ends.{Ends, returns, raises, faults, >>=-Ends, Ends-mono, Returns-Ends}

declared_type-Stops :
    (name typ : Bytes) (range from : List GoTok) → Stops (declared_type name typ range from)
unfolding declared_type
declared_type-Stops name (c ∷ typ) range from = returns tt
declared_type-Stops name [] [] from = returns tt
declared_type-Stops name [] (t ∷ range) from =
    >>=-Ends _ _ (or_no_type from name) (go_infer_type-Stops _ from) (λ o _. known o)
  where
    known : (o : Option Bytes) → Stops (or_no_type from name o)
    known none = go_err-Ends _ from _
    known (some typ) = returns tt

module _ (ci : Bytes → Bytes → Bool) where
  initialise-Ends :
      (n ind : ℕ) (isconst : Bool) (name : Bytes) (typ : Option Bytes) (range from : List GoTok)
      (st : GoState)
      → Within n st
      → Ends (Within n) (initialise ci ind isconst name typ range from st)
  unfolding initialise
  initialise-Ends n ind true name typ [] from st h = go_err-Ends _ from _
  initialise-Ends n ind true name typ (t ∷ range) from st h =
      >>=-Ends (Within n) _ _ (Returns-Ends (go_emit_range-Returns ci _ (t ∷ range) []))
        (λ text _. returns h)
  initialise-Ends n ind false name typ [] from st h = returns h
  initialise-Ends n ind false name typ (t ∷ range) from st h =
      emit_line-Ends ci n ind (name ++ codes " :=") (t ∷ range) (codes ";\n")
        (add_local (new_local name typ) st) h

  pub go_declare_one-Ends :
      (n ind : ℕ) (isconst : Bool) (name typ : Bytes) (range from : List GoTok) (st : GoState)
      → Within n st
      → Ends (Within n) (go_declare_one ci ind isconst name typ range from st)
  unfolding go_declare_one
  go_declare_one-Ends n ind isconst name typ range from st h =
      >>=-Ends (Within n) _ _ (declared_type-Stops name typ range from)
        (λ known _. initialise-Ends n ind isconst name known range from st h)

  var_value-Ends :
      (n ind : ℕ) (isconst : Bool) (name typ : Bytes) (ts : List GoTok) (st : GoState)
      → length ts ≤ n
      → Ends (Within n) (var_value ci ind isconst name typ ts st)
  unfolding var_value
  var_value-Ends n ind isconst name typ [] st h = faults
  var_value-Ends n ind isconst name typ (t ∷ ts) st h =
      if-case (Ends (Within n)) (op_is t (codes "="))
        (go_declare_one-Ends n ind isconst name typ _ ts _ (omega (arith, h, go_stmt_end-size ts)))
        (go_declare_one-Ends n ind isconst name typ [] st.all _ h)

  var_type-Ends :
      (n : ℕ) (untyped : GoTok → Bool) (ts : List GoTok)
      → length ts ≤ n
      → Ends (ReadsType n) (var_type ci untyped ts)
  var_type-Ends n untyped [] h = faults
  var_type-Ends n untyped (t ∷ ts) h =
      if-case (Ends (ReadsType n)) (untyped t) (returns h) (go_read_type-Ends n (t ∷ ts) h)

  -- A name is taken.
  one_var-Ends :
      (n : ℕ) (untyped : GoTok → Bool) (missing : Bytes) (ind : ℕ) (isconst : Bool)
      (ts : List GoTok) (st : GoState)
      → length ts ≤ suc n
      → Ends (Within n) (one_var ci untyped missing ind isconst ts st)
  unfolding one_var
  one_var-Ends n untyped missing ind isconst [] st h = faults
  one_var-Ends n untyped missing ind isconst (nm ∷ ts) st h =
      if-split (Ends (Within n)) (is_word nm.kind)
        (λ _.
          >>=-Ends (Within n) (var_type ci untyped ts >>= _) go_eat_semi
            (>>=-Ends (Within n) (var_type ci untyped ts) _
              (var_type-Ends n untyped ts (omega (arith, h)))
              (λ read k. var_value-Ends n ind isconst nm.s read.0 read.1 st k))
            (λ mid k. go_eat_semi-Ends n mid k))
        (λ _. raises)

  at_rp-Stops : (ts : List GoTok) → Stops (at_rp ci ts)
  at_rp-Stops [] = faults
  at_rp-Stops (t ∷ ts) = returns tt

  over_rp-Ends :
      (n : ℕ) (ts : List GoTok) (st : GoState)
      → length ts ≤ n
      → Within n st
      → Ends (Within n) (over_rp ci ts st)
  over_rp-Ends n [] st h k = faults
  over_rp-Ends n (t ∷ ts) st h k =
      if-case (Ends (Within n)) (is_rp t.kind) (returns (omega (arith, h))) (returns k)

  -- A declaration in a group takes a token.
  grouped :
      (n ind : ℕ) (untyped : GoTok → Bool) (missing : Bytes) (isconst : Bool) (ts : List GoTok)
      (st : GoState)
      → length ts ≤ n
      → Ends
          (λ made. suc (length made.toks) ≤ length ts)
          (one_var ci untyped missing ind isconst ts st)
  unfolding one_var
  grouped n ind untyped missing isconst [] st h = faults
  grouped n ind untyped missing isconst (t ∷ ts) st h =
      Ends-mono _ (one_var-Ends (length ts) untyped missing ind isconst (t ∷ ts) st (omega arith))
        (λ made k. omega (arith, k))

  var_group-Ends :
      (n ind : ℕ) (isconst : Bool) (st : GoState)
      → Within n st
      → Ends (Within n) (var_group ci ind isconst st)
  unfolding var_group
  var_group-Ends n ind isconst st h =
      >>=-Ends (Within n) _ go_eat_semi
        (>>=-Ends (Within n) _ (λ made. over_rp ci made.toks made)
          (>>=-Ends (Within n) (go_eat_semi st) _ (go_eat_semi-Ends n st h) (λ mid k.
            loop_until-Ends n (at_rp ci) _ mid at_rp-Stops
              (λ s l.
                grouped n ind (λ t. is_op t.kind && starts (λ c. c == b'=') t.s)
                  (codes "expected a name in var block") isconst s.toks s l)
              k))
          (λ mid k. over_rp-Ends n mid.toks mid k k))
        (λ mid k. go_eat_semi-Ends n mid k)

  pub go_var-Ends :
      (ind : ℕ) (isconst : Bool) (ts : List GoTok) (st : GoState)
      → Ends (Within (length ts)) (go_var ci ind isconst ts st)
  unfolding go_var
  go_var-Ends ind isconst [] st = faults
  go_var-Ends ind isconst (t ∷ ts) st =
      if-case (Ends (Within _)) (is_lp t.kind)
        (var_group-Ends (suc (length ts)) ind isconst (at ts st) (omega arith))
        (one_var-Ends (suc (length ts)) (λ t. op_is t (codes "="))
          (codes "expected a name after var") ind isconst (t ∷ ts) st (omega arith))
