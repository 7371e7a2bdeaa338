-- ===== src/Tsql/Progress/Brackets.antt =====
-- What `tq_match_lp` finds inside brackets, and the arguments there, are no longer than the range.
use plx.Prelude.Int.{ℤ, is_zero}
use plx.Prelude.{
  ℕ, suc, ◌+◌, ◌-◌, ◌≤◌, ◌<◌, length, ◌&&◌, ◌==◌, ltb, List, [], ◌∷◌, Option, none, some, arith,
  if-case,
}
use plx.Tsql.Emit.{before, inside_lp, tq_match_lp, first_with, split_args, depth_behind}
use plx.Tsql.Token.{TqTok, is_lp, is_rp, is_comma}

-- What is inside brackets and what is behind them is shorter.
unfoldable pub IsInside : ℕ → Option (List TqTok × List TqTok) → Type 0
IsInside n none = Unit
IsInside n (some p) = length p.0 + length p.1 < n

before-IsInside :
    (n : ℕ) (t : TqTok) (o : Option (List TqTok × List TqTok))
    → IsInside n o
    → IsInside (suc n) (before t o)
unfolding IsInside
before-IsInside n t none h = tt
before-IsInside n t (some p) h = omega arith

inside_lp-IsInside : (depth : ℕ) (ts : List TqTok) → IsInside (length ts) (inside_lp depth ts)
unfolding IsInside inside_lp
inside_lp-IsInside depth [] = tt
inside_lp-IsInside depth (t ∷ ts) =
    let P = IsInside (suc (length ts)) in
    if-case P (is_lp t.kind) (before-IsInside _ t _ (inside_lp-IsInside (suc depth) ts)) (
      if-case P (is_rp t.kind)
        (if-case P (depth == 0) (omega arith)
          (before-IsInside _ t _ (inside_lp-IsInside (depth - 1) ts)))
        (before-IsInside _ t _ (inside_lp-IsInside depth ts)))

IsInside-suc : (n : ℕ) (o : Option (List TqTok × List TqTok)) → IsInside n o → IsInside (suc n) o
unfolding IsInside
IsInside-suc n none h = tt
IsInside-suc n (some p) h = omega arith

pub IsInside-le :
    (ts : List TqTok) (p : List TqTok × List TqTok)
    → IsInside (length ts) (some p)
    → (length p.0 ≤ length ts) × (length p.1 ≤ length ts)
unfolding IsInside
IsInside-le ts p h = (omega (arith, h), omega (arith, h))

pub tq_match_lp-IsInside : (ts : List TqTok) → IsInside (length ts) (tq_match_lp ts)
unfolding IsInside tq_match_lp
tq_match_lp-IsInside [] = tt
tq_match_lp-IsInside (t ∷ ts) =
    if-case (IsInside (suc (length ts))) (is_lp t.kind)
      (IsInside-suc (length ts) _ (inside_lp-IsInside 0 ts)) tt

-- No argument is longer than the range.
unfoldable pub AreShort : ℕ → List (List TqTok) → Type 0
AreShort n [] = Unit
AreShort n (arg ∷ args) = (length arg ≤ n) × AreShort n args

pub AreShort-mono : (n m : ℕ) (args : List (List TqTok)) → n ≤ m → AreShort n args → AreShort m args
unfolding AreShort
AreShort-mono n m [] h k = tt
AreShort-mono n m (arg ∷ args) h k = (omega (arith, k.0), AreShort-mono n m args h k.1)

first_with-AreShort :
    (n : ℕ) (t : TqTok) (args : List (List TqTok))
    → AreShort n args
    → AreShort (suc n) (first_with t args)
unfolding AreShort
first_with-AreShort n t [] h = tt
first_with-AreShort n t (arg ∷ args) h =
    (omega (arith, h.0), AreShort-mono n (suc n) args (omega arith) h.1)

pub split_args-AreShort :
    (n : ℕ) (depth : ℤ) (ts : List TqTok) → AreShort (length ts) (split_args n depth ts)
unfolding AreShort split_args
split_args-AreShort n depth [] = (omega arith, tt)
split_args-AreShort n depth (t ∷ ts) =
    if-case (AreShort (suc (length ts))) (is_comma t.kind && is_zero depth && ltb 0 n)
      {x = [] ∷ split_args (n - 1) depth ts}
      (
        omega arith,
        AreShort-mono (length ts) (suc (length ts)) _ (omega arith)
            (split_args-AreShort (n - 1) depth ts),
      )
      (first_with-AreShort (length ts) t _ (split_args-AreShort n (depth_behind t depth) ts))
