-- ===== src/Go/Progress/Brackets.antt =====
-- What `go_match` finds inside brackets and behind them, and what stands on both sides of a comma, is
-- shorter than the range.
use plx.Prelude.{
  ℕ, zero, suc, ◌+◌, ◌-◌, ◌≤◌, ◌<◌, length, take, drop, ◌==◌, List, [], ◌∷◌, Option, none, some,
  arith, if-case,
}
use plx.Go.Emit.{in_parens}
use plx.Go.Scan.{Split, Inside, before, match_from, go_match, comma_split, tops, first_of}
use plx.Go.Token.{GoTok, all_brackets, parens, opens, closes, is_lp, is_comma}
use plx.Prelude.Int.{pos}

-- What is inside brackets and what is behind them is shorter.
unfoldable pub IsInside : ℕ → Option Inside → Type 0
IsInside n none = Unit
IsInside n (some p) = length p.0 + length p.2 < n

pub IsInside-mono : (n m : ℕ) (o : Option Inside) → n ≤ m → IsInside n o → IsInside m o
unfolding IsInside
IsInside-mono n m none h k = tt
IsInside-mono n m (some p) h k = omega (arith, h, k)

before-IsInside :
    (n : ℕ) (t : GoTok) (o : Option Inside) → IsInside n o → IsInside (suc n) (before t o)
unfolding IsInside
before-IsInside n t none h = tt
before-IsInside n t (some p) h = omega arith

match_from-IsInside : (depth : ℕ) (ts : List GoTok) → IsInside (length ts) (match_from depth ts)
unfolding IsInside match_from
match_from-IsInside depth [] = tt
match_from-IsInside depth (t ∷ ts) =
    let P = IsInside (suc (length ts)) in
    if-case P (opens all_brackets t.kind)
      (before-IsInside _ t _ (match_from-IsInside (suc depth) ts))
      (if-case P (closes all_brackets t.kind)
        (if-case P (depth == 0) (omega arith)
          (before-IsInside _ t _ (match_from-IsInside (depth - 1) ts)))
        (before-IsInside _ t _ (match_from-IsInside depth ts)))

-- Behind an opening bracket.
pub go_match-IsInside :
    (n : ℕ) (t : GoTok) (ts : List GoTok) → length ts ≤ n → IsInside n (go_match (t ∷ ts))
unfolding IsInside go_match
go_match-IsInside n t ts h =
    if-case (IsInside n) (opens all_brackets t.kind)
      (IsInside-mono (length ts) n (match_from 0 ts) h (match_from-IsInside 0 ts)) tt

pub in_parens-IsInside : (ts : List GoTok) → IsInside (length ts) (in_parens ts)
unfolding IsInside
in_parens-IsInside [] = tt
in_parens-IsInside (t ∷ ts) =
    if-case (IsInside (suc (length ts))) (is_lp t.kind)
      (go_match-IsInside (suc (length ts)) t ts (omega arith)) tt

take-le : (k : ℕ) (ts : List GoTok) → length (take k ts) ≤ length ts
take-le zero ts = omega arith
take-le (suc k) [] = omega arith
take-le (suc k) (t ∷ ts) = omega (arith, take-le k ts)

pub drop-le : (k : ℕ) (ts : List GoTok) → length (drop k ts) ≤ length ts
drop-le zero ts = omega arith
drop-le (suc k) [] = omega arith
drop-le (suc k) (t ∷ ts) = omega (arith, drop-le k ts)

-- Both parts are no longer than the range.
pub data AreShort (n : ℕ) : Option Split → Type 0 where
  whole : AreShort n none
  parts : {a b : List GoTok} → length a ≤ n → length b ≤ n → AreShort n (some (a, b))

pub comma_split-AreShort : (ts : List GoTok) → AreShort (length ts) (comma_split ts)
unfolding comma_split
comma_split-AreShort ts = from (first_of (tops parens (λ t. is_comma t.kind) (pos 0) 0 ts))
  where
    from :
        (o : Option ℕ)
        → AreShort (length ts) (elim o [ none ↦ none | some k ↦ some (take k ts, drop (suc k) ts) ])
    from none = whole
    from (some k) = parts (take-le k ts) (drop-le (suc k) ts)
